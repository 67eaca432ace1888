-- ===== src/Proxy.antt =====
-- src/proxy.rs: the target URL, the headers in both directions, the policy check, and redirects.
pub mod Forwarding
pub mod Policy
pub mod Fetch
pub mod Endings
pub mod Redirects
pub mod Tee
pub mod Storing
pub mod Filing
pub mod Chunks
pub mod Keeping
pub mod Stored
pub mod Streamed
pub mod Handler
pub mod Serving
pub mod Request
pub mod Safety
mod Tests
mod Runs
mod StreamRuns
use corsget.Prelude.{
  ℕ, zero, suc, Bool, true, false, ◌&&◌, ◌||◌, not, Option, none, some, List, [], ◌∷◌, ◌++◌, map,
  Result, ok, err, ◌>>=◌, ◌>>◌, map_err, ok_or, any, is_empty, if◌then◌else◌, ◌==◌,
}
use corsget.Text.{Text, text, text_eq, starts_with, strip_prefix, to_ascii_lowercase, to_decimal}
use corsget.External.Http.{Http}
use corsget.External.Urls.{Urls}
use corsget.External.Regexes.{Regexes}
use corsget.Messages.{Uri}
use corsget.Error.{AppError, bad_url, denied, upstream, SendError, from_send_error}
use corsget.Matcher.{MatchPolicy, is_allowed, has_whitelist}
use corsget.Extractors.{Origin}
use corsget.Cors.{is_hop_by_hop, is_cors_response_header, connection_headers, get_str}

-- `is_followable_redirect`.
unfoldable pub is_followable_redirect : ℕ → Bool
is_followable_redirect status =
    status == 301 || status == 302 || status == 303 || status == 307 || status == 308

abbrev pub unsupported_scheme : Text → AppError
unsupported_scheme scheme =
    bad_url (text "unsupported scheme `" ++ scheme ++ text "`; only http/https are allowed")

abbrev pub is_http_scheme : Text → Bool
is_http_scheme s = text_eq s (text "http") || text_eq s (text "https")

-- The scheme that `parse_target_url` puts before a target without one.
unfoldable pub with_scheme : Text → Text
with_scheme raw =
    if starts_with (text "http://") raw || starts_with (text "https://") raw
    then raw
    else elim (strip_prefix (text "//") raw) [
      | some rest ↦ text "https://" ++ rest
      | none ↦ text "https://" ++ raw
    ]

-- The path and query without one leading slash.
unfoldable pub raw_target : Uri → Text
raw_target uri =
    let path_and_query : Text = elim uri.path_and_query [ none ↦ [] | some pq ↦ pq ] in
    elim (strip_prefix (text "/") path_and_query) [ some rest ↦ rest | none ↦ path_and_query ]

module _ (U : Urls) where
  open U use {Url, parse, scheme, host_str, port}

  unfoldable pub parse_target_url : Uri → Result AppError Url
  parse_target_url uri = elim uri.scheme_str [
    | some s ↦
        if is_http_scheme s then map_err bad_url (parse uri.whole) else err (unsupported_scheme s)
    | none ↦
        if is_empty (raw_target uri)
        then err (bad_url (text "no target url provided"))
        else map_err bad_url (parse (with_scheme (raw_target uri)))
  ]

  -- The value of the `Host` header; `none` where `forward_headers` returns without it.
  unfoldable pub host_header : Url → Option Text
  host_header u = elim (port u) [
    | some p ↦ elim (host_str u) [ some h ↦ some (h ++ text ":" ++ to_decimal p) | none ↦ none ]
    | none ↦ elim (host_str u) [ some h ↦ some h | none ↦ some [] ]
  ]

module _ (H : Http) where
  open H use {Value, Headers, empty, entries, append, insert, from_str}

  -- `for (name, value) in source.iter() { if skip { continue; } out.append(name, value); }`.
  unfoldable pub append_unless : (Text → Bool) → List (Text × Value) → Headers → Headers
  append_unless skip [] out = out
  append_unless skip ((name, v) ∷ es) out =
      append_unless skip es (if skip name then out else append name v out)

  -- The names that the `Connection` header nominates, in lower case.
  unfoldable pub nominated : Headers → Text → Bool
  nominated source name =
      any (λ header. text_eq header name) (map to_ascii_lowercase (connection_headers H source))

  -- The headers of a request that `forward_headers` leaves out.
  unfoldable pub not_forwarded : Headers → Text → Bool
  not_forwarded source name =
      is_hop_by_hop name || nominated source name || text_eq name (text "host")

  -- The headers of a response that `copy_response_headers` leaves out.
  unfoldable pub not_copied : Headers → Bool → Text → Bool
  not_copied source body_may_be_truncated name =
      is_hop_by_hop name
      || is_cors_response_header name
      || nominated source name
      || body_may_be_truncated && text_eq name (text "content-length")

  unfoldable pub copy_response_headers : Headers → Bool → Headers
  copy_response_headers source body_may_be_truncated =
      append_unless (not_copied source body_may_be_truncated) (entries source) empty

  unfoldable pub set_host : Option Text → Headers → Headers
  set_host none out = out
  set_host (some host) out = elim (from_str host) [
    | ok v ↦ insert (text "host") v out
    | err _ ↦ out
  ]

  unfoldable pub forward_headers : (U : Urls) → Headers → U.Url → Headers
  forward_headers U source target_url =
      set_host (host_header U target_url)
        (append_unless (not_forwarded source) (entries source) empty)

module _ (U : Urls) (R : Regexes) where
  open U use {Url, scheme, host_str}

  -- The check of the requesting origin in `validate_target_policy`.
  unfoldable pub validate_origin : MatchPolicy R → Origin → Result AppError (Unit {0})
  validate_origin policy origin = elim origin.host [
    | some origin_host ↦
        if is_allowed R policy.origin origin_host
        then ok tt
        else err (denied (text "origin `" ++ origin_host ++ text "` is not allowed"))
    | none ↦
        if has_whitelist R policy.origin
        then err (denied (text "a valid Origin or Referer header is required"))
        else ok tt
  ]

  -- The check of the host, and behind it that of the origin.
  unfoldable pub validate_host : MatchPolicy R → Origin → Text → Result AppError (Unit {0})
  validate_host policy origin target_host =
      if is_allowed R policy.target target_host
      then validate_origin policy origin
      else err (denied (text "target `" ++ target_host ++ text "` is not allowed"))

  unfoldable pub validate_target_policy : MatchPolicy R → Url → Origin → Result AppError (Unit {0})
  validate_target_policy policy target_url origin =
      if is_http_scheme (scheme target_url)
      then ok_or (bad_url (text "target url has no host")) (host_str target_url)
        >>= validate_host policy origin
      else err (unsupported_scheme (scheme target_url))
