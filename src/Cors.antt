-- ===== src/Cors.antt =====
-- src/cors.rs: the classification of header names, the CORS headers, and the middleware.
pub mod Names
pub mod Vary
pub mod Layer
pub mod Preflight
mod Tests
use corsget.Prelude.{
  ℕ, Bool, true, false, ◌&&◌, ◌||◌, not, Option, none, some, List, [], ◌∷◌, Result, ok, err, map,
  any, filter, flat_map, is_empty, if◌then◌else◌, to_option,
}
use corsget.Text.{
  Text, text, member, to_ascii_lowercase, eq_ignore_ascii_case, starts_with, split, trim,
}
use corsget.External.Http.{Http}
use corsget.Messages.{Request, Response}

-- `HOP_BY_HOP_HEADERS`.
abbrev pub hop_by_hop_headers : List Text
hop_by_hop_headers =
    text "connection"
    ∷ text "keep-alive"
    ∷ text "proxy-authenticate"
    ∷ text "proxy-authorization"
    ∷ text "te"
    ∷ text "trailers"
    ∷ text "transfer-encoding"
    ∷ text "upgrade"
    ∷ text "x-forwarded-for"
    ∷ text "x-forwarded-host"
    ∷ text "x-forwarded-proto"
    ∷ text "x-forwarded-port"
    ∷ text "x-real-ip"
    ∷ text "forwarded"
    ∷ []

unfoldable pub is_hop_by_hop : Text → Bool
is_hop_by_hop name =
    let lower = to_ascii_lowercase name in
    starts_with (text "x-forwarded-") lower || member lower hop_by_hop_headers

unfoldable pub is_cors_response_header : Text → Bool
is_cors_response_header name =
    eq_ignore_ascii_case name (text "access-control-allow-origin")
    || eq_ignore_ascii_case name (text "access-control-allow-credentials")
    || eq_ignore_ascii_case name (text "access-control-allow-headers")
    || eq_ignore_ascii_case name (text "access-control-allow-methods")
    || eq_ignore_ascii_case name (text "access-control-max-age")

-- `value.split(',').map(str::trim)`.
unfoldable pub comma_list : Text → List Text
comma_list s = map trim (split b',' s)

module _ (H : Http) where
  open H use {
    Value, Headers, to_str, as_bytes, from_str, from_static, empty, entries, get, get_all,
    contains_key, insert, append,
  }

  -- The text of a value, as a list of no or one element.
  abbrev pub readable : Value → List Text
  readable v = elim (to_str v) [ none ↦ [] | some s ↦ s ∷ [] ]

  unfoldable pub connection_headers : Headers → List Text
  connection_headers h =
      filter (λ name. not (is_empty name))
        (flat_map comma_list (flat_map readable (get_all (text "connection") h)))

  -- `headers.get(name).and_then(|v| v.to_str().ok())`.
  unfoldable pub get_str : Text → Headers → Option Text
  get_str name h = elim (get name h) [ none ↦ none | some v ↦ to_str v ]

  unfoldable pub allow_origin : Headers → Value
  allow_origin h = elim (get_str (text "origin") h) [
    | none ↦ from_static (text "*")
    | some o ↦ elim (from_str o) [ ok v ↦ v | err _ ↦ from_static (text "*") ]
  ]

  unfoldable pub allow_headers : Headers → Value
  allow_headers h = elim (get (text "access-control-request-headers") h) [
    | none ↦ from_static (text "Authorization")
    | some v ↦ if is_empty (as_bytes v) then from_static (text "Authorization") else v
  ]

  unfoldable pub cors_headers : Headers → Headers
  cors_headers h = insert (text "access-control-max-age") (from_static (text "86400")) (
      insert (text "access-control-allow-methods") (from_static (text "GET, OPTIONS")) (
        insert (text "access-control-allow-headers") (allow_headers h) (
          insert (text "access-control-allow-credentials") (from_static (text "true"))
            (insert (text "access-control-allow-origin") (allow_origin h) empty))))

  -- Some part of the value is the field, up to case. A value that is no text has no parts.
  unfoldable pub nominates : Text → Value → Bool
  nominates field v = elim (to_str v) [
    | none ↦ false
    | some s ↦ any (λ part. eq_ignore_ascii_case (trim part) field) (split b',' s)
  ]

  unfoldable pub add_vary_field : Text → Headers → Headers
  add_vary_field field h =
      if any (nominates field) (get_all (text "vary") h)
      then h
      else elim (from_str field) [ ok v ↦ append (text "vary") v h | err _ ↦ h ]

  -- `for (name, value) in &cors { headers.insert(name, value) }`.
  unfoldable pub insert_all : List (Text × Value) → Headers → Headers
  insert_all [] h = h
  insert_all ((name, v) ∷ es) h = insert_all es (insert name v h)

  unfoldable pub cors_layer : (Request H → Response H) → Request H → Response H
  cors_layer next req =
      let cors = cors_headers req.headers in
      let response = next (record req { cors_extension = some cors }) in
      let inserted = insert_all (entries cors) response.headers in
      record response {
        headers =
            if contains_key (text "origin") req.headers
            then add_vary_field (text "origin") inserted
            else inserted;
      }
