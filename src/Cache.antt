-- ===== src/Cache.antt =====
-- src/cache.rs: the entries of the response cache, and what decides about storing and reusing one.
pub mod Rules
pub mod Plan
pub mod Writing
pub mod Lifetime
pub mod Keys
pub mod Selection
pub mod Admission
pub mod RoundTrip
pub mod Store
pub mod Setup
pub mod Eviction
pub mod Files
pub mod Names
pub mod Streaming
pub mod Commits
pub mod Removal
pub mod Answers
pub mod Shown
pub mod Installing
pub mod Committing
pub mod Cleanup
pub mod Cleans
pub mod Restart
pub mod Vanishing
pub mod Freshness
pub mod Starting
pub mod Intact
pub mod Reachable
pub mod Recency
mod Tests
mod DiskRuns
use corsget.Prelude.{
  ℕ, ◌-◌, ◌*◌, ◌/◌, Bool, false, ◌&&◌, ◌||◌, not, Option, none, some, List, [], ◌∷◌, ◌++◌, map, ok,
  err, ltb, ◌==◌, if◌then◌else◌, any, filter, filter_map, flat_map, find_map, is_empty, min,
  saturating_sub,
}
use corsget.Text.{
  Text, text, text_eq, member, to_ascii_lowercase, eq_ignore_ascii_case, split_once, trim,
  trim_matches, parse_u64,
}
use corsget.External.Http.{Http}
use corsget.Limit.{nanos_per_sec}
use corsget.Cors.{comma_list, readable, get_str, is_hop_by_hop, is_cors_response_header}

abbrev pub cache_version : ℕ
cache_version = 1

abbrev pub cache_diagnostic_header : Text
cache_diagnostic_header = text "x-cache"

abbrev pub supported_vary_headers : List Text
supported_vary_headers =
    text "accept"
    ∷ text "accept-language"
    ∷ text "accept-encoding"
    ∷ text "origin"
    ∷ text "authorization"
    ∷ []

pub record CachePlan : Type 0 where
  pub key : Text
  pub ttl : ℕ

pub record CacheEntry : Type 0 where
  pub version : ℕ
  pub status : ℕ
  pub headers : List (Text × Text)
  pub body_len : ℕ
  pub created_at : ℕ
  pub last_access : ℕ
  pub ttl : ℕ
  pub revalidate : Bool
  pub etag : Option Text
  pub last_modified : Option Text
  pub vary : List Text
  pub request_variants : List (Text × Text)
  pub key : Text
  pub body_path : Text

-- `Cache::is_fresh`.
unfoldable pub is_fresh : CacheEntry → ℕ → Bool
is_fresh entry now = not entry.revalidate && ltb (saturating_sub now entry.created_at) entry.ttl

-- The fields of one `Vary` value; the first unsupported one ends the search.
unfoldable pub add_vary_names : List Text → List Text → Option (List Text)
add_vary_names vary [] = some vary
add_vary_names vary (name ∷ names) =
    if text_eq name (text "*") || not (member name supported_vary_headers)
    then none
    else add_vary_names (if member name vary then vary else vary ++ name ∷ []) names

unfoldable pub vary_names : Text → List Text
vary_names value = filter (λ name. not (is_empty name)) (map to_ascii_lowercase (comma_list value))

-- The seconds of a `max-age` directive.
unfoldable pub max_age_of : Text → Option ℕ
max_age_of directive = elim (split_once b'=' directive) [
  | none ↦ none
  | some (name, value) ↦
      if eq_ignore_ascii_case (trim name) (text "max-age")
      then parse_u64 (trim_matches (λ c. c == b'"') (trim value))
      else none
]

-- The name of a directive, without its argument.
unfoldable pub directive_name : Text → Text
directive_name directive = elim (split_once b'=' directive) [
  | none ↦ directive
  | some (name, _) ↦ trim name
]

-- The headers that an entry does not keep.
unfoldable pub is_not_stored : Text → Bool
is_not_stored name =
    text_eq name cache_diagnostic_header
    || is_hop_by_hop name
    || is_cors_response_header name
    || text_eq name (text "connection")

module _ (H : Http) where
  open H use {
    Value, Headers, to_str, from_str, from_static, parse_name, empty, entries, get_all,
    contains_key, insert, append,
  }

  -- Inserts a stored validator, if there is one and it is a header value.
  unfoldable pub add_validator : Text → Option Text → Headers → Headers
  add_validator name none h = h
  add_validator name (some value) h = elim (from_str value) [ ok v ↦ insert name v h | err _ ↦ h ]

  -- `Cache::add_validators`.
  unfoldable pub add_validators : CacheEntry → Headers → Headers
  add_validators entry h =
      add_validator (text "if-modified-since") entry.last_modified
        (add_validator (text "if-none-match") entry.etag h)

  -- `cacheable_headers`.
  unfoldable pub cacheable_headers : Headers → Bool
  cacheable_headers h = elim (get_str H (text "cache-control") h) [
    | none ↦ not (contains_key (text "set-cookie") h)
    | some value ↦
        let directives = map to_ascii_lowercase (comma_list value) in
        not (member (text "no-store") directives)
        && not (member (text "private") directives)
        && not (contains_key (text "set-cookie") h)
  ]

  unfoldable pub parse_vary_from : List Text → List Value → Option (List Text)
  parse_vary_from vary [] = some vary
  parse_vary_from vary (v ∷ vs) = elim (to_str v) [
    | none ↦ none
    | some value ↦ elim (add_vary_names vary (vary_names value)) [
      | none ↦ none
      | some vary' ↦ parse_vary_from vary' vs
    ]
  ]

  -- `parse_vary`.
  unfoldable pub parse_vary : Headers → Option (List Text)
  parse_vary h = parse_vary_from [] (get_all (text "vary") h)

  -- `expires_ttl`. `parse_http_date` gives seconds since the epoch; the clock reads nanoseconds.
  unfoldable pub expires_ttl : (Text → Option ℕ) → ℕ → ℕ → Headers → ℕ
  expires_ttl parse_http_date now configured h = elim (get_str H (text "expires") h) [
    | none ↦ configured
    | some value ↦ elim (parse_http_date value) [
      | none ↦ configured
      | some expires ↦ min configured ((expires * nanos_per_sec - now) / nanos_per_sec)
    ]
  ]

  -- `effective_ttl`.
  unfoldable pub effective_ttl : (Text → Option ℕ) → ℕ → ℕ → Headers → ℕ
  effective_ttl parse_http_date now configured h = elim (get_str H (text "cache-control") h) [
    | none ↦ expires_ttl parse_http_date now configured h
    | some value ↦ elim (find_map max_age_of (comma_list value)) [
      | none ↦ expires_ttl parse_http_date now configured h
      | some upstream ↦ expires_ttl parse_http_date now (min configured upstream) h
    ]
  ]

  -- `cache_control_requires_revalidation`.
  unfoldable pub cache_control_requires_revalidation : Headers → Bool
  cache_control_requires_revalidation h = elim (get_str H (text "cache-control") h) [
    | none ↦ false
    | some value ↦
        any (λ directive. eq_ignore_ascii_case directive (text "no-cache")) (comma_list value)
  ]

  -- `cache_headers`.
  unfoldable pub cache_headers : Headers → List (Text × Text)
  cache_headers h =
      filter_map
        (λ (name, value).
          if is_not_stored name
          then none
          else elim (to_str value) [ none ↦ none | some s ↦ some (name, s) ])
        (entries h)

  -- The loop of `headers_from_entry`.
  unfoldable pub append_stored : List (Text × Text) → Headers → Headers
  append_stored [] h = h
  append_stored ((n, s) ∷ stored) h = elim (parse_name n) [
    | err _ ↦ append_stored stored h
    | ok name ↦ elim (from_str s) [
      | err _ ↦ append_stored stored h
      | ok v ↦ append_stored stored (if is_cors_response_header name then h else append name v h)
    ]
  ]

  -- `headers_from_entry`.
  unfoldable pub headers_from_entry : CacheEntry → Headers
  headers_from_entry entry = append_stored entry.headers empty

  -- `add_cache_header`.
  unfoldable pub add_cache_header : Text → Headers → Headers
  add_cache_header value h = insert cache_diagnostic_header (from_static value) h

  -- `request_requires_revalidation`.
  unfoldable pub request_requires_revalidation : Headers → Bool
  request_requires_revalidation h =
      any (λ directive. eq_ignore_ascii_case (directive_name directive) (text "no-cache"))
        (filter (λ directive. not (is_empty directive))
          (flat_map comma_list (flat_map (readable H) (get_all (text "cache-control") h))))
