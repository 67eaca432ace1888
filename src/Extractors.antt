-- ===== src/Extractors.antt =====
-- src/extractors.rs: the requesting origin, the client's address, and the key of the limits.
pub mod Buckets
pub mod Sources
mod Tests
use corsget.Prelude.{
  ℕ, Bool, true, false, Option, none, some, List, [], ◌∷◌, ◌++◌, Result, ok, err, to_option,
  if◌then◌else◌,
}
use corsget.Text.{Text, text, trim, split}
use corsget.External.Http.{Http}
use corsget.External.Urls.{Urls}
use corsget.Cors.{get_str}

-- `Origin`.
pub record Origin : Type 0 where
  pub host : Option Text

pub record RateLimitKey : Type 0 where
  pub origin : Origin
  pub client_ip : Text

-- `Origin::storage_key`.
unfoldable pub origin_key : Origin → Text
origin_key o = elim o.host [ some h ↦ text "origin:" ++ h | none ↦ text "origin:unknown" ]

-- `ClientIp::storage_key`.
unfoldable pub ip_key : Text → Text
ip_key ip = text "ip:" ++ ip

-- `RateLimitKey::bucket`.
unfoldable pub bucket : RateLimitKey → Text
bucket k = origin_key k.origin ++ text "|" ++ ip_key k.client_ip

module _ (H : Http) (U : Urls) (to_lowercase : Text → Text) where
  open H use {Headers}
  open U use {parse, host_str}

  -- `Origin::host_of`.
  unfoldable pub host_of : Text → Option Text
  host_of value = elim (parse value) [
    | err _ ↦ none
    | ok u ↦ elim (host_str u) [ none ↦ none | some h ↦ some (to_lowercase h) ]
  ]

  -- The host that one header names.
  unfoldable pub host_in : Text → Headers → Option Text
  host_in name h = elim (get_str H name h) [ none ↦ none | some s ↦ host_of s ]

  -- `Origin::from_headers`.
  unfoldable pub origin_from_headers : Headers → Origin
  origin_from_headers h = elim (host_in (text "origin") h) [
    | some host ↦ record { host = some host }
    | none ↦ record { host = host_in (text "referer") h }
  ]

-- `value.split(',').next().unwrap_or("").trim()`.
unfoldable pub first_item : Text → Text
first_item value = elim (split b',' value) [ [] ↦ trim [] | item ∷ _ ↦ trim item ]

module _ (H : Http) (parse_ip : Text → Option Text) where
  open H use {Headers, parse_name}

  -- The address in the configured header. `parse_ip` is `s.parse::<IpAddr>()` printed again.
  unfoldable pub ip_in_header : Text → Headers → Option Text
  ip_in_header real_ip_header h = elim (parse_name real_ip_header) [
    | err _ ↦ none
    | ok name ↦ elim (get_str H name h) [ none ↦ none | some value ↦ parse_ip (first_item value) ]
  ]

  -- `ClientIp::from_parts`; `peer` is the address of the TCP connection, if it is known.
  unfoldable pub client_ip_from_parts : Text → Option Text → Headers → Text
  client_ip_from_parts real_ip_header peer h = elim (ip_in_header real_ip_header h) [
    | some ip ↦ ip
    | none ↦ elim peer [ some addr ↦ addr | none ↦ text "unknown" ]
  ]

-- `RateLimitKey::from_request_parts`.
unfoldable pub key_from_request_parts :
    (H : Http)
    → Urls
    → (Text → Text)
    → (Text → Option Text)
    → Text
    → Option Text
    → H.Headers
    → RateLimitKey
key_from_request_parts H U to_lowercase parse_ip real_ip_header peer h = record {
  origin = origin_from_headers H U to_lowercase h;
  client_ip = client_ip_from_parts H parse_ip real_ip_header peer h;
}
