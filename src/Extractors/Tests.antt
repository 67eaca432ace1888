-- ===== src/Extractors/Tests.antt =====
-- Runs of the extractors, and the theorems at concrete inputs.
use corsget.Prelude.{◌≡◌, refl, ◌↔◌, true, false, Option, none, some, [], ◌∷◌, arith}
use corsget.Text.{
  Text, text, text_eq, split, split_once, strip_prefix, trim, trim_matches, trim_start_matches,
  is_whitespace, to_ascii_lowercase,
}
use corsget.External.Http.{values_of}
use corsget.Samples.Http.{list_http, is_visible}
use corsget.Samples.Urls.{small_urls}
use corsget.Cors.{get_str}
use corsget.Extractors.{
  RateLimitKey, origin_key, ip_key, bucket, host_of, host_in, origin_from_headers, first_item,
  ip_in_header, client_ip_from_parts, key_from_request_parts,
}
use corsget.Extractors.Buckets.{label, bucket_iff}

extractors : Unit {0}
unfolding origin_key ip_key bucket host_of host_in origin_from_headers first_item ip_in_header
    client_ip_from_parts key_from_request_parts get_str values_of is_visible text text_eq split
    split_once strip_prefix trim trim_matches trim_start_matches is_whitespace to_ascii_lowercase
extractors = tt

-- An address parser that knows one address.
abbrev one_ip : Text → Option Text
one_ip t = elim (text_eq t (text "1.2.3.4")) [ true ↦ some t | false ↦ none ]

abbrev direct : RateLimitKey
direct = record { origin = record { host = none }; client_ip = text "1.2.3.4" }

abbrev from_unknown : RateLimitKey
from_unknown = record direct { origin = record { host = some (text "unknown") } }

keys :
    (key_from_request_parts list_http small_urls to_ascii_lowercase one_ip (text "X-Real-IP") none (
        (text "x-real-ip", text "1.2.3.4, 5.6.7.8") ∷ (text "referer", text "https://A.com/x") ∷ [])
      ≡ record { origin = record { host = some (text "a.com") }; client_ip = text "1.2.3.4" })
    × (client_ip_from_parts list_http one_ip
          (text "X-Real-IP")
          none
          ((text "x-real-ip", text "not-an-ip") ∷ [])
        ≡ text "unknown")
    × (bucket direct ≡ text "origin:unknown|ip:1.2.3.4")
unfolding extractors
keys = (refl, refl, refl)

-- A request without an origin shares its bucket with requests from the host `unknown`.
bucket_iff_example : (bucket direct ≡ bucket from_unknown) ↔ (
    (direct.client_ip ≡ from_unknown.client_ip) × (label direct.origin ≡ label from_unknown.origin))
unfolding text
bucket_iff_example = bucket_iff direct from_unknown (omega arith) (omega arith)
