-- ===== src/Cors/Tests.antt =====
-- Runs of the CORS code, and the theorems at concrete inputs.
use corsget.Prelude.{ok, ◌>>=◌, ◌≡◌, refl, true, false, none, some, [], ◌∷◌, any, filter, flat_map}
use corsget.Text.{
  text, text_eq, member, assoc, trim, trim_matches, trim_start_matches, is_whitespace, split,
  starts_with, to_ascii_lowercase, eq_ignore_ascii_case,
}
use corsget.Text.Equality.{ne_of_text_eq}
use corsget.External.Http.{values_of}
use corsget.Messages.{Request, Response}
use corsget.Samples.Http.{list_http, is_visible, without}
use corsget.Cors.{
  is_hop_by_hop, is_cors_response_header, comma_list, connection_headers, get_str, allow_origin,
  allow_headers, cors_headers, nominates, add_vary_field, insert_all, cors_layer,
}
use corsget.Cors.Layer.{one_or, cors_pairs, get_all-cors_layer}
use corsget.Samples.Urls.{small_urls}
use corsget.Samples.Regexes.{text_regexes}
use corsget.Matcher.{MatchPolicy}
use corsget.Extractors.{origin_from_headers}
use corsget.Proxy.Handler.{permitted_target}
use corsget.Cors.Preflight.{
  preflight_handler, preflight_response, preflight_handler-permitted_target,
}

cors : Unit {0}
unfolding is_hop_by_hop is_cors_response_header comma_list connection_headers get_str allow_origin
    allow_headers cors_headers nominates add_vary_field insert_all cors_layer values_of is_visible
    without text text_eq member assoc trim trim_matches trim_start_matches is_whitespace split
    starts_with to_ascii_lowercase eq_ignore_ascii_case any filter flat_map
cors = tt

names :
    (is_hop_by_hop (text "X-Forwarded-Anything") ≡ true)
    × (is_hop_by_hop (text "TE") ≡ true)
    × (is_hop_by_hop (text "authorization") ≡ false)
    × (is_cors_response_header (text "Access-Control-Max-Age") ≡ true)
unfolding cors
names = (refl, refl, refl, refl)

nominations :
    connection_headers list_http ((text "connection", text "close, x-private,,") ∷ [])
    ≡ text "close" ∷ text "x-private" ∷ []
unfolding cors
nominations = refl

abbrev asked : Request list_http
asked = record {
  uri = record { scheme_str = none; path_and_query = some (text "/https://t.com/x"); whole = [] };
  headers = (text "origin", text "https://a.com") ∷ [];
  cors_extension = none;
}

-- A handler that sets a competing origin and varies on the encoding.
abbrev answer : Request list_http → Response list_http
answer _ = record {
  status = 200;
  headers =
      (text "access-control-allow-origin", text "https://b.com")
      ∷ (text "vary", text "Accept-Encoding")
      ∷ (text "etag", text "x")
      ∷ [];
  body = [];
}

layer_runs :
    (values_of (text "access-control-allow-origin") (cors_layer list_http answer asked).headers
      ≡ text "https://a.com" ∷ [])
    × (values_of (text "vary") (cors_layer list_http answer asked).headers
        ≡ text "Accept-Encoding" ∷ text "origin" ∷ [])
unfolding cors
layer_runs = (refl, refl)

get_all-cors_layer_example :
    values_of (text "etag") (cors_layer list_http answer asked).headers
    ≡ one_or
        (assoc (text "etag") (cors_pairs list_http asked.headers))
        (values_of (text "etag") (answer asked).headers)
unfolding cors
get_all-cors_layer_example =
    get_all-cors_layer list_http answer asked (text "etag") (ne_of_text_eq _ _ refl)

abbrev open_policy : MatchPolicy text_regexes
open_policy = record {
  target = record { blacklist = []; whitelist = [] };
  origin = record { blacklist = []; whitelist = [] };
}

preflight_handler-permitted_target_example :
    preflight_handler list_http small_urls text_regexes to_ascii_lowercase open_policy asked.uri
      asked.headers
    ≡ (permitted_target small_urls text_regexes open_policy asked.uri
          (origin_from_headers list_http small_urls to_ascii_lowercase asked.headers)
        >>= λ _. ok (preflight_response list_http asked.headers))
preflight_handler-permitted_target_example =
    preflight_handler-permitted_target list_http small_urls text_regexes to_ascii_lowercase
      open_policy asked.uri asked.headers
