-- ===== src/Proxy/Tests.antt =====
-- Runs of the proxy, as in the tests of src/proxy.rs, and the theorems at concrete inputs.
use corsget.Prelude.{
  ℕ, ◌+◌, ◌≤◌, ◌≡◌, refl, ◌⊎◌, inr, ◌↔◌, true, none, some, List, [], ◌∷◌, Result, ok, err, All,
  OnOk, length, any, filter, flat_map, if◌then◌else◌, ◌==◌,
}
use corsget.Text.{
  Text, text, text_eq, member, trim, trim_matches, trim_start_matches, is_whitespace, split,
  split_once, starts_with, strip_prefix, has_text, to_ascii_lowercase, eq_ignore_ascii_case,
  to_decimal,
}
use corsget.Text.Equality.{ne_of_text_eq}
use corsget.External.Http.{values_of}
use corsget.Messages.{Uri}
use corsget.Error.{bad_url, denied, SendError, from_send_error}
use corsget.Samples.Http.{list_http, is_visible, without}
use corsget.Samples.Urls.{small_urls, SmallUrl}
use corsget.Samples.Regexes.{text_regexes}
use corsget.Matcher.{exact, MatchPolicy, is_match, is_allowed, has_whitelist}
use corsget.Matcher.Decision.{is_allowed_iff}
use corsget.Extractors.{Origin}
use corsget.Cors.{is_hop_by_hop, is_cors_response_header, comma_list, connection_headers, get_str}
use corsget.Cache.{add_validator, add_validators}
use corsget.Proxy.{
  is_followable_redirect, with_scheme, raw_target, parse_target_url, host_header, append_unless,
  nominated, not_forwarded, not_copied, copy_response_headers, set_host, forward_headers,
  validate_origin, validate_host, validate_target_policy, unsupported_scheme,
}
use corsget.Proxy.Policy.{Permitted, validate_target_policy_iff}
use corsget.Proxy.Forwarding.{
  IsPrivate, IsWithheld, forward_headers-get_all, copy_response_headers-get_all,
}
use corsget.Proxy.Fetch.{
  UpstreamResponse, Fetching, revalidating, upstream_headers, pass_or_redirect, settle, resolve,
  next_url, follow, fetch,
}
use corsget.Proxy.Endings.{GoodEnd}
use corsget.Proxy.Redirects.{Carries, fetch-length, fetch-GoodEnd, fetch-Carries}

proxy : Unit {0}
unfolding is_followable_redirect with_scheme raw_target parse_target_url host_header append_unless
    nominated not_forwarded not_copied copy_response_headers set_host forward_headers
    validate_origin validate_host validate_target_policy revalidating upstream_headers
    pass_or_redirect settle resolve next_url follow fetch add_validator add_validators is_hop_by_hop
    is_cors_response_header comma_list connection_headers get_str is_match is_allowed has_whitelist
    from_send_error values_of is_visible without text text_eq member trim trim_matches
    trim_start_matches is_whitespace split split_once starts_with strip_prefix has_text
    to_ascii_lowercase eq_ignore_ascii_case to_decimal any filter flat_map
proxy = tt

abbrev path_of : Text → Uri
path_of pq = record { scheme_str = none; path_and_query = some pq; whole = pq }

abbrev target : SmallUrl
target = record { scheme = text "https"; host = text "a.com"; path = text "/x" }

targets :
    (parse_target_url small_urls (path_of (text "/a.com/x")) ≡ ok target)
    × (parse_target_url small_urls (path_of (text "/https://a.com/x")) ≡ ok target)
    × (parse_target_url small_urls (path_of (text "///a.com/x")) ≡ ok target)
    × (parse_target_url small_urls (path_of (text "/"))
        ≡ err (bad_url (text "no target url provided")))
    × (parse_target_url small_urls (record (path_of []) { scheme_str = some (text "ftp") })
        ≡ err (unsupported_scheme (text "ftp")))
unfolding proxy
targets = (refl, refl, refl, refl, refl)

abbrev client : List (Text × Text)
client =
    (text "authorization", text "Bearer x")
    ∷ (text "connection", text "x-private")
    ∷ (text "x-private", text "secret")
    ∷ (text "host", text "proxy.local")
    ∷ []

forwarded :
    forward_headers list_http small_urls client target
    ≡ (text "authorization", text "Bearer x") ∷ (text "host", text "a.com") ∷ []
unfolding proxy
forwarded = refl

-- Everything but `evil.com` is a target, and any origin will do.
abbrev policy : MatchPolicy text_regexes
policy = record {
  target = record { blacklist = exact (text "evil.com") ∷ []; whitelist = [] };
  origin = record { blacklist = []; whitelist = [] };
}

abbrev nobody : Origin
nobody = record { host = none }

-- One redirect to `location`, then an answer.
abbrev sends :
    Text → ℕ → SmallUrl → List (Text × Text) → Result SendError (UpstreamResponse list_http)
sends location left url h =
    if left == 1
    then ok (record {
      status = 302;
      headers = (text "location", location) ∷ [];
      content_length = none;
      body = [];
    })
    else ok (record { status = 200; headers = []; content_length = none; body = [] })

abbrev fetching : Text → Fetching list_http small_urls text_regexes
fetching location = record {
  policy = policy;
  origin = nobody;
  source = client;
  cached = none;
  max_redirects = 1;
  send = sends location;
}

-- A redirect to a denied target is refused, and `Authorization` goes along to another host.
fetches :
    ((fetch list_http small_urls text_regexes (fetching (text "https://evil.com")) target).1
      ≡ err (denied (text "target `evil.com` is not allowed")))
    × ((fetch list_http small_urls text_regexes (fetching (text "https://b.com/y")) target).0
        ≡ (target, forward_headers list_http small_urls client target)
          ∷ (
            record { scheme = text "https"; host = text "b.com"; path = text "/y" },
            (text "authorization", text "Bearer x") ∷ (text "host", text "b.com") ∷ [],
          )
          ∷ [])
unfolding proxy
fetches = (refl, refl)

permitted : Permitted small_urls text_regexes policy target nobody
unfolding proxy
permitted = record {
  proxyable = inr refl;
  host = text "a.com";
  has_host = refl;
  target_allowed = (is_allowed_iff text_regexes policy.target (text "a.com")).0 refl;
  origin_accepted = refl;
}

validate_target_policy_iff_example :
    (validate_target_policy small_urls text_regexes policy target nobody ≡ ok tt)
    ↔ Permitted small_urls text_regexes policy target nobody
validate_target_policy_iff_example =
    validate_target_policy_iff small_urls text_regexes policy target nobody

forward_headers-get_all_example :
    (IsPrivate list_http client (text "x-private")
      × (values_of (text "x-private") (forward_headers list_http small_urls client target) ≡ []))
    ⊎ ((¬ IsPrivate list_http client (text "x-private"))
        × (values_of (text "x-private") (forward_headers list_http small_urls client target)
            ≡ values_of (text "x-private") client))
unfolding text text_eq
forward_headers-get_all_example =
    forward_headers-get_all list_http small_urls client target (text "x-private")
      (ne_of_text_eq _ _ refl)

copy_response_headers-get_all_example :
    (IsWithheld list_http client true (text "etag")
      × (values_of (text "etag") (copy_response_headers list_http client true) ≡ []))
    ⊎ ((¬ IsWithheld list_http client true (text "etag"))
        × (values_of (text "etag") (copy_response_headers list_http client true)
            ≡ values_of (text "etag") client))
copy_response_headers-get_all_example =
    copy_response_headers-get_all list_http client true (text "etag")

abbrev redirecting : Fetching list_http small_urls text_regexes
redirecting = fetching (text "https://b.com/y")

fetch-length_example :
    (1 ≤ length (fetch list_http small_urls text_regexes redirecting target).0)
    × (length (fetch list_http small_urls text_regexes redirecting target).0 ≤ 1 + 1)
fetch-length_example = fetch-length list_http small_urls text_regexes redirecting target

fetch-GoodEnd_example :
    OnOk
      (GoodEnd list_http small_urls none
        (fetch list_http small_urls text_regexes redirecting target).0)
      (fetch list_http small_urls text_regexes redirecting target).1
fetch-GoodEnd_example = fetch-GoodEnd list_http small_urls text_regexes redirecting target

fetch-Carries_example :
    All
      (λ request.
        Carries list_http small_urls text_regexes redirecting (text "authorization") request.1)
      (fetch list_http small_urls text_regexes redirecting target).0
unfolding text text_eq
fetch-Carries_example =
    fetch-Carries list_http small_urls text_regexes redirecting target (text "authorization")
      (ne_of_text_eq _ _ refl) (ne_of_text_eq _ _ refl) (ne_of_text_eq _ _ refl)
