-- ===== src/Cache/Tests.antt =====
-- Runs of the cache's decisions, as in the tests of src/cache.rs, and the theorems at concrete inputs.
use corsget.Prelude.{
  map, ◌++◌, ℕ, ◌+◌, ◌*◌, ◌≡◌, ◌<◌, ◌≤◌, refl, ◌↔◌, true, false, none, some, Option, List, [], ◌∷◌,
  arith, All, min, OnSome, if◌then◌else◌, last,
}
use corsget.Text.{Text, text, split, trim}
use corsget.External.Http.{values_of}
use corsget.Samples.Http.{list_http, is_visible, without}
use corsget.Samples.Urls.{small_urls, SmallUrl}
use corsget.Samples.Regexes.{text_regexes}
use corsget.Limit.{nanos_per_sec}
use corsget.Cache.{
  CachePlan, CacheEntry, supported_vary_headers, is_fresh, effective_ttl, parse_vary,
  headers_from_entry, cache_headers, is_not_stored, request_requires_revalidation,
  cacheable_headers,
}
use corsget.Cache.Rules.{CompiledRule, compile_cache_rule, exact, pattern_matches, compile_rules}
use corsget.Cache.Plan.{CacheInner, plan, cache_key, first_bytes, normalized_url}
use corsget.Cache.Writing.{admit, new_entry}
use corsget.Cache.Eviction.{Scanned, evict, sort_by_access}
use corsget.Cache.Recency.{ByAccess, Fits, evict-Fits}
use corsget.Cache.Keys.{Agrees, cache_key_iff}
use corsget.Cache.Selection.{IsShareable, Planned, plan_iff}
use corsget.Cache.Admission.{IsPublic, Follows, admit-IsStorable}
use corsget.Cache.RoundTrip.{texts, headers_from_entry-cache_headers}

caching : Unit {0}
unfolding is_fresh effective_ttl parse_vary headers_from_entry cache_headers is_not_stored
    request_requires_revalidation cacheable_headers corsget.Cache.add_vary_names
    corsget.Cache.vary_names corsget.Cache.max_age_of corsget.Cache.directive_name
    corsget.Cache.parse_vary_from corsget.Cache.expires_ttl corsget.Cache.append_stored
    corsget.Cache.cache_control_requires_revalidation corsget.Cache.Rules.strip_scheme
    corsget.Cache.Rules.host_and_suffix corsget.Cache.Rules.compile_plain compile_cache_rule
    pattern_matches compile_rules corsget.Cache.Plan.port_part corsget.Cache.Plan.query_part
    normalized_url first_bytes corsget.Cache.Plan.variant_material corsget.Cache.Plan.key_material
    cache_key corsget.Cache.Plan.is_sensitive corsget.Cache.Plan.last_ttl
    corsget.Cache.Plan.plan_for plan corsget.Disk.Paths.dir_prefix corsget.Cache.Writing.body_path
    corsget.Cache.Writing.is_success corsget.Cache.Writing.request_variants new_entry admit
    corsget.Cors.is_hop_by_hop corsget.Cors.is_cors_response_header corsget.Cors.comma_list
    corsget.Cors.get_str corsget.Matcher.slash_form values_of is_visible without text
    corsget.Text.text_eq corsget.Text.member trim corsget.Text.trim_matches split
    corsget.Text.split_once corsget.Text.starts_with corsget.Text.strip_prefix corsget.Text.has_char
    corsget.Text.to_ascii_lowercase corsget.Text.eq_ignore_ascii_case corsget.Text.parse_u64
    corsget.Prelude.any corsget.Prelude.filter corsget.Prelude.filter_map corsget.Prelude.find_map
    corsget.Prelude.flat_map
caching = tt

abbrev no_date : Text → Option ℕ
no_date t = none

abbrev in_a_minute : Text → Option ℕ
in_a_minute t = some 60

abbrev inner : CacheInner text_regexes
inner = record {
  root = text "c";
  max_size = 1000;
  default_max_age = 60;
  rules = compile_rules text_regexes (
      record { pattern = text "https://A.com/x"; max_age = 30 }
      ∷ record { pattern = text "a.com/x"; max_age = 90 }
      ∷ record { pattern = text "b.com/x"; max_age = 10 }
      ∷ []);
}

abbrev page : SmallUrl
page = record { scheme = text "https"; host = text "a.com"; path = text "/x" }

abbrev raw_key : Text → Text
raw_key t = t

abbrev planned : CachePlan
planned = record { key = cache_key list_http raw_key (text "a.com/x") []; ttl = 60 }

-- The last rule that matches decides, and a request with credentials has no plan.
plans :
    (plan list_http text_regexes small_urls raw_key inner page [] ≡ some planned)
    × (plan list_http text_regexes small_urls raw_key inner page ((text "cookie", text "c") ∷ [])
        ≡ none)
unfolding caching
plans = (refl, refl)

plan_iff_example : (plan list_http text_regexes small_urls raw_key inner page [] ≡ some planned) ↔ (
    IsShareable text_regexes list_http []
    × Planned text_regexes list_http raw_key inner (normalized_url small_urls page) [] planned)
plan_iff_example = plan_iff text_regexes list_http small_urls raw_key inner page [] planned

abbrev answer : List (Text × Text)
answer =
    (text "cache-control", text "Max-Age=\"20\"")
    ∷ (text "vary", text "Origin, accept")
    ∷ (text "x-cache", text "MISS")
    ∷ (text "expires", text "soon")
    ∷ []

lifetimes :
    (effective_ttl list_http no_date 0 30 answer ≡ 20)
    × (effective_ttl list_http in_a_minute (50 * nanos_per_sec) 30 answer ≡ 10)
    × (parse_vary list_http answer ≡ some (text "origin" ∷ text "accept" ∷ []))
    × (parse_vary list_http ((text "vary", text "*") ∷ []) ≡ none)
    × (request_requires_revalidation list_http ((text "cache-control", text "a, NO-CACHE=x") ∷ [])
        ≡ true)
unfolding caching
lifetimes = (refl, refl, refl, refl, refl)

abbrev stored : CacheEntry
stored =
    new_entry list_http no_date (5 * nanos_per_sec) (5 * nanos_per_sec) (5 * nanos_per_sec)
      (text "c") planned 200 answer (text "origin" ∷ text "accept" ∷ []) []

admitted :
    admit list_http no_date
      (5 * nanos_per_sec)
      (5 * nanos_per_sec)
      (5 * nanos_per_sec)
      (text "c")
      planned
      200
      answer
      []
    ≡ some stored
unfolding caching
admitted = refl

admit-IsStorable_example : IsPublic list_http 200 answer [] × Follows list_http planned stored
admit-IsStorable_example =
    admit-IsStorable list_http no_date (5 * nanos_per_sec) (5 * nanos_per_sec) (5 * nanos_per_sec)
      (text "c") planned 200 answer [] stored admitted

headers_from_entry-cache_headers_example :
    texts list_http (values_of (text "x-cache") (headers_from_entry list_http stored)) ≡ (
      if is_not_stored (text "x-cache")
      then []
      else texts list_http (values_of (text "x-cache") answer))
unfolding caching
headers_from_entry-cache_headers_example =
    headers_from_entry-cache_headers list_http answer stored (text "x-cache") refl
      (refl, (refl, (refl, (refl, tt))))

cache_key_iff_example :
    (cache_key list_http raw_key (text "a") ((text "origin", text "o") ∷ [])
      ≡ cache_key list_http raw_key (text "a") ((text "accept", text "o") ∷ []))
    ↔ ((text "a" ≡ text "a")
        × Agrees list_http
            ((text "origin", text "o") ∷ [])
            ((text "accept", text "o") ∷ [])
            supported_vary_headers)
unfolding caching
cache_key_iff_example =
    cache_key_iff list_http raw_key (text "a") (text "a") ((text "origin", text "o") ∷ [])
      ((text "accept", text "o") ∷ []) (λ e. e) (omega arith, tt) (omega arith, tt)
      (tt, (tt, (tt, ((omega arith, tt), (tt, tt)))))
      ((omega arith, tt), (tt, (tt, (tt, (tt, tt)))))

abbrev files : List Scanned
files =
    record { last_access = 9; key = text "new"; meta_len = 1; body_len = 4 }
    ∷ record { last_access = 2; key = text "old"; meta_len = 1; body_len = 5 }
    ∷ record { last_access = 5; key = text "mid"; meta_len = 1; body_len = 2 }
    ∷ []

evictions : map (λ (e : Scanned). e.last_access) (evict 8 files) ≡ 2 ∷ []
unfolding caching evict sort_by_access corsget.Cache.Eviction.evict_from
    corsget.Cache.Eviction.scan_total corsget.Cache.Eviction.insert_by_access
evictions = refl

evict-Fits_example :
    (kept : List Scanned) × (evict 8 files ++ kept ≡ sort_by_access files)
    × ByAccess (evict 8 files ++ kept)
    × Fits 8 (evict 8 files) kept
evict-Fits_example = evict-Fits 8 files (omega arith)
