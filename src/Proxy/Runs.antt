-- ===== src/Proxy/Runs.antt =====
-- Runs of the handler's parts, and the theorems on them at concrete inputs.
use corsget.Prelude.{
  if◌then◌else◌, ◌==◌, ℕ, ◌≤◌, ◌≡◌, refl, ◌↔◌, Bool, true, false, none, some, Option, List, [], ◌∷◌,
  arith, Result, ok, err, All, OnOk, length, min, u64_max,
}
use corsget.Text.{Text, text}
use corsget.Samples.Http.{list_http}
use corsget.Samples.Urls.{small_urls, SmallUrl}
use corsget.Samples.Regexes.{text_regexes}
use corsget.Samples.Requests.{empty_disk, tiers, maps, rates_off, surroundings, asked, anyone}
use corsget.Samples.Limits.{counting_limits}
use corsget.Limit.{MeteredError, upstream}
use corsget.Cache.{CacheEntry}
use corsget.Cache.Writing.{CacheWriter, write, finished}
use corsget.Proxy.Fetch.{UpstreamResponse}
use corsget.Disk.{Disk}
use corsget.Samples.Codecs.{entry_codec}
use corsget.Proxy.Policy.{Permitted}
use corsget.Proxy.Request.{proxy_handler}
use corsget.Proxy.Safety.{proxy_handler-Permitted}
use corsget.Proxy.Tee.{tee, metered_message, write_chunk, finish_writer}
use corsget.Proxy.Storing.{tee-client}
use corsget.Proxy.Handler.{check_rate, after_check, Serving, pass_on}
use corsget.Proxy.Serving.{AllAllow, check_rate_iff, IsCapped, pass_on-IsCapped}

handler : Unit {0}
unfolding tee metered_message write_chunk finish_writer write finished check_rate after_check
handler = tt

-- The second tier is counted behind the first, and the tier behind a refusal is not.
rates :
    (check_rate counting_limits 100 (text "k") tiers 0 ≡ (2, ok none))
    × (check_rate counting_limits 100 (text "k") tiers 2 ≡ (3, ok (some false)))
unfolding handler
rates = (refl, refl)

check_rate_iff_example :
    ((check_rate counting_limits 100 (text "k") tiers 0).1 ≡ ok none)
    ↔ AllAllow counting_limits 100 (text "k") tiers 0
check_rate_iff_example = check_rate_iff counting_limits 100 (text "k") tiers 0

abbrev entry : CacheEntry
entry = record {
  version = 1;
  status = 200;
  headers = [];
  body_len = 0;
  created_at = 0;
  last_access = 0;
  ttl = 9;
  revalidate = false;
  etag = none;
  last_modified = none;
  vary = [];
  request_variants = [];
  key = text "k";
  body_path = text "c/k.body";
}

abbrev writer : CacheWriter
writer = record {
  root = text "c";
  entry = entry;
  temp_body = text "c/.k.body.tmp-1-0";
  body_file = [];
  body_len = 0;
  max_size = 9;
}

abbrev works : ℕ → Result (Text × Text) (Unit {0})
works _ = ok tt

abbrev fails : ℕ → Result (Text × Text) (Unit {0})
fails _ = err ([], [])

abbrev items : List (Result MeteredError Text)
items = ok (1 ∷ 2 ∷ []) ∷ ok (3 ∷ []) ∷ []

abbrev whole : CacheWriter
whole = record writer {
  entry = record entry { body_len = 3 };
  body_file = 1 ∷ 2 ∷ 3 ∷ [];
  body_len = 3;
}

-- A stream that ends with an error, or a write that fails, leaves nothing to commit.
stored :
    ((tee works (some writer) items).1 ≡ some whole)
    × ((tee fails (some writer) items).1 ≡ none)
    × ((tee works (some writer) (ok (1 ∷ []) ∷ err (upstream []) ∷ [])).1 ≡ none)
unfolding handler
stored = (refl, refl, refl)

tee-client_example : (tee works (some writer) items).0 ≡ (tee fails none items).0
tee-client_example = tee-client works fails (some writer) none items

abbrev serving : Serving list_http small_urls text_regexes maps
serving = record {
  header_overrides = [];
  result_max = 2;
  bucket = text "k";
  clock = λ _ _. (0, 0);
  others = λ _ limiter. limiter;
}

abbrev page : SmallUrl
page = record { scheme = text "https"; host = text "a.com"; path = text "/x" }

-- A copy that is begun on any disk.
abbrev begun : Disk → Disk × Option CacheWriter
begun disk = (disk, some writer)

abbrev oversized : UpstreamResponse list_http
oversized = record {
  status = 200;
  headers = (text "content-length", text "1") ∷ [];
  content_length = some 1;
  body = ok (1 ∷ 2 ∷ []) ∷ ok (3 ∷ []) ∷ [];
}

pass_on-IsCapped_example : OnOk (IsCapped list_http small_urls text_regexes maps 2) (
    pass_on list_http small_urls text_regexes maps entry_codec 1 serving none begun page page []
      empty_disk oversized)
unfolding corsget.Headers.compile_policy corsget.Prelude.collect
pass_on-IsCapped_example =
    pass_on-IsCapped list_http small_urls text_regexes maps entry_codec 1 serving none begun page
      page [] empty_disk oversized [] (λ e. cc e) (omega arith) refl

proxy_handler-Permitted_example :
    All
      (λ request. Permitted small_urls text_regexes surroundings.policy request.0 anyone.origin)
      (proxy_handler list_http small_urls text_regexes maps counting_limits entry_codec surroundings
        rates_off anyone asked []).sent
proxy_handler-Permitted_example =
    proxy_handler-Permitted list_http small_urls text_regexes maps counting_limits entry_codec
      surroundings rates_off anyone asked []
