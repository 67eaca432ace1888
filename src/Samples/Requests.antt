-- ===== src/Samples/Requests.antt =====
-- A request, and the state and the world that it meets.
use corsget.Prelude.{if◌then◌else◌, ◌==◌, ℕ, none, some, List, [], ◌∷◌, Result, ok, u64_max}
use corsget.Text.{Text, text}
use corsget.External.Maps.{Maps}
use corsget.Samples.Http.{list_http}
use corsget.Samples.Urls.{small_urls, SmallUrl}
use corsget.Samples.Regexes.{text_regexes}
use corsget.Samples.Maps.{list_map}
use corsget.Samples.Limits.{counting_limits}
use corsget.Samples.Codecs.{entry_codec}
use corsget.Disk.{Disk}
use corsget.Limit.{WindowState, LimitTier}
use corsget.Proxy.Fetch.{UpstreamResponse}
use corsget.Messages.{Uri}
use corsget.Error.{SendError}
use corsget.Extractors.{RateLimitKey}
use corsget.Matcher.{exact}
use corsget.Proxy.Request.{World, Surroundings}

abbrev pub empty_disk : Disk
empty_disk = record { files = []; faults = []; temp_counter = 0 }

abbrev pub tiers : List LimitTier
tiers = record { window = 1; max = 2 } ∷ record { window = 60; max = 5 } ∷ []

abbrev pub maps : Maps WindowState
maps = list_map WindowState

abbrev pub rates_off : World list_http small_urls text_regexes maps counting_limits entry_codec
rates_off = record { limits = 0; bandwidth = []; disk = empty_disk }

-- An upstream that redirects once, to a host that the policy denies.
abbrev pub redirects :
    ℕ → SmallUrl → List (Text × Text) → Result SendError (UpstreamResponse list_http)
redirects left url h =
    if left == 1
    then ok (record {
      status = 302;
      headers = (text "location", text "https://evil.com/") ∷ [];
      content_length = none;
      body = [];
    })
    else ok (record { status = 200; headers = []; content_length = none; body = [] })

abbrev pub surroundings :
    Surroundings list_http small_urls text_regexes maps counting_limits entry_codec
surroundings = record {
  policy = record {
    target = record { blacklist = exact (text "evil.com") ∷ []; whitelist = [] };
    origin = record { blacklist = []; whitelist = [] };
  };
  rate_limit = tiers;
  usize_max = u64_max;
  max_redirects = 1;
  result_max = 2;
  header_overrides = [];
  cache = none;
  limited = λ snapshot. record { status = 429; headers = []; body = [] };
  send = redirects;
  sha256 = λ t. t;
  parse_http_date = λ t. none;
  secs = λ n. 0;
  nanos = λ n. 0;
  process = 1;
  clock = λ _ _. (0, 0);
  others = λ _ limiter. limiter;
}

abbrev pub asked : Uri
asked = record {
  scheme_str = none;
  path_and_query = some (text "/https://a.com/x");
  whole = text "/https://a.com/x";
}

abbrev pub anyone : RateLimitKey
anyone = record { origin = record { host = none }; client_ip = text "1.1.1.1" }
