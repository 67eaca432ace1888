-- ===== src/Proxy/Request.antt =====
-- `proxy_handler` as a whole: a request through the checks, the cache, the upstream and the response.
use corsget.Prelude.{
  ℕ, Bool, true, false, ◌&&◌, not, Option, none, some, List, [], ◌++◌, Result, ok, err,
  if◌then◌else◌,
}
use corsget.Text.{Text, text}
use corsget.External.Http.{Http}
use corsget.External.Urls.{Urls}
use corsget.External.Regexes.{Regexes}
use corsget.External.Maps.{Maps}
use corsget.External.Limits.{Limits}
use corsget.Messages.{Uri, Response}
use corsget.Error.{AppError, upstream, SendError}
use corsget.Matcher.{MatchPolicy}
use corsget.Extractors.{RateLimitKey, bucket}
use corsget.Limit.{LimitTier, WindowState, BandwidthLimiter}
use corsget.Headers.{HeaderOverridePolicy}
use corsget.Cache.{CachePlan, CacheEntry, is_fresh, request_requires_revalidation}
use corsget.Cache.Plan.{CacheInner, plan}
use corsget.Cache.Writing.{CacheWriter}
use corsget.Cache.Files.{persisted, begin_write, lookup_files, refresh_files}
use corsget.Cache.Streaming.{file_stream}
use corsget.External.Codecs.{Codec}
use corsget.Disk.{Disk}
use corsget.Proxy.Fetch.{UpstreamResponse, passed, not_modified, Fetching, fetch}
use corsget.Proxy.Handler.{
  permitted_target, check_rate, Serving, diagnostic_of, pass_on, cached_response,
}

unfoldable pub is_some : {A : Type 0} → Option A → Bool
is_some none = false
is_some (some a) = true

module _ (H : Http) (U : Urls) (R : Regexes) (D : Maps WindowState) (L : Limits)
    (C : Codec CacheEntry persisted) where
  open H use {Headers}
  open U use {Url}

  -- The shared state that a request changes.
  pub record World : Type 0 where
    pub limits : L.State
    pub bandwidth : BandwidthLimiter D
    pub disk : Disk

  -- What the handler reads, and what the world outside answers to it: the upstream, and the clock with
  -- one answer for each reading.
  pub record Surroundings : Type 0 where
    pub policy : MatchPolicy R
    pub rate_limit : List LimitTier
    pub usize_max : ℕ
    pub max_redirects : ℕ
    pub result_max : ℕ
    pub header_overrides : HeaderOverridePolicy H R
    pub cache : Option (CacheInner R)
    pub limited : L.Snapshot → Response H
    pub send : ℕ → Url → Headers → Result SendError (UpstreamResponse H)
    pub sha256 : Text → Text
    pub parse_http_date : Text → Option ℕ
    pub secs : ℕ → ℕ
    pub nanos : ℕ → ℕ
    pub process : ℕ
    pub clock : ℕ → ℕ → ℕ × ℕ
    pub others : ℕ → BandwidthLimiter D → BandwidthLimiter D

  -- The answer, the state behind it and its body, and the requests that were sent.
  pub record Outcome : Type 0 where
    pub answer : Result AppError (Response H)
    pub world : World
    pub sent : List (Url × Headers)

  abbrev pub failed : World → List (Url × Headers) → AppError → Outcome
  failed w sent e = record { answer = err e; world = w; sent = sent }

  abbrev pub serving : Surroundings → RateLimitKey → Serving H U R D
  serving s key = record {
    header_overrides = s.header_overrides;
    result_max = s.result_max;
    bucket = bucket key;
    clock = s.clock;
    others = s.others;
  }

  -- The plan of the request, and the entry that is cached for it.
  unfoldable pub cache_plan : Surroundings → Url → Headers → Option CachePlan
  cache_plan s url h = elim s.cache [ none ↦ none | some cache ↦ plan H R U s.sha256 cache url h ]

  unfoldable pub cached_entry : Surroundings → Option CachePlan → Disk → Disk × Option CacheEntry
  cached_entry s none disk = (disk, none)
  cached_entry s (some p) disk = elim s.cache [
    | none ↦ (disk, none)
    | some cache ↦ lookup_files C s.process cache.root p (s.secs 0) disk
  ]

  -- `cached_response`, as an outcome. The body is read as it is streamed.
  unfoldable pub from_cache :
      Surroundings → World → RateLimitKey → Text → Url → List (Url × Headers) → CacheEntry → Outcome
  from_cache s w key cache_status url sent entry =
      let (disk', file) = file_stream entry.body_path w.disk in
      elim (cached_response H U R D (serving s key) cache_status url w.bandwidth file entry) [
        | err e ↦ failed w sent e
        | ok (response, bandwidth) ↦ record {
          answer = ok response;
          world = record w { bandwidth = bandwidth; disk = disk' };
          sent = sent;
        }
      ]

  -- The begin of the copy in step 7.
  unfoldable pub begin_copy :
      Surroundings
      → Option CachePlan
      → UpstreamResponse H
      → Headers
      → Disk
      → Disk × Option CacheWriter
  begin_copy s none resp h disk = (disk, none)
  begin_copy s (some p) resp h disk = elim s.cache [
    | none ↦ (disk, none)
    | some cache ↦
        begin_write C s.process cache.root H s.parse_http_date (s.nanos 0) (s.nanos 1) (s.nanos 2)
          cache.max_size p resp.status resp.headers h disk
  ]

  -- Step 7, as an outcome. The copy is begun only for a response that is passed on.
  unfoldable pub from_upstream :
      Surroundings
      → World
      → RateLimitKey
      → Headers
      → Option CachePlan
      → Option Text
      → Url
      → List (Url × Headers)
      → UpstreamResponse H
      → Url
      → Outcome
  from_upstream s w key h planned diagnostic target_url sent resp final_url =
      elim (pass_on H U R D C s.process (serving s key) diagnostic (begin_copy s planned resp h)
        target_url final_url w.bandwidth w.disk resp) [
          | err e ↦ failed w sent e
          | ok (response, bandwidth, disk') ↦ record {
            answer = ok response;
            world = record w { bandwidth = bandwidth; disk = disk' };
            sent = sent;
          }
        ]

  -- The confirmation of an entry: it is refreshed, and answers the request.
  unfoldable pub revalidated :
      Surroundings
      → World
      → RateLimitKey
      → Option CachePlan
      → Url
      → List (Url × Headers)
      → UpstreamResponse H
      → CacheEntry
      → Outcome
  revalidated s w key none url sent resp entry =
      from_cache s w key (text "REVALIDATED") url sent entry
  revalidated s w key (some p) url sent resp entry = elim s.cache [
    | none ↦ from_cache s w key (text "REVALIDATED") url sent entry
    | some cache ↦
        let (disk', refreshed, written) =
          refresh_files C s.process cache.root H s.parse_http_date (s.nanos 3) (s.nanos 4) entry
            resp.headers p.ttl w.disk in
        let w' = record w { disk = disk' } in
        elim written [
          | err e ↦ failed w' sent (upstream (text "failed to refresh cache metadata: " ++ e))
          | ok _ ↦ from_cache s w' key (text "REVALIDATED") url sent refreshed
        ]
  ]

  -- Whether the cached entry answers the request alone.
  unfoldable pub is_hit : Surroundings → Headers → Option CacheEntry → Option CacheEntry
  is_hit s h none = none
  is_hit s h (some entry) =
      if not (request_requires_revalidation H h) && is_fresh entry (s.secs 1)
      then some entry
      else none

  abbrev pub fetching : Surroundings → RateLimitKey → Headers → Option CacheEntry → Fetching H U R
  fetching s key h cached = record {
    policy = s.policy;
    origin = key.origin;
    source = h;
    cached = cached;
    max_redirects = s.max_redirects;
    send = s.send;
  }

  -- Steps 5 to 7.
  unfoldable pub proxied :
      Surroundings
      → World
      → RateLimitKey
      → Headers
      → Option CachePlan
      → Option CacheEntry
      → Url
      → Outcome
  proxied s w key h planned cached target_url =
      let (sent, end) = fetch H U R (fetching s key h cached) target_url in
      let diagnostic =
        diagnostic_of (is_some planned) (is_some cached) (request_requires_revalidation H h) in
      elim end [
        | err e ↦ failed w sent e
        | ok (not_modified resp entry) ↦ revalidated s w key planned target_url sent resp entry
        | ok (passed resp final_url) ↦
            from_upstream s w key h planned diagnostic target_url sent resp final_url
      ]

  -- Steps 4 to 7.
  unfoldable pub served : Surroundings → World → RateLimitKey → Headers → Url → Outcome
  served s w key h target_url =
      let planned = cache_plan s target_url h in
      let (disk', cached) = cached_entry s planned w.disk in
      let w' = record w { disk = disk' } in
      elim (is_hit s h cached) [
        | some entry ↦ from_cache s w' key (text "HIT") target_url [] entry
        | none ↦ proxied s w' key h planned cached target_url
      ]

  -- Steps 3 to 7.
  unfoldable pub limited_or_served : Surroundings → World → RateLimitKey → Headers → Url → Outcome
  limited_or_served s w key h target_url =
      let (limits, verdict) = check_rate L s.usize_max (bucket key) s.rate_limit w.limits in
      let w' = record w { limits = limits } in
      elim verdict [
        | err e ↦ failed w' [] e
        | ok (some snapshot) ↦ record { answer = ok (s.limited snapshot); world = w'; sent = [] }
        | ok none ↦ served s w' key h target_url
      ]

  -- `proxy_handler`.
  unfoldable pub proxy_handler : Surroundings → World → RateLimitKey → Uri → Headers → Outcome
  proxy_handler s w key uri h = elim (permitted_target U R s.policy uri key.origin) [
    | err e ↦ failed w [] e
    | ok target_url ↦ limited_or_served s w key h target_url
  ]
