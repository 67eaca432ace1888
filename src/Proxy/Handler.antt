-- ===== src/Proxy/Handler.antt =====
-- `proxy_handler`: the checks in front of the cache and the upstream, and the responses behind them.
use corsget.Prelude.{
  false, true, ◌&&◌, ℕ, Bool, not, Option, none, some, List, [], ◌∷◌, ◌++◌, Result, ok, err, ◌>>=◌,
  ◌>>◌, map_err, ◌==◌, if◌then◌else◌, min, saturating_mul, leb, map,
}
use corsget.Text.{Text, text, to_decimal}
use corsget.External.Http.{Http}
use corsget.External.Urls.{Urls}
use corsget.External.Regexes.{Regexes}
use corsget.External.Maps.{Maps}
use corsget.External.Limits.{Limits}
use corsget.Messages.{Uri, Response}
use corsget.Error.{AppError, upstream, too_large, limit_backend}
use corsget.Matcher.{MatchPolicy}
use corsget.Extractors.{Origin}
use corsget.Limit.{
  LimitTier, WindowState, BandwidthLimiter, MeteredError, new_guard, would_exceed, metered_stream,
}
use corsget.Headers.{HeaderOverridePolicy, apply}
use corsget.Cache.{CacheEntry, headers_from_entry, add_cache_header}
use corsget.Cache.Writing.{CacheWriter}
use corsget.Proxy.{
  parse_target_url, validate_target_policy, is_http_scheme, unsupported_scheme,
  copy_response_headers,
}
use corsget.Proxy.Fetch.{UpstreamResponse}
use corsget.Disk.{Disk}
use corsget.External.Codecs.{Codec}
use corsget.Cache.Files.{persisted}
use corsget.Proxy.Tee.{metered_message}
use corsget.Proxy.Filing.{tee_files}

-- Steps 1 and 2: the target, if it parses and the policy permits it.
unfoldable pub permitted_target :
    (U : Urls) (R : Regexes) → MatchPolicy R → Uri → Origin → Result AppError U.Url
permitted_target U R policy uri origin = do
  target_url ← parse_target_url U uri
  if is_http_scheme (U.scheme target_url)
      then ok tt
      else err (unsupported_scheme (U.scheme target_url))
  validate_target_policy U R policy target_url origin
  ok target_url

module _ (L : Limits) where
  open L use {State, Snapshot, check, allowed}

  -- What follows the check of one tier: an error or a refusal ends the loop, else it goes on.
  unfoldable pub after_check :
      Result Text Snapshot
      → State
      → State × Result AppError (Option Snapshot)
      → State × Result AppError (Option Snapshot)
  after_check (err e) s rest = (s, err (limit_backend e))
  after_check (ok snapshot) s rest = if allowed snapshot then rest else (s, ok (some snapshot))

  -- Step 3: the loop over the rate limit.
  unfoldable pub check_rate :
      (usize_max : ℕ) → Text → List LimitTier → State → State × Result AppError (Option Snapshot)
  check_rate usize_max bucket [] s = (s, ok none)
  check_rate usize_max bucket (tier ∷ tiers) s =
      let (s', r) = check bucket (min tier.max usize_max) (saturating_mul tier.window 1000) s in
      after_check r s' (check_rate usize_max bucket tiers s')

-- A declared length that `result_guard.would_exceed` refuses.
unfoldable pub declared_excess : ℕ → Option ℕ → Option ℕ
declared_excess result_max none = none
declared_excess result_max (some n) = if would_exceed (new_guard result_max) n then some n else none

abbrev pub too_large_response : ℕ → ℕ → AppError
too_large_response content_length result_max = too_large (
    text "response Content-Length ("
    ++ to_decimal content_length
    ++ text ") exceeds per-result cap ("
    ++ to_decimal result_max
    ++ text ")")

abbrev pub too_large_entry : ℕ → ℕ → AppError
too_large_entry body_len result_max = too_large (
    text "cached response body ("
    ++ to_decimal body_len
    ++ text ") exceeds per-result cap ("
    ++ to_decimal result_max
    ++ text ")")

-- `StatusCode::from_u16(status).is_ok()`.
unfoldable pub is_status : ℕ → Bool
is_status status = leb 100 status && leb status 999

-- The value of `X-Cache` on a response of the upstream: none without a cache plan.
unfoldable pub diagnostic_of : (planned cached forced : Bool) → Option Text
diagnostic_of false cached forced = none
diagnostic_of true cached forced =
    if cached && forced then some (text "REVALIDATED") else some (text "MISS")

module _ (H : Http) (U : Urls) (R : Regexes) (D : Maps WindowState) where
  open H use {Headers, remove}
  open U use {Url}

  -- What step 7 and `cached_response` read of the state, and their view of time and concurrency.
  pub record Serving : Type 0 where
    pub header_overrides : HeaderOverridePolicy H R
    pub result_max : ℕ
    pub bucket : Text
    pub clock : ℕ → ℕ → ℕ × ℕ
    pub others : ℕ → BandwidthLimiter D → BandwidthLimiter D

  -- The body through the meter, with the bytes of the stream charged to the limiter.
  unfoldable pub metered :
      Serving
      → BandwidthLimiter D
      → List (Result Text Text)
      → List (Result MeteredError Text) × BandwidthLimiter D
  metered s limiter body =
      metered_stream D s.clock s.others s.bucket limiter (new_guard s.result_max) body

  -- The headers of a proxied response. `diagnostic` is the value of `X-Cache`, under a cache plan.
  unfoldable pub upstream_response_headers : Serving → Option Text → Url → Url → Headers → Headers
  upstream_response_headers s diagnostic target_url final_url source =
      let headers = copy_response_headers H source (not (s.result_max == 0)) in
      apply H R U s.header_overrides
        (elim diagnostic [ none ↦ headers | some value ↦ add_cache_header H value headers ])
        target_url final_url

  -- Step 7: the response of the upstream, with the limiter and the disk behind its stream. `begin`
  -- begins the copy.
  unfoldable pub pass_on :
      Codec CacheEntry persisted
      → ℕ
      → Serving
      → Option Text
      → (begin : Disk → Disk × Option CacheWriter) → Url
      → Url
      → BandwidthLimiter D
      → Disk
      → UpstreamResponse H
      → Result AppError (Response H × BandwidthLimiter D × Disk)
  pass_on C process s diagnostic begin target_url final_url limiter disk resp =
      let (begun, writer) = begin disk in
      let (items, limiter') = metered s limiter resp.body in
      let (body, disk') = tee_files C process writer items begun in
      elim (declared_excess s.result_max resp.content_length) [
        | some n ↦ err (too_large_response n s.result_max)
        | none ↦ ok (
          record {
            status = resp.status;
            headers = upstream_response_headers s diagnostic target_url final_url resp.headers;
            body = body;
          },
          limiter',
          disk',
        )
      ]

  -- The headers of a response from the cache.
  unfoldable pub cached_response_headers : Serving → Text → Url → CacheEntry → Headers
  cached_response_headers s cache_status requested_url entry =
      let headers = headers_from_entry H entry in
      apply H R U s.header_overrides
        (add_cache_header H cache_status
          (if s.result_max == 0 then headers else remove (text "content-length") headers))
        requested_url requested_url

  -- `cached_response`. `file` is the stream of the body file.
  unfoldable pub cached_response :
      Serving
      → Text
      → Url
      → BandwidthLimiter D
      → List (Result Text Text)
      → CacheEntry
      → Result AppError (Response H × BandwidthLimiter D)
  cached_response s cache_status requested_url limiter file entry =
      let (items, limiter') = metered s limiter file in
      if not (is_status entry.status)
      then err (upstream (text "invalid cached status: invalid status code"))
      else if would_exceed (new_guard s.result_max) entry.body_len
      then err (too_large_entry entry.body_len s.result_max)
      else ok (
        record {
          status = entry.status;
          headers = cached_response_headers s cache_status requested_url entry;
          body = map (map_err metered_message) items;
        },
        limiter',
      )
