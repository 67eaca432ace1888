-- ===== src/Proxy/Safety.antt =====
-- Where the requests of `proxy_handler` go.
use corsget.Prelude.{
  ◌≡◌, sym, subst, inl, inr, Option, none, some, List, [], All, Option-cases, Result-cases,
}
use corsget.Text.{Text, text}
use corsget.External.Http.{Http}
use corsget.External.Urls.{Urls}
use corsget.External.Regexes.{Regexes}
use corsget.External.Maps.{Maps}
use corsget.External.Limits.{Limits}
use corsget.Messages.{Uri}
use corsget.Limit.{WindowState}
use corsget.Extractors.{RateLimitKey, bucket}
use corsget.Cache.{CachePlan, CacheEntry}
use corsget.External.Codecs.{Codec}
use corsget.Cache.Files.{persisted, refresh_files}
use corsget.Cache.Streaming.{file_stream}
use corsget.Cors.Preflight.{permitted_target_iff}
use corsget.Proxy.Policy.{Permitted}
use corsget.Proxy.Fetch.{UpstreamResponse, passed, not_modified, fetch}
use corsget.Proxy.Redirects.{fetch-Permitted}
use corsget.Proxy.Handler.{permitted_target, check_rate, pass_on, cached_response}
use corsget.Proxy.Request.{
  World, Surroundings, cache_plan, cached_entry, from_cache, begin_copy, from_upstream, revalidated,
  is_hit, fetching, proxied, served, limited_or_served, proxy_handler, serving,
}

module _ (H : Http) (U : Urls) (R : Regexes) (D : Maps WindowState) (L : Limits)
    (C : Codec CacheEntry persisted) (s : Surroundings H U R D L C) where
  open H use {Headers}
  open U use {Url}

  from_cache-sent :
      (w : World H U R D L C) (key : RateLimitKey) (cache_status : Text) (url : Url)
      (sent : List (Url × Headers)) (entry : CacheEntry)
      → (from_cache H U R D L C s w key cache_status url sent entry).sent ≡ sent
  unfolding from_cache
  from_cache-sent w key cache_status url sent entry =
      elim (Result-cases (
        cached_response H U R D (serving H U R D L C s key) cache_status url w.bandwidth
          (file_stream entry.body_path w.disk).1 entry)) [
            | inl (r, good) ↦ rw (good, from_cache)
            | inr (e, bad) ↦ rw (bad, from_cache)
          ]

  from_upstream-sent :
      (w : World H U R D L C) (key : RateLimitKey) (h : Headers) (planned : Option CachePlan)
      (diagnostic : Option Text) (target_url : Url) (sent : List (Url × Headers))
      (resp : UpstreamResponse H) (final_url : Url)
      → (from_upstream H U R D L C s w key h planned diagnostic target_url sent resp final_url).sent
        ≡ sent
  unfolding from_upstream
  from_upstream-sent w key h planned diagnostic target_url sent resp final_url =
      elim (Result-cases (
        pass_on H U R D C s.process (serving H U R D L C s key) diagnostic
          (begin_copy H U R D L C s planned resp h) target_url final_url w.bandwidth w.disk resp)) [
            | inl (r, good) ↦ rw (good, from_upstream)
            | inr (e, bad) ↦ rw (bad, from_upstream)
          ]

  revalidated-sent :
      (w : World H U R D L C) (key : RateLimitKey) (planned : Option CachePlan) (url : Url)
      (sent : List (Url × Headers)) (resp : UpstreamResponse H) (entry : CacheEntry)
      → (revalidated H U R D L C s w key planned url sent resp entry).sent ≡ sent
  unfolding revalidated
  revalidated-sent w key none url sent resp entry = from_cache-sent w key _ url sent entry
  revalidated-sent w key (some p) url sent resp entry = elim (Option-cases s.cache) [
    | inl off ↦ rw (off, revalidated) (from_cache-sent w key _ url sent entry)
    | inr (cache, on) ↦
        elim (Result-cases
          (refresh_files C s.process cache.root H s.parse_http_date (s.nanos 3) (s.nanos 4) entry
            resp.headers p.ttl w.disk).2) [
              | inl (_, good) ↦ rw (on, good, revalidated) (from_cache-sent _ key _ url sent _)
              | inr (e, bad) ↦ rw (on, bad, revalidated)
            ]
  ]

  proxied-sent :
      (w : World H U R D L C) (key : RateLimitKey) (h : Headers) (planned : Option CachePlan)
      (cached : Option CacheEntry) (url : Url)
      → (proxied H U R D L C s w key h planned cached url).sent
        ≡ (fetch H U R (fetching H U R D L C s key h cached) url).0
  unfolding proxied
  proxied-sent w key h planned cached url =
      elim (Result-cases (fetch H U R (fetching H U R D L C s key h cached) url).1) [
        | inr (e, bad) ↦ rw (bad, proxied)
        | inl (passed resp final_url, good) ↦
            rw (good, proxied) (from_upstream-sent w key h planned _ url _ resp final_url)
        | inl (not_modified resp entry, good) ↦
            rw (good, proxied) (revalidated-sent w key planned url _ resp entry)
      ]

  -- Every request goes to a permitted target.
  abbrev pub ArePermitted : RateLimitKey → List (Url × Headers) → Type 0
  ArePermitted key sent = All (λ request. Permitted U R s.policy request.0 key.origin) sent

  served-ArePermitted :
      (w : World H U R D L C) (key : RateLimitKey) (h : Headers) (url : Url)
      → Permitted U R s.policy url key.origin
      → ArePermitted key (served H U R D L C s w key h url).sent
  unfolding served
  served-ArePermitted w key h url allowed =
      let planned = cache_plan H U R D L C s url h in
      let found = cached_entry H U R D L C s planned w.disk in
      let cached = found.1 in
      let w' = record w { disk = found.0 } in
      elim (Option-cases (is_hit H U R D L C s h cached)) [
        | inr (entry, hit) ↦
            rw (hit, served)
              (subst (ArePermitted key) (sym (from_cache-sent w' key (text "HIT") url [] entry)) tt)
        | inl miss ↦
            rw (miss, served)
              (subst (ArePermitted key) (sym (proxied-sent w' key h planned cached url))
                (fetch-Permitted H U R (fetching H U R D L C s key h cached) url allowed))
      ]

  limited_or_served-ArePermitted :
      (w : World H U R D L C) (key : RateLimitKey) (h : Headers) (url : Url)
      → Permitted U R s.policy url key.origin
      → ArePermitted key (limited_or_served H U R D L C s w key h url).sent
  unfolding limited_or_served
  limited_or_served-ArePermitted w key h url allowed =
      elim (Result-cases (check_rate L s.usize_max (bucket key) s.rate_limit w.limits).1) [
        | inr (e, bad) ↦ rw (bad, limited_or_served) tt
        | inl (some snapshot, refused) ↦ rw (refused, limited_or_served) tt
        | inl (none, passes) ↦
            rw (passes, limited_or_served) (served-ArePermitted _ key h url allowed)
      ]

  -- Every request that the proxy sends goes to a target that the policy permits to the requesting
  -- origin, whatever is asked, cached or answered: no target and no chain of redirects leads out of
  -- the policy.
  pub proxy_handler-Permitted :
      (w : World H U R D L C) (key : RateLimitKey) (uri : Uri) (h : Headers)
      → All
          (λ request. Permitted U R s.policy request.0 key.origin)
          (proxy_handler H U R D L C s w key uri h).sent
  unfolding proxy_handler
  proxy_handler-Permitted w key uri h =
      elim (Result-cases (permitted_target U R s.policy uri key.origin)) [
        | inr (e, denied) ↦ rw (denied, proxy_handler) tt
        | inl (url, permitted) ↦
            rw (permitted, proxy_handler)
              (limited_or_served-ArePermitted w key h url
                ((permitted_target_iff U R s.policy uri key.origin url).0 permitted).1)
      ]
