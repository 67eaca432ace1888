-- ===== src/Proxy/Fetch.antt =====
-- Sending the upstream request and following redirects: the loop of `proxy_handler`.
use corsget.Prelude.{
  ℕ, zero, suc, Option, none, some, List, [], ◌∷◌, Result, ok, err, ◌>>=◌, ◌>>◌, map_err, ok_or,
  if◌then◌else◌, ◌==◌,
}
use corsget.Text.{Text, text}
use corsget.External.Http.{Http}
use corsget.External.Urls.{Urls}
use corsget.External.Regexes.{Regexes}
use corsget.Error.{AppError, bad_url, upstream, SendError, from_send_error}
use corsget.Matcher.{MatchPolicy}
use corsget.Extractors.{Origin}
use corsget.Cors.{get_str}
use corsget.Cache.{CacheEntry, add_validators}
use corsget.Proxy.{is_followable_redirect, forward_headers, validate_target_policy}

module _ (H : Http) where
  -- An upstream response, by what the handler reads of it.
  pub record UpstreamResponse : Type 0 where
    pub status : ℕ
    pub headers : H.Headers
    pub content_length : Option ℕ
    pub body : List (Result Text Text)

-- How the loop ends well: a response to pass on with the URL that answered, or the confirmation of
-- the cached entry.
pub data Fetched (H : Http) (U : Urls) : Type 0 where
  passed : UpstreamResponse H → U.Url → Fetched H U
  not_modified : UpstreamResponse H → CacheEntry → Fetched H U

-- What the loop reads and never writes. `send` is the upstream: its answer may depend on the number
-- of redirects that are left, so that a target can answer differently each time.
pub record Fetching (H : Http) (U : Urls) (R : Regexes) : Type 0 where
  pub policy : MatchPolicy R
  pub origin : Origin
  pub source : H.Headers
  pub cached : Option CacheEntry
  pub max_redirects : ℕ
  pub send : ℕ → U.Url → H.Headers → Result SendError (UpstreamResponse H)

-- `if let Some(entry) = cached_entry { Cache::add_validators(&mut forwarded, entry) }`.
unfoldable pub revalidating : (H : Http) → Option CacheEntry → H.Headers → H.Headers
revalidating H none h = h
revalidating H (some entry) h = add_validators H entry h

module _ (H : Http) (U : Urls) where
  -- A response that is no 304 for a cached entry: `none` for a redirect.
  unfoldable pub pass_or_redirect : UpstreamResponse H → U.Url → Option (Fetched H U)
  pass_or_redirect resp url =
      if is_followable_redirect resp.status then none else some (passed resp url)

  -- Whether a response ends the loop.
  unfoldable pub settle : Option CacheEntry → UpstreamResponse H → U.Url → Option (Fetched H U)
  settle none resp url = pass_or_redirect resp url
  settle (some entry) resp url =
      if resp.status == 304 then some (not_modified resp entry) else pass_or_redirect resp url

abbrev pub redirect_limit : AppError
redirect_limit = upstream (text "redirect limit reached")

-- `Url::parse(target_url).or_else(|_| redirect_base.join(target_url))`.
unfoldable pub resolve : (U : Urls) → U.Url → Text → Result AppError U.Url
resolve U redirect_base location = elim (U.parse location) [
  | ok u ↦ ok u
  | err _ ↦ map_err bad_url (U.join redirect_base location)
]

module _ (H : Http) (U : Urls) (R : Regexes) (f : Fetching H U R) where
  open H use {Headers}
  open U use {Url}

  -- The headers of the request to one hop.
  unfoldable pub upstream_headers : Url → Headers
  upstream_headers url = revalidating H f.cached (forward_headers H U f.source url)

  -- The next hop that a redirect names, if the policy lets it pass.
  unfoldable pub next_url : Url → UpstreamResponse H → Result AppError Url
  next_url redirect_base resp = do
    location ←
        ok_or (upstream (text "redirect without Location header"))
          (get_str H (text "location") resp.headers)
    next ← resolve U redirect_base location
    validate_target_policy U R f.policy next f.origin
    ok next

  -- The loop, with the requests that it sends. The hop's URL is the base of the next redirect.
  unfoldable pub follow : ℕ → Url → List (Url × Headers) × Result AppError (Fetched H U)
  follow zero url =
      let request : Url × Headers = (url, upstream_headers url) in
      elim (f.send zero url (upstream_headers url)) [
        | err e ↦ (request ∷ [], err (from_send_error e))
        | ok resp ↦ elim (settle H U f.cached resp url) [
          | some done ↦ (request ∷ [], ok done)
          | none ↦ (request ∷ [], err redirect_limit)
        ]
      ]
  follow (suc redirects_left) url =
      let request : Url × Headers = (url, upstream_headers url) in
      elim (f.send (suc redirects_left) url (upstream_headers url)) [
        | err e ↦ (request ∷ [], err (from_send_error e))
        | ok resp ↦ elim (settle H U f.cached resp url) [
          | some done ↦ (request ∷ [], ok done)
          | none ↦
              if f.max_redirects == 0
              then (request ∷ [], err redirect_limit)
              else elim (next_url url resp) [
                | err e ↦ (request ∷ [], err e)
                | ok next ↦
                    (request ∷ (follow redirects_left next).0, (follow redirects_left next).1)
              ]
        ]
      ]

  -- The loop from the requested target.
  unfoldable pub fetch : Url → List (Url × Headers) × Result AppError (Fetched H U)
  fetch target_url = follow f.max_redirects target_url
