-- ===== src/Proxy/Redirects.antt =====
-- The redirect loop: where it goes, how often, and where it ends.
use corsget.Prelude.{
  ℕ, zero, suc, ◌+◌, ◌≤◌, ◌≡◌, ◌≢◌, ◌⊎◌, inl, inr, some, List, [], ◌∷◌, arith, Result, ok, err,
  ◌==◌, All, length, Bool-cases, Option-cases, Result-cases, ok-injective, OnOk, OnSome-eq,
}
use corsget.Text.{Text, text}
use corsget.External.Http.{Http}
use corsget.External.Urls.{Urls}
use corsget.External.Regexes.{Regexes}
use corsget.Cors.{get_str}
use corsget.Proxy.Forwarding.{IsPrivate, forward_headers-get_all}
use corsget.Error.{AppError, from_send_error}
use corsget.Proxy.{forward_headers, validate_target_policy}
use corsget.Proxy.Policy.{Permitted, validate_target_policy_iff}
use corsget.Proxy.Fetch.{
  UpstreamResponse, Fetched, Fetching, upstream_headers, settle, next_url, redirect_limit, resolve,
  follow, fetch,
}
use corsget.Proxy.Endings.{OnOk-GoodEnd_cons, get_all-revalidating, settle-GoodEnd, GoodEnd}

module _ (H : Http) (U : Urls) (R : Regexes) (f : Fetching H U R) where
  open H use {Headers}
  open U use {Url}

  next_url-Permitted :
      (base next : Url) (resp : UpstreamResponse H)
      → next_url H U R f base resp ≡ ok next
      → Permitted U R f.policy next f.origin
  unfolding next_url
  next_url-Permitted base next resp h =
      elim (Option-cases (get_str H (text "location") resp.headers)) [
        | inl missing ↦ cc (rw (missing, next_url) at h)
        | inr (location, given) ↦ elim (Result-cases (resolve U base location)) [
          | inr (e, failed) ↦ cc (rw (given, failed, next_url) at h)
          | inl (u, resolved) ↦
              elim (Result-cases (validate_target_policy U R f.policy u f.origin)) [
                | inr (e, refused) ↦ cc (rw (given, resolved, refused, next_url) at h)
                | inl (_, valid) ↦
                    let e : u ≡ next = ok-injective (rw (given, resolved, valid, next_url) at h) in
                    rw (← e) ((validate_target_policy_iff U R f.policy u f.origin).0 valid)
              ]
        ]
      ]

  -- A property of the loop's outcome that holds at each way out and is kept by each redirect.
  module _ {κ} (P : ℕ → Url → List (Url × Headers) × Result AppError (Fetched H U) → Type κ)
      (stop : (left : ℕ) (url : Url) (e : AppError)
        → P left url ((url, upstream_headers H U R f url) ∷ [], err e))
      (settled : (left : ℕ) (url : Url) (resp : UpstreamResponse H) (done : Fetched H U)
        → settle H U f.cached resp url ≡ some done
        → P left url ((url, upstream_headers H U R f url) ∷ [], ok done))
      (redirected : (left : ℕ) (url next : Url)
          (r : List (Url × Headers) × Result AppError (Fetched H U))
        → Permitted U R f.policy next f.origin
        → P left next r
        → P (suc left) url ((url, upstream_headers H U R f url) ∷ r.0, r.1)) where
    follow_ind : (left : ℕ) (url : Url) → P left url (follow H U R f left url)
    unfolding follow
    follow_ind zero url = elim (Result-cases (f.send zero url (upstream_headers H U R f url))) [
      | inr (e, failed) ↦ rw (failed, follow) (stop zero url (from_send_error e))
      | inl (resp, answered) ↦ elim (Option-cases (settle H U f.cached resp url)) [
        | inl redirect ↦ rw (answered, redirect, follow) (stop zero url redirect_limit)
        | inr (done, over) ↦ rw (answered, over, follow) (settled zero url resp done over)
      ]
    ]
    follow_ind (suc left) url =
        elim (Result-cases (f.send (suc left) url (upstream_headers H U R f url))) [
          | inr (e, failed) ↦ rw (failed, follow) (stop (suc left) url (from_send_error e))
          | inl (resp, answered) ↦ elim (Option-cases (settle H U f.cached resp url)) [
            | inr (done, over) ↦ rw (answered, over, follow) (settled (suc left) url resp done over)
            | inl redirect ↦ elim (Bool-cases (f.max_redirects == 0)) [
              | inl disabled ↦
                  rw (answered, redirect, disabled, follow) (stop (suc left) url redirect_limit)
              | inr enabled ↦ elim (Result-cases (next_url H U R f url resp)) [
                | inr (e, refused) ↦
                    rw (answered, redirect, enabled, refused, follow) (stop (suc left) url e)
                | inl (next, named) ↦
                    rw (answered, redirect, enabled, named, follow)
                      (redirected left url next (follow H U R f left next)
                        (next_url-Permitted url next resp named) (follow_ind left next))
              ]
            ]
          ]
        ]

  -- Every request that the loop sends goes to a target that the policy permits, if the requested
  -- target is permitted: a redirect cannot lead out of the policy.
  pub fetch-Permitted :
      (target : Url)
      → Permitted U R f.policy target f.origin
      → All (λ request. Permitted U R f.policy request.0 f.origin) (fetch H U R f target).0
  unfolding fetch
  fetch-Permitted target =
      follow_ind
        (λ _ url r.
          Permitted U R f.policy url f.origin
          → All (λ request. Permitted U R f.policy request.0 f.origin) r.0)
        (λ left url e p. (p, tt)) (λ left url resp done over p. (p, tt))
        (λ left url next r ok_next rest p. (p, rest ok_next)) f.max_redirects target

  -- The loop sends at least one request, and at most one more than the redirects that are allowed,
  -- whatever the upstream answers.
  pub fetch-length :
      (target : Url)
      → (1 ≤ length (fetch H U R f target).0)
        × (length (fetch H U R f target).0 ≤ f.max_redirects + 1)
  unfolding fetch
  fetch-length target =
      follow_ind (λ left url r. (1 ≤ length r.0) × (length r.0 ≤ left + 1))
        (λ left url e. omega arith) (λ left url resp done over. omega arith)
        (λ left url next r ok_next rest. omega arith) f.max_redirects target

  -- Where the loop ends without an error, it ends well: a response that is passed on is no redirect,
  -- it is from the last URL that was asked, and it is not a 304 where an entry was cached; a
  -- confirmation is a 304 for the entry that was cached.
  pub fetch-GoodEnd :
      (target : Url) → OnOk (GoodEnd H U f.cached (fetch H U R f target).0) (fetch H U R f target).1
  unfolding fetch
  fetch-GoodEnd target =
      (follow_ind (λ _ _ r. (1 ≤ length r.0) × OnOk (GoodEnd H U f.cached r.0) r.1)
        (λ left url e. (omega arith, tt))
        (λ left url resp done over. (
          omega arith,
          OnSome-eq (GoodEnd H U f.cached ((url, upstream_headers H U R f url) ∷ []))
              (settle H U f.cached resp url)
              (settle-GoodEnd H U f.cached url (upstream_headers H U R f url) resp) over,
        ))
        (λ left url next r ok_next rest. (
          omega arith,
          OnOk-GoodEnd_cons H U f.cached (url, upstream_headers H U R f url) r.0 r.1 rest.0 rest.1,
        ))
        f.max_redirects target).1

  -- What one request carries of a header that the proxy does not set itself.
  abbrev pub Carries : Text → Headers → Type 0
  Carries n h =
      (IsPrivate H f.source n × (H.get_all n h ≡ []))
      ⊎ ((¬ IsPrivate H f.source n) × (H.get_all n h ≡ H.get_all n f.source))

  upstream_headers-Carries :
      (url : Url) (n : Text)
      → n ≢ text "host"
      → n ≢ text "if-none-match"
      → n ≢ text "if-modified-since"
      → Carries n (upstream_headers H U R f url)
  unfolding upstream_headers
  upstream_headers-Carries url n host none_match modified =
      let kept =
        get_all-revalidating H f.cached (forward_headers H U f.source url) n none_match modified in
      rw kept (forward_headers-get_all H U f.source url n host)

  -- Every hop gets the client's own headers: of a header other than `Host` and the two validators
  -- each request of the loop, also one to another host behind a redirect, carries no value if it is
  -- private and exactly the client's values if it is not. So `Authorization` survives redirects.
  pub fetch-Carries :
      (target : Url) (n : Text)
      → n ≢ text "host"
      → n ≢ text "if-none-match"
      → n ≢ text "if-modified-since"
      → All (λ request. Carries n request.1) (fetch H U R f target).0
  unfolding fetch
  fetch-Carries target n host none_match modified =
      let carries = λ (url : Url). upstream_headers-Carries url n host none_match modified in
      follow_ind (λ _ _ r. All (λ request. Carries n request.1) r.0)
        (λ left url e. (carries url, tt)) (λ left url resp done over. (carries url, tt))
        (λ left url next r ok_next rest. (carries url, rest)) f.max_redirects target
