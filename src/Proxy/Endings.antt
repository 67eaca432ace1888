-- ===== src/Proxy/Endings.antt =====
-- How the redirect loop may end, and the validators on the requests that it sends.
use corsget.Prelude.{
  ◌≤◌, ◌≡◌, ◌≢◌, refl, ◌∙◌, ◌⊎◌, inl, inr, false, Option, none, some, List, [], ◌∷◌, arith, Result,
  ok, err, ◌==◌, length, Bool-cases, Result-cases, OnOk, OnSome, last, map,
}
use corsget.Text.{Text, text}
use corsget.Text.Equality.{text_eq-eq-false}
use corsget.External.Http.{Http}
use corsget.External.Urls.{Urls}
use corsget.Cache.{CacheEntry, add_validator, add_validators}
use corsget.Error.{AppError}
use corsget.Proxy.{is_followable_redirect}
use corsget.Proxy.Fetch.{
  UpstreamResponse, Fetched, passed, not_modified, revalidating, pass_or_redirect, settle,
}

-- What a good end of the loop says: a response that is passed on is no redirect, it is from the last
-- URL that was asked, and it is not a 304 where an entry was cached; a confirmation is a 304 for the
-- entry that was cached.
module _ (H : Http) (U : Urls) (cached : Option CacheEntry) where
  abbrev pub GoodEnd : List (U.Url × H.Headers) → Fetched H U → Type 0
  GoodEnd trace (passed resp url) =
      (is_followable_redirect resp.status ≡ false)
      × (last (map (λ request. request.0) trace) ≡ some url)
      × ((cached ≡ none) ⊎ (resp.status ≢ 304))
  GoodEnd trace (not_modified resp entry) = (resp.status ≡ 304) × (cached ≡ some entry)

  GoodEnd-cons :
      (x : U.Url × H.Headers) (trace : List (U.Url × H.Headers)) (done : Fetched H U)
      → 1 ≤ length trace
      → GoodEnd trace done
      → GoodEnd (x ∷ trace) done
  GoodEnd-cons x [] done h g = absurd (omega arith)
  GoodEnd-cons x (y ∷ trace) (passed resp url) h g = g
  GoodEnd-cons x (y ∷ trace) (not_modified resp entry) h g = g

  pub OnOk-GoodEnd_cons :
      (x : U.Url × H.Headers) (trace : List (U.Url × H.Headers)) (r : Result AppError (Fetched H U))
      → 1 ≤ length trace
      → OnOk (GoodEnd trace) r
      → OnOk (GoodEnd (x ∷ trace)) r
  OnOk-GoodEnd_cons x trace (ok done) h g = GoodEnd-cons x trace done h g
  OnOk-GoodEnd_cons x trace (err e) h g = tt

  pass_or_redirect-GoodEnd :
      (url : U.Url) (h : H.Headers) (resp : UpstreamResponse H)
      → (cached ≡ none) ⊎ (resp.status ≢ 304)
      → OnSome (GoodEnd ((url, h) ∷ [])) (pass_or_redirect H U resp url)
  unfolding pass_or_redirect
  pass_or_redirect-GoodEnd url h resp fine =
      elim (Bool-cases (is_followable_redirect resp.status)) [
        | inl redirect ↦ rw (redirect, pass_or_redirect) tt
        | inr over ↦ rw (over, pass_or_redirect) (over, refl, fine)
      ]

get_all-add_validator :
    (H : Http) (name : Text) (o : Option Text) (h : H.Headers) (n : Text)
    → n ≢ name
    → H.get_all n (add_validator H name o h) ≡ H.get_all n h
unfolding add_validator
get_all-add_validator H name none h n other = refl
get_all-add_validator H name (some value) h n other = elim (Result-cases (H.from_str value)) [
  | inl (v, valid) ↦ rw (valid, add_validator, H.get_all-insert, text_eq-eq-false n name other)
  | inr (e, invalid) ↦ rw (invalid, add_validator)
]

pub get_all-revalidating :
    (H : Http) (cached : Option CacheEntry) (h : H.Headers) (n : Text)
    → n ≢ text "if-none-match"
    → n ≢ text "if-modified-since"
    → H.get_all n (revalidating H cached h) ≡ H.get_all n h
unfolding revalidating add_validators
get_all-revalidating H none h n none_match modified = refl
get_all-revalidating H (some entry) h n none_match modified =
    get_all-add_validator H (text "if-modified-since") entry.last_modified _ n modified
    ∙ get_all-add_validator H (text "if-none-match") entry.etag h n none_match

pub settle-GoodEnd :
    (H : Http) (U : Urls) (cached : Option CacheEntry) (url : U.Url) (h : H.Headers)
    (resp : UpstreamResponse H)
    → OnSome (GoodEnd H U cached ((url, h) ∷ [])) (settle H U cached resp url)
unfolding settle
settle-GoodEnd H U none url h resp = pass_or_redirect-GoodEnd H U none url h resp (inl refl)
settle-GoodEnd H U (some entry) url h resp = elim (Bool-cases (resp.status == 304)) [
  | inl same ↦ rw (same, settle) (ground arith, refl)
  | inr other ↦
      rw (other, settle) (pass_or_redirect-GoodEnd H U (some entry) url h resp (inr (ground arith)))
]
