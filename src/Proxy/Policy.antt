-- ===== src/Proxy/Policy.antt =====
-- What a request must satisfy to pass `validate_target_policy`.
use corsget.Prelude.{
  ◌≡◌, ◌↔◌, ◌⊎◌, inl, inr, true, false, not, Option, none, some, List, [], ◌∷◌, arith, ok, is_empty,
  Option-cases, Bool-cases,
}
use corsget.Text.{Text, text}
use corsget.Text.Equality.{text_eq_iff}
use corsget.External.Urls.{Urls}
use corsget.External.Regexes.{Regexes}
use corsget.Extractors.{Origin}
use corsget.Matcher.{MatchPolicy, is_allowed, has_whitelist}
use corsget.Matcher.Decision.{Allowed, is_allowed_iff}
use corsget.Proxy.{is_http_scheme, validate_origin, validate_host, validate_target_policy}

occupied_iff {ℓ} : {A : Type ℓ} (xs : List A) → (not (is_empty xs) ≡ false) ↔ (xs ≡ [])
occupied_iff [] = ground arith
occupied_iff (x ∷ xs) = ground arith

pub is_http_scheme_iff :
    (s : Text) → (is_http_scheme s ≡ true) ↔ ((s ≡ text "http") ⊎ (s ≡ text "https"))
is_http_scheme_iff s = ground (arith, text_eq_iff s (text "http"), text_eq_iff s (text "https"))

module _ (U : Urls) (R : Regexes) (policy : MatchPolicy R) where
  open U use {Url, scheme, host_str}

  -- The requesting origin is acceptable: its host is allowed, or there is none and none is demanded.
  abbrev pub OriginAccepted : Origin → Type 0
  OriginAccepted origin = elim origin.host [
    | some host ↦ Allowed R policy.origin host
    | none ↦ policy.origin.whitelist ≡ []
  ]

  -- What the policy demands, in the words of the lists.
  pub record Permitted (url : Url) (origin : Origin) : Type 0 where
    pub proxyable : (scheme url ≡ text "http") ⊎ (scheme url ≡ text "https")
    pub host : Text
    pub has_host : host_str url ≡ some host
    pub target_allowed : Allowed R policy.target host
    pub origin_accepted : OriginAccepted origin

  validate_origin_iff :
      (origin : Origin) → (validate_origin U R policy origin ≡ ok tt) ↔ OriginAccepted origin
  unfolding validate_origin has_whitelist
  validate_origin_iff origin = by_host origin.host
    where
      by_host :
          (o : Option Text)
          → (validate_origin U R policy (record { host = o }) ≡ ok tt)
            ↔ OriginAccepted (record { host = o })
      by_host (some h) = let allowed = is_allowed_iff R policy.origin h in ground arith
      by_host none = let occupied = occupied_iff policy.origin.whitelist in ground arith

  policy_passed :
      (url : Url) (origin : Origin)
      → validate_target_policy U R policy url origin ≡ ok tt
      → Permitted url origin
  unfolding validate_target_policy validate_host
  policy_passed url origin h = elim (Bool-cases (is_http_scheme (scheme url))) [
    | inr other ↦ cc (rw (other, validate_target_policy) at h)
    | inl web ↦ elim (Option-cases (host_str url)) [
      | inl bare ↦ cc (rw (web, bare, validate_target_policy) at h)
      | inr (host, named) ↦ elim (Bool-cases (is_allowed R policy.target host)) [
        | inr refused ↦ cc (rw (web, named, refused, validate_target_policy, validate_host) at h)
        | inl allowed ↦ record {
          proxyable = (is_http_scheme_iff (scheme url)).0 web;
          host = host;
          has_host = named;
          target_allowed = (is_allowed_iff R policy.target host).0 allowed;
          origin_accepted =
              (validate_origin_iff origin).0
                (rw (web, named, allowed, validate_target_policy, validate_host) at h);
        }
      ]
    ]
  ]

  Permitted-passes :
      (url : Url) (origin : Origin)
      → Permitted url origin
      → validate_target_policy U R policy url origin ≡ ok tt
  unfolding validate_target_policy validate_host
  Permitted-passes url origin p =
      rw
        (
          (is_http_scheme_iff (scheme url)).1 p.proxyable,
          p.has_host,
          (is_allowed_iff R policy.target p.host).1 p.target_allowed,
        )
        ((validate_origin_iff origin).1 p.origin_accepted)

  -- A target passes exactly when its scheme is http or https, it has a host that the target lists
  -- allow, and the requesting origin is allowed or, where there is none, the origin whitelist is empty.
  pub validate_target_policy_iff :
      (url : Url) (origin : Origin)
      → (validate_target_policy U R policy url origin ≡ ok tt) ↔ Permitted url origin
  validate_target_policy_iff url origin = (policy_passed url origin, Permitted-passes url origin)
