-- ===== src/Cache/Selection.antt =====
-- Which requests the cache serves, and for how long.
use corsget.Prelude.{
  ℕ, ◌<◌, ◌≡◌, refl, sym, ap, ◌∙◌, ◌↔◌, inl, inr, false, not, Option, none, some, List, [], ◌∷◌,
  arith, if◌then◌else◌, filter, last, min, is_empty, Bool-cases, OnSome-eq, ◌==◌,
}
use corsget.Text.{Text, text}
use corsget.External.Http.{Http}
use corsget.External.Urls.{Urls}
use corsget.External.Regexes.{Regexes}
use corsget.Cache.{CachePlan}
use corsget.Cache.Rules.{CompiledRule, pattern_matches}
use corsget.Cache.Plan.{
  CacheInner, normalized_url, cache_key, is_sensitive, last_ttl, plan_for, plan,
}

abbrev or_some {ℓ} : {A : Type ℓ} → A → Option A → Option A
or_some x none = some x
or_some x (some y) = some y

last-cons {ℓ} : {A : Type ℓ} (x : A) (xs : List A) → last (x ∷ xs) ≡ or_some x (last xs)
last-cons x [] = refl
last-cons x (y ∷ ys) = rw (last-cons y ys) (settled x y (last ys))
  where
    settled : {A : Type ℓ} (x y : A) (o : Option A) → or_some y o ≡ or_some x (or_some y o)
    settled x y none = refl
    settled x y (some z) = refl

is_empty_iff : {V : Type 0} (vs : List V) → (not (is_empty vs) ≡ false) ↔ (vs ≡ [])
is_empty_iff [] = (λ _. refl, λ _. refl)
is_empty_iff (v ∷ vs) = (λ h. cc, λ h. cc)

planned :
    (key : Text) (ttl : ℕ) (p : CachePlan)
    → ((if ttl == 0 then none else some (record { key = key; ttl = ttl })) ≡ some p)
      ↔ ((p.key ≡ key) × (p.ttl ≡ ttl) × (0 < p.ttl))
planned key ttl p = elim (Bool-cases (ttl == 0)) [
  | inl zero_ttl ↦
      let is_zero : ttl ≡ 0 = ground arith in
      (λ h. cc (rw zero_ttl at h), λ (k, t, positive). absurd (omega arith))
  | inr positive_ttl ↦
      let above : 0 < ttl = ground arith in
      let made : CachePlan = record { key = key; ttl = ttl } in
      (
        λ h.
            let same : made ≡ p =
              OnSome-eq (λ q. made ≡ q) (some made) refl (rw positive_ttl at h) in
            let ttls : ttl ≡ p.ttl = ap (λ (q : CachePlan). q.ttl) same in
            (ap (λ (q : CachePlan). q.key) (sym same), sym ttls, omega arith),
        λ (k, t, positive). rw positive_ttl (rw (← k, ← t) refl),
      )
]

module _ (R : Regexes) where
  abbrev pub applicable : Text → List (CompiledRule R) → List (CompiledRule R)
  applicable subject rules = filter (λ rule. pattern_matches R rule.pattern subject) rules

  abbrev age_or : Option ℕ → Option (CompiledRule R) → Option ℕ
  age_or ttl none = ttl
  age_or ttl (some rule) = some rule.max_age

  age_or-or_some :
      (ttl : Option ℕ) (rule : CompiledRule R) (o : Option (CompiledRule R))
      → age_or (some rule.max_age) o ≡ age_or ttl (or_some rule o)
  age_or-or_some ttl rule none = refl
  age_or-or_some ttl rule (some later) = refl

  last_ttl_lem :
      (H : Http) (subject : Text) (ttl : Option ℕ) (rules : List (CompiledRule R))
      → last_ttl H R subject ttl rules ≡ age_or ttl (last (applicable subject rules))
  unfolding last_ttl filter
  last_ttl_lem H subject ttl [] = refl
  last_ttl_lem H subject ttl (rule ∷ rules) =
      elim (Bool-cases (pattern_matches R rule.pattern subject)) [
        | inl hit ↦
            rw (hit, last_ttl, filter)
              (last_ttl_lem H subject (some rule.max_age) rules
                ∙ age_or-or_some ttl rule (last (applicable subject rules))
                ∙ ap (age_or ttl) (sym (last-cons rule (applicable subject rules))))
        | inr miss ↦ rw (miss, last_ttl, filter) (last_ttl_lem H subject ttl rules)
      ]

  module _ (H : Http) where
    open H use {Headers, get_all, contains_key-get_all}

    -- The request bears none of the headers that mark a private or a partial response.
    abbrev pub IsShareable : Headers → Type 0
    IsShareable h =
        (get_all (text "authorization") h ≡ [])
        × (get_all (text "cookie") h ≡ [])
        × (get_all (text "range") h ≡ [])

    is_sensitive_iff : (h : Headers) → (is_sensitive H h ≡ false) ↔ IsShareable h
    unfolding is_sensitive
    is_sensitive_iff h =
        rw (contains_key-get_all, contains_key-get_all, contains_key-get_all)
          (ground (
            arith,
            is_empty_iff (get_all (text "authorization") h),
            is_empty_iff (get_all (text "cookie") h),
            is_empty_iff (get_all (text "range") h),
          ))

    -- The rule that decides is the last one that matches the URL.
    abbrev pub Planned : (Text → Text) → CacheInner R → Text → Headers → CachePlan → Type 0
    Planned sha256 cache subject h p =
        (rule : CompiledRule R) × (last (applicable subject cache.rules) ≡ some rule)
        × (p.key ≡ cache_key H sha256 subject h)
        × (p.ttl ≡ min rule.max_age cache.default_max_age)
        × (0 < p.ttl)

    plan_for_iff :
        (sha256 : Text → Text) (default : ℕ) (subject : Text) (h : Headers)
        (o : Option (CompiledRule R)) (p : CachePlan)
        → (plan_for H R sha256 default subject h (age_or none o) ≡ some p) ↔ (
            (rule : CompiledRule R) × (o ≡ some rule)
            × (p.key ≡ cache_key H sha256 subject h)
            × (p.ttl ≡ min rule.max_age default)
            × (0 < p.ttl))
    unfolding plan_for
    plan_for_iff sha256 default subject h none p = (λ e. cc, λ s. cc s.1)
    plan_for_iff sha256 default subject h (some rule) p =
        let decided = planned (cache_key H sha256 subject h) (min rule.max_age default) p in
        (
          λ e. let (k, t, positive) = decided.0 e in (rule, refl, k, t, positive),
          λ (chosen, same, k, t, positive).
              let ages : rule.max_age ≡ chosen.max_age =
                OnSome-eq (λ (r : CompiledRule R). rule.max_age ≡ r.max_age) (some rule) refl
                  same in
              decided.1 (k, rw ages t, positive),
        )

    -- A request gets a plan exactly when it bears no `Authorization`, `Cookie` or `Range` header and
    -- some rule matches its URL; the last one that matches decides. The lifetime of the plan is the
    -- lesser of that rule's and the default one, and positive.
    pub plan_iff :
        (U : Urls) (sha256 : Text → Text) (cache : CacheInner R) (url : U.Url) (h : Headers)
        (p : CachePlan)
        → (plan H R U sha256 cache url h ≡ some p)
          ↔ (IsShareable h × Planned sha256 cache (normalized_url U url) h p)
    unfolding plan
    plan_iff U sha256 cache url h p =
        let subject = normalized_url U url in
        let ages = last_ttl_lem H subject none cache.rules in
        let chosen =
          plan_for_iff sha256 cache.default_max_age subject h
            (last (applicable subject cache.rules)) p in
        elim (Bool-cases (is_sensitive H h)) [
          | inl private ↦ (
            λ e. cc (rw (private, plan) at e),
            λ (shareable, _). cc (private, (is_sensitive_iff h).1 shareable),
          )
          | inr open' ↦ (
            λ e. ((is_sensitive_iff h).0 open', chosen.0 (rw (open', plan, ages) at e)),
            λ (_, s). rw (open', plan, ages) (chosen.1 s),
          )
        ]
