-- ===== src/Limit/Stream.antt =====
-- `metered_stream`: the cap on a response, and the tiers behind it.
use corsget.Prelude.{
  ℕ, ◌+◌, ◌≤◌, ◌<◌, ◌≡◌, ◌≢◌, refl, ap, ◌⊎◌, inl, inr, List, [], ◌∷◌, arith, Result, ok, err,
  Result-cases, length, u64_max,
}
use corsget.Text.{Text}
use corsget.External.Maps.{Maps}
use corsget.Limit.{
  WindowState, BandwidthLimiter, charge, ResultSizeGuard, charge_guard, metered_stream,
}

-- The bytes of the chunks that a stream yields.
unfoldable pub bytes_of {ℓ} : {E : Type ℓ} → List (Result E Text) → ℕ
bytes_of [] = 0
bytes_of (ok chunk ∷ items) = length chunk + bytes_of items
bytes_of (err _ ∷ items) = bytes_of items

-- A stream of chunks that ends with no error.
abbrev pub chunks {ℓ} : {E : Type ℓ} → List Text → List (Result E Text)
chunks [] = []
chunks (c ∷ cs) = ok c ∷ chunks cs

charge_guard-capped :
    (g : ResultSizeGuard) (n : ℕ)
    → g.max ≢ 0
    → g.max < u64_max
    → g.used ≤ g.max
    → ((charge_guard g n).0.max ≡ g.max)
      × ((charge_guard g n).1 ≡ ok tt
          → ((charge_guard g n).0.used ≡ g.used + n) × (g.used + n ≤ g.max))
unfolding charge_guard
charge_guard-capped g n cap small fits = grind arith

charge_guard-fits :
    (g : ResultSizeGuard) (n : ℕ)
    → (g.max ≡ 0) ⊎ ((g.used + n ≤ g.max) × (g.max ≤ u64_max))
    → ((charge_guard g n).1 ≡ ok tt)
      × ((charge_guard g n).0.max ≡ g.max)
      × ((g.max ≡ 0) ⊎ ((charge_guard g n).0.used ≡ g.used + n))
unfolding charge_guard
charge_guard-fits g n h = grind arith

module _ (D : Maps WindowState) where
  -- Under a cap the chunks that reach the client never add up to more than the cap, whatever the
  -- upstream declares or sends. (At a cap of u64::MAX the saturating counter cannot pass it.)
  pub metered_stream-le_cap :
      (clock : ℕ → ℕ → ℕ × ℕ) (others : ℕ → BandwidthLimiter D → BandwidthLimiter D) (bucket : Text)
      (limiter : BandwidthLimiter D) (g : ResultSizeGuard) (inner : List (Result Text Text))
      → g.max ≢ 0
      → g.max < u64_max
      → g.used ≤ g.max
      → g.used + bytes_of (metered_stream D clock others bucket limiter g inner).0 ≤ g.max
  unfolding metered_stream bytes_of
  metered_stream-le_cap clock others bucket limiter g [] cap small fits = omega arith
  metered_stream-le_cap clock others bucket limiter g (err e ∷ inner) cap small fits = omega arith
  metered_stream-le_cap clock others bucket limiter g (ok chunk ∷ inner) cap small fits =
      let n = length chunk in
      let k = length inner in
      let limiter' = (charge D (clock k) bucket n (others k limiter)).0 in
      let (same, counted) = charge_guard-capped g n cap small fits in
      elim (Result-cases (charge_guard g n).1) [
        | inr (e, refused) ↦ rw (refused, metered_stream) (omega arith)
        | inl (_, passed) ↦
            let sum = counted passed in
            rw (passed, metered_stream)
              (omega (
                arith,
                metered_stream-le_cap clock others bucket limiter' (charge_guard g n).0 inner
                    (omega arith) (omega arith) (omega arith),
              ))
      ]

  -- The connection tiers are soft: what the client receives does not depend on the tiers, on their
  -- counters, on the clock, on the bucket or on concurrent streams.
  pub metered_stream_soft :
      (clock clock' : ℕ → ℕ → ℕ × ℕ) (others others' : ℕ → BandwidthLimiter D → BandwidthLimiter D)
      (bucket bucket' : Text) (limiter limiter' : BandwidthLimiter D) (g : ResultSizeGuard)
      (inner : List (Result Text Text))
      → (metered_stream D clock others bucket limiter g inner).0
        ≡ (metered_stream D clock' others' bucket' limiter' g inner).0
  unfolding metered_stream
  metered_stream_soft clock clock' others others' bucket bucket' limiter limiter' g [] = refl
  metered_stream_soft clock clock' others others' bucket bucket' limiter limiter' g
        (err e ∷ inner) =
      refl
  metered_stream_soft clock clock' others others' bucket bucket' limiter limiter' g (ok c ∷ inner) =
      let k = length inner in
      elim (Result-cases (charge_guard g (length c)).1) [
        | inr (e, refused) ↦ rw (refused, metered_stream)
        | inl (_, passed) ↦
            rw (passed, metered_stream)
              (ap (λ items. ok c ∷ items)
                (metered_stream_soft clock clock' others others' bucket bucket'
                  (charge D (clock k) bucket (length c) (others k limiter)).0
                  (charge D (clock' k) bucket' (length c) (others' k limiter')).0
                  (charge_guard g (length c)).0 inner))
      ]

  -- A body without an upstream error that fits the cap, or any such body without a cap, reaches the
  -- client whole, chunk by chunk, with no error at its end.
  pub metered_stream-chunks :
      (clock : ℕ → ℕ → ℕ × ℕ) (others : ℕ → BandwidthLimiter D → BandwidthLimiter D) (bucket : Text)
      (limiter : BandwidthLimiter D) (g : ResultSizeGuard) (body : List Text)
      → (g.max ≡ 0) ⊎ ((g.used + bytes_of (chunks {E = Text} body) ≤ g.max) × (g.max ≤ u64_max))
      → (metered_stream D clock others bucket limiter g (chunks body)).0 ≡ chunks body
  unfolding metered_stream bytes_of
  metered_stream-chunks clock others bucket limiter g [] h = refl
  metered_stream-chunks clock others bucket limiter g (c ∷ body) h =
      let k = length (chunks {E = Text} body) in
      let (passed, same, counted) = charge_guard-fits g (length c) (omega arith) in
      rw (passed, metered_stream)
        (ap (λ items. ok c ∷ items)
          (metered_stream-chunks clock others bucket
            (charge D (clock k) bucket (length c) (others k limiter)).0
            (charge_guard g (length c)).0 body (omega arith)))
