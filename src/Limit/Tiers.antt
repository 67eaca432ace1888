-- ===== src/Limit/Tiers.antt =====
-- `BandwidthLimiter::charge`, over all tiers of one bucket.
use corsget.Prelude.{
  ℕ, suc, inl, inr, ◌≡◌, refl, ap, ◌∙◌, sym, Option, none, some, List, [], ◌∷◌, arith, Result, ok,
  err, length, if◌then◌else◌, find_map, Bool-cases,
}
use corsget.Text.{Text, text_eq}
use corsget.Text.Equality.{text_eq_iff}
use corsget.External.Maps.{Maps}
use corsget.Limit.{
  Window, WindowState, BandwidthError, new_window, charge_window, get_or_insert, to_result,
  BandwidthLimiter, entry_or_new, charge_tiers, charge,
}

-- The counters of one bucket: for each tier, the state if there is one.
abbrev pub Counters : Type 0
Counters = List (Window × Option WindowState)

abbrev state_or_new : ℕ → Option WindowState → WindowState
state_or_new now none = new_window now
state_or_new now (some s) = s

-- Each tier charged on its own: the new counters, and what each tier answers.
unfoldable pub charge_each : (ℕ → ℕ × ℕ) → ℕ → Counters → Counters
charge_each clock n [] = []
charge_each clock n ((w, o) ∷ cs) =
    (w, some (charge_window (clock (length cs)).1 n w (state_or_new (clock (length cs)).0 o)).0)
    ∷ charge_each clock n cs

unfoldable pub answers : (ℕ → ℕ × ℕ) → ℕ → Counters → List (Result BandwidthError (Unit {0}))
answers clock n [] = []
answers clock n ((w, o) ∷ cs) =
    (charge_window (clock (length cs)).1 n w (state_or_new (clock (length cs)).0 o)).1
    ∷ answers clock n cs

abbrev pub error_of : Result BandwidthError (Unit {0}) → Option BandwidthError
error_of (ok _) = none
error_of (err e) = some e

-- The first error, or what comes later.
abbrev or_later : Option BandwidthError → Option BandwidthError → Option BandwidthError
or_later none later = later
or_later (some e) later = some e

or_later-get_or_insert :
    (r : Result BandwidthError (Unit {0})) (rs : List (Result BandwidthError (Unit {0})))
    → or_later (get_or_insert none r) (find_map error_of rs) ≡ find_map error_of (r ∷ rs)
unfolding find_map
or_later-get_or_insert (ok _) rs = refl
or_later-get_or_insert (err e) rs = refl

module _ (D : Maps WindowState) where
  open D use {Map, find, store, find-store}

  unfoldable pub counters : Text → BandwidthLimiter D → Counters
  counters j [] = []
  counters j ((w, m) ∷ tiers) = (w, find j m) ∷ counters j tiers

  length-counters :
      (j : Text) (tiers : BandwidthLimiter D) → length (counters j tiers) ≡ length tiers
  unfolding counters
  length-counters j [] = refl
  length-counters j (t ∷ tiers) = ap suc (length-counters j tiers)

  entry_or_new-find :
      (now : ℕ) (j : Text) (m : Map) → entry_or_new D now j m ≡ state_or_new now (find j m)
  entry_or_new-find now j m = ground arith

  charge_tiers-counters :
      (clock : ℕ → ℕ × ℕ) (bucket : Text) (n : ℕ) (first : Option BandwidthError)
      (tiers : BandwidthLimiter D) (j : Text)
      → counters j (charge_tiers D clock bucket n first tiers).0
        ≡ (if text_eq j bucket then charge_each clock n (counters j tiers) else counters j tiers)
  unfolding charge_tiers counters charge_each
  charge_tiers-counters clock bucket n first [] j = ground arith
  charge_tiers-counters clock bucket n first ((w, m) ∷ tiers) j =
      let (s, r) =
        charge_window (clock (length tiers)).1 n w
          (entry_or_new D (clock (length tiers)).0 bucket m) in
      let later = charge_tiers-counters clock bucket n (get_or_insert first r) tiers j in
      elim (Bool-cases (text_eq j bucket)) [
        | inl same ↦
            let found : find bucket m ≡ find j m =
              ap (λ k. find k m) (sym ((text_eq_iff j bucket).0 same)) in
            rw (find-store, same, length-counters j tiers, ← found)
              (rw (← entry_or_new-find (clock (length tiers)).0 bucket m)
                (ap (λ cs. (w, some s) ∷ cs) (rw same at later)))
        | inr other ↦ rw (find-store, other) (ap (λ cs. (w, find j m) ∷ cs) (rw other at later))
      ]

  charge_tiers-first :
      (clock : ℕ → ℕ × ℕ) (bucket : Text) (n : ℕ) (first : Option BandwidthError)
      (tiers : BandwidthLimiter D)
      → (charge_tiers D clock bucket n first tiers).1
        ≡ or_later first (find_map error_of (answers clock n (counters bucket tiers)))
  unfolding charge_tiers counters answers find_map
  charge_tiers-first clock bucket n none [] = refl
  charge_tiers-first clock bucket n (some e) [] = refl
  charge_tiers-first clock bucket n (some e) ((w, m) ∷ tiers) =
      charge_tiers-first clock bucket n (some e) tiers
  charge_tiers-first clock bucket n none ((w, m) ∷ tiers) =
      let (s, r) =
        charge_window (clock (length tiers)).1 n w
          (entry_or_new D (clock (length tiers)).0 bucket m) in
      charge_tiers-first clock bucket n (get_or_insert none r) tiers
      ∙ or_later-get_or_insert r (answers clock n (counters bucket tiers))
      ∙ rw (length-counters bucket tiers, ← entry_or_new-find (clock (length tiers)).0 bucket m)

  -- Charging a bucket charges each of its tiers as if that tier were alone, also behind a tier that
  -- refuses, and changes no counter of another bucket.
  pub charge-counters :
      (clock : ℕ → ℕ × ℕ) (bucket : Text) (n : ℕ) (tiers : BandwidthLimiter D) (j : Text)
      → counters j (charge D clock bucket n tiers).0
        ≡ (if text_eq j bucket then charge_each clock n (counters j tiers) else counters j tiers)
  unfolding charge
  charge-counters clock bucket n tiers j = charge_tiers-counters clock bucket n none tiers j

  -- The result of a charge is the answer of the first tier that refuses; with no such tier it is ok.
  pub charge-answers :
      (clock : ℕ → ℕ × ℕ) (bucket : Text) (n : ℕ) (tiers : BandwidthLimiter D)
      → (charge D clock bucket n tiers).1
        ≡ to_result (find_map error_of (answers clock n (counters bucket tiers)))
  unfolding charge
  charge-answers clock bucket n tiers = ap to_result (charge_tiers-first clock bucket n none tiers)
