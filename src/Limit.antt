-- ===== src/Limit.antt =====
-- src/limit.rs: byte counters per key and window, the cap on one response, and the metered stream.
-- An `Instant` or a `Duration` is a number of nanoseconds. Readings of the clock are arguments.
pub mod Windows
pub mod Tiers
pub mod Guard
pub mod Stream
mod Tests
use corsget.Prelude.{
  ℕ, suc, ◌+◌, ◌-◌, ◌*◌, ◌/◌, Bool, true, false, ◌&&◌, not, Option, none, some, List, [], ◌∷◌, map,
  Result, ok, err, ltb, leb, ◌==◌, if◌then◌else◌, saturating_add, length,
}
use corsget.Text.{Text}
use corsget.External.Maps.{Maps}

abbrev pub nanos_per_sec : ℕ
nanos_per_sec = 1_000_000_000

-- `config::LimitTier`: `max` units in `window` seconds.
pub record LimitTier : Type 0 where
  pub window : ℕ
  pub max : ℕ

pub record Window : Type 0 where
  pub period : ℕ
  pub max : ℕ

pub data BandwidthError : Type 0 where
  result_exceeded : (used max : ℕ) → BandwidthError
  connection_exceeded : (max secs : ℕ) → BandwidthError

pub record WindowState : Type 0 where
  pub used : ℕ
  pub window_start : ℕ

-- `WindowState::new`.
abbrev pub new_window : ℕ → WindowState
new_window now = record { used = 0; window_start = now }

-- The reset at the head of `WindowState::charge`.
unfoldable pub roll : ℕ → Window → WindowState → WindowState
roll now window s =
    if leb window.period (now - s.window_start) then record { used = 0; window_start = now } else s

-- `WindowState::charge`. The state is kept, with the reset, also where the charge is refused.
unfoldable pub charge_window :
    ℕ → ℕ → Window → WindowState → WindowState × Result BandwidthError (Unit {0})
unfolding roll
charge_window now n window s =
    let s' = roll now window s in
    let new_used = saturating_add s'.used n in
    if ltb window.max new_used
    then (s', err (connection_exceeded window.max (window.period / nanos_per_sec)))
    else (record s' { used = new_used }, ok tt)

-- `first_error.get_or_insert(error)`.
abbrev pub get_or_insert :
    Option BandwidthError → Result BandwidthError (Unit {0}) → Option BandwidthError
get_or_insert (some e) r = some e
get_or_insert none (ok _) = none
get_or_insert none (err e) = some e

-- `first_error.map_or(Ok(()), Err)`.
abbrev pub to_result : Option BandwidthError → Result BandwidthError (Unit {0})
to_result none = ok tt
to_result (some e) = err e

module _ (D : Maps WindowState) where
  open D use {Map, empty, find, store}

  -- One map for each tier.
  abbrev pub BandwidthLimiter : Type 0
  BandwidthLimiter = List (Window × Map)

  -- `BandwidthLimiter::new`.
  unfoldable pub new_limiter : List LimitTier → BandwidthLimiter
  new_limiter [] = []
  new_limiter (t ∷ ts) =
      (record { period = t.window * nanos_per_sec; max = t.max }, empty) ∷ new_limiter ts

  -- `map.entry(bucket).or_insert_with(WindowState::new)`; `now` is read only for a new entry.
  abbrev pub entry_or_new : ℕ → Text → Map → WindowState
  entry_or_new now bucket m = elim (find bucket m) [ none ↦ new_window now | some s ↦ s ]

  -- The loop of `BandwidthLimiter::charge`. The clock gives a pair for each tier that is left: the
  -- reading for a new entry and the one in `WindowState::charge`.
  unfoldable pub charge_tiers :
      (ℕ → ℕ × ℕ)
      → Text
      → ℕ
      → Option BandwidthError
      → BandwidthLimiter
      → BandwidthLimiter × Option BandwidthError
  charge_tiers clock bucket n first [] = ([], first)
  charge_tiers clock bucket n first ((window, m) ∷ tiers) =
      let (s, r) =
        charge_window (clock (length tiers)).1 n window
          (entry_or_new (clock (length tiers)).0 bucket m) in
      let (tiers', first') = charge_tiers clock bucket n (get_or_insert first r) tiers in
      ((window, store bucket s m) ∷ tiers', first')

  -- `BandwidthLimiter::charge`.
  unfoldable pub charge :
      (ℕ → ℕ × ℕ)
      → Text
      → ℕ
      → BandwidthLimiter
      → BandwidthLimiter × Result BandwidthError (Unit {0})
  charge clock bucket n tiers =
      let (tiers', first) = charge_tiers clock bucket n none tiers in (tiers', to_result first)

pub record ResultSizeGuard : Type 0 where
  pub used : ℕ
  pub max : ℕ

-- `ResultSizeGuard::new`.
abbrev pub new_guard : ℕ → ResultSizeGuard
new_guard max = record { used = 0; max = max }

-- `ResultSizeGuard::would_exceed`.
unfoldable pub would_exceed : ResultSizeGuard → ℕ → Bool
would_exceed g n = not (g.max == 0) && ltb g.max n

-- `ResultSizeGuard::charge`.
unfoldable pub charge_guard :
    ResultSizeGuard → ℕ → ResultSizeGuard × Result BandwidthError (Unit {0})
charge_guard g n =
    let used = saturating_add g.used n in
    if g.max == 0
    then (g, ok tt)
    else if ltb g.max used
    then (record g { used = used }, err (result_exceeded used g.max))
    else (record g { used = used }, ok tt)

pub data MeteredError : Type 0 where
  upstream : Text → MeteredError
  result_exceeded : (used max : ℕ) → MeteredError
  connection_exceeded : (max secs : ℕ) → MeteredError

-- `From<BandwidthError> for MeteredError`.
unfoldable pub to_metered : BandwidthError → MeteredError
to_metered (BandwidthError.result_exceeded used max) = MeteredError.result_exceeded used max
to_metered (BandwidthError.connection_exceeded max secs) = MeteredError.connection_exceeded max secs

module _ (D : Maps WindowState) where
  -- `metered_stream`: the items that the wrapped stream yields for the chunks of the inner one, and
  -- the limiter behind them. The clock gives the readings for each chunk that is left. Between two
  -- chunks `others` is what concurrent streams do to the shared limiter.
  unfoldable pub metered_stream :
      (ℕ → ℕ → ℕ × ℕ)
      → (ℕ → BandwidthLimiter D → BandwidthLimiter D)
      → Text
      → BandwidthLimiter D
      → ResultSizeGuard
      → List (Result Text Text)
      → List (Result MeteredError Text) × BandwidthLimiter D
  metered_stream clock others bucket limiter guard [] = ([], limiter)
  metered_stream clock others bucket limiter guard (err e ∷ inner) =
      (err (upstream e) ∷ [], limiter)
  metered_stream clock others bucket limiter guard (ok chunk ∷ inner) =
      let n = length chunk in
      let (guard', charged) = charge_guard guard n in
      let limiter' = (charge D (clock (length inner)) bucket n (others (length inner) limiter)).0 in
      let (items, final) = metered_stream clock others bucket limiter' guard' inner in
      elim charged [ err e ↦ (err (to_metered e) ∷ [], limiter) | ok _ ↦ (ok chunk ∷ items, final) ]
