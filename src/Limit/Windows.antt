-- ===== src/Limit/Windows.antt =====
-- `WindowState::charge` over sequences of charges: what one window lets through.
use corsget.Prelude.{
  ℕ, ◌+◌, ◌-◌, ◌/◌, ◌≤◌, ◌<◌, ◌≡◌, ◌⊎◌, List, [], ◌∷◌, arith, Result, ok, err, leb, if◌then◌else◌,
  u64_max, All,
}
use corsget.Limit.{
  Window, WindowState, BandwidthError, connection_exceeded, charge_window, nanos_per_sec,
}

abbrev pub bytes_if_ok : ℕ → Result BandwidthError (Unit {0}) → ℕ
bytes_if_ok n (ok _) = n
bytes_if_ok n (err _) = 0

-- A sequence of charges `(now, n)`: the last state, and the bytes of the charges that were accepted.
unfoldable pub run_charges : Window → WindowState → List (ℕ × ℕ) → WindowState × ℕ
run_charges w s [] = (s, 0)
run_charges w s ((now, n) ∷ cs) =
    let (s', r) = charge_window now n w s in
    let (final, total) = run_charges w s' cs in (final, bytes_if_ok n r + total)

-- The reading falls into the window that began at `start`.
abbrev pub Within : Window → ℕ → ℕ × ℕ → Type 0
Within w start c = (start ≤ c.0) × (c.0 < start + w.period)

-- Under a maximum below the greatest u64, a charge is refused exactly when the bytes that the window
-- holds by now, with the new ones, pass the maximum; the bytes of an elapsed window do not count. A
-- refused charge adds nothing, an accepted one adds its bytes.
pub charge_window_lem :
    (now n : ℕ) (w : Window) (s : WindowState)
    → w.max < u64_max
    → let held = if leb w.period (now - s.window_start) then 0 else s.used in
      ((charge_window now n w s).1 ≡ ok tt)
        × (held + n ≤ w.max)
        × ((charge_window now n w s).0.used ≡ held + n)
      ⊎ ((charge_window now n w s).1 ≡ err (connection_exceeded w.max (w.period / nanos_per_sec)))
        × (w.max < held + n)
        × ((charge_window now n w s).0.used ≡ held)
unfolding charge_window
charge_window_lem now n w s small = ground arith

charge_window-Within :
    (now n : ℕ) (w : Window) (s : WindowState)
    → w.max < u64_max
    → s.used ≤ w.max
    → Within w s.window_start (now, n)
    → ((charge_window now n w s).0.used ≡ s.used + bytes_if_ok n (charge_window now n w s).1)
      × ((charge_window now n w s).0.used ≤ w.max)
      × ((charge_window now n w s).0.window_start ≡ s.window_start)
unfolding charge_window
charge_window-Within now n w s small fits within = ground arith

-- Under a maximum below the greatest u64 and from a counter within it, while the clock stays in one
-- window, the counter is what was there before with the sum of the accepted charges, and it never
-- passes the maximum.
pub run_charges-Within :
    (w : Window) (s : WindowState) (cs : List (ℕ × ℕ))
    → w.max < u64_max
    → s.used ≤ w.max
    → All (Within w s.window_start) cs
    → ((run_charges w s cs).0.used ≡ s.used + (run_charges w s cs).1)
      × (s.used + (run_charges w s cs).1 ≤ w.max)
unfolding run_charges
run_charges-Within w s [] small fits within = omega arith
run_charges-Within w s ((now, n) ∷ cs) small fits within =
    let (sum, bounded, start) = charge_window-Within now n w s small fits within.0 in
    let later : All (Within w (charge_window now n w s).0.window_start) cs = rw start within.1 in
    omega (arith, run_charges-Within w (charge_window now n w s).0 cs small bounded later)
