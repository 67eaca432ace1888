-- ===== src/Limit/Tests.antt =====
-- Runs of the limits, as in the tests of src/limit.rs, and the theorems at concrete inputs.
use corsget.Prelude.{
  ℕ, ◌+◌, ◌*◌, ◌≤◌, ◌<◌, ◌≡◌, refl, ◌⊎◌, true, false, List, [], ◌∷◌, arith, ok, err, if◌then◌else◌,
  find_map, u64_max,
}
use corsget.Text.{Text, text, text_eq}
use corsget.External.Maps.{Maps}
use corsget.Samples.Maps.{list_map}
use corsget.Limit.{
  Window, WindowState, result_exceeded, connection_exceeded, roll, charge_window, BandwidthLimiter,
  new_limiter, charge_tiers, charge, new_guard, would_exceed, charge_guard, MeteredError,
  metered_stream, to_metered, to_result, nanos_per_sec,
}
use corsget.Limit.Windows.{run_charges, charge_window_lem, run_charges-Within}
use corsget.Limit.Tiers.{counters, charge_each, answers, error_of, charge-counters, charge-answers}
use corsget.Limit.Stream.{bytes_of, chunks, metered_stream-le_cap}

limits : Unit {0}
unfolding charge_window roll new_limiter charge charge_tiers charge_guard would_exceed
    metered_stream to_metered text_eq text
limits = tt

abbrev maps : Maps WindowState
maps = list_map WindowState

abbrev minute : Window
minute = record { period = 60 * nanos_per_sec; max = 100 }

abbrev still : ℕ → ℕ × ℕ
still _ = (5, 5)

abbrev two_tiers : BandwidthLimiter maps
two_tiers = (record minute { max = 5 }, []) ∷ (record minute { max = 6 }, []) ∷ []

abbrev once : BandwidthLimiter maps
once = (charge maps still (text "k") 5 two_tiers).0

abbrev twice_charged : BandwidthLimiter maps
twice_charged = (charge maps still (text "k") 2 once).0

-- The second tier is charged behind the refusal of the first, and keys are isolated.
tier_runs :
    ((charge maps still (text "k") 5 two_tiers).1 ≡ ok tt)
    × ((charge maps still (text "k") 2 once).1 ≡ err (connection_exceeded 5 60))
    × ((charge maps still (text "j") 5 twice_charged).1 ≡ ok tt)
unfolding limits corsget.Text.assoc
tier_runs = (refl, refl, refl)

guard_runs :
    ((charge_guard (record { used = 10; max = 10 }) 1).1 ≡ err (result_exceeded 11 10))
    × (would_exceed (new_guard 100) 101 ≡ true)
    × (would_exceed (new_guard 0) u64_max ≡ false)
unfolding limits
guard_runs = (refl, refl, refl)

abbrev full : WindowState
full = record { used = 90; window_start = 0 }

charge_window_lem_example :
    ((charge_window 7 20 minute full).1 ≡ ok tt)
      × (90 + 20 ≤ 100)
      × ((charge_window 7 20 minute full).0.used ≡ 90 + 20)
    ⊎ ((charge_window 7 20 minute full).1 ≡ err (connection_exceeded 100 60))
      × (100 < 110)
      × ((charge_window 7 20 minute full).0.used ≡ 90)
charge_window_lem_example = charge_window_lem 7 20 minute full (omega arith)

run_charges-Within_example :
    ((run_charges minute full ((1, 8) ∷ (2, 7) ∷ [])).0.used
      ≡ 90 + (run_charges minute full ((1, 8) ∷ (2, 7) ∷ [])).1)
    × (90 + (run_charges minute full ((1, 8) ∷ (2, 7) ∷ [])).1 ≤ 100)
run_charges-Within_example =
    run_charges-Within minute full ((1, 8) ∷ (2, 7) ∷ []) (omega arith) (omega arith) (omega arith)

charge-counters_example : counters maps (text "k") (charge maps still (text "k") 2 once).0 ≡ (
    if text_eq (text "k") (text "k")
    then charge_each still 2 (counters maps (text "k") once)
    else counters maps (text "k") once)
charge-counters_example = charge-counters maps still (text "k") 2 once (text "k")

charge-answers_example :
    (charge maps still (text "k") 2 once).1
    ≡ to_result (find_map error_of (answers still 2 (counters maps (text "k") once)))
charge-answers_example = charge-answers maps still (text "k") 2 once

abbrev readings : ℕ → ℕ → ℕ × ℕ
readings _ = still

abbrev alone : ℕ → BandwidthLimiter maps → BandwidthLimiter maps
alone _ l = l

abbrev body : List Text
body = text "abc" ∷ text "de" ∷ text "f" ∷ []

-- A body over the cap is cut at the chunk that passes it, and ends with the error.
cut_body :
    (metered_stream maps readings alone (text "k") two_tiers (new_guard 4) (chunks body)).0
    ≡ ok (text "abc") ∷ err (MeteredError.result_exceeded 5 4) ∷ []
unfolding limits
cut_body = refl

metered_stream-le_cap_example :
    0
      + bytes_of
          (metered_stream maps readings alone (text "k") two_tiers (new_guard 4) (chunks body)).0
    ≤ 4
metered_stream-le_cap_example =
    metered_stream-le_cap maps readings alone (text "k") two_tiers (new_guard 4) (chunks body)
      (omega arith) (omega arith) (omega arith)
