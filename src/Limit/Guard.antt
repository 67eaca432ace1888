-- ===== src/Limit/Guard.antt =====
-- The cap on one response.
use corsget.Prelude.{ℕ, ◌≤◌, ◌≡◌, ◌↔◌, true, arith, err, u64_max}
use corsget.Limit.{result_exceeded, would_exceed, new_guard, charge_guard}

-- The early test of a declared length agrees with the metering: a length that fits `u64` is refused
-- exactly when charging that many bytes to a fresh guard fails.
pub would_exceed-charge_guard :
    (max n : ℕ)
    → n ≤ u64_max
    → (would_exceed (new_guard max) n ≡ true)
      ↔ ((charge_guard (new_guard max) n).1 ≡ err (result_exceeded n max))
unfolding would_exceed charge_guard
would_exceed-charge_guard max n h = ground arith
