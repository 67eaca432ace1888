-- ===== src/External/Limits.antt =====
-- The crate `axum-limit`: counters of requests in a shared state. A snapshot is the answer of a check.
use corsget.Prelude.{ℕ, Bool, Result}
use corsget.Text.{Text}

pub record Limits : Type 1 where
  pub State : Type 0
  pub Snapshot : Type 0
  -- `check(key, Quota::new(max, period_ms))`, by the storage key.
  pub check : Text → (max period_ms : ℕ) → State → State × Result Text Snapshot
  pub allowed : Snapshot → Bool
