-- ===== src/Samples/Limits.antt =====
-- A limit of requests that counts every check.
use corsget.Prelude.{ℕ, suc, Bool, ok, ltb}
use corsget.External.Limits.{Limits}

abbrev pub counting_limits : Limits
counting_limits = record {
  State = ℕ;
  Snapshot = Bool;
  check = λ key max period_ms s. (suc s, ok (ltb s max));
  allowed = λ b. b;
}
