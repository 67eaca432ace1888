-- ===== src/Disk/Chains.antt =====
-- The rules for a chain of operations in which an error returns early.
use corsget.Prelude.{◌≡◌, inl, inr, ok, Result-cases}
use corsget.Disk.{Files, Disk, Io, ◌>>=◌}

module _ {A B : Type 0} (operation : Io A) (continue : A → Io B) (disk : Disk) where
  -- The chain ends with the early error, or with what the rest gives.
  pub bind-OnFiles {ℓ} :
      (P : Files → Type ℓ)
      → P (operation disk).0.files
      → ((a : A) → (operation disk).1 ≡ ok a → P (continue a (operation disk).0).0.files)
      → P ((operation >>= continue) disk).0.files
  bind-OnFiles P early late = elim (Result-cases (operation disk).1) [
    | inl (a, good) ↦ rw (good, ◌>>=◌) (late a good)
    | inr (error, bad) ↦ rw (bad, ◌>>=◌) early
  ]

  pub bind-after :
      (a : A)
      → (operation disk).1 ≡ ok a
      → (operation >>= continue) disk ≡ continue a (operation disk).0
  bind-after a good = rw (good, ◌>>=◌)

  pub bind-ok :
      (b : B)
      → ((operation >>= continue) disk).1 ≡ ok b
      → (a : A) × ((operation disk).1 ≡ ok a)
        × ((operation >>= continue) disk ≡ continue a (operation disk).0)
  bind-ok b e = elim (Result-cases (operation disk).1) [
    | inl (a, good) ↦ (a, good, rw (good, ◌>>=◌))
    | inr (error, bad) ↦ cc (rw (bad, ◌>>=◌) at e)
  ]
