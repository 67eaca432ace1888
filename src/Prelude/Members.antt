-- ===== src/Prelude/Members.antt =====
-- Membership, as a derivation that can be matched, in what the list functions return.
use mathlib.Core.Path.{◌≡◌, refl, ap}
use mathlib.Core.Logic.{◌↔◌, inl, inr}
use mathlib.Core.Bool.{Bool, true, ◌||◌}
use mathlib.Core.List.{List, [], ◌∷◌, map, Memᴰ}
use native.Mathlib.Omega.{arith}
use corsget.Prelude.Tests.{Bool-cases}
use corsget.Prelude.Lists.{any}

module _ {ℓ} {A : Type ℓ} (p : A → Bool) where
  pub any-witness : (xs : List A) → any p xs ≡ true → (x : A) × Memᴰ x xs × (p x ≡ true)
  unfolding any
  any-witness [] h = cc
  any-witness (x ∷ xs) h = elim (Bool-cases (p x)) [
    | inl here ↦ (x, Memᴰ.head refl, here)
    | inr later ↦
        let (y, listed, holds) = any-witness xs (ground arith) in (y, Memᴰ.tail listed, holds)
  ]

  pub any_of_mem : (xs : List A) (x : A) → Memᴰ x xs → p x ≡ true → any p xs ≡ true
  unfolding any
  any_of_mem [] x m h = elim m [ ]
  any_of_mem (y ∷ xs) x (Memᴰ.head e) h = ground arith
  any_of_mem (y ∷ xs) x (Memᴰ.tail m) h = ground (arith, any_of_mem xs x m h)

  pub any_iff : (xs : List A) → (any p xs ≡ true) ↔ ((x : A) × Memᴰ x xs × (p x ≡ true))
  any_iff xs = (any-witness xs, λ (x, listed, holds). any_of_mem xs x listed holds)

pub any-map {ℓ κ} :
    {A : Type ℓ} {B : Type κ} (p : B → Bool) (f : A → B) (xs : List A)
    → any p (map f xs) ≡ any (λ x. p (f x)) xs
unfolding any
any-map p f [] = refl
any-map p f (x ∷ xs) = ap (λ b. p (f x) || b) (any-map p f xs)
