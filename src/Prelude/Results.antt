-- ===== src/Prelude/Results.antt =====
-- Rust's `Result`, its `?` operator and `collect::<Result<Vec<_>, _>>()`.
use mathlib.Core.Path.{◌≡◌, refl, subst}
use mathlib.Core.Logic.{◌⊎◌, inl, inr, ◌↔◌}
use mathlib.Core.Option.{Option, none, some}
use mathlib.Core.List.{List, [], ◌∷◌}
use corsget.Prelude.Lists.{All}

pub data Result {ℓ κ} (E : Type κ) (A : Type ℓ) : Type (ℓ ⊔ κ) where
  ok : A → Result E A
  err : E → Result E A

infixl 5 ◌>>=◌ ◌>>◌
-- The `?` operator: the rest runs on the value, and an error returns early.
abbrev pub ◌>>=◌ {ℓ ℓ' κ} :
    {F : Type κ} {X : Type ℓ} {Y : Type ℓ'} → Result F X → (X → Result F Y) → Result F Y
err early >>= rest = err early
ok value >>= rest = rest value

abbrev pub ◌>>◌ {ℓ κ} : {F : Type κ} {Y : Type ℓ} → Result F (Unit {0}) → Result F Y → Result F Y
done >> rest = done >>= λ _. rest

-- `map_err(f)`.
abbrev pub map_err {ℓ κ μ} :
    {E : Type κ} {F : Type μ} {A : Type ℓ} → (E → F) → Result E A → Result F A
map_err f (ok a) = ok a
map_err f (err e) = err (f e)

-- `ok_or(e)`.
abbrev pub ok_or {ℓ κ} : {E : Type κ} {A : Type ℓ} → E → Option A → Result E A
ok_or e none = err e
ok_or e (some a) = ok a

-- `result.ok()`.
abbrev pub to_option {ℓ κ} : {E : Type κ} {A : Type ℓ} → Result E A → Option A
to_option (ok a) = some a
to_option (err e) = none

-- `iter().map(f).collect::<Result<Vec<_>, _>>()`: the first error ends the collection.
unfoldable pub collect {ℓ ℓ' κ} :
    {E : Type κ} {A : Type ℓ} {B : Type ℓ'} → (A → Result E B) → List A → Result E (List B)
collect f [] = ok []
collect f (x ∷ xs) = do y ← f x; ys ← collect f xs; ok (y ∷ ys)

pub Result-cases {ℓ κ} :
    {E : Type κ} {A : Type ℓ} (r : Result E A) → ((a : A) × (r ≡ ok a)) ⊎ ((e : E) × (r ≡ err e))
Result-cases (ok a) = inl (a, refl)
Result-cases (err e) = inr (e, refl)

-- `P` holds of the result, if there is one.
abbrev pub OnOk {ℓ κ μ} : {E : Type κ} {A : Type ℓ} → (A → Type μ) → Result E A → Type μ
OnOk P (ok a) = P a
OnOk P (err e) = Unit

pub OnOk-eq {ℓ κ μ} :
    {E : Type κ} {A : Type ℓ} (P : A → Type μ) (r : Result E A) {a : A} → OnOk P r → r ≡ ok a → P a
OnOk-eq P r h e = subst (OnOk P) e h

-- The rule for bind: what the first call establishes, the second may use.
pub bind-OnOk {ℓ ℓ' κ μ ν} :
    {E : Type κ} {A : Type ℓ} {B : Type ℓ'} (P : A → Type μ) (Q : B → Type ν) (r : Result E A)
    (f : A → Result E B)
    → OnOk P r
    → ((a : A) → P a → OnOk Q (f a))
    → OnOk Q (r >>= f)
bind-OnOk P Q (ok a) f h k = k a h
bind-OnOk P Q (err e) f h k = tt

-- What every successful call establishes holds of every element that was collected.
pub collect-All {ℓ ℓ' κ μ} :
    {E : Type κ} {A : Type ℓ} {B : Type ℓ'} (P : B → Type μ) (f : A → Result E B)
    → ((x : A) → OnOk P (f x))
    → (xs : List A) → OnOk (All P) (collect f xs)
unfolding collect
collect-All P f sound [] = tt
collect-All P f sound (x ∷ xs) =
    bind-OnOk P (All P) (f x) _ (sound x) λ y p.
      bind-OnOk (All P) (All P) (collect f xs) _ (collect-All P f sound xs) (λ ys ps. (p, ps))

pub ok-injective {ℓ κ} :
    {E : Type κ} {A : Type ℓ} {a b : A} → ◌≡◌ {A = Result E A} (ok a) (ok b) → a ≡ b
ok-injective {a} e = OnOk-eq (λ x. a ≡ x) (ok a) refl e

-- `P` holds of the value, if there is one.
abbrev pub OnSome {ℓ μ} : {A : Type ℓ} → (A → Type μ) → Option A → Type μ
OnSome P (some a) = P a
OnSome P none = Unit

pub OnSome-eq {ℓ μ} :
    {A : Type ℓ} (P : A → Type μ) (o : Option A) {a : A} → OnSome P o → o ≡ some a → P a
OnSome-eq P o h e = subst (OnSome P) e h

-- A sequence of checks passes when each of them does.
pub >>_iff {ℓ ℓ' κ} :
    {E : Type κ} {A : Type ℓ} {B : Type ℓ'} (m k : Result E (Unit {0}))
    → ((m ≡ ok tt) ↔ A)
    → ((k ≡ ok tt) ↔ B)
    → ((m >> k) ≡ ok tt) ↔ (A × B)
>>_iff (ok _) k f g = (λ h. (f.0 refl, g.0 h), λ (a, b). g.1 b)
>>_iff (err e) k f g = (λ h. cc, λ (a, b). cc (f.1 a))

-- The rule for bind where only the second call matters.
pub then-OnOk {ℓ ℓ' κ ν} :
    {E : Type κ} {A : Type ℓ} {B : Type ℓ'} (Q : B → Type ν) (r : Result E A) (f : A → Result E B)
    → ((a : A) → OnOk Q (f a))
    → OnOk Q (r >>= f)
then-OnOk Q (ok a) f k = k a
then-OnOk Q (err e) f k = tt

pub OnSome-mono {ℓ μ ν} :
    {A : Type ℓ} (P : A → Type μ) (Q : A → Type ν) (o : Option A)
    → ((a : A) → P a → Q a)
    → OnSome P o
    → OnSome Q o
OnSome-mono P Q none f h = tt
OnSome-mono P Q (some a) f h = f a h

pub OnSome-intro {ℓ μ} :
    {A : Type ℓ} (P : A → Type μ) (o : Option A) → ((a : A) → o ≡ some a → P a) → OnSome P o
OnSome-intro P none f = tt
OnSome-intro P (some a) f = f a refl
