-- ===== src/Config/Expressions.antt =====
-- Byte expressions against the product of their factors.
use native.Mathlib.Nat.{mul_assoc}
use corsget.Prelude.{
  ℕ, zero, suc, ◌*◌, ◌≤◌, ◌<◌, ◌≡◌, refl, ap, ◌∙◌, inl, inr, some, List, [], ◌∷◌, map, All, ok,
  arith, u64_max, Option-cases, checked_mul, ok-injective,
}
use corsget.Text.{Text, split, trim, parse_u64}
use corsget.Config.{multiply_parts, eval_byte_expr}

abbrev pub product : List ℕ → ℕ
product [] = 1
product (n ∷ ns) = n * product ns

-- Every factor is a number that fits `u64`, and these are the numbers.
abbrev pub Reads : List Text → List ℕ → Type 0
Reads parts ns = map (λ part. parse_u64 (trim part)) parts ≡ map some ns

abbrev pub IsPositive : ℕ → Type 0
IsPositive n = 0 < n

le_mul : (a b : ℕ) → 0 < b → a ≤ a * b
le_mul a zero h = omega arith
le_mul a (suc b) h = ground arith

product-IsPositive : (ns : List ℕ) → All IsPositive ns → 0 < product ns
product-IsPositive [] h = omega arith
product-IsPositive (n ∷ ns) (positive, h) =
    let later = product-IsPositive ns h in let grows = le_mul n (product ns) later in omega arith

checked_mul-some : (a b m : ℕ) → checked_mul a b ≡ some m → (m ≡ a * b) × (m ≤ u64_max)
checked_mul-some a b m h = ground arith

multiply_parts_sound :
    (expr : Text) (result : ℕ) (parts : List Text) (n : ℕ)
    → result ≤ u64_max
    → multiply_parts expr result parts ≡ ok n
    → (ns : List ℕ) × Reads parts ns × (n ≡ result * product ns) × (n ≤ u64_max)
unfolding multiply_parts
multiply_parts_sound expr result [] n small h =
    let same : result ≡ n = ok-injective h in ([], refl, omega arith, omega arith)
multiply_parts_sound expr result (part ∷ parts) n small h =
    elim (Option-cases (parse_u64 (trim part))) [
      | inl bad ↦ cc (rw (bad, multiply_parts) at h)
      | inr (m, read) ↦ elim (Option-cases (checked_mul result m)) [
        | inl over ↦ cc (rw (read, multiply_parts, over) at h)
        | inr (product', fits) ↦
            let step = checked_mul-some result m product' fits in
            let (ns, reads, total, bounded) =
              multiply_parts_sound expr product' parts n step.1
                (rw (read, multiply_parts, fits) at h) in
            (
              m ∷ ns,
              rw read (ap (λ os. some m ∷ os) reads),
              total ∙ ap (λ p. p * product ns) step.0 ∙ mul_assoc result m (product ns),
              bounded,
            )
      ]
    ]

-- A byte expression that is accepted has the value it shows: each factor is a number, the value is
-- their product, and it fits `u64`, so it never wraps.
pub eval_byte_expr_sound :
    (expr : Text) (n : ℕ)
    → eval_byte_expr expr ≡ ok n
    → (ns : List ℕ) × Reads (split b'*' expr) ns × (n ≡ product ns) × (n ≤ u64_max)
unfolding eval_byte_expr
eval_byte_expr_sound expr n h =
    let (ns, reads, total, small) =
      multiply_parts_sound expr 1 (split b'*' expr) n (omega arith) h in
    (ns, reads, omega arith, small)

checked_mul-fits : (a b c : ℕ) → 0 < c → a * (b * c) ≤ u64_max → checked_mul a b ≡ some (a * b)
checked_mul-fits a b c positive small =
    let grows = le_mul (a * b) c positive in
    let assoc = mul_assoc a b c in let fits : a * b ≤ u64_max = omega arith in ground arith

multiply_parts_complete :
    (expr : Text) (result : ℕ) (parts : List Text) (ns : List ℕ)
    → Reads parts ns
    → All IsPositive ns
    → result * product ns ≤ u64_max
    → multiply_parts expr result parts ≡ ok (result * product ns)
unfolding multiply_parts
multiply_parts_complete expr result [] [] reads positive small = ap ok (omega arith)
multiply_parts_complete expr result [] (n ∷ ns) reads positive small = cc
multiply_parts_complete expr result (part ∷ parts) [] reads positive small = cc
multiply_parts_complete expr result (part ∷ parts) (n ∷ ns) reads (here, later) small =
    let fits = checked_mul-fits result n (product ns) (product-IsPositive ns later) small in
    let assoc = mul_assoc result n (product ns) in
    let rest = multiply_parts_complete expr (result * n) parts ns (cc) later (omega arith) in
    let first : parse_u64 (trim part) ≡ some n = cc in
    rw (first, multiply_parts, fits) (rest ∙ ap ok assoc)

-- An expression whose factors are positive numbers is accepted with their product whenever that
-- fits `u64`: no factor and no partial product is refused.
pub eval_byte_expr_complete :
    (expr : Text) (ns : List ℕ)
    → Reads (split b'*' expr) ns
    → All IsPositive ns
    → product ns ≤ u64_max
    → eval_byte_expr expr ≡ ok (product ns)
unfolding eval_byte_expr
eval_byte_expr_complete expr ns reads positive small =
    multiply_parts_complete expr 1 (split b'*' expr) ns reads positive (omega arith)
    ∙ ap ok (omega arith)
