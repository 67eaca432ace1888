-- ===== src/Text/Splitting.antt =====
-- Splitting at a separator and joining again.
use corsget.Prelude.{
  ℕ, ◌≡◌, refl, ◌↔◌, inl, inr, some, List, [], ◌∷◌, ◌++◌, arith, ◌==◌, Bool-cases,
}
use corsget.Text.{Text, split, push_front, join, strip_prefix}

pub split-ne-nil : (c : ℕ) (s : Text) → (p : Text) × (ps : List Text) × (split c s ≡ p ∷ ps)
unfolding split
split-ne-nil c [] = ([], [], refl)
split-ne-nil c (d ∷ s) =
    let (p, ps, e) = split-ne-nil c s in
    elim (Bool-cases (d == c)) [
      | inl same ↦ ([], split c s, rw (same, split))
      | inr other ↦ (d ∷ p, ps, rw (other, split, e))
    ]

join-push_front :
    (sep : Text) (d : ℕ) (p : Text) (ps : List Text)
    → join sep (push_front d (p ∷ ps)) ≡ d ∷ join sep (p ∷ ps)
unfolding join
join-push_front sep d p [] = refl
join-push_front sep d p (q ∷ ps) = refl

-- Joining the pieces of a split gives the text back.
pub join-split : (c : ℕ) (s : Text) → join (c ∷ []) (split c s) ≡ s
unfolding split join
join-split c [] = refl
join-split c (d ∷ s) =
    let (p, ps, e) = split-ne-nil c s in
    let ih : join (c ∷ []) (p ∷ ps) ≡ s = rw e at (join-split c s) in
    elim (Bool-cases (d == c)) [
      | inl same ↦ rw (same, split, e) (ground (arith, ih))
      | inr other ↦ rw (other, split, e, join-push_front, ih)
    ]

-- `strip_prefix` finds exactly the rest behind the prefix.
pub strip_prefix_iff : (p s rest : Text) → (strip_prefix p s ≡ some rest) ↔ (s ≡ p ++ rest)
unfolding strip_prefix
strip_prefix_iff [] s rest = ground arith
strip_prefix_iff (c ∷ p) [] rest = ground arith
strip_prefix_iff (c ∷ p) (d ∷ s) rest = ground (arith, strip_prefix_iff p s rest)
