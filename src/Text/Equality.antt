-- ===== src/Text/Equality.antt =====
-- Equality of texts, and equality up to ASCII case.
use corsget.Prelude.{
  ℕ, ◌≡◌, refl, sym, ◌↔◌, true, false, [], ◌∷◌, arith, bool_ext, Bool-cases, inl, inr, ◌≢◌,
}
use corsget.Text.{Text, text_eq, lower_byte, to_ascii_lowercase, eq_ignore_ascii_case}

pub text_eq_sound : (s t : Text) → text_eq s t ≡ true → s ≡ t
unfolding text_eq
text_eq_sound [] [] h = refl
text_eq_sound (c ∷ s) (d ∷ t) h = ground (arith, text_eq_sound s t)
text_eq_sound _ _ h = cc

pub text_eq_refl : (s : Text) → text_eq s s ≡ true
unfolding text_eq
text_eq_refl [] = refl
text_eq_refl (c ∷ s) = ground (arith, text_eq_refl s)

pub text_eq_iff : (s t : Text) → (text_eq s t ≡ true) ↔ (s ≡ t)
text_eq_iff s t = (text_eq_sound s t, λ e. rw e (text_eq_refl t))

pub text_eq-eq-false : (s t : Text) → s ≢ t → text_eq s t ≡ false
text_eq-eq-false s t h = elim (Bool-cases (text_eq s t)) [
  | inl same ↦ absurd (h (text_eq_sound s t same))
  | inr other ↦ other
]

pub ne_of_text_eq : (s t : Text) → text_eq s t ≡ false → s ≢ t
ne_of_text_eq s t h e = cc ((text_eq_iff s t).1 e)

pub text_eq_symm : (s t : Text) → text_eq s t ≡ text_eq t s
text_eq_symm s t =
    bool_ext (text_eq s t) (text_eq t s) (λ h. (text_eq_iff t s).1 (sym (text_eq_sound s t h)))
      (λ h. (text_eq_iff s t).1 (sym (text_eq_sound t s h)))

lower_byte_idempotent : (c : ℕ) → lower_byte (lower_byte c) ≡ lower_byte c
lower_byte_idempotent c = ground arith

pub to_ascii_lowercase_idempotent :
    (s : Text) → to_ascii_lowercase (to_ascii_lowercase s) ≡ to_ascii_lowercase s
unfolding to_ascii_lowercase
to_ascii_lowercase_idempotent [] = refl
to_ascii_lowercase_idempotent (c ∷ s) =
    ground (arith, lower_byte_idempotent c, to_ascii_lowercase_idempotent s)

pub eq_ignore_ascii_case_iff :
    (s t : Text) → (eq_ignore_ascii_case s t ≡ true) ↔ (to_ascii_lowercase s ≡ to_ascii_lowercase t)
unfolding eq_ignore_ascii_case
eq_ignore_ascii_case_iff s t = text_eq_iff (to_ascii_lowercase s) (to_ascii_lowercase t)
