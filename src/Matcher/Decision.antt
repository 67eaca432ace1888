-- ===== src/Matcher/Decision.antt =====
-- The decision rule of `TargetList::is_allowed` against its documented form.
use mathlib.Core.List.{Memᴰ}
use corsget.Prelude.{
  ◌≡◌, refl, ◌↔◌, ◌⊎◌, inl, inr, Bool, true, false, ◌||◌, List, [], ◌∷◌, arith, any, any-witness,
  any_of_mem, not, is_empty, ◌&&◌,
}
use corsget.Text.{Text}
use corsget.External.Regexes.{Regexes}
use corsget.Matcher.{MatchEntry, TargetList, is_match, is_allowed}

-- `whitelisted || (!blacklisted && whitelist.is_empty())`.
decision_iff {ℓ} :
    {A : Type ℓ} (whitelisted blacklisted : Bool) (whitelist : List A)
    → (whitelisted || not blacklisted && is_empty whitelist ≡ true)
      ↔ ((whitelisted ≡ true) ⊎ ((whitelist ≡ []) × (blacklisted ≡ false)))
decision_iff whitelisted blacklisted [] = ground arith
decision_iff whitelisted blacklisted (x ∷ xs) = ground arith

eq-false_of_ne : (b : Bool) → ¬ (b ≡ true) → b ≡ false
eq-false_of_ne true h = absurd (h refl)
eq-false_of_ne false h = refl

module _ (R : Regexes) where
  -- Some entry of the list matches the subject.
  abbrev pub Matches : List (MatchEntry R) → Text → Type 0
  Matches es subject = (e : MatchEntry R) × Memᴰ e es × (is_match R e subject ≡ true)

  any-Matches :
      (es : List (MatchEntry R)) (subject : Text)
      → (any (λ e. is_match R e subject) es ≡ true) ↔ Matches es subject
  any-Matches es subject = (
    any-witness (λ e. is_match R e subject) es,
    λ (e, listed, holds). any_of_mem (λ e. is_match R e subject) es e listed holds,
  )

  -- The documented rule, with no test of the code in it: a whitelist match decides for the subject;
  -- failing that, only an empty whitelist lets the subject in, unless the blacklist matches.
  abbrev pub Allowed : TargetList R → Text → Type 0
  Allowed l subject =
      Matches l.whitelist subject ⊎ ((l.whitelist ≡ []) × ¬ Matches l.blacklist subject)

  -- A subject is allowed exactly when a whitelist entry matches it, or when the whitelist is empty
  -- and no blacklist entry matches it.
  pub is_allowed_iff :
      (l : TargetList R) (subject : Text) → (is_allowed R l subject ≡ true) ↔ Allowed l subject
  unfolding is_allowed
  is_allowed_iff l subject =
      let white = any-Matches l.whitelist subject in
      let black = any-Matches l.blacklist subject in
      let rule = decision_iff (any _ l.whitelist) (any _ l.blacklist) l.whitelist in
      (
        λ h. elim (rule.0 h) [
          | inl matched ↦ inl (white.0 matched)
          | inr (none_listed, clear) ↦ inr (none_listed, λ m. cc (black.1 m))
        ],
        λ allowed. rule.1 (elim allowed [
          | inl m ↦ inl (white.1 m)
          | inr (none_listed, clear) ↦ inr (none_listed, eq-false_of_ne _ (λ b. clear (black.0 b)))
        ]),
      )
