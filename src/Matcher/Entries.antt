-- ===== src/Matcher/Entries.antt =====
-- `MatchEntry::parse` and `is_match`: exact entries, and the rejection of unknown flags.
use corsget.Prelude.{
  ℕ, ◌≡◌, ◌↔◌, ◌⊎◌, inl, inr, ap, ◌∙◌, true, false, none, some, [], ◌∷◌, ◌++◌, arith, All, ok, err,
  Option-cases,
}
use corsget.Text.{Text, text, trim, has_char, to_ascii_lowercase}
use corsget.Text.Equality.{eq_ignore_ascii_case_iff, to_ascii_lowercase_idempotent}
use corsget.External.Regexes.{Regexes, Flags, no_flags, IsAscii}
use corsget.Matcher.{
  MatchEntry, exact, set_flag, read_flags, slash_form, parse, is_match, invalid_regex,
}

-- One of the letters `i`, `m`, `s` and `x`.
abbrev pub IsFlag : ℕ → Type 0
IsFlag f = (f ≡ b'i') ⊎ (f ≡ b'm') ⊎ (f ≡ b's') ⊎ (f ≡ b'x')

set_flag-IsFlag :
    (f : ℕ) (flags : Flags) → IsFlag f → (flags' : Flags) × (set_flag f flags ≡ some flags')
unfolding set_flag
set_flag-IsFlag f flags h = elim (Option-cases (set_flag f flags)) [
  | inl unknown ↦ absurd (grind arith)
  | inr known ↦ known
]

set_flag-eq-none : (f : ℕ) (flags : Flags) → ¬ IsFlag f → set_flag f flags ≡ none
unfolding set_flag
set_flag-eq-none f flags h = grind arith

read_flags_unknown :
    (flags : Flags) (before : Text) (f : ℕ) (rest : Text)
    → All IsFlag before
    → ¬ IsFlag f
    → read_flags flags (before ++ f ∷ rest) ≡ err (text "unknown regex flag `" ++ f ∷ text "`")
unfolding read_flags
read_flags_unknown flags [] f rest h u = rw (set_flag-eq-none f flags u, read_flags)
read_flags_unknown flags (b ∷ before) f rest h u =
    let (flags', e) = set_flag-IsFlag b flags h.0 in
    rw (e, read_flags) (read_flags_unknown flags' before f rest h.1 u)

module _ (R : Regexes) where
  -- A `/pattern/flags` entry is rejected at its first unknown flag letter, whatever stands behind
  -- that letter and whether or not the pattern compiles; the error names the entry and the letter.
  pub parse_unknown_flag :
      (raw pattern before : Text) (f : ℕ) (rest : Text)
      → slash_form (trim raw) ≡ some (pattern, before ++ f ∷ rest)
      → All IsFlag before
      → ¬ IsFlag f
      → parse R raw ≡ err (invalid_regex raw (text "unknown regex flag `" ++ f ∷ text "`"))
  unfolding parse
  parse_unknown_flag raw pattern before f rest slash h u =
      rw (slash, parse, read_flags_unknown no_flags before f rest h u)

  -- An ASCII entry with no star that is no `/pattern/flags` compiles, and matches exactly the
  -- subjects that are equal to the trimmed entry up to ASCII case.
  pub is_match-parse_exact :
      (raw subject : Text)
      → slash_form (trim raw) ≡ none
      → has_char b'*' (trim raw) ≡ false
      → All IsAscii (trim raw)
      → (e : MatchEntry R) × (parse R raw ≡ ok e)
        × ((is_match R e subject ≡ true)
            ↔ (to_ascii_lowercase (trim raw) ≡ to_ascii_lowercase subject))
  unfolding parse is_match
  is_match-parse_exact raw subject slash star ascii =
      let lower = R.to_lowercase-ascii (trim raw) ascii in
      let same = eq_ignore_ascii_case_iff (R.to_lowercase (trim raw)) subject in
      let folded = ap to_ascii_lowercase lower ∙ to_ascii_lowercase_idempotent (trim raw) in
      (exact (R.to_lowercase (trim raw)), rw (slash, star, parse), rw folded at same)
