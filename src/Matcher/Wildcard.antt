-- ===== src/Matcher/Wildcard.antt =====
-- `wildcard_to_regex`: the trimmed accumulation loop against the joined form.
use corsget.Prelude.{
  ◌≡◌, refl, ap, ◌∙◌, List, [], ◌∷◌, ◌++◌, map, append-nil, append_assoc, is_empty, if◌then◌else◌,
}
use corsget.Text.{Text, text, split, join}
use corsget.Text.Splitting.{split-ne-nil}
use corsget.External.Regexes.{Regexes}
use corsget.Matcher.{drop_trailing_any, push_segments, wildcard_to_regex}

drop_trailing_any-append : (s : Text) → drop_trailing_any (s ++ text ".*") ≡ s
unfolding drop_trailing_any text
drop_trailing_any-append [] = refl
drop_trailing_any-append (c ∷ []) = refl
drop_trailing_any-append (c ∷ d ∷ []) = refl
drop_trailing_any-append (c ∷ d ∷ e ∷ s) = ap (λ t. c ∷ t) (drop_trailing_any-append (d ∷ e ∷ s))

module _ (R : Regexes) where
  open R use {escape, escape-nil}

  if-empty-escape :
      (out segment : Text)
      → (if is_empty segment then out else out ++ escape segment) ≡ out ++ escape segment
  if-empty-escape out [] = rw (escape-nil, append-nil)
  if-empty-escape out (c ∷ s) = refl

  push_segments-cons :
      (out p : Text) (ps : List Text)
      → push_segments R out (p ∷ ps) ≡ push_segments R (out ++ escape p ++ text ".*") ps
  unfolding push_segments
  push_segments-cons out p ps =
      ap (λ o. push_segments R (o ++ text ".*") ps) (if-empty-escape out p)

  push_segments-join :
      (out p : Text) (ps : List Text)
      → push_segments R out (p ∷ ps) ≡ out ++ join (text ".*") (map escape (p ∷ ps)) ++ text ".*"
  unfolding join
  push_segments-join out p [] = push_segments-cons out p [] ∙ unfold push_segments in refl
  push_segments-join out p (q ∷ ps) =
      push_segments-cons out p (q ∷ ps)
      ∙ push_segments-join (out ++ escape p ++ text ".*") q ps
      ∙ simp append_assoc

  -- The regular expression of a wildcard entry is the escaped pieces between its stars, joined by
  -- `.*` and anchored at both ends, for every pattern.
  pub wildcard_to_regex-join :
      (pattern : Text)
      → wildcard_to_regex R pattern
        ≡ text "^" ++ join (text ".*") (map escape (split b'*' pattern)) ++ text "$"
  wildcard_to_regex-join pattern =
      let (p, ps, e) = split-ne-nil b'*' pattern in
      let pushed = push_segments-join (text "^") p ps in
      unfold wildcard_to_regex in rw (e, pushed, drop_trailing_any-append)
