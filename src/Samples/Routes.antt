-- ===== src/Samples/Routes.antt =====
-- A router for the two patterns in use.
use corsget.Prelude.{
  ◌≡◌, ◌≢◌, ◌↔◌, refl, Bool, true, false, Option, none, some, [], ◌∷◌, if◌then◌else◌, sym,
}
use corsget.Text.{Text, text, text_eq, strip_prefix}
use corsget.Text.Equality.{text_eq_iff}
use corsget.External.Routes.{Routes}

abbrev pub filled : Option Text → Bool
filled none = false
filled (some []) = false
filled (some (c ∷ rest)) = true

some-injective : {a b : Text} → some a ≡ some b → a ≡ b
some-injective e = cc e

pub filled_iff :
    (captured : Option Text)
    → (filled captured ≡ true) ↔ ((rest : Text) × (rest ≢ []) × (captured ≡ some rest))
filled_iff none = ((λ e. cc e), λ (rest, _, e). cc e)
filled_iff (some []) = ((λ e. cc e), λ (rest, ne, e). elim (ne (sym (some-injective e))) [ ])
filled_iff (some (c ∷ rest)) = ((λ _. (c ∷ rest, (λ e. cc e), refl)), λ _. refl)

abbrev pub two_routes : Routes
unfolding text text_eq
two_routes = record {
  matches = λ pattern path.
      if text_eq pattern (text "/")
      then text_eq path (text "/")
      else filled (strip_prefix (text "/") path);
  matches-root = λ path. text_eq_iff path (text "/");
  matches-target = λ path. filled_iff (strip_prefix (text "/") path);
}
