-- ===== src/Headers/Actions.antt =====
-- What one override rule does to the values of each header.
use corsget.Prelude.{
  ◌≡◌, refl, ◌∙◌, ap, List, [], ◌∷◌, ◌++◌, append-nil, append_assoc, if◌then◌else◌, arith, last,
  any,
}
use corsget.Text.{Text, member}
use corsget.External.Http.{Http, values_of}
use corsget.External.Regexes.{Regexes}
use corsget.Cors.Layer.{one_or, get_all-insert_all}
use corsget.Headers.{remove_all, append_all, HeaderOverrideRule, apply_rule}

module _ (H : Http) where
  open H use {Value, Headers, get_all, append, remove, get_all-append, get_all-remove}

  pub get_all-remove_all :
      (n : Text) (names : List Text) (h : Headers)
      → get_all n (remove_all H names h) ≡ (if member n names then [] else get_all n h)
  unfolding remove_all member any
  get_all-remove_all n [] h = refl
  get_all-remove_all n (name ∷ names) h =
      ground (arith, get_all-remove_all n names (remove name h), get_all-remove n name h)

  pub get_all-append_all :
      (n : Text) (pairs : List (Text × Value)) (h : Headers)
      → get_all n (append_all H pairs h) ≡ get_all n h ++ values_of n pairs
  unfolding append_all values_of
  get_all-append_all n [] h = ground (arith, append-nil (get_all n h))
  get_all-append_all n ((m, v) ∷ pairs) h = ground (
    arith,
    get_all-append_all n pairs (append m v h),
    get_all-append n m v h,
    append_assoc (get_all n h) (v ∷ []) (values_of n pairs),
  )

  -- A rule removes, then adds, then sets: a header that it sets has the last value set and no other;
  -- any other header has its own values, unless the rule removes it, and the added ones behind them.
  pub apply_rule-get_all :
      (R : Regexes) (rule : HeaderOverrideRule H R) (n : Text) (h : Headers)
      → get_all n (apply_rule H R rule h)
        ≡ one_or
            (last (values_of n rule.set))
            ((if member n rule.remove then [] else get_all n h) ++ values_of n rule.add)
  unfolding apply_rule
  apply_rule-get_all R rule n h =
      get_all-insert_all H n rule.set (append_all H rule.add (remove_all H rule.remove h))
      ∙ ap (one_or (last (values_of n rule.set))) (
          get_all-append_all n rule.add (remove_all H rule.remove h)
          ∙ ap (λ vs. vs ++ values_of n rule.add) (get_all-remove_all n rule.remove h))
