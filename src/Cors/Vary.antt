-- ===== src/Cors/Vary.antt =====
-- `Vary` after `add_vary_field` and after the CORS layer.
use corsget.Prelude.{
  ◌≡◌, refl, inl, inr, Bool, true, some, List, [], ◌∷◌, ◌++◌, arith, Bool-cases, any, All,
}
use corsget.Text.{Text, text, trim, trim_matches, trim_start_matches, is_whitespace, split}
use corsget.Text.Equality.{text_eq_refl, eq_ignore_ascii_case_iff}
use corsget.External.Http.{Http, IsVisible}
use corsget.Messages.{Request, Response}
use corsget.Cors.{nominates, add_vary_field, cors_layer}

any_end {ℓ} :
    {A : Type ℓ} (p : A → Bool) (xs : List A) (x : A) → p x ≡ true → any p (xs ++ x ∷ []) ≡ true
unfolding any
any_end p [] x h = ground arith
any_end p (y ∷ xs) x h = ground (arith, any_end p xs x h)

-- A single field name, with nothing around it.
abbrev pub IsField : Text → Type 0
IsField field = All IsVisible field × (split b',' field ≡ field ∷ []) × (trim field ≡ field)

origin-IsField : IsField (text "origin")
unfolding text split trim trim_matches trim_start_matches is_whitespace
origin-IsField = (omega arith, refl, refl)

module _ (H : Http) where
  open H use {
    Value, Headers, to_str, from_str, from_static, get, get_all, contains_key, append, entries,
    get_all-append, from_str_visible, to_str_visible, to_str-from_static,
  }

  nominates_itself :
      (field : Text) (v : Value)
      → IsField field
      → to_str v ≡ some field
      → nominates H field v ≡ true
  unfolding nominates any
  nominates_itself field v (seen, single, trimmed) e =
      rw (e, nominates, single, trimmed, (eq_ignore_ascii_case_iff field field).1 refl)

  -- After `add_vary_field` some value of `Vary` nominates the field, whatever the header held.
  pub add_vary_field-nominates :
      (field : Text) (h : Headers)
      → IsField field
      → any (nominates H field) (get_all (text "vary") (add_vary_field H field h)) ≡ true
  unfolding add_vary_field
  add_vary_field-nominates field h f =
      elim (Bool-cases (any (nominates H field) (get_all (text "vary") h))) [
        | inl there ↦ rw (there, add_vary_field) there
        | inr absent ↦
            let (v, parsed, reads) = from_str_visible field f.0 in
            rw (absent, parsed, add_vary_field, get_all-append, text_eq_refl (text "vary"))
              (any_end (nominates H field) (get_all (text "vary") h) v
                (nominates_itself field v f reads))
      ]

  -- A response to a request that bears an `Origin` header nominates `origin` in `Vary`.
  pub cors_layer-vary :
      (next : Request H → Response H) (req : Request H)
      → contains_key (text "origin") req.headers ≡ true
      → any (nominates H (text "origin")) (get_all (text "vary") (cors_layer H next req).headers)
        ≡ true
  unfolding cors_layer
  cors_layer-vary next req echoed =
      rw (echoed, cors_layer) (add_vary_field-nominates (text "origin") _ origin-IsField)
