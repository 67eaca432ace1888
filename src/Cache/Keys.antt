-- ===== src/Cache/Keys.antt =====
-- What the key of an entry tells apart.
use mathlib.Core.List.{append_cancel_left, append_cancel_right}
use corsget.Prelude.{
  ◌≡◌, ◌≢◌, refl, sym, ap, ◌∙◌, ◌↔◌, List, [], ◌∷◌, ◌++◌, append_assoc, All, All-append, arith,
}
use corsget.Text.{Text, text}
use corsget.External.Http.{Http}
use corsget.Cache.{supported_vary_headers}
use corsget.Cache.Plan.{first_bytes, variant_material, key_material, cache_key}

-- A text that holds no separator.
abbrev pub IsPlain : Text → Type 0
IsPlain s = All (λ c. c ≢ 0) s

split_at_nul :
    (s t x y : Text) → IsPlain s → IsPlain t → s ++ (0 ∷ x) ≡ t ++ (0 ∷ y) → (s ≡ t) × (x ≡ y)
split_at_nul [] [] x y hs ht e = (refl, cc)
split_at_nul [] (d ∷ t) x y hs ht e = absurd (ht.0 cc)
split_at_nul (c ∷ s) [] x y hs ht e = absurd (hs.0 cc)
split_at_nul (c ∷ s) (d ∷ t) x y hs ht e =
    let (same, rest) = split_at_nul s t x y hs.1 ht.1 cc in
    let front : c ≡ d = cc in (rw (front, same), rest)

accept-IsPlain : IsPlain (text "accept")
unfolding text
accept-IsPlain =
    (omega arith, (omega arith, (omega arith, (omega arith, (omega arith, (omega arith, tt))))))

module _ (H : Http) where
  open H use {Headers}

  -- The bytes of the first value of each of the headers agree.
  abbrev pub Agrees : Headers → Headers → List Text → Type 0
  Agrees h h' names = All (λ name. first_bytes H h name ≡ first_bytes H h' name) names

  abbrev pub HasPlain : Headers → List Text → Type 0
  HasPlain h names = All (λ name. IsPlain (first_bytes H h name)) names

  variant_material-Agrees :
      (names : List Text) (h h' : Headers)
      → HasPlain h names
      → HasPlain h' names
      → variant_material H names h ≡ variant_material H names h'
      → Agrees h h' names
  unfolding variant_material
  variant_material-Agrees [] h h' plain plain' e = tt
  variant_material-Agrees (name ∷ names) h h' (here, later) (here', later') e =
      let behind = append_cancel_left name _ _ (
        sym (append_assoc name (0 ∷ first_bytes H h name) (0 ∷ variant_material H names h))
        ∙ e
        ∙ append_assoc name (0 ∷ first_bytes H h' name) (0 ∷ variant_material H names h')) in
      let (same, rest) =
        split_at_nul (first_bytes H h name) (first_bytes H h' name) (variant_material H names h)
          (variant_material H names h') here here' cc in
      (same, variant_material-Agrees names h h' later later' rest)

  Agrees-variant_material :
      (names : List Text) (h h' : Headers)
      → Agrees h h' names
      → variant_material H names h ≡ variant_material H names h'
  unfolding variant_material
  Agrees-variant_material [] h h' agrees = refl
  Agrees-variant_material (name ∷ names) h h' (here, later) =
      rw (here, Agrees-variant_material names h h' later)

  -- The subject ends where the first name of a header begins.
  subject_split :
      (s s' name : Text) (names : List Text) (h h' : Headers)
      → IsPlain s
      → IsPlain s'
      → IsPlain name
      → s ++ variant_material H (name ∷ names) h ≡ s' ++ variant_material H (name ∷ names) h'
      → (s ≡ s') × (variant_material H (name ∷ names) h ≡ variant_material H (name ∷ names) h')
  unfolding variant_material
  subject_split s s' name names h h' plain plain' plain_name e =
      let (fronts, rest) =
        split_at_nul (s ++ name) (s' ++ name) _ _ (All-append _ s name plain plain_name)
          (All-append _ s' name plain' plain_name)
          (sym (front s (first_bytes H h name) (variant_material H names h))
            ∙ e
            ∙ front s' (first_bytes H h' name) (variant_material H names h')) in
      let same = append_cancel_right s s' name fronts in
      (
        same,
        append_cancel_left s _ _
            (e ∙ ap (λ u. u ++ variant_material H (name ∷ names) h') (sym same)),
      )
    where
      front :
          (s bytes rest : Text)
          → s ++ (name ++ (0 ∷ bytes) ++ (0 ∷ rest)) ≡ s ++ name ++ (0 ∷ (bytes ++ (0 ∷ rest)))
      front s bytes rest =
          ap (λ u. s ++ u) (append_assoc name (0 ∷ bytes) (0 ∷ rest))
          ∙ sym (append_assoc s name (0 ∷ (bytes ++ (0 ∷ rest))))

  key_material-Agrees :
      (s s' : Text) (h h' : Headers)
      → s ≡ s'
      → Agrees h h' supported_vary_headers
      → key_material H s h ≡ key_material H s' h'
  unfolding key_material
  key_material-Agrees s s' h h' same agrees =
      rw (same, Agrees-variant_material supported_vary_headers h h' agrees)

  key_material_split :
      (s s' : Text) (h h' : Headers)
      → IsPlain s
      → IsPlain s'
      → key_material H s h ≡ key_material H s' h'
      → (s ≡ s')
        × (variant_material H supported_vary_headers h
            ≡ variant_material H supported_vary_headers h')
  unfolding key_material
  key_material_split s s' h h' plain plain' e =
      subject_split s s' (text "accept") _ h h' plain plain' accept-IsPlain e

  -- Two requests share a key exactly when the subjects are the same and each header that a response
  -- may vary by has the same first value in both, where no value counts as an empty one; as long as
  -- neither subject nor value holds a NUL, and the hash tells the hashed texts apart.
  pub cache_key_iff :
      (sha256 : Text → Text) (s s' : Text) (h h' : Headers)
      → (sha256 (key_material H s h) ≡ sha256 (key_material H s' h')
          → key_material H s h ≡ key_material H s' h')
      → IsPlain s
      → IsPlain s'
      → HasPlain h supported_vary_headers
      → HasPlain h' supported_vary_headers
      → (cache_key H sha256 s h ≡ cache_key H sha256 s' h')
        ↔ ((s ≡ s') × Agrees h h' supported_vary_headers)
  unfolding cache_key
  cache_key_iff sha256 s s' h h' apart plain plain' values values' = (
    λ e.
        let (same, rest) = key_material_split s s' h h' plain plain' (apart e) in
        (same, variant_material-Agrees supported_vary_headers h h' values values' rest),
    λ (same, agrees). ap sha256 (key_material-Agrees s s' h h' same agrees),
  )
