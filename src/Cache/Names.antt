-- ===== src/Cache/Names.antt =====
-- The files of different keys, and the different files of one key, have different paths.
use mathlib.Core.List.{append_cancel_left, append_cancel_right}
use corsget.Prelude.{
  ℕ, zero, suc, ◌+◌, ◌/◌, ◌%◌, ◌≡◌, refl, sym, subst, ap, ◌∙◌, ◌≢◌, false, some, [], ◌∷◌, ◌++◌,
  append_assoc, arith, ltb, last, Bool-cases, inl, inr, OnSome-eq,
}
use corsget.Text.{Text, text, to_decimal, digits_of, text_eq}
use corsget.Text.Equality.{text_eq-eq-false}
use corsget.Disk.Paths.{dir_prefix}
use corsget.Cache.Writing.{body_path, meta_path, temp_body_path}
use corsget.Cache.Files.{temp_meta_path}

last-append : (xs : Text) (y : ℕ) (ys : Text) → last (xs ++ y ∷ ys) ≡ last (y ∷ ys)
last-append [] y ys = refl
last-append (x ∷ []) y ys = refl
last-append (x ∷ x' ∷ xs) y ys = last-append (x' ∷ xs) y ys

-- The digits are put in front of those that stand there.
digits_of-append :
    (f n d : ℕ) (acc : Text) → (front : Text) × (digits_of f n (d ∷ acc) ≡ front ++ d ∷ acc)
unfolding digits_of
digits_of-append zero n d acc = ([], refl)
digits_of-append (suc f) n d acc = elim (Bool-cases (ltb n 10)) [
  | inl small ↦ ((48 + n % 10) ∷ [], rw (small, digits_of))
  | inr large ↦
      let (front, e) = digits_of-append f (n / 10) (48 + n % 10) (d ∷ acc) in
      (
        front ++ (48 + n % 10) ∷ [],
        rw (large, digits_of) (e ∙ sym (append_assoc front ((48 + n % 10) ∷ []) (d ∷ acc))),
      )
]

last-digits_of : (f n : ℕ) → last (digits_of (suc f) n []) ≡ some (48 + n % 10)
unfolding digits_of
last-digits_of f n = elim (Bool-cases (ltb n 10)) [
  | inl small ↦ rw (small, digits_of)
  | inr large ↦ rw (large, digits_of) (behind f (n / 10) (48 + n % 10))
]
  where
    behind : (f n d : ℕ) → last (digits_of f n (d ∷ [])) ≡ some d
    behind f n d = let (front, e) = digits_of-append f n d [] in ap last e ∙ last-append front d []

last-to_decimal : (n : ℕ) → last (to_decimal n) ≡ some (48 + n % 10)
unfolding to_decimal
last-to_decimal n =
    let more : suc n ≡ n + 1 = omega arith in
    subst (λ k. last (digits_of k n []) ≡ some (48 + n % 10)) more (last-digits_of n n)

last-decimal : (front : Text) (n : ℕ) → last (front ++ to_decimal n) ≡ some (48 + n % 10)
last-decimal front n = behind (to_decimal n) (last-to_decimal n)
  where
    behind :
        (digits : Text)
        → last digits ≡ some (48 + n % 10)
        → last (front ++ digits) ≡ some (48 + n % 10)
    behind [] e = cc e
    behind (d ∷ digits) e = last-append front d digits ∙ e

module _ (root : Text) where
  last-body_path : (key : Text) → last (body_path root key) ≡ some b'y'
  unfolding body_path text
  last-body_path key =
      ap last (sym (append_assoc (dir_prefix root) key (text ".body")))
      ∙ last-append (dir_prefix root ++ key) b'.' (text "body")

  last-meta_path : (key : Text) → last (meta_path root key) ≡ some b'n'
  unfolding meta_path text
  last-meta_path key =
      ap last (sym (append_assoc (dir_prefix root) key (text ".json")))
      ∙ last-append (dir_prefix root ++ key) b'.' (text "json")

  module _ (key : Text) (process temp_id : ℕ) where
    last-temp_meta_path : last (temp_meta_path root key process temp_id) ≡ some (48 + temp_id % 10)
    unfolding temp_meta_path
    last-temp_meta_path =
        ap last (sym (append_assoc (dir_prefix root) _ (to_decimal temp_id)))
        ∙ last-decimal
            (dir_prefix root
              ++ (text "." ++ key ++ text ".meta.tmp-" ++ to_decimal process ++ text "-"))
            temp_id

    last-temp_body_path : last (temp_body_path root key process temp_id) ≡ some (48 + temp_id % 10)
    unfolding temp_body_path
    last-temp_body_path =
        ap last (sym (append_assoc (dir_prefix root) _ (to_decimal temp_id)))
        ∙ last-decimal
            (dir_prefix root
              ++ (text "." ++ key ++ text ".body.tmp-" ++ to_decimal process ++ text "-"))
            temp_id

-- Texts that end differently are different.
apart : (s t : Text) (a b : ℕ) → last s ≡ some a → last t ≡ some b → a ≢ b → text_eq s t ≡ false
apart s t a b ends_s ends_t ne =
    text_eq-eq-false s t
      λ e. ne (OnSome-eq (λ c. a ≡ c) (some a) refl (sym ends_s ∙ (ap last e ∙ ends_t)))

module _ (root key key' : Text) where
  pub meta-body : text_eq (meta_path root key) (body_path root key') ≡ false
  meta-body =
      apart (meta_path root key) (body_path root key') b'n' b'y' (last-meta_path root key)
        (last-body_path root key') (omega arith)

  pub body-meta : text_eq (body_path root key) (meta_path root key') ≡ false
  body-meta =
      apart (body_path root key) (meta_path root key') b'y' b'n' (last-body_path root key)
        (last-meta_path root key') (omega arith)

  module _ (process temp_id : ℕ) where
    pub meta-temp_meta :
        text_eq (meta_path root key) (temp_meta_path root key' process temp_id) ≡ false
    meta-temp_meta =
        apart (meta_path root key) (temp_meta_path root key' process temp_id) b'n'
          (48 + temp_id % 10) (last-meta_path root key)
          (last-temp_meta_path root key' process temp_id) (omega arith)

    pub body-temp_meta :
        text_eq (body_path root key) (temp_meta_path root key' process temp_id) ≡ false
    body-temp_meta =
        apart (body_path root key) (temp_meta_path root key' process temp_id) b'y'
          (48 + temp_id % 10) (last-body_path root key)
          (last-temp_meta_path root key' process temp_id) (omega arith)

    pub meta-temp_body :
        text_eq (meta_path root key) (temp_body_path root key' process temp_id) ≡ false
    meta-temp_body =
        apart (meta_path root key) (temp_body_path root key' process temp_id) b'n'
          (48 + temp_id % 10) (last-meta_path root key)
          (last-temp_body_path root key' process temp_id) (omega arith)

    pub body-temp_body :
        text_eq (body_path root key) (temp_body_path root key' process temp_id) ≡ false
    body-temp_body =
        apart (body_path root key) (temp_body_path root key' process temp_id) b'y'
          (48 + temp_id % 10) (last-body_path root key)
          (last-temp_body_path root key' process temp_id) (omega arith)

  -- The paths of different keys are different.
  pub meta_path-ne : key ≢ key' → text_eq (meta_path root key) (meta_path root key') ≡ false
  unfolding meta_path
  meta_path-ne ne = text_eq-eq-false (meta_path root key) (meta_path root key') λ e. ne (
      append_cancel_right key key' (text ".json")
        (append_cancel_left (dir_prefix root) (key ++ text ".json") (key' ++ text ".json") e))

  pub body_path-ne : key ≢ key' → text_eq (body_path root key) (body_path root key') ≡ false
  unfolding body_path
  body_path-ne ne = text_eq-eq-false (body_path root key) (body_path root key') λ e. ne (
      append_cancel_right key key' (text ".body")
        (append_cancel_left (dir_prefix root) (key ++ text ".body") (key' ++ text ".body") e))
