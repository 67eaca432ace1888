-- ===== src/External/Http.antt =====
-- The crate `http`: header names, header values and the multimap of headers.
use mathlib.Core.List.{head?}
use corsget.Prelude.{
  ℕ, ◌≡◌, ◌≤◌, ◌⊎◌, Bool, not, Option, some, List, [], ◌∷◌, ◌++◌, if◌then◌else◌, is_empty, All,
  Result, ok,
}
use corsget.Text.{Text, text_eq, to_ascii_lowercase}

-- The visible characters of ASCII, the space and the tab: what `to_str` lets through.
abbrev pub IsVisible : ℕ → Type 0
IsVisible c = (32 ≤ c) × (c ≤ 126) ⊎ (c ≡ 9)

-- The values of the entries that bear a name, in order.
unfoldable pub values_of {ℓ} : {V : Type ℓ} → Text → List (Text × V) → List V
values_of n [] = []
values_of n ((m, v) ∷ es) = if text_eq n m then v ∷ values_of n es else values_of n es

-- A header name is its lower-case text, as `HeaderName::as_str` gives it. `HeaderMap` is a multimap:
-- `get_all` is the view through which the other operations are documented.
pub record Http : Type 1 where
  pub Value : Type 0
  pub to_str : Value → Option Text
  pub as_bytes : Value → Text
  pub from_str : Text → Result Text Value
  pub from_static : Text → Value
  pub parse_name : Text → Result Text Text
  pub Headers : Type 0
  pub empty : Headers
  pub entries : Headers → List (Text × Value)
  pub get : Text → Headers → Option Value
  pub get_all : Text → Headers → List Value
  pub contains_key : Text → Headers → Bool
  pub insert : Text → Value → Headers → Headers
  pub append : Text → Value → Headers → Headers
  pub remove : Text → Headers → Headers
  pub to_str_visible : (v : Value) (t : Text) → to_str v ≡ some t → All IsVisible t
  pub to_str-from_static : (t : Text) → All IsVisible t → to_str (from_static t) ≡ some t
  pub from_str_visible :
      (t : Text) → All IsVisible t → (v : Value) × (from_str t ≡ ok v) × (to_str v ≡ some t)
  pub parse_name-lowercase : (t n : Text) → parse_name t ≡ ok n → n ≡ to_ascii_lowercase t
  pub get-get_all : (n : Text) (h : Headers) → get n h ≡ head? (get_all n h)
  pub contains_key-get_all :
      (n : Text) (h : Headers) → contains_key n h ≡ not (is_empty (get_all n h))
  pub get_all-entries : (n : Text) (h : Headers) → get_all n h ≡ values_of n (entries h)
  pub get_all-empty : (n : Text) → get_all n empty ≡ []
  pub get_all-insert :
      (n m : Text) (v : Value) (h : Headers)
      → get_all n (insert m v h) ≡ (if text_eq n m then v ∷ [] else get_all n h)
  pub get_all-append :
      (n m : Text) (v : Value) (h : Headers)
      → get_all n (append m v h) ≡ (if text_eq n m then get_all n h ++ v ∷ [] else get_all n h)
  pub get_all-remove :
      (n m : Text) (h : Headers)
      → get_all n (remove m h) ≡ (if text_eq n m then [] else get_all n h)
