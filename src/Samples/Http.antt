-- ===== src/Samples/Http.antt =====
-- Header maps as lists of entries, and header values as texts of printable ASCII.
use mathlib.Core.List.{head?}
use corsget.Prelude.{
  ◌||◌, ◌==◌, subst, ◌≡◌, refl, Bool, true, not, ◌&&◌, none, some, List, [], ◌∷◌, ◌++◌, append-nil,
  if◌then◌else◌, is_empty, arith, All, Result, ok, err, leb, Bool-cases, inl, inr,
}
use corsget.Text.{Text, text, text_eq, to_ascii_lowercase}
use corsget.Text.Equality.{text_eq_iff}
use corsget.External.Http.{Http, IsVisible, values_of}

abbrev Entries : Type 0
Entries = List (Text × Text)

unfoldable pub is_visible : Text → Bool
is_visible [] = true
is_visible (c ∷ s) = (leb 32 c && leb c 126 || c == 9) && is_visible s

All-of_is_visible : (t : Text) → is_visible t ≡ true → All IsVisible t
unfolding is_visible
All-of_is_visible [] h = tt
All-of_is_visible (c ∷ s) h = (ground arith, All-of_is_visible s (ground arith))

is_visible_of_All : (t : Text) → All IsVisible t → is_visible t ≡ true
unfolding is_visible
is_visible_of_All [] h = refl
is_visible_of_All (c ∷ s) h = ground (arith, is_visible_of_All s)

unfoldable pub without : Text → Entries → Entries
without n [] = []
without n ((m, v) ∷ es) = if text_eq m n then without n es else (m, v) ∷ without n es

pub values_of-nil : (n : Text) → ◌≡◌ {A = List Text} (values_of n []) []
unfolding values_of
values_of-nil n = refl

values_of-append :
    (n : Text) (es fs : Entries) → values_of n (es ++ fs) ≡ values_of n es ++ values_of n fs
unfolding values_of
values_of-append n [] fs = refl
values_of-append n ((m, v) ∷ es) fs = ground (arith, values_of-append n es fs)

pub values_of-without :
    (n m : Text) (es : Entries)
    → values_of n (without m es) ≡ (if text_eq n m then [] else values_of n es)
unfolding values_of without
values_of-without n m [] = ground arith
values_of-without n m ((k, v) ∷ es) =
    ground (arith, text_eq_iff k m, text_eq_iff n k, text_eq_iff n m, values_of-without n m es)

pub values_of-insert :
    (n m v : Text) (es : Entries)
    → values_of n (without m es ++ (m, v) ∷ []) ≡ (if text_eq n m then v ∷ [] else values_of n es)
unfolding values_of
values_of-insert n m v es =
    rw (values_of-append n (without m es) ((m, v) ∷ []), values_of-without n m es)
      (ground (arith, append-nil (values_of n es)))

pub values_of_end :
    (n m v : Text) (es : Entries)
    → values_of n (es ++ (m, v) ∷ [])
      ≡ (if text_eq n m then values_of n es ++ v ∷ [] else values_of n es)
unfolding values_of
values_of_end n m v es =
    rw (values_of-append n es ((m, v) ∷ [])) (ground (arith, append-nil (values_of n es)))

pub to_str_visible : (t : Text) → All IsVisible t → (if is_visible t then some t else none) ≡ some t
to_str_visible t h = rw (is_visible_of_All t h)

pub parse_name_ok :
    (t n : Text)
    → ◌≡◌ {A = Result Text Text} (ok (to_ascii_lowercase t)) (ok n)
    → n ≡ to_ascii_lowercase t
parse_name_ok t n h = cc

pub IsVisible-of_to_str :
    (v t : Text) → (if is_visible v then some v else none) ≡ some t → All IsVisible t
IsVisible-of_to_str v t h = elim (Bool-cases (is_visible v)) [
  | inl seen ↦ let e : v ≡ t = ground arith in subst (All IsVisible) e (All-of_is_visible v seen)
  | inr hidden ↦ cc
]

abbrev pub from_str : Text → Result Text Text
from_str t = if is_visible t then ok t else err (text "failed to parse header value")

pub from_str-visible :
    (t : Text)
    → All IsVisible t
    → (v : Text) × (from_str t ≡ ok v) × ((if is_visible v then some v else none) ≡ some t)
from_str-visible t h = (t, rw (is_visible_of_All t h), rw (is_visible_of_All t h))

abbrev pub list_http : Http
list_http = record {
  Value = Text;
  to_str = λ v. if is_visible v then some v else none;
  as_bytes = λ v. v;
  from_str = from_str;
  from_static = λ t. t;
  parse_name = λ t. ok (to_ascii_lowercase t);
  Headers = Entries;
  empty = [];
  entries = λ h. h;
  get = λ n h. head? (values_of n h);
  get_all = values_of;
  contains_key = λ n h. not (is_empty (values_of n h));
  insert = λ n v h. without n h ++ (n, v) ∷ [];
  append = λ n v h. h ++ (n, v) ∷ [];
  remove = without;
  to_str_visible = IsVisible-of_to_str;
  to_str-from_static = to_str_visible;
  from_str_visible = from_str-visible;
  parse_name-lowercase = parse_name_ok;
  get-get_all = λ n h. refl;
  contains_key-get_all = λ n h. refl;
  get_all-entries = λ n h. refl;
  get_all-empty = values_of-nil;
  get_all-insert = λ n m v h. values_of-insert n m v h;
  get_all-append = λ n m v h. values_of_end n m v h;
  get_all-remove = λ n m h. values_of-without n m h;
}
