-- ===== src/Samples/Maps.antt =====
-- A map as an association list in which the newest entry counts.
use corsget.Prelude.{◌≡◌, refl, none, some, List, [], ◌∷◌, if◌then◌else◌}
use corsget.Text.{Text, text_eq, assoc}
use corsget.External.Maps.{Maps}

pub assoc-nil : {V : Type 0} (k : Text) → assoc {V = V} k [] ≡ none
unfolding assoc
assoc-nil k = refl

pub assoc-cons :
    {V : Type 0} (j k : Text) (v : V) (m : List (Text × V))
    → assoc j ((k, v) ∷ m) ≡ (if text_eq j k then some v else assoc j m)
unfolding assoc
assoc-cons j k v m = refl

abbrev pub list_map : (V : Type 0) → Maps V
list_map V = record {
  Map = List (Text × V);
  empty = [];
  find = assoc;
  store = λ k v m. (k, v) ∷ m;
  find-empty = assoc-nil;
  find-store = assoc-cons;
}
