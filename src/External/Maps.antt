-- ===== src/External/Maps.antt =====
-- The crate `dashmap`: a concurrent map whose entries are read and written one at a time.
use corsget.Prelude.{◌≡◌, Option, none, some, if◌then◌else◌}
use corsget.Text.{Text, text_eq}

pub record Maps (V : Type 0) : Type 1 where
  pub Map : Type 0
  pub empty : Map
  pub find : Text → Map → Option V
  pub store : Text → V → Map → Map
  pub find-empty : (k : Text) → find k empty ≡ none
  pub find-store :
      (j k : Text) (v : V) (m : Map)
      → find j (store k v m) ≡ (if text_eq j k then some v else find j m)
