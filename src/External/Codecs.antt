-- ===== src/External/Codecs.antt =====
-- The crate `serde_json` with the derived implementations of `serde`: a value as bytes, and back. The
-- fields that are marked `skip` are not written, and `skipped` gives them their defaults.
use corsget.Prelude.{◌≡◌, Result, ok}
use corsget.Text.{Text}

pub record Codec (T : Type 0) (skipped : T → T) : Type 0 where
  pub to_vec : T → Result Text Text
  pub from_slice : Text → Result Text T
  pub from_slice-to_vec :
      (value : T) (bytes : Text) → to_vec value ≡ ok bytes → from_slice bytes ≡ ok (skipped value)
