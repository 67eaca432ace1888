-- ===== src/External/Routes.antt =====
-- The router of the crate `axum`: which of the patterns in use match a path.
use corsget.Prelude.{◌≡◌, ◌≢◌, ◌↔◌, Bool, true, [], some}
use corsget.Text.{Text, text, strip_prefix}

-- A wildcard captures one character at least.
pub record Routes : Type 0 where
  pub matches : (pattern path : Text) → Bool
  pub matches-root : (path : Text) → (matches (text "/") path ≡ true) ↔ (path ≡ text "/")
  pub matches-target :
      (path : Text)
      → (matches (text "/{*target}") path ≡ true)
        ↔ ((rest : Text) × (rest ≢ []) × (strip_prefix (text "/") path ≡ some rest))
