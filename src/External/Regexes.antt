-- ===== src/External/Regexes.antt =====
-- The crate `regex`, and the Unicode tables of `str::to_lowercase`.
use corsget.Prelude.{ℕ, ◌≡◌, ◌<◌, Bool, false, [], All, Result}
use corsget.Text.{Text, to_ascii_lowercase}

-- The switches of `RegexBuilder` that the program sets.
pub record Flags : Type 0 where
  pub case_insensitive : Bool
  pub multi_line : Bool
  pub dot_matches_new_line : Bool
  pub ignore_whitespace : Bool

abbrev pub no_flags : Flags
no_flags = record {
  case_insensitive = false;
  multi_line = false;
  dot_matches_new_line = false;
  ignore_whitespace = false;
}

abbrev pub IsAscii : ℕ → Type 0
IsAscii c = c < 128

-- Compiled patterns. The errors of `build` are rendered as messages.
pub record Regexes : Type 1 where
  pub Regex : Type 0
  pub build : Flags → Text → Result Text Regex
  pub is_match : Regex → Text → Bool
  pub escape : Text → Text
  pub to_lowercase : Text → Text
  pub to_lowercase-ascii : (s : Text) → All IsAscii s → to_lowercase s ≡ to_ascii_lowercase s
  pub escape-nil : escape [] ≡ []
