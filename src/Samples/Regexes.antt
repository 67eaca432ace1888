-- ===== src/Samples/Regexes.antt =====
-- Patterns that are compared as texts: enough for the tests, which use few regular expressions.
use corsget.Prelude.{refl, ok}
use corsget.Text.{Text, has_text, to_ascii_lowercase}
use corsget.External.Regexes.{Regexes}

abbrev pub text_regexes : Regexes
text_regexes = record {
  Regex = Text;
  build = λ flags pattern. ok pattern;
  is_match = λ pattern s. has_text pattern s;
  escape = λ t. t;
  to_lowercase = to_ascii_lowercase;
  to_lowercase-ascii = λ s h. refl;
  escape-nil = refl;
}
