-- ===== src/Matcher/Tests.antt =====
-- Runs of the matcher, as in the tests of src/matcher.rs, and the theorems at concrete inputs.
use corsget.Prelude.{◌≡◌, refl, ◌↔◌, true, false, [], ◌∷◌, ok, err, any, collect}
use corsget.Text.{
  text, text_eq, trim, trim_matches, trim_start_matches, is_whitespace, split, rsplit_once,
  has_char, has_text, starts_with, to_ascii_lowercase, eq_ignore_ascii_case, join,
}
use corsget.Samples.Regexes.{text_regexes}
use corsget.Matcher.{
  exact, wildcard, regex, TargetList, set_flag, read_flags, slash_form, parse, is_match, is_allowed,
  target_list, drop_trailing_any, push_segments, wildcard_to_regex, invalid_regex,
}
use corsget.Matcher.Decision.{Allowed, is_allowed_iff}

matcher : Unit {0}
unfolding parse is_match is_allowed target_list wildcard_to_regex push_segments drop_trailing_any
    slash_form read_flags set_flag trim trim_matches trim_start_matches is_whitespace split
    rsplit_once has_char has_text starts_with to_ascii_lowercase eq_ignore_ascii_case text_eq text
    any collect join
matcher = tt

parsed_entries :
    (parse text_regexes (text " Example.COM ") ≡ ok (exact (text "example.com")))
    × (parse text_regexes (text "*.a.com") ≡ ok (wildcard (text "^.*.a.com$")))
    × (parse text_regexes (text "/ab/i") ≡ ok (regex (text "ab")))
    × (parse text_regexes (text "/") ≡ ok (exact (text "/")))
    × (parse text_regexes (text "/foo/iz")
        ≡ err (invalid_regex (text "/foo/iz") (text "unknown regex flag `z`")))
unfolding matcher
parsed_entries = (refl, refl, refl, refl, refl)

abbrev overridden : TargetList text_regexes
overridden = record {
  blacklist = exact (text "example.com") ∷ [];
  whitelist = exact (text "example.com") ∷ [];
}

decisions :
    (is_allowed text_regexes overridden (text "EXAMPLE.com") ≡ true)
    × (is_allowed text_regexes overridden (text "other.com") ≡ false)
unfolding matcher
decisions = (refl, refl)

is_allowed_iff_example :
    (is_allowed text_regexes overridden (text "example.com") ≡ true)
    ↔ Allowed text_regexes overridden (text "example.com")
is_allowed_iff_example = is_allowed_iff text_regexes overridden (text "example.com")
