-- ===== src/Headers/Tests.antt =====
-- A policy that is compiled and applied, and the theorems at concrete inputs.
use mathlib.Core.List.{Memᴰ}
use corsget.Prelude.{◌≡◌, refl, inl, inr, List, [], ◌∷◌, ok, map, none, some, last}
use corsget.Text.{Text, text, text_eq}
use corsget.External.Http.{values_of}
use corsget.Samples.Http.{list_http, is_visible, without}
use corsget.Samples.Urls.{small_urls, SmallUrl}
use corsget.Samples.Regexes.{text_regexes}
use corsget.Matcher.{exact, parse, is_match, slash_form}
use corsget.Config.{ResponseHeaderOverrideConfig}
use corsget.Cors.{is_hop_by_hop, insert_all}
use corsget.Headers.{
  HeaderOverrideRule, HeaderOverridePolicy, compile_policy, apply_rule, apply, parse_header_name,
  header_name,
}
use corsget.Headers.Actions.{apply_rule-get_all}
use corsget.Headers.Managed.{apply-IsManaged}

overrides : Unit {0}
unfolding corsget.Headers.parse_header_name corsget.Headers.parse_header_pair
    corsget.Headers.parse_header_pairs corsget.Headers.remove_all corsget.Headers.append_all
    corsget.Headers.compile_rule corsget.Headers.apply_rule corsget.Headers.compile_policy
    corsget.Headers.matches corsget.Headers.apply is_hop_by_hop insert_all text_eq text values_of
    is_visible without parse is_match slash_form corsget.Prelude.any corsget.Prelude.collect
    corsget.Text.member corsget.Text.trim corsget.Text.to_ascii_lowercase corsget.Text.starts_with
    corsget.Text.has_char corsget.Text.eq_ignore_ascii_case corsget.Text.trim_matches
overrides = tt

abbrev site_config : ResponseHeaderOverrideConfig
site_config = record {
  site = text "https://a.b/";
  remove_headers = text "Server" ∷ [];
  add_headers = record { name = text "Link"; value = text "x" } ∷ [];
  set_headers = record { name = text "X-Frame-Options"; value = text " DENY " } ∷ [];
}

abbrev site_rule : HeaderOverrideRule list_http text_regexes
site_rule = record {
  site = exact (text "https://a.b/");
  site_pattern = text "https://a.b/";
  remove = text "server" ∷ [];
  add = (text "link", text "x") ∷ [];
  set = (text "x-frame-options", text "DENY") ∷ [];
}

abbrev page : SmallUrl
page = record { scheme = text "https"; host = text "a.b"; path = text "/" }

abbrev answered : List (Text × Text)
answered =
    (text "server", text "s")
    ∷ (text "link", text "w")
    ∷ (text "x-frame-options", text "ALLOW")
    ∷ (text "x-cache", text "HIT")
    ∷ []

compiled : compile_policy list_http text_regexes (site_config ∷ []) ≡ ok (site_rule ∷ [])
unfolding overrides
compiled = refl

applied :
    apply list_http text_regexes small_urls (site_rule ∷ []) answered page page
    ≡ (text "link", text "w")
      ∷ (text "x-cache", text "HIT")
      ∷ (text "link", text "x")
      ∷ (text "x-frame-options", text "DENY")
      ∷ []
unfolding overrides
applied = refl

apply_rule-get_all_example :
    values_of (text "link") (apply_rule list_http text_regexes site_rule answered)
    ≡ text "w" ∷ text "x" ∷ []
unfolding overrides
apply_rule-get_all_example =
    apply_rule-get_all list_http text_regexes site_rule (text "link") answered

apply-IsManaged_example :
    values_of
      (text "x-cache")
      (apply list_http text_regexes small_urls (site_rule ∷ []) answered page page)
    ≡ text "HIT" ∷ []
unfolding overrides
apply-IsManaged_example =
    apply-IsManaged (text "x-cache") list_http
      (inr (Memᴰ.tail (Memᴰ.tail (Memᴰ.tail (Memᴰ.tail (Memᴰ.tail (Memᴰ.tail (Memᴰ.head refl))))))))
      text_regexes small_urls (site_config ∷ []) (site_rule ∷ []) answered page page compiled
