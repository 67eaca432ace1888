-- ===== src/Headers.antt =====
-- src/headers.rs: response header overrides, compiled from the configuration and applied in order.
pub mod Managed
pub mod Actions
mod Tests
use corsget.Prelude.{
  Bool, true, false, ◌||◌, Option, none, some, List, [], ◌∷◌, Result, ok, err, ◌>>=◌, map_err,
  if◌then◌else◌, collect, is_empty,
}
use corsget.Text.{Text, text, trim, to_ascii_lowercase, member}
use corsget.External.Http.{Http}
use corsget.External.Urls.{Urls}
use corsget.External.Regexes.{Regexes}
use corsget.Config.{HeaderPair, ResponseHeaderOverrideConfig}
use corsget.Matcher.{MatchError, MatchEntry, parse, is_match}
use corsget.Cors.{is_hop_by_hop, insert_all}

abbrev pub forbidden_header_names : List Text
forbidden_header_names =
    text "content-length"
    ∷ text "access-control-allow-origin"
    ∷ text "access-control-allow-credentials"
    ∷ text "access-control-allow-headers"
    ∷ text "access-control-allow-methods"
    ∷ text "access-control-max-age"
    ∷ text "x-cache"
    ∷ []

pub data HeaderOverrideError : Type 0 where
  site : (pattern : Text) → MatchError → HeaderOverrideError
  header_name : (name reason : Text) → HeaderOverrideError
  header_value : (name reason : Text) → HeaderOverrideError

module _ (H : Http) where
  open H use {Value, Headers, parse_name, from_str, append, remove}

  -- `parse_header_name`.
  unfoldable pub parse_header_name : Text → Result HeaderOverrideError Text
  parse_header_name name =
      let trimmed = trim name in
      let lower = to_ascii_lowercase trimmed in
      if is_hop_by_hop lower
      then err (
          header_name trimmed (text "hop-by-hop and proxy-injected headers must not be overridden"))
      else if member lower forbidden_header_names
      then err (
          header_name trimmed
            (text "this header is managed by the proxy and must not be overridden"))
      else map_err (header_name trimmed) (parse_name trimmed)

  unfoldable pub parse_header_pair : HeaderPair → Result HeaderOverrideError (Text × Value)
  parse_header_pair pair = do
    name ← parse_header_name pair.name
    value ← map_err (header_value pair.name) (from_str (trim pair.value))
    ok (name, value)

  -- `parse_header_pairs`.
  unfoldable pub parse_header_pairs :
      List HeaderPair → Result HeaderOverrideError (List (Text × Value))
  parse_header_pairs pairs = collect parse_header_pair pairs

  -- The first two loops of `HeaderOverrideRule::apply`; the third is `insert_all`.
  unfoldable pub remove_all : List Text → Headers → Headers
  remove_all [] h = h
  remove_all (name ∷ names) h = remove_all names (remove name h)

  unfoldable pub append_all : List (Text × Value) → Headers → Headers
  append_all [] h = h
  append_all ((name, value) ∷ pairs) h = append_all pairs (append name value h)

  module _ (R : Regexes) where
    pub record HeaderOverrideRule : Type 0 where
      pub site : MatchEntry R
      pub site_pattern : Text
      pub remove : List Text
      pub add : List (Text × Value)
      pub set : List (Text × Value)

    -- `HeaderOverrideRule::new`.
    unfoldable pub compile_rule :
        ResponseHeaderOverrideConfig → Result HeaderOverrideError HeaderOverrideRule
    compile_rule rule = do
      entry ← map_err (HeaderOverrideError.site rule.site) (parse R rule.site)
      remove ← collect parse_header_name rule.remove_headers
      add ← parse_header_pairs rule.add_headers
      set ← parse_header_pairs rule.set_headers
      ok (record { site = entry; site_pattern = rule.site; remove = remove; add = add; set = set })

    -- `HeaderOverrideRule::apply`.
    unfoldable pub apply_rule : HeaderOverrideRule → Headers → Headers
    apply_rule rule h = insert_all H rule.set (append_all rule.add (remove_all rule.remove h))

    abbrev pub HeaderOverridePolicy : Type 0
    HeaderOverridePolicy = List HeaderOverrideRule

    -- `HeaderOverridePolicy::new`.
    unfoldable pub compile_policy :
        List ResponseHeaderOverrideConfig → Result HeaderOverrideError HeaderOverridePolicy
    compile_policy rules = collect compile_rule rules

    module _ (U : Urls) where
      open U use {Url, as_str}

      -- `HeaderOverrideRule::matches`.
      unfoldable pub matches : HeaderOverrideRule → Url → Url → Bool
      matches rule requested final_url =
          is_match R rule.site (as_str requested) || is_match R rule.site (as_str final_url)

      -- `HeaderOverridePolicy::apply`.
      unfoldable pub apply : HeaderOverridePolicy → Headers → Url → Url → Headers
      apply [] h requested final_url = h
      apply (rule ∷ rules) h requested final_url =
          apply rules (if matches rule requested final_url then apply_rule rule h else h) requested
            final_url
