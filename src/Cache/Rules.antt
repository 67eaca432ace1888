-- ===== src/Cache/Rules.antt =====
-- The rules of the cache: patterns on a host with a path and a query, compiled from the whitelist.
use corsget.Prelude.{
  ℕ, Bool, false, ◌&&◌, none, some, List, ◌++◌, map, Result, ok, err, ◌>>=◌, to_option, filter_map,
  if◌then◌else◌, is_empty,
}
use corsget.Text.{
  Text, text, text_eq, trim, split, split_once, join, has_char, strip_prefix, to_ascii_lowercase,
}
use corsget.External.Regexes.{Regexes, no_flags}
use corsget.Matcher.{slash_form, read_flags}
use corsget.Config.{CacheRule}

-- `strip_scheme`.
unfoldable pub strip_scheme : Text → Text
strip_scheme value = elim (strip_prefix (text "http://") value) [
  | some rest ↦ rest
  | none ↦ elim (strip_prefix (text "https://") value) [ some rest ↦ rest | none ↦ value ]
]

-- The host of a pattern, and the rest from the first slash on.
unfoldable pub host_and_suffix : Text → Text × Text
host_and_suffix raw = elim (split_once b'/' raw) [
  | none ↦ (raw, text "/")
  | some (host, suffix) ↦ (host, text "/" ++ suffix)
]

module _ (R : Regexes) where
  open R use {Regex, build, is_match, escape}

  pub data CachePattern : Type 0 where
    exact : (host suffix : Text) → CachePattern
    wildcard : (host path : Regex) → CachePattern
    regex : Regex → CachePattern

  pub record CompiledRule : Type 0 where
    pub pattern : CachePattern
    pub max_age : ℕ

  -- The anchored expression of one half of a wildcard pattern.
  unfoldable pub wildcard_half : Text → Text
  wildcard_half half = text "^" ++ join (text ".*") (map escape (split b'*' half)) ++ text "$"

  -- A wildcard pattern that is not a lone star.
  unfoldable pub compile_wildcard : ℕ → Text → Text → Result Text CompiledRule
  compile_wildcard max_age host suffix = do
    host' ← build no_flags (wildcard_half host)
    path' ← build no_flags (wildcard_half suffix)
    ok (record { pattern = wildcard host' path'; max_age = max_age })

  -- The lone star. An `expect` that fails is an error.
  unfoldable pub compile_any : ℕ → Result Text CompiledRule
  compile_any max_age = do
    host ← build no_flags (text "^.*$")
    path ← build no_flags (text "^/.*$")
    ok (record { pattern = wildcard host path; max_age = max_age })

  -- A pattern without its scheme, which is no `/pattern/flags`.
  unfoldable pub compile_plain : ℕ → Text → Result Text CompiledRule
  compile_plain max_age raw =
      let (host, suffix) = host_and_suffix raw in
      let host' = to_ascii_lowercase host in
      if text_eq raw (text "*")
      then compile_any max_age
      else if has_char b'*' raw
      then compile_wildcard max_age host' suffix
      else ok (record { pattern = exact host' suffix; max_age = max_age })

  unfoldable pub compile_regex : ℕ → Text → Text → Result Text CompiledRule
  compile_regex max_age pattern flags = do
    switches ← read_flags no_flags flags
    re ← build switches pattern
    ok (record { pattern = regex re; max_age = max_age })

  -- `CompiledRule::new`.
  unfoldable pub compile_cache_rule : CacheRule → Result Text CompiledRule
  compile_cache_rule rule =
      let raw = trim rule.pattern in
      if is_empty raw then err (text "empty cache rule") else elim (slash_form raw) [
        | some (pattern, flags) ↦ compile_regex rule.max_age pattern flags
        | none ↦ compile_plain rule.max_age (strip_scheme raw)
      ]

  -- The loop of `Cache::initialize`: a rule that does not compile is ignored.
  unfoldable pub compile_rules : List CacheRule → List CompiledRule
  compile_rules rules = filter_map (λ rule. to_option (compile_cache_rule rule)) rules

  -- `CachePattern::is_match`.
  unfoldable pub pattern_matches : CachePattern → Text → Bool
  pattern_matches (regex re) subject = is_match re subject
  pattern_matches (exact host suffix) subject = elim (strip_prefix host subject) [
    | none ↦ false
    | some rest ↦ text_eq rest suffix
  ]
  pattern_matches (wildcard host path) subject = elim (split_once b'/' subject) [
    | none ↦ false
    | some (actual_host, actual_path) ↦
        is_match host actual_host && is_match path (text "/" ++ actual_path)
  ]
