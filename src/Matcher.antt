-- ===== src/Matcher.antt =====
-- src/matcher.rs: allow and deny lists for target hosts and requesting origins.
pub mod Wildcard
pub mod Decision
pub mod Entries
mod Tests
use corsget.Prelude.{
  ℕ, Bool, true, false, ◌&&◌, ◌||◌, not, Option, none, some, List, [], ◌∷◌, ◌++◌, Result, ok, err,
  ◌>>=◌, map_err, collect, any, is_empty, if◌then◌else◌, ◌==◌,
}
use corsget.Text.{Text, text, trim, split, rsplit_once, has_char, eq_ignore_ascii_case}
use corsget.External.Regexes.{Regexes, Flags, no_flags}

-- `MatchError::InvalidRegex`.
pub record MatchError : Type 0 where
  pub pattern : Text
  pub source : Text

abbrev pub invalid_regex : Text → Text → MatchError
invalid_regex raw source = record { pattern = raw; source = source }

-- What one flag letter sets; `none` for an unknown letter.
unfoldable pub set_flag : ℕ → Flags → Option Flags
set_flag f flags =
    if f == b'i'
    then some (record flags { case_insensitive = true })
    else if f == b'm'
    then some (record flags { multi_line = true })
    else if f == b's'
    then some (record flags { dot_matches_new_line = true })
    else if f == b'x'
    then some (record flags { ignore_whitespace = true })
    else none

-- The loop over the trailing flags. The error is the message on the first unknown letter.
unfoldable pub read_flags : Flags → Text → Result Text Flags
read_flags flags [] = ok flags
read_flags flags (f ∷ fs) = elim (set_flag f flags) [
  | none ↦ err (text "unknown regex flag `" ++ f ∷ text "`")
  | some flags' ↦ read_flags flags' fs
]

-- The pattern and the flags of a `/pattern/flags` entry. The last slash is not the first character.
unfoldable pub slash_form : Text → Option (Text × Text)
slash_form [] = none
slash_form (c ∷ s) = if c == b'/' then rsplit_once b'/' s else none

-- `out.truncate(out.len() - 2)` where `out` ends in `.*`.
unfoldable pub drop_trailing_any : Text → Text
drop_trailing_any [] = []
drop_trailing_any (c ∷ []) = c ∷ []
drop_trailing_any (c ∷ d ∷ s) =
    let rest = c ∷ drop_trailing_any (d ∷ s) in
    if is_empty s && c == b'.' && d == b'*' then [] else rest

module _ (R : Regexes) where
  open R use {Regex, build, is_match as regex_is_match, escape, to_lowercase}

  pub data MatchEntry : Type 0 where
    exact : Text → MatchEntry
    wildcard : Regex → MatchEntry
    regex : Regex → MatchEntry

  -- The loop of `wildcard_to_regex` over the segments.
  unfoldable pub push_segments : Text → List Text → Text
  push_segments out [] = out
  push_segments out (segment ∷ segments) =
      push_segments ((if is_empty segment then out else out ++ escape segment) ++ text ".*")
        segments

  unfoldable pub wildcard_to_regex : Text → Text
  wildcard_to_regex pattern =
      drop_trailing_any (push_segments (text "^") (split b'*' pattern)) ++ text "$"

  -- `MatchEntry::parse`.
  unfoldable pub parse : Text → Result MatchError MatchEntry
  parse raw =
      let trimmed = trim raw in
      elim (slash_form trimmed) [
        | some (pattern, flags) ↦ do
          switches ← map_err (invalid_regex raw) (read_flags no_flags flags)
          re ← map_err (invalid_regex raw) (build switches pattern)
          ok (regex re)
        | none ↦
            if has_char b'*' trimmed
            then (do
              re ←
                  map_err (invalid_regex raw) (
                    build (record no_flags { case_insensitive = true }) (wildcard_to_regex trimmed))
              ok (wildcard re))
            else ok (exact (to_lowercase trimmed))
      ]

  -- `MatchEntry::is_match`.
  unfoldable pub is_match : MatchEntry → Text → Bool
  is_match (exact s) subject = eq_ignore_ascii_case s subject
  is_match (wildcard re) subject = regex_is_match re subject
  is_match (regex re) subject = regex_is_match re subject

  pub record TargetList : Type 0 where
    pub blacklist : List MatchEntry
    pub whitelist : List MatchEntry

  -- `TargetList::new`.
  unfoldable pub target_list : List Text → List Text → Result MatchError TargetList
  target_list blacklist whitelist = do
    blacklist' ← collect parse blacklist
    whitelist' ← collect parse whitelist
    ok (record { blacklist = blacklist'; whitelist = whitelist' })

  -- `TargetList::is_allowed`.
  unfoldable pub is_allowed : TargetList → Text → Bool
  is_allowed l subject =
      let blacklisted = any (λ e. is_match e subject) l.blacklist in
      let whitelisted = any (λ e. is_match e subject) l.whitelist in
      whitelisted || not blacklisted && is_empty l.whitelist

  -- `TargetList::has_whitelist`.
  unfoldable pub has_whitelist : TargetList → Bool
  has_whitelist l = not (is_empty l.whitelist)

  pub record MatchPolicy : Type 0 where
    pub target : TargetList
    pub origin : TargetList

  -- `MatchPolicy::new`.
  unfoldable pub match_policy :
      List Text → List Text → List Text → List Text → Result MatchError MatchPolicy
  match_policy target_blacklist target_whitelist origin_blacklist origin_whitelist = do
    target ← target_list target_blacklist target_whitelist
    origin ← target_list origin_blacklist origin_whitelist
    ok (record { target = target; origin = origin })
