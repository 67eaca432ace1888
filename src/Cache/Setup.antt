-- ===== src/Cache/Setup.antt =====
-- `Cache::initialize`: whether there is a cache, where, and what its clean-up has found.
use corsget.Prelude.{
  ℕ, Bool, true, false, not, Option, none, some, List, [], ◌∷◌, ◌==◌, if◌then◌else◌, is_empty,
}
use corsget.Text.{Text, text, trim, starts_with}
use corsget.External.Regexes.{Regexes}
use corsget.Config.{CacheConfig}
use corsget.Cache.Rules.{CompiledRule, compile_rules}
use corsget.Cache.Plan.{CacheInner}
use corsget.Cache.{CacheEntry}
use corsget.Cache.Files.{persisted}
use corsget.Cache.Cleanup.{CacheCleanupSummary, default_summary, cleanup_startup}
use corsget.External.Codecs.{Codec}
use corsget.Disk.{Disk}
use corsget.Disk.Paths.{join_path}

pub data CacheDisabledReason : Type 0 where
  disabled_by_config : CacheDisabledReason
  zero_max_age : CacheDisabledReason
  zero_max_size : CacheDisabledReason
  empty_whitelist : CacheDisabledReason
  cache_directory_unavailable : CacheDisabledReason
  no_valid_whitelist_rules : CacheDisabledReason

-- `CacheDisabledReason::fmt`.
unfoldable pub reason_text : CacheDisabledReason → Text
reason_text disabled_by_config = text "cache.enabled is false"
reason_text zero_max_age = text "cache.max_age is zero"
reason_text zero_max_size = text "cache.max_size is zero"
reason_text empty_whitelist = text "cache.whitelist is empty"
reason_text cache_directory_unavailable = text "cache directory could not be created"
reason_text no_valid_whitelist_rules = text "cache.whitelist has no valid rules"

-- The directory of the cache. `base` is the directory of the configuration file, and a path is
-- absolute when it begins with a slash.
unfoldable pub cache_root : Text → Text → Text
cache_root base location =
    let path = trim location in
    if is_empty path
    then join_path base (text ".cache")
    else if starts_with (text "/") path
    then path
    else join_path base path

-- The state of the cache in the startup summary.
pub record CacheStatus : Type 0 where
  pub enabled : Bool
  pub location : Text
  pub disabled_reason : Option CacheDisabledReason
  pub cleanup : CacheCleanupSummary

pub record CacheInitialization (R : Regexes) : Type 0 where
  pub cache : Option (CacheInner R)
  pub status : CacheStatus

module _ (R : Regexes) where
  -- The closure `disabled`.
  unfoldable pub disabled : Text → CacheDisabledReason → CacheInitialization R
  disabled root reason = record {
    cache = none;
    status = record {
      enabled = false;
      location = root;
      disabled_reason = some reason;
      cleanup = default_summary;
    };
  }

  -- The result for an active cache.
  unfoldable pub enabled_with : CacheInner R → CacheCleanupSummary → CacheInitialization R
  enabled_with cache cleanup = record {
    cache = some cache;
    status = record {
      enabled = true;
      location = cache.root;
      disabled_reason = none;
      cleanup = cleanup;
    };
  }

  -- The tests in front of the directory.
  unfoldable pub disabled_by : CacheConfig → Option CacheDisabledReason
  disabled_by config =
      if not config.enabled
      then some disabled_by_config
      else if config.max_age == 0
      then some zero_max_age
      else if config.max_size == 0
      then some zero_max_size
      else if is_empty config.whitelist
      then some empty_whitelist
      else none

  module _ (C : Codec CacheEntry persisted) (now : ℕ) where
    -- The cache over the rules that compiled, behind its clean-up.
    unfoldable pub with_rules :
        Text → CacheConfig → List (CompiledRule R) → Disk → Disk × CacheInitialization R
    with_rules root config [] disk = (disk, disabled root no_valid_whitelist_rules)
    with_rules root config (rule ∷ rules) disk =
        let cache : CacheInner R = record {
          root = root;
          max_size = config.max_size;
          default_max_age = config.max_age;
          rules = rule ∷ rules;
        } in
        let cleaned = cleanup_startup C root now config.max_size disk in
        (cleaned.disk, enabled_with cache cleaned.summary)

    -- `Cache::initialize`. `create_dir_all` tells whether the directory is there afterwards.
    unfoldable pub initialize :
        (create_dir_all : Text → Bool) → Text → CacheConfig → Disk → Disk × CacheInitialization R
    initialize create_dir_all base config disk =
        let root = cache_root base config.location in
        elim (disabled_by config) [
          | some reason ↦ (disk, disabled root reason)
          | none ↦
              if not (create_dir_all root)
              then (disk, disabled root cache_directory_unavailable)
              else with_rules root config (compile_rules R config.whitelist) disk
        ]
