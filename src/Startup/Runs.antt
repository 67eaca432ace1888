-- ===== src/Startup/Runs.antt =====
-- A start, and the theorems on it at concrete inputs.
use corsget.Prelude.{
  ℕ, ◌≡◌, refl, Bool, true, false, Option, none, some, List, [], ◌∷◌, Result, ok, err, OnOk,
  if◌then◌else◌, ◌==◌,
}
use corsget.Text.{Text, text, assoc}
use corsget.External.Maps.{Maps}
use corsget.Samples.Codecs.{entry_codec}
use corsget.Samples.Configs.{small_config}
use corsget.Samples.Http.{list_http}
use corsget.Samples.Maps.{list_map}
use corsget.Samples.Regexes.{text_regexes}
use corsget.Disk.{Files, Disk}
use corsget.Limit.{WindowState}
use corsget.Config.{Config}
use corsget.State.{AppState, Building}
use corsget.Startup.ConfigFile.{Process, load_or_create, config_path}
use corsget.Startup.Loading.{at_rest, expected, load_or_create_lem}
use corsget.Startup.Addresses.{SocketAddr, v4, listed_as}
use corsget.Startup.Start.{Started, Network, start}
use corsget.Startup.Serves.{IsServed, start-IsServed}

abbrev cached_config : Config
cached_config = record small_config {
  cache = record {
    enabled = true;
    max_age = 60;
    max_size = 1000;
    location = [];
    whitelist = record { pattern = text "https://a.com/x"; max_age = 30 } ∷ [];
  };
}

-- A reader of files that name a configuration.
abbrev read_named : Text → Result Text Config
read_named [] = err (text "empty")
read_named (c ∷ _) = if c == b'c' then ok cached_config else ok small_config

abbrev no_arguments : Process
no_arguments = record {
  argument = none;
  config_variable = none;
  current_exe = ok (text "/opt/corsget");
}

abbrev implicit_path : Text
implicit_path = text "/opt/config.yml"

-- The file of another start is left from before.
abbrev found_files : Files
found_files = (text "/opt/.cache/k.body", text "old") ∷ (implicit_path, text "c") ∷ []

abbrev building : Building Text
building = record {
  match_text = λ e. [];
  override_text = λ e. [];
  build_client = λ timeout. ok (text "client");
  create_dir_all = λ path. true;
  now = 9;
}

abbrev localhost : SocketAddr
localhost = record { ip = v4 1; port = 8080 }

abbrev network : Network SocketAddr
network = record {
  parse = λ host. ok localhost;
  display = λ addr. text "127.0.0.1:8080";
  bind = λ addr. ok addr;
  local_addr = λ addr. ok addr;
  interfaces = none;
}

paths :
    (config_path no_arguments ≡ ok implicit_path)
    × (config_path (record no_arguments { config_variable = some (text "c.yml") })
        ≡ ok (text "c.yml"))
unfolding config_path corsget.Startup.ConfigFile.parent text corsget.Text.rsplit_once
    corsget.Disk.Paths.dir_prefix
paths = (refl, refl)

-- A wildcard is listed as the interfaces of its family.
listed :
    listed_as (some (v4 7 ∷ corsget.Startup.Addresses.v6 3 ∷ [])) (record localhost { ip = v4 0 })
    ≡ record { ip = v4 7; port = 8080 } ∷ []
unfolding listed_as corsget.Startup.Addresses.is_unspecified corsget.Startup.Addresses.same_family
    corsget.Prelude.filter
listed = refl

started : Unit {0}
unfolding start corsget.Startup.Start.start_with corsget.Startup.Start.listen
    corsget.Startup.Start.base_of corsget.Startup.Addresses.bind_addresses
    corsget.Startup.Addresses.listening_addresses corsget.Startup.Addresses.listed_addresses
    listed_as corsget.Startup.Addresses.is_unspecified config_path corsget.Startup.ConfigFile.parent
    corsget.Startup.ConfigFile.using_implicit_default corsget.Startup.ConfigFile.is_none
    load_or_create corsget.Startup.ConfigFile.load_file corsget.Startup.ConfigFile.exists
    corsget.Startup.ConfigFile.create_default corsget.Config.Loading.load
    corsget.Config.Loading.validate corsget.Config.Loading.validate_tiers
    corsget.Config.Loading.validate_proxy corsget.Config.Loading.validate_overrides
    corsget.State.new_state corsget.State.assemble corsget.Matcher.match_policy
    corsget.Headers.compile_policy corsget.Prelude.collect corsget.Cache.Setup.initialize
    corsget.Cache.Setup.with_rules corsget.Cache.Setup.disabled corsget.Cache.Setup.disabled_by
    corsget.Cache.Setup.enabled_with corsget.Cache.Setup.cache_root
    corsget.Cache.Rules.compile_rules corsget.Cache.Rules.compile_cache_rule
    corsget.Cache.Rules.compile_plain corsget.Cache.Rules.compile_any
    corsget.Cache.Rules.compile_wildcard corsget.Cache.Rules.host_and_suffix
    corsget.Cache.Rules.compile_regex corsget.Cache.Cleanup.cleanup_startup
    corsget.Cache.Cleanup.clean_names corsget.Cache.Cleanup.clean_name
    corsget.Cache.Cleanup.clean_rest corsget.Cache.Cleanup.clean_orphans
    corsget.Cache.Cleanup.clean_orphan corsget.Cache.Cleanup.clean_evicted
    corsget.Cache.Cleanup.is_cache_temp_file corsget.Cache.Cleanup.remove_cache_file
    corsget.Disk.run corsget.Disk.run_with corsget.Disk.read_file corsget.Disk.file_len
    corsget.Disk.remove_file corsget.Disk.read_dir corsget.Disk.next_item corsget.Disk.drop
    corsget.Disk.Paths.dir_prefix corsget.Disk.Paths.split_name corsget.Disk.Paths.has_extension
    text corsget.Text.text_eq corsget.Text.trim corsget.Text.starts_with corsget.Text.has_text
    corsget.Text.has_char corsget.Text.strip_prefix corsget.Text.rsplit_once assoc
    corsget.Text.member corsget.Text.to_decimal corsget.Text.digits_of corsget.Text.join
    corsget.Prelude.any corsget.Prelude.filter corsget.Prelude.filter_map corsget.Text.split_once
    corsget.Matcher.target_list corsget.Matcher.slash_form corsget.Cache.Rules.strip_scheme
    corsget.Cache.Eviction.evict_from corsget.Cache.Eviction.sort_by_access
started = tt

load_or_create_lem_example :
    load_or_create read_named (text "small") true implicit_path (at_rest [] 0)
    ≡ expected read_named (text "small") true implicit_path [] 0 (assoc implicit_path [])
load_or_create_lem_example = load_or_create_lem read_named (text "small") true implicit_path [] 0

abbrev maps : Maps WindowState
maps = list_map WindowState

start-IsServed_example :
    OnOk
      (IsServed list_http text_regexes maps entry_codec building network
        (text "k")
        (start list_http text_regexes maps entry_codec building network read_named
          (text "small")
          no_arguments
          (at_rest found_files 0)).0)
      (start list_http text_regexes maps entry_codec building network read_named
        (text "small")
        no_arguments
        (at_rest found_files 0)).1
unfolding text corsget.Cache.Cleanup.is_cache_temp_file corsget.Text.has_text
    corsget.Text.starts_with corsget.Text.has_char corsget.Prelude.any
    corsget.Disk.Paths.has_extension corsget.Disk.Paths.split_name corsget.Text.text_eq
    corsget.Text.rsplit_once
start-IsServed_example =
    start-IsServed list_http text_regexes maps entry_codec building network read_named
      (text "small") no_arguments (text "k") found_files 0 (refl, refl, refl, refl)

-- The start goes through, and the body that has no entry is removed.
starts :
    (start list_http text_regexes maps entry_codec building network read_named
      (text "small")
      no_arguments
      (at_rest found_files 0)).0.files
    ≡ (implicit_path, text "c") ∷ []
unfolding started
starts = refl
