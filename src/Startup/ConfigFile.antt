-- ===== src/Startup/ConfigFile.antt =====
-- The front of `main`: the version, the path of the configuration, and the file that is created there.
use corsget.Prelude.{
  Bool, true, false, ◌&&◌, ◌||◌, not, Option, none, some, [], Result, ok, err, map_err,
  if◌then◌else◌, any, is_empty,
}
use corsget.Text.{Text, text, text_eq, trim, rsplit_once}
use corsget.Disk.{Disk, read_file, write_file, file_len}
use corsget.Disk.Paths.{join_path}
use corsget.Config.{ApplicationConfig, Config}
use corsget.Config.Loading.{ConfigError, load}

-- What `main` reads of its process: the first argument, the variable CORSGET_CONFIG where it is
-- valid, and the path of the executable.
pub record Process : Type 0 where
  pub argument : Option Text
  pub config_variable : Option Text
  pub current_exe : Result Text Text

-- The arguments on which `main` prints its version and ends.
unfoldable pub asks_version : Process → Bool
asks_version p = elim p.argument [
  | none ↦ false
  | some argument ↦ text_eq argument (text "--version") || text_eq argument (text "-V")
]

abbrev pub default_config_filename : Text
default_config_filename = text "config.yml"

unfoldable pub is_none : Option Text → Bool
is_none none = true
is_none (some path) = false

unfoldable pub using_implicit_default : Process → Bool
using_implicit_default p = is_none p.argument && is_none p.config_variable

-- `Path::parent` of the path of an executable, which does not end in a slash.
unfoldable pub parent : Text → Option Text
parent path = if is_empty path then none else elim (rsplit_once b'/' path) [
  | none ↦ some []
  | some (dir, name) ↦ some (if is_empty dir then text "/" else dir)
]

unfoldable pub config_path : Process → Result Text Text
config_path p = elim p.argument [
  | some path ↦ ok path
  | none ↦ elim p.config_variable [
    | some path ↦ ok path
    | none ↦ elim p.current_exe [
      | err e ↦ err e
      | ok exe ↦ elim (parent exe) [
        | none ↦ err (text "executable has no parent directory")
        | some dir ↦ ok (join_path dir default_config_filename)
      ]
    ]
  ]
]

-- Why there is no configuration.
pub data LoadError : Type 0 where
  failed_to_load : (path : Text) → ConfigError → LoadError
  unwritable : Text → LoadError
  bad_default : ConfigError → LoadError

-- `from_reader_strict` is the YAML reader, and the template is the example that is built in.
module _ (from_reader_strict : Text → Result Text Config) (template : Text) where
  -- `Config::load`, from the disk.
  unfoldable pub load_file : Text → Disk → Disk × Result ConfigError Config
  load_file path disk =
      let (disk', opened) = read_file path disk in
      (disk', load (λ _. opened) from_reader_strict path)

  -- `Path::exists`, which an error makes false.
  unfoldable pub exists : Text → Disk → Disk × Bool
  exists path disk =
      let (disk', len) = file_len path disk in (disk', elim len [ ok _ ↦ true | err _ ↦ false ])

  -- The second branch: the template is written, and loaded.
  unfoldable pub create_default : Text → Disk → Disk × Result LoadError Config
  create_default path disk =
      let (disk', written) = write_file path template disk in
      let (end, loaded) = load_file path disk' in
      elim written [
        | err e ↦ (disk', err (unwritable e))
        | ok _ ↦ (end, map_err bad_default loaded)
      ]

  -- The `match` on `Config::load`. Only with the implicit path is it asked whether the file is there.
  unfoldable pub load_or_create : Bool → Text → Disk → Disk × Result LoadError Config
  load_or_create implicit path disk =
      let (disk', loaded) = load_file path disk in
      let (asked, there) = exists path disk' in
      let created = create_default path asked in
      elim loaded [
        | ok config ↦ (disk', ok config)
        | err e ↦
            if implicit
            then if there then (asked, err (failed_to_load path e)) else created
            else (disk', err (failed_to_load path e))
      ]

-- The test for the warning about a trusted header on a wildcard bind.
unfoldable pub trusts_on_wildcard : ApplicationConfig → Bool
trusts_on_wildcard application =
    not (is_empty (trim application.real_ip_header))
    && any
        (λ host.
          text_eq host (text "0.0.0.0") || text_eq host (text "[::]") || text_eq host (text "::"))
        application.host
