-- ===== src/Startup/Start.antt =====
-- `main`, up to the servers: the configuration, the addresses, the shared state, the listeners.
use corsget.Prelude.{Option, none, some, List, Result, ok, err, ◌>>=◌, map_err, collect, map}
use corsget.Text.{Text, text}
use corsget.External.Http.{Http}
use corsget.External.Regexes.{Regexes}
use corsget.External.Maps.{Maps}
use corsget.External.Codecs.{Codec}
use corsget.Disk.{Disk}
use corsget.Error.{AppError}
use corsget.Limit.{WindowState}
use corsget.Cache.{CacheEntry}
use corsget.Cache.Files.{persisted}
use corsget.Config.{Config}
use corsget.State.{AppState, Building, new_state}
use corsget.Startup.ConfigFile.{
  Process, LoadError, using_implicit_default, config_path, parent, load_or_create,
}
use corsget.Startup.Addresses.{SocketAddr, IpAddr, bind_addresses, listening_addresses}

-- Why `main` ends before it serves.
pub data StartError : Type 0 where
  no_path : Text → StartError
  no_config : LoadError → StartError
  bad_address : Text → StartError
  no_state : AppError → StartError
  not_bound : Text → StartError

-- What the servers start from, with the addresses that are logged.
pub record Started (State Listener : Type 0) : Type 0 where
  pub config_path : Text
  pub state : State
  pub listeners : List Listener
  pub addresses : Text

-- The sockets and the text forms of addresses.
pub record Network (Listener : Type 0) : Type 0 where
  pub parse : Text → Result Text SocketAddr
  pub display : SocketAddr → Text
  pub bind : SocketAddr → Result Text Listener
  pub local_addr : Listener → Result Text SocketAddr
  pub interfaces : Option (List IpAddr)

-- The directory of the configuration file, against which the cache's location is read.
unfoldable pub base_of : Text → Text
base_of path = elim (parent path) [ none ↦ text "." | some dir ↦ dir ]

module _ (H : Http) (R : Regexes) (D : Maps WindowState) (C : Codec CacheEntry persisted)
    {Client Listener : Type 0} (b : Building Client) (network : Network Listener) where
  -- The listeners, and what is logged of them.
  unfoldable pub listen :
      Text
      → List SocketAddr
      → AppState H R D Client
      → Result StartError (Started (AppState H R D Client) Listener)
  listen path addrs state = do
    listeners ← map_err not_bound (collect network.bind addrs)
    addresses ←
        map_err not_bound (
          listening_addresses network.display network.interfaces (map network.local_addr listeners))
    ok (record { config_path = path; state = state; listeners = listeners; addresses = addresses })

  -- The part of `main` behind the configuration.
  unfoldable pub start_with :
      Text → Config → Disk → Disk × Result StartError (Started (AppState H R D Client) Listener)
  start_with path config disk = elim (bind_addresses network.parse config.application) [
    | err e ↦ (disk, err (bad_address e))
    | ok addrs ↦
        let (disk', state) = new_state H R D C b config (base_of path) disk in
        (disk', elim state [ err e ↦ err (no_state e) | ok s ↦ listen path addrs s ])
  ]

  -- `main`, where it is not asked for its version.
  unfoldable pub start :
      (Text → Result Text Config)
      → (template : Text) → Process
      → Disk
      → Disk × Result StartError (Started (AppState H R D Client) Listener)
  start from_reader_strict template p disk = elim (config_path p) [
    | err e ↦ (disk, err (no_path e))
    | ok path ↦
        let (disk', loaded) =
          load_or_create from_reader_strict template (using_implicit_default p) path disk in
        elim loaded [
          | err e ↦ (disk', err (no_config e))
          | ok config ↦ start_with path config disk'
        ]
  ]
