-- ===== src/State.antt =====
-- src/state.rs: the shared state, compiled from the configuration.
use corsget.Prelude.{ℕ, Bool, Option, ◌++◌, Result, ok, err, ◌>>=◌, map_err}
use corsget.Text.{Text, text}
use corsget.External.Http.{Http}
use corsget.External.Regexes.{Regexes}
use corsget.External.Maps.{Maps}
use corsget.Error.{AppError, denied, upstream}
use corsget.Matcher.{MatchError, MatchPolicy, match_policy}
use corsget.Limit.{WindowState, BandwidthLimiter, new_limiter}
use corsget.Config.{Config}
use corsget.Headers.{HeaderOverrideError, HeaderOverridePolicy, compile_policy}
use corsget.Disk.{Disk}
use corsget.External.Codecs.{Codec}
use corsget.Cache.{CacheEntry}
use corsget.Cache.Files.{persisted}
use corsget.Cache.Plan.{CacheInner}
use corsget.Cache.Setup.{CacheStatus, CacheInitialization, initialize}

-- `Client` is the upstream client. The state of the rate limit starts empty, and is not shown.
pub record AppState (H : Http) (R : Regexes) (D : Maps WindowState) (Client : Type 0) : Type 0 where
  pub config : Config
  pub match_policy : MatchPolicy R
  pub bandwidth : BandwidthLimiter D
  pub http_client : Client
  pub cache : Option (CacheInner R)
  pub cache_status : CacheStatus
  pub header_overrides : HeaderOverridePolicy H R

-- What `AppState::new` calls outside: the texts of the errors, the client's constructor, and the file
-- system. The clock is read once.
pub record Building (Client : Type 0) : Type 0 where
  pub match_text : MatchError → Text
  pub override_text : HeaderOverrideError → Text
  pub build_client : ℕ → Result Text Client
  pub create_dir_all : Text → Bool
  pub now : ℕ

module _ (H : Http) (R : Regexes) (D : Maps WindowState) (C : Codec CacheEntry persisted)
    {Client : Type 0} (b : Building Client) where
  -- The end of `AppState::new`, behind the cache.
  unfoldable pub assemble :
      Config → MatchPolicy R → CacheInitialization R → Result AppError (AppState H R D Client)
  assemble config policy initialization = do
    header_overrides ←
        map_err (λ e. denied (text "invalid header override: " ++ b.override_text e))
          (compile_policy H R config.proxy.response_headers_overrides)
    http_client ← map_err upstream (b.build_client config.proxy.timeout)
    ok (record {
      config = config;
      match_policy = policy;
      bandwidth = new_limiter D config.connection.bandwidth_limit.connection;
      http_client = http_client;
      cache = initialization.cache;
      cache_status = initialization.status;
      header_overrides = header_overrides;
    })

  -- `AppState::new`. The cache is cleaned before the overrides and the client are built.
  unfoldable pub new_state : Config → Text → Disk → Disk × Result AppError (AppState H R D Client)
  new_state config base disk =
      let compiled =
        match_policy R config.connection.target.blacklist config.connection.target.whitelist
          config.connection.origin.blacklist config.connection.origin.whitelist in
      let (disk', initialization) = initialize R C b.now b.create_dir_all base config.cache disk in
      elim compiled [
        | err e ↦ (disk, err (denied (text "invalid match policy: " ++ b.match_text e)))
        | ok policy ↦ (disk', assemble config policy initialization)
      ]
