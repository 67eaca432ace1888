-- ===== src/Startup/Sound.antt =====
-- What holds once the server has started.
use corsget.Prelude.{
  ◌≡◌, refl, sym, ap, ◌∙◌, subst, inl, inr, [], ok, OnOk, OnOk-eq, OnSome, Result-cases,
}
use corsget.Text.{Text}
use corsget.External.Http.{Http}
use corsget.External.Regexes.{Regexes}
use corsget.External.Maps.{Maps}
use corsget.External.Codecs.{Codec}
use corsget.Disk.{Disk}
use corsget.Limit.{WindowState, new_limiter}
use corsget.Matcher.{MatchPolicy, match_policy}
use corsget.Headers.{compile_policy}
use corsget.Cache.{CacheEntry}
use corsget.Cache.Files.{persisted}
use corsget.Cache.Vanishing.{IsKey}
use corsget.Cache.Starting.{IsReady, initialize-IsReady}
use corsget.Cache.Setup.{CacheInitialization, initialize}
use corsget.Config.{Config}
use corsget.State.{AppState, Building, assemble, new_state}

module _ (H : Http) (R : Regexes) (D : Maps WindowState) (C : Codec CacheEntry persisted)
    {Client : Type 0} (b : Building Client) where
  -- The state is compiled from the configuration, with the cache of an initialization.
  pub record IsAssembled (config : Config) (policy : MatchPolicy R)
      (initialization : CacheInitialization R) (state : AppState H R D Client) : Type 0 where
    pub same_config : state.config ≡ config
    pub same_policy : state.match_policy ≡ policy
    pub same_limiter : state.bandwidth ≡ new_limiter D config.connection.bandwidth_limit.connection
    pub same_cache : state.cache ≡ initialization.cache
    pub compiled :
        compile_policy H R config.proxy.response_headers_overrides ≡ ok state.header_overrides

  assemble-IsAssembled :
      (config : Config) (policy : MatchPolicy R) (initialization : CacheInitialization R)
      → OnOk
          (IsAssembled config policy initialization)
          (assemble H R D C b config policy initialization)
  unfolding assemble
  assemble-IsAssembled config policy initialization =
      elim (Result-cases (compile_policy H R config.proxy.response_headers_overrides)) [
        | inr (e, bad) ↦ rw (bad, assemble) tt
        | inl (overrides, good) ↦ elim (Result-cases (b.build_client config.proxy.timeout)) [
          | inr (e, bad) ↦ rw (good, assemble, bad) tt
          | inl (client, built) ↦
              rw (good, assemble, built)
                (record {
                  same_config = refl;
                  same_policy = refl;
                  same_limiter = refl;
                  same_cache = refl;
                  compiled = good;
                })
        ]
      ]

  -- What holds of a state behind `AppState::new`.
  abbrev pub IsInitial : Config → Text → Text → Disk → AppState H R D Client → Type 0
  IsInitial config base key disk state =
      (state.config ≡ config)
      × (match_policy R config.connection.target.blacklist config.connection.target.whitelist
            config.connection.origin.blacklist config.connection.origin.whitelist
          ≡ ok state.match_policy)
      × (compile_policy H R config.proxy.response_headers_overrides ≡ ok state.header_overrides)
      × OnSome (IsReady R C 0 b.now base config.cache key disk) state.cache

  assembled :
      (config : Config) (base key : Text) (policy : MatchPolicy R)
      (initialization : Disk × CacheInitialization R)
      → match_policy R config.connection.target.blacklist config.connection.target.whitelist
          config.connection.origin.blacklist config.connection.origin.whitelist
        ≡ ok policy
      → OnSome (IsReady R C 0 b.now base config.cache key initialization.0) initialization.1.cache
      → OnOk
          (IsInitial config base key initialization.0)
          (assemble H R D C b config policy initialization.1)
  assembled config base key policy initialization good ready =
      elim (Result-cases (assemble H R D C b config policy initialization.1)) [
        | inr (e, bad) ↦ rw bad tt
        | inl (state, made) ↦
            let a : IsAssembled config policy initialization.1 state =
              OnOk-eq _ _ (assemble-IsAssembled config policy initialization.1) made in
            rw made (
              a.same_config,
              good ∙ ap (λ p. ok p) (sym a.same_policy),
              a.compiled,
              subst (OnSome (IsReady R C 0 b.now base config.cache key initialization.0))
                  (sym a.same_cache) ready,
            )
      ]

  -- The state that the handlers share is compiled from the configuration, and its cache, if there is
  -- one, is ready. (No operation on the disk fails.)
  pub new_state-IsInitial :
      (config : Config) (base key : Text) (disk : Disk)
      → IsKey key
      → disk.faults ≡ []
      → OnOk
          (IsInitial config base key (new_state H R D C b config base disk).0)
          (new_state H R D C b config base disk).1
  unfolding new_state
  new_state-IsInitial config base key disk is_key none_left =
      let initialization : Disk × CacheInitialization R =
        initialize R C b.now b.create_dir_all base config.cache disk in
      let ready =
        initialize-IsReady R C 0 b.now base config.cache b.create_dir_all key disk is_key
          none_left in
      elim (Result-cases (
        match_policy R config.connection.target.blacklist config.connection.target.whitelist
          config.connection.origin.blacklist config.connection.origin.whitelist)) [
            | inr (e, bad) ↦ rw (bad, new_state) tt
            | inl (policy, good) ↦
                rw (good, new_state) (assembled config base key policy initialization good ready)
          ]
