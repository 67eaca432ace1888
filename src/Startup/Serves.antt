-- ===== src/Startup/Serves.antt =====
-- What holds when `main` begins to serve.
use corsget.Prelude.{
  ℕ, ◌≡◌, refl, sym, subst, inl, inr, Bool, true, false, Option, none, some, List, [], Result, ok,
  err, map_err, map, collect, OnOk, OnOk-eq, Result-cases,
}
use corsget.Text.{Text, assoc}
use corsget.External.Http.{Http}
use corsget.External.Regexes.{Regexes}
use corsget.External.Maps.{Maps}
use corsget.External.Codecs.{Codec}
use corsget.Disk.{Files, Disk}
use corsget.Limit.{WindowState}
use corsget.Cache.{CacheEntry}
use corsget.Cache.Files.{persisted}
use corsget.Cache.Vanishing.{IsKey}
use corsget.Config.{Config}
use corsget.Config.Loading.{load, validate}
use corsget.State.{AppState, Building, new_state}
use corsget.Startup.ConfigFile.{
  Process, LoadError, using_implicit_default, config_path, load_or_create,
}
use corsget.Startup.Loading.{at_rest, contents, expected, load_or_create_lem}
use corsget.Startup.Addresses.{SocketAddr, bind_addresses, listening_addresses}
use corsget.Startup.Start.{Started, Network, base_of, listen, start_with, start}
use corsget.Startup.Sound.{IsInitial, new_state-IsInitial}

module _ (from_reader_strict : Text → Result Text Config) (template : Text) where
  abbrev pub IsValid : Config → Type 0
  IsValid config = validate config ≡ ok tt

  contents-IsValid :
      (path bytes : Text) → OnOk IsValid (contents from_reader_strict template path bytes)
  unfolding load
  contents-IsValid path bytes = elim (Result-cases (from_reader_strict bytes)) [
    | inr (e, bad) ↦ rw (bad, load) tt
    | inl (config, good) ↦ elim (Result-cases (validate config)) [
      | inr (e, bad) ↦ rw (good, load, bad) tt
      | inl (_, valid) ↦ rw (good, load, valid) valid
    ]
  ]

  map_err-IsValid :
      {E F : Type 0} (f : E → F) (r : Result E Config) → OnOk IsValid r → OnOk IsValid (map_err f r)
  map_err-IsValid f (ok config) valid = valid
  map_err-IsValid f (err e) valid = tt

  -- What the loading gives validates, and nothing is going to fail behind it.
  expected-IsValid :
      (implicit : Bool) (path : Text) (files : Files) (counter : ℕ) (found : Option Text)
      → ((expected from_reader_strict template implicit path files counter found).0.faults ≡ [])
        × OnOk IsValid (expected from_reader_strict template implicit path files counter found).1
  expected-IsValid implicit path files counter (some bytes) =
      (refl, map_err-IsValid _ _ (contents-IsValid path bytes))
  expected-IsValid true path files counter none =
      (refl, map_err-IsValid _ _ (contents-IsValid path template))
  expected-IsValid false path files counter none = (refl, tt)

module _ (H : Http) (R : Regexes) (D : Maps WindowState) (C : Codec CacheEntry persisted)
    {Client Listener : Type 0} (b : Building Client) (network : Network Listener) where
  abbrev pub State : Type 0
  State = AppState H R D Client

  -- What holds of the state that is served, with the disk behind the start.
  abbrev pub IsServed : Text → Disk → Started State Listener → Type 0
  IsServed key disk started =
      (validate started.state.config ≡ ok tt)
      × IsInitial H R D C b started.state.config (base_of started.config_path) key disk
          started.state

  listen-OnOk :
      (path : Text) (addrs : List SocketAddr) (state : State)
      → OnOk
          (λ started. (started.config_path ≡ path) × (started.state ≡ state))
          (listen H R D C b network path addrs state)
  unfolding listen
  listen-OnOk path addrs state = elim (Result-cases (collect network.bind addrs)) [
    | inr (e, bad) ↦ rw (bad, listen) tt
    | inl (listeners, bound) ↦
        elim (Result-cases (
          listening_addresses network.display network.interfaces
            (map network.local_addr listeners))) [
              | inr (e, bad) ↦ rw (bound, listen, bad) tt
              | inl (addresses, shown) ↦ rw (bound, listen, shown) (refl, refl)
            ]
  ]

  listen-IsServed :
      (config : Config) (path key : Text) (disk : Disk) (addrs : List SocketAddr) (state : State)
      → validate config ≡ ok tt
      → IsInitial H R D C b config (base_of path) key disk state
      → OnOk (IsServed key disk) (listen H R D C b network path addrs state)
  listen-IsServed config path key disk addrs state valid initial =
      elim (Result-cases (listen H R D C b network path addrs state)) [
        | inr (e, bad) ↦ rw bad tt
        | inl (started, good) ↦
            let (same_path, same_state) =
              OnOk-eq (λ started. (started.config_path ≡ path) × (started.state ≡ state)) _
                (listen-OnOk path addrs state) good in
            rw (good, same_state, same_path)
              (subst
                (λ c. (validate c ≡ ok tt) × IsInitial H R D C b c (base_of path) key disk state)
                (sym initial.0) (valid, initial))
      ]

  start_with-IsServed :
      (path key : Text) (config : Config) (disk : Disk)
      → IsKey key
      → disk.faults ≡ []
      → validate config ≡ ok tt
      → OnOk
          (IsServed key (start_with H R D C b network path config disk).0)
          (start_with H R D C b network path config disk).1
  unfolding start_with
  start_with-IsServed path key config disk is_key none_left valid =
      elim (Result-cases (bind_addresses network.parse config.application)) [
        | inr (e, bad) ↦ rw (bad, start_with) tt
        | inl (addrs, parsed) ↦
            elim (Result-cases (new_state H R D C b config (base_of path) disk).1) [
              | inr (e, bad) ↦ rw (parsed, start_with, bad) tt
              | inl (state, made) ↦
                  let initial =
                    OnOk-eq
                      (IsInitial H R D C b config (base_of path) key
                        (new_state H R D C b config (base_of path) disk).0)
                      _
                      (new_state-IsInitial H R D C b config (base_of path) key disk is_key
                        none_left)
                      made in
                  rw (parsed, start_with, made)
                    (listen-IsServed config path key
                      (new_state H R D C b config (base_of path) disk).0 addrs state valid initial)
            ]
      ]

  pub start-IsServed :
      (from_reader_strict : Text → Result Text Config) (template : Text) (p : Process) (key : Text)
      (files : Files) (counter : ℕ)
      → IsKey key
      → OnOk
          (IsServed key
            (start H R D C b network from_reader_strict template p (at_rest files counter)).0)
          (start H R D C b network from_reader_strict template p (at_rest files counter)).1
  unfolding start
  start-IsServed from_reader_strict template p key files counter is_key =
      elim (Result-cases (config_path p)) [
        | inr (e, bad) ↦ rw (bad, start) tt
        | inl (path, found) ↦
            let implicit = using_implicit_default p in
            let outcome =
              load_or_create from_reader_strict template implicit path (at_rest files counter) in
            let (quiet, valid) =
              subst
                (λ (o : Disk × Result LoadError Config).
                  (o.0.faults ≡ []) × OnOk (IsValid from_reader_strict template) o.1)
                (sym (load_or_create_lem from_reader_strict template implicit path files counter))
                (expected-IsValid from_reader_strict template implicit path files counter
                  (assoc path files)) in
            rw (found, start)
              (elim (Result-cases outcome.1) [
                | inr (e, bad) ↦ rw bad tt
                | inl (config, good) ↦ rw good (
                    start_with-IsServed path key config outcome.0 is_key quiet
                      (OnOk-eq (IsValid from_reader_strict template) _ valid good))
              ])
      ]
