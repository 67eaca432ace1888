-- ===== src/Cache/Starting.antt =====
-- When `Cache::initialize` gives a cache, and in which state.
use corsget.Prelude.{
  ℕ, ◌≡◌, ◌≢◌, refl, inl, inr, Bool, true, none, List, [], ◌∷◌, ◌==◌, Bool-cases, Option-cases,
  OnSome, arith,
}
use corsget.Text.{Text}
use corsget.External.Regexes.{Regexes}
use corsget.External.Codecs.{Codec}
use corsget.Disk.{Disk}
use corsget.Config.{CacheConfig}
use corsget.Cache.{CacheEntry}
use corsget.Cache.Files.{persisted}
use corsget.Cache.Rules.{CompiledRule, compile_rules}
use corsget.Cache.Plan.{CacheInner}
use corsget.Cache.Freshness.{FreshAt, cleanup_startup-FreshAt}
use corsget.Cache.Vanishing.{IsKey}
use corsget.Cache.Setup.{cache_root, disabled, enabled_with, disabled_by, with_rules, initialize}

module _ (R : Regexes) (C : Codec CacheEntry persisted) (process now : ℕ) (base : Text)
    (config : CacheConfig) where
  -- The configuration asks for a cache.
  pub record IsWanted : Type 0 where
    pub on : config.enabled ≡ true
    pub lasting : config.max_age ≢ 0
    pub roomy : config.max_size ≢ 0

  disabled_by-IsWanted : disabled_by R config ≡ none → IsWanted
  unfolding disabled_by
  disabled_by-IsWanted e = elim (Bool-cases config.enabled) [
    | inr off ↦ cc (rw (off, disabled_by) at e)
    | inl on ↦ elim (Bool-cases (config.max_age == 0)) [
      | inl zero_age ↦ cc (rw (on, disabled_by, zero_age) at e)
      | inr some_age ↦ elim (Bool-cases (config.max_size == 0)) [
        | inl zero_size ↦ cc (rw (on, disabled_by, some_age, zero_size) at e)
        | inr some_size ↦ record {
          on = on;
          lasting = ground (arith, some_age);
          roomy = ground (arith, some_size);
        }
      ]
    ]
  ]

  -- What holds of a cache behind its initialization.
  abbrev pub IsReady : Text → Disk → CacheInner R → Type 0
  IsReady key disk cache =
      IsWanted
      × (cache.root ≡ cache_root base config.location)
      × (cache.max_size ≡ config.max_size)
      × (cache.default_max_age ≡ config.max_age)
      × (cache.rules ≡ compile_rules R config.whitelist)
      × (cache.rules ≢ [])
      × FreshAt C process cache.root now key disk.files

  with_rules-IsReady :
      (key : Text)
      → IsKey key
      → (rules : List (CompiledRule R)) (disk : Disk) → disk.faults ≡ []
      → rules ≡ compile_rules R config.whitelist
      → IsWanted
      → OnSome
          (IsReady key (with_rules R C now (cache_root base config.location) config rules disk).0)
          (with_rules R C now (cache_root base config.location) config rules disk).1.cache
  unfolding with_rules disabled enabled_with
  with_rules-IsReady key is_key [] disk none_left same wanted = tt
  with_rules-IsReady key is_key (rule ∷ rules) disk none_left same wanted =
      let root = cache_root base config.location in
      (
        wanted,
        refl,
        refl,
        refl,
        same,
        (λ e. cc e),
        cleanup_startup-FreshAt C process root now key is_key config.max_size disk none_left,
      )

  -- If there is a cache behind the start, the configuration asks for one with a size and an age, the
  -- cache has that size and the rules that compile, of which there are some, and for each key it
  -- shows an entry that is fresh or none. (No operation on the disk fails.)
  pub initialize-IsReady :
      (create_dir_all : Text → Bool) (key : Text) (disk : Disk)
      → IsKey key
      → disk.faults ≡ []
      → OnSome
          (IsReady key (initialize R C now create_dir_all base config disk).0)
          (initialize R C now create_dir_all base config disk).1.cache
  unfolding initialize disabled
  initialize-IsReady create_dir_all key disk is_key none_left =
      elim (Option-cases (disabled_by R config)) [
        | inr (reason, off) ↦ rw (off, initialize) tt
        | inl on ↦ elim (Bool-cases (create_dir_all (cache_root base config.location))) [
          | inr missing ↦ rw (on, initialize, missing) tt
          | inl there ↦
              rw (on, initialize, there)
                (with_rules-IsReady key is_key (compile_rules R config.whitelist) disk none_left
                  refl (disabled_by-IsWanted on))
        ]
      ]
