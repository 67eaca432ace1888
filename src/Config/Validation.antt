-- ===== src/Config/Validation.antt =====
-- What a configuration that was loaded guarantees.
use corsget.Prelude.{
  ℕ, suc, ◌<◌, ◌≡◌, ◌↔◌, ◌⊎◌, inl, inr, refl, false, ◌&&◌, List, [], ◌∷◌, All, Result, ok, arith,
  subst, >>_iff, ok-injective, Result-cases, is_empty,
}
use corsget.Text.{Text, trim}
use corsget.Limit.{LimitTier}
use corsget.Config.{Config, ResponseHeaderOverrideConfig, ProxyConfig}
use corsget.Config.Loading.{
  rate_window, rate_max, bandwidth_window, bandwidth_max, validate_tiers, validate_proxy,
  validate_overrides, validate, load,
}

abbrev pub IsUsable : LimitTier → Type 0
IsUsable tier = (0 < tier.window) × (0 < tier.max)

abbrev pub HasAction : ResponseHeaderOverrideConfig → Type 0
HasAction rule =
    (is_empty (trim rule.site) ≡ false)
    × (is_empty rule.remove_headers && is_empty rule.add_headers && is_empty rule.set_headers
        ≡ false)

-- Every limit has a positive window and a positive maximum, redirects or the timeout are on, and
-- every override has a site and an action.
abbrev pub IsValid : Config → Type 0
IsValid config =
    All IsUsable config.connection.rate_limit
    × All IsUsable config.connection.bandwidth_limit.connection
    × ((0 < config.proxy.max_redirects) ⊎ (0 < config.proxy.timeout))
    × All HasAction config.proxy.response_headers_overrides

validate_tiers_iff :
    (bad_window bad_max : Text) (tiers : List LimitTier)
    → (validate_tiers bad_window bad_max tiers ≡ ok tt) ↔ All IsUsable tiers
unfolding validate_tiers
validate_tiers_iff bad_window bad_max [] = (λ _. tt, λ _. refl)
validate_tiers_iff bad_window bad_max (tier ∷ tiers) =
    ground (arith, validate_tiers_iff bad_window bad_max tiers)

validate_proxy_iff :
    (proxy : ProxyConfig)
    → (validate_proxy proxy ≡ ok tt) ↔ ((0 < proxy.max_redirects) ⊎ (0 < proxy.timeout))
unfolding validate_proxy
validate_proxy_iff proxy = ground arith

validate_overrides_iff :
    (index : ℕ) (rules : List ResponseHeaderOverrideConfig)
    → (validate_overrides index rules ≡ ok tt) ↔ All HasAction rules
unfolding validate_overrides
validate_overrides_iff index [] = (λ _. tt, λ _. refl)
validate_overrides_iff index (rule ∷ rules) =
    ground (arith, validate_overrides_iff (suc index) rules)

validate_iff : (config : Config) → (validate config ≡ ok tt) ↔ IsValid config
unfolding validate
validate_iff config =
    let chain =
      >>_iff (validate_tiers rate_window rate_max config.connection.rate_limit) _
        (validate_tiers_iff rate_window rate_max config.connection.rate_limit)
        (>>_iff
          (validate_tiers bandwidth_window bandwidth_max
            config.connection.bandwidth_limit.connection)
          _
          (validate_tiers_iff bandwidth_window bandwidth_max
            config.connection.bandwidth_limit.connection)
          (>>_iff (validate_proxy config.proxy) _ (validate_proxy_iff config.proxy)
            (validate_overrides_iff 0 config.proxy.response_headers_overrides))) in
    (
      λ h. let (a, (b, (c, d))) = chain.0 h in (a, b, c, d),
      λ (a, b, c, d). chain.1 (a, (b, (c, d))),
    )

-- Loading returns a configuration exactly when the file opens, the reader accepts it with that
-- configuration, and the configuration is valid: every limit has a positive window and a positive
-- maximum, redirects or the timeout are on, and every override has a site and an action.
pub load_iff :
    {File : Type 0} (open_file : Text → Result Text File)
    (from_reader_strict : File → Result Text Config) (path : Text) (config : Config)
    → (load open_file from_reader_strict path ≡ ok config) ↔ (
        (file : File) × (open_file path ≡ ok file)
        × (from_reader_strict file ≡ ok config)
        × IsValid config)
unfolding load
load_iff {File = File} open_file reader path config = (loaded, accepted)
  where
    loaded :
        load open_file reader path ≡ ok config
        → (file : File) × (open_file path ≡ ok file) × (reader file ≡ ok config) × IsValid config
    loaded h = elim (Result-cases (open_file path)) [
      | inr (e, shut) ↦ cc (rw (shut, load) at h)
      | inl (file, opened) ↦ elim (Result-cases (reader file)) [
        | inr (e, refused) ↦ cc (rw (opened, load, refused) at h)
        | inl (read, same) ↦ elim (Result-cases (validate read)) [
          | inr (e, bad) ↦ cc (rw (opened, load, same, bad) at h)
          | inl (_, good) ↦
              let alike : read ≡ config = ok-injective (rw (opened, load, same, good) at h) in
              (file, opened, rw (← alike) same, subst IsValid alike ((validate_iff read).0 good))
        ]
      ]
    ]

    accepted :
        (file : File) × (open_file path ≡ ok file) × (reader file ≡ ok config) × IsValid config
        → load open_file reader path ≡ ok config
    accepted (file, opened, same, good) = rw (opened, load, same, (validate_iff config).1 good)
