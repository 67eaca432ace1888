-- ===== src/Config/Loading.antt =====
-- Loading and validating a configuration: `Config::load` and `Config::validate`.
use corsget.Prelude.{
  ℕ, suc, ◌&&◌, List, [], ◌∷◌, ◌++◌, Result, ok, err, ◌>>=◌, ◌>>◌, map_err, ◌==◌, if◌then◌else◌,
  is_empty,
}
use corsget.Text.{Text, text, trim, to_decimal}
use corsget.Limit.{LimitTier}
use corsget.Config.{Config, ProxyConfig, ResponseHeaderOverrideConfig}

pub data ConfigError : Type 0 where
  parse : Text → ConfigError
  io : Text → ConfigError
  invalid : Text → ConfigError

-- The loop of `Config::validate` over the tiers of a limit, with the messages of that limit.
unfoldable pub validate_tiers : Text → Text → List LimitTier → Result ConfigError (Unit {0})
validate_tiers bad_window bad_max [] = ok tt
validate_tiers bad_window bad_max (tier ∷ tiers) =
    let rest = validate_tiers bad_window bad_max tiers in
    if tier.window == 0
    then err (invalid bad_window)
    else if tier.max == 0
    then err (invalid bad_max)
    else rest

unfoldable pub validate_proxy : ProxyConfig → Result ConfigError (Unit {0})
validate_proxy proxy =
    if proxy.max_redirects == 0 && proxy.timeout == 0
    then err (
        invalid (
          text
            "fields `proxy.max_redirects` and `proxy.timeout` cannot both be 0; increase either value to enable redirects or upstream requests"))
    else ok tt

-- `format!("field `proxy.response_headers_overrides[{index}]")`, and what follows.
abbrev override_message : ℕ → Text → ConfigError
override_message index rest =
    invalid (text "field `proxy.response_headers_overrides[" ++ to_decimal index ++ rest)

-- The loop of `Config::validate` over the overrides, from an index on.
unfoldable pub validate_overrides :
    ℕ → List ResponseHeaderOverrideConfig → Result ConfigError (Unit {0})
validate_overrides index [] = ok tt
validate_overrides index (rule ∷ rules) =
    let rest = validate_overrides (suc index) rules in
    if is_empty (trim rule.site)
    then err (
        override_message index
          (text "].site` must not be empty; use a target URL pattern such as `*://example.com/*`"))
    else if is_empty rule.remove_headers && is_empty rule.add_headers && is_empty rule.set_headers
    then err (
        override_message index
          (text "]` must define at least one of `remove_headers`, `add_headers`, or `set_headers`"))
    else rest

abbrev pub rate_window : Text
rate_window =
    text
      "field `connection.rate_limit[].window` must be > 0; set it to the number of seconds in the rate-limit window"

abbrev pub rate_max : Text
rate_max =
    text
      "field `connection.rate_limit[].max` must be > 0; set it to the maximum number of requests allowed"

abbrev pub bandwidth_window : Text
bandwidth_window =
    text
      "field `connection.bandwidth_limit.connection[].window` must be > 0; set it to the number of seconds in the bandwidth window"

abbrev pub bandwidth_max : Text
bandwidth_max =
    text
      "field `connection.bandwidth_limit.connection[].max` must be > 0; set it to the maximum number of bytes allowed"

-- `Config::validate`.
unfoldable pub validate : Config → Result ConfigError (Unit {0})
validate config =
    validate_tiers rate_window rate_max config.connection.rate_limit
    >> (validate_tiers bandwidth_window bandwidth_max config.connection.bandwidth_limit.connection
        >> (validate_proxy config.proxy
            >> validate_overrides 0 config.proxy.response_headers_overrides))

-- `Config::load`, with what opening the file gives and the strict YAML reader.
unfoldable pub load :
    {File : Type 0}
    → (Text → Result Text File)
    → (File → Result Text Config)
    → Text
    → Result ConfigError Config
load open_file from_reader_strict path = do
  file ← map_err io (open_file path)
  config ← map_err parse (from_reader_strict file)
  validate config
  ok config
