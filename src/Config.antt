-- ===== src/Config.antt =====
-- src/config.rs: the configuration, what its deserializers do with the values that serde hands
-- them.
pub mod Loading
pub mod Expressions
pub mod Validation
mod Tests
use corsget.Prelude.{
  ℕ, zero, suc, ◌+◌, Bool, true, false, ◌&&◌, ◌||◌, not, Option, none, some, List, [], ◌∷◌, ◌++◌,
  Result, ok, err, ◌>>=◌, ◌>>◌, map_err, ok_or, ◌==◌, if◌then◌else◌, is_empty, filter, filter_map,
  checked_mul,
}
use corsget.Text.{Text, text, split, trim, parse_u64, to_decimal}
use corsget.Limit.{LimitTier}

pub record ApplicationConfig : Type 0 where
  pub host : List Text
  pub port : ℕ
  pub hostname : Text
  pub real_ip_header : Text

abbrev pub default_real_ip_header : Text
default_real_ip_header = text "X-Real-IP"

pub record TargetListConfig : Type 0 where
  pub blacklist : List Text
  pub whitelist : List Text

pub record ResultSizeConfig : Type 0 where
  pub max : ℕ

pub record BandwidthLimitConfig : Type 0 where
  pub connection : List LimitTier
  pub result : ResultSizeConfig

pub record ConnectionConfig : Type 0 where
  pub target : TargetListConfig
  pub origin : TargetListConfig
  pub rate_limit : List LimitTier
  pub bandwidth_limit : BandwidthLimitConfig

pub record HeaderPair : Type 0 where
  pub name : Text
  pub value : Text

pub record ResponseHeaderOverrideConfig : Type 0 where
  pub site : Text
  pub remove_headers : List Text
  pub add_headers : List HeaderPair
  pub set_headers : List HeaderPair

pub record ProxyConfig : Type 0 where
  pub max_redirects : ℕ
  pub timeout : ℕ
  pub response_headers_overrides : List ResponseHeaderOverrideConfig

-- The field `pattern` is read from the key `match`.
pub record CacheRule : Type 0 where
  pub pattern : Text
  pub max_age : ℕ

pub record CacheConfig : Type 0 where
  pub enabled : Bool
  pub max_age : ℕ
  pub max_size : ℕ
  pub location : Text
  pub whitelist : List CacheRule

pub record Config : Type 0 where
  pub application : ApplicationConfig
  pub connection : ConnectionConfig
  pub proxy : ProxyConfig
  pub cache : CacheConfig

pub data Hosts : Type 0 where
  one : Text → Hosts
  many : List Text → Hosts

-- `deserialize_hosts`.
unfoldable pub deserialize_hosts : Hosts → Result Text (List Text)
deserialize_hosts (one host) = ok (host ∷ [])
deserialize_hosts (many hosts) =
    if is_empty hosts then err (text "application.host must not be empty") else ok hosts

pub data NullableVec (T : Type 0) : Type 0 where
  null : NullableVec T
  values : List (Option T) → NullableVec T

-- `into_iter().flatten()` over optional items.
unfoldable pub flatten : {T : Type 0} → List (Option T) → List T
flatten items = filter_map (λ item. item) items

-- `deserialize_optional_vec`.
unfoldable pub deserialize_optional_vec : {T : Type 0} → NullableVec T → List T
deserialize_optional_vec null = []
deserialize_optional_vec (values items) = flatten items

-- `deserialize_non_empty_strings`.
unfoldable pub deserialize_non_empty_strings : NullableVec Text → List Text
deserialize_non_empty_strings null = []
deserialize_non_empty_strings (values items) =
    filter (λ value. not (is_empty (trim value))) (flatten items)

-- The loop of `eval_byte_expr` over the factors.
unfoldable pub multiply_parts : Text → ℕ → List Text → Result Text ℕ
multiply_parts expr result [] = ok result
multiply_parts expr result (part ∷ parts) = do
  n ←
      ok_or
        (text "invalid byte expression `"
          ++ expr
          ++ text "`: `"
          ++ trim part
          ++ text "` is not a number")
        (parse_u64 (trim part))
  result' ←
      ok_or (text "byte expression `" ++ expr ++ text "` overflows u64") (checked_mul result n)
  multiply_parts expr result' parts

-- `eval_byte_expr`.
unfoldable pub eval_byte_expr : Text → Result Text ℕ
eval_byte_expr expr = multiply_parts expr 1 (split b'*' expr)

pub data NumOrExpr : Type 0 where
  num : ℕ → NumOrExpr
  expr : Text → NumOrExpr

-- `deserialize_byte_count`.
unfoldable pub deserialize_byte_count : NumOrExpr → Result Text ℕ
deserialize_byte_count (num n) = ok n
deserialize_byte_count (expr s) = eval_byte_expr s

-- `HeaderPair::deserialize`, from the entries of the map.
unfoldable pub deserialize_pair : List (Text × Text) → Result Text HeaderPair
deserialize_pair ((name, value) ∷ []) =
    if is_empty (trim name)
    then err (text "header name in `add_headers`/`set_headers` must not be empty")
    else ok (record { name = name; value = value })
deserialize_pair _ =
    err (text "each `add_headers`/`set_headers` entry must contain exactly one `name: value` pair")
