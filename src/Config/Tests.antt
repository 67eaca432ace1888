-- ===== src/Config/Tests.antt =====
-- The example of src/config.rs, and the theorems at concrete inputs.
use corsget.Prelude.{
  ℕ, Option, Result, ◌≡◌, refl, ◌≤◌, ◌<◌, ◌*◌, ◌↔◌, inl, inr, List, [], ◌∷◌, ok, err, some, arith,
  true, false, u64_max,
}
use corsget.Text.{Text, text, split}
use corsget.Config.{
  Config, eval_byte_expr, deserialize_byte_count, deserialize_hosts, one, many,
  deserialize_non_empty_strings, values, null, HeaderPair, deserialize_pair,
}
use corsget.Samples.Configs.{small_config}
use corsget.Config.Loading.{load, validate_overrides}
use corsget.Config.Expressions.{product, eval_byte_expr_sound, Reads}
use corsget.Config.Validation.{IsValid, load_iff}

settings : Unit {0}
unfolding eval_byte_expr corsget.Config.multiply_parts deserialize_hosts deserialize_pair
    deserialize_non_empty_strings corsget.Config.flatten load corsget.Config.Loading.validate
    corsget.Config.Loading.validate_tiers corsget.Config.Loading.validate_proxy
    corsget.Config.Loading.validate_overrides text split corsget.Text.trim corsget.Text.parse_u64
    corsget.Prelude.filter corsget.Prelude.filter_map corsget.Text.to_decimal
settings = tt

abbrev half_gib : Text
half_gib = text "1024 * 1024*512"

evaluated :
    (eval_byte_expr half_gib ≡ ok (1024 * 1024 * 512))
    × (eval_byte_expr (text "2*x")
        ≡ err (text "invalid byte expression `2*x`: `x` is not a number"))
    × (eval_byte_expr (text "18446744073709551615*2")
        ≡ err (text "byte expression `18446744073709551615*2` overflows u64"))
    × (eval_byte_expr (text "0 * +5") ≡ ok 0)
unfolding settings
evaluated = (refl, refl, refl, refl)

read_strings :
    deserialize_non_empty_strings (values (some (text "a") ∷ Option.none ∷ some (text " ") ∷ []))
    ≡ text "a" ∷ []
unfolding settings
read_strings = refl

small_config-IsValid : IsValid small_config
unfolding settings
small_config-IsValid = (((omega arith, omega arith), tt), tt, inl (omega arith), ((refl, refl), tt))

eval_byte_expr_sound_example :
    (ns : List ℕ) × Reads (split b'*' half_gib) ns
    × (536870912 ≡ product ns)
    × (536870912 ≤ u64_max)
unfolding settings
eval_byte_expr_sound_example = eval_byte_expr_sound half_gib 536870912 refl

abbrev open_any : Text → Result Text Text
open_any path = ok path

abbrev read_small : Text → Result Text Config
read_small file = ok small_config

load_iff_example : (load open_any read_small (text "config.yml") ≡ ok small_config) ↔ (
    (file : Text) × (open_any (text "config.yml") ≡ ok file)
    × (read_small file ≡ ok small_config)
    × IsValid small_config)
load_iff_example = load_iff open_any read_small (text "config.yml") small_config
