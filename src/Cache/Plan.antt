-- ===== src/Cache/Plan.antt =====
-- The plan of a request: the key and the lifetime of its entry, if the cache serves it at all.
use corsget.Prelude.{
  ℕ, Bool, ◌||◌, Option, none, some, List, [], ◌∷◌, ◌++◌, ◌==◌, if◌then◌else◌, is_empty, min,
}
use corsget.Text.{Text, text, to_ascii_lowercase, to_decimal}
use corsget.External.Http.{Http}
use corsget.External.Urls.{Urls}
use corsget.External.Regexes.{Regexes}
use corsget.Cache.{CachePlan, supported_vary_headers}
use corsget.Cache.Rules.{CompiledRule, pattern_matches}

pub record CacheInner (R : Regexes) : Type 0 where
  pub root : Text
  pub max_size : ℕ
  pub default_max_age : ℕ
  pub rules : List (CompiledRule R)

unfoldable pub port_part : Option ℕ → Text
port_part none = []
port_part (some p) = text ":" ++ to_decimal p

unfoldable pub query_part : Option Text → Text
query_part none = []
query_part (some q) = text "?" ++ q

module _ (U : Urls) where
  open U use {Url, host_str, port, path, query}

  -- `normalized_url`.
  unfoldable pub normalized_url : Url → Text
  normalized_url url =
      to_ascii_lowercase (elim (host_str url) [ none ↦ [] | some host ↦ host ])
      ++ port_part (port url)
      ++ (if is_empty (path url) then text "/" else path url)
      ++ query_part (query url)

module _ (H : Http) where
  open H use {Headers, get, contains_key, as_bytes}

  -- The bytes of the first value; those of no header are none.
  unfoldable pub first_bytes : Headers → Text → Text
  first_bytes h name = elim (get name h) [ none ↦ [] | some v ↦ as_bytes v ]

  -- What `cache_key` gives the hasher behind the subject.
  unfoldable pub variant_material : List Text → Headers → Text
  variant_material [] h = []
  variant_material (name ∷ names) h =
      name ++ (0 ∷ first_bytes h name) ++ (0 ∷ variant_material names h)

  unfoldable pub key_material : Text → Headers → Text
  key_material subject h = subject ++ variant_material supported_vary_headers h

  -- `cache_key`, with the hash that it formats in hexadecimal.
  unfoldable pub cache_key : (Text → Text) → Text → Headers → Text
  cache_key sha256 subject h = sha256 (key_material subject h)

  -- The headers that keep a request out of the cache.
  unfoldable pub is_sensitive : Headers → Bool
  is_sensitive h =
      contains_key (text "authorization") h
      || contains_key (text "cookie") h
      || contains_key (text "range") h

  module _ (R : Regexes) where
    -- The loop of `Cache::plan` over the rules.
    unfoldable pub last_ttl : Text → Option ℕ → List (CompiledRule R) → Option ℕ
    last_ttl subject ttl [] = ttl
    last_ttl subject ttl (rule ∷ rules) =
        last_ttl subject (if pattern_matches R rule.pattern subject then some rule.max_age else ttl)
          rules

    unfoldable pub plan_for : (Text → Text) → ℕ → Text → Headers → Option ℕ → Option CachePlan
    plan_for sha256 default_max_age subject h none = none
    plan_for sha256 default_max_age subject h (some max_age) =
        let ttl = min max_age default_max_age in
        if ttl == 0 then none else some (record { key = cache_key sha256 subject h; ttl = ttl })

    -- `Cache::plan`.
    unfoldable pub plan :
        (U : Urls) → (Text → Text) → CacheInner R → U.Url → Headers → Option CachePlan
    plan U sha256 cache url h =
        let subject = normalized_url U url in
        if is_sensitive h
        then none
        else plan_for sha256 cache.default_max_age subject h (last_ttl subject none cache.rules)
