-- ===== src/Cache/Lifetime.antt =====
-- Bounds on the lifetime of an entry.
use corsget.Prelude.{
  ℕ, ◌+◌, ◌-◌, ◌*◌, ◌/◌, ◌≤◌, ◌<◌, ◌≡◌, inl, inr, true, false, Option, none, some, arith, min,
  find_map, Option-cases, OnSome,
}
use corsget.Text.{Text, text}
use corsget.External.Http.{Http}
use corsget.Limit.{nanos_per_sec}
use corsget.Cors.{comma_list, get_str}
use corsget.Cache.{CacheEntry, is_fresh, max_age_of, expires_ttl, effective_ttl}

-- The whole seconds from `now` until a date.
abbrev pub seconds_until : ℕ → ℕ → ℕ
seconds_until now date = (date * nanos_per_sec - now) / nanos_per_sec

-- The lesser of a bound, if there is one, and a number.
abbrev pub capped : Option ℕ → ℕ → ℕ
capped none n = n
capped (some m) n = min n m

abbrev pub remaining : ℕ → Option ℕ → Option ℕ
remaining now none = none
remaining now (some date) = some (seconds_until now date)

pub capped_le : (o : Option ℕ) (n : ℕ) → (capped o n ≤ n) × OnSome (λ m. capped o n ≤ m) o
capped_le none n = (omega arith, tt)
capped_le (some m) n = (omega arith, omega arith)

module _ (H : Http) where
  open H use {Headers}

  -- The first usable `max-age` of a response.
  abbrev pub max_age_in : Headers → Option ℕ
  max_age_in h = elim (get_str H (text "cache-control") h) [
    | none ↦ none
    | some value ↦ find_map max_age_of (comma_list value)
  ]

  -- The date in `Expires`.
  abbrev pub expires_in : (Text → Option ℕ) → Headers → Option ℕ
  expires_in parse_http_date h = elim (get_str H (text "expires") h) [
    | none ↦ none
    | some value ↦ parse_http_date value
  ]

  expires_ttl_lem :
      (parse_http_date : Text → Option ℕ) (now configured : ℕ) (h : Headers)
      → expires_ttl H parse_http_date now configured h
        ≡ capped (remaining now (expires_in parse_http_date h)) configured
  unfolding expires_ttl
  expires_ttl_lem date now configured h = elim (Option-cases (get_str H (text "expires") h)) [
    | inl absent ↦ rw (expires_in, absent, expires_ttl)
    | inr (value, found) ↦ elim (Option-cases (date value)) [
      | inl bad ↦ rw (expires_in, found, expires_ttl, bad)
      | inr (d, parsed) ↦ rw (expires_in, found, expires_ttl, parsed)
    ]
  ]

  -- The lifetime of an entry is the least of the configured one, the response's `max-age` and the
  -- time until `Expires`, as far as the response has these: an upstream can only shorten it.
  pub effective_ttl_lem :
      (parse_http_date : Text → Option ℕ) (now configured : ℕ) (h : Headers)
      → effective_ttl H parse_http_date now configured h
        ≡ capped (remaining now (expires_in parse_http_date h)) (capped (max_age_in h) configured)
  unfolding effective_ttl
  effective_ttl_lem date now configured h =
      elim (Option-cases (get_str H (text "cache-control") h)) [
        | inl absent ↦
            rw (max_age_in, absent, effective_ttl) (expires_ttl_lem date now configured h)
        | inr (value, found) ↦ elim (Option-cases (find_map max_age_of (comma_list value))) [
          | inl bad ↦
              rw (max_age_in, found, effective_ttl, bad) (expires_ttl_lem date now configured h)
          | inr (m, read) ↦
              rw (max_age_in, found, effective_ttl, read)
                (expires_ttl_lem date now (min configured m) h)
        ]
      ]

  -- An entry whose lifetime was computed from a response is fresh only before that lifetime has
  -- passed, before the response's `max-age` has passed, and when it needs no revalidation.
  pub is_fresh-effective_ttl :
      (parse_http_date : Text → Option ℕ) (dated configured now : ℕ) (h : Headers)
      (entry : CacheEntry)
      → entry.ttl ≡ effective_ttl H parse_http_date dated configured h
      → is_fresh entry now ≡ true
      → (entry.revalidate ≡ false)
        × (now < entry.created_at + configured)
        × OnSome (λ m. now < entry.created_at + m) (max_age_in h)
  unfolding is_fresh
  is_fresh-effective_ttl date dated configured now h entry from fresh =
      let lifetime = effective_ttl_lem date dated configured h in
      let within = capped_le (max_age_in h) configured in
      let until =
        capped_le (remaining dated (expires_in date h)) (capped (max_age_in h) configured) in
      (ground arith, ground arith, below (max_age_in h) configured (omega arith) (ground arith))
    where
      below :
          (o : Option ℕ) (n : ℕ)
          → entry.ttl ≤ capped o n
          → now < entry.created_at + entry.ttl
          → OnSome (λ m. now < entry.created_at + m) o
      below none n small early = tt
      below (some m) n small early = omega arith

  pub effective_ttl_le :
      (parse_http_date : Text → Option ℕ) (now configured : ℕ) (h : Headers)
      → effective_ttl H parse_http_date now configured h ≤ configured
  effective_ttl_le date now configured h =
      let lifetime = effective_ttl_lem date now configured h in
      let within = capped_le (max_age_in h) configured in
      let until =
        capped_le (remaining now (expires_in date h)) (capped (max_age_in h) configured) in
      omega arith
