-- ===== src/Proxy/Forwarding.antt =====
-- Which headers pass the proxy, in both directions.
use mathlib.Core.List.{Memᴰ}
use corsget.Prelude.{
  ◌≡◌, ◌≢◌, refl, sym, ap, ◌∙◌, ◌⊎◌, inl, inr, ◌↔◌, Bool, true, ◌||◌, ◌&&◌, Option, none, some,
  List, [], ◌∷◌, ◌++◌, append-nil, append_assoc, arith, ok, if◌then◌else◌, any_iff, any-map, or_iff,
  decided_cases, Bool-cases, Result-cases,
}
use corsget.Text.{Text, text, text_eq, to_ascii_lowercase}
use corsget.Text.Equality.{text_eq_iff, text_eq-eq-false, text_eq_refl}
use corsget.External.Http.{Http, values_of}
use corsget.External.Urls.{Urls}
use corsget.Cors.{is_hop_by_hop, connection_headers}
use corsget.Cors.Names.{IsHopByHop, is_hop_by_hop_iff, IsCorsResponse, is_cors_response_header_iff}
use corsget.Proxy.{
  host_header, append_unless, nominated, not_forwarded, not_copied, copy_response_headers, set_host,
  forward_headers,
}

module _ (H : Http) where
  open H use {
    Value, Headers, empty, entries, append, insert, get_all, from_str, get_all-append,
    get_all-empty, get_all-insert, get_all-entries,
  }

  get_all-append_unless :
      (skip : Text → Bool) (n : Text) (es : List (Text × Value)) (out : Headers)
      → get_all n (append_unless H skip es out)
        ≡ (if skip n then get_all n out else get_all n out ++ values_of n es)
  unfolding append_unless values_of
  get_all-append_unless skip n [] out = ground (arith, append-nil (get_all n out))
  get_all-append_unless skip n ((m, v) ∷ es) out =
      let later = get_all-append_unless skip n es (if skip m then out else append m v out) in
      elim (Bool-cases (text_eq n m)) [
        | inl same ↦
            let alike = ap skip ((text_eq_iff n m).0 same) in
            ground (
              arith,
              later,
              get_all-append n m v out,
              append_assoc (get_all n out) (v ∷ []) (values_of n es),
            )
        | inr other ↦ ground (arith, later, get_all-append n m v out)
      ]

  -- The names that `Connection` nominates.
  abbrev pub Nominated : Headers → Text → Type 0
  Nominated source n =
      (item : Text) × Memᴰ item (connection_headers H source) × (to_ascii_lowercase item ≡ n)

  nominated_iff : (source : Headers) (n : Text) → (nominated H source n ≡ true) ↔ Nominated source n
  unfolding nominated
  nominated_iff source n =
      let names = connection_headers H source in
      let lower = λ (item : Text). text_eq (to_ascii_lowercase item) n in
      let over = any-map (λ header. text_eq header n) to_ascii_lowercase names in
      (
        λ h.
            let (item, listed, same) = (any_iff lower names).0 (sym over ∙ h) in
            (item, listed, (text_eq_iff _ n).0 same),
        λ (item, listed, same).
            over ∙ (any_iff lower names).1 (item, listed, (text_eq_iff _ n).1 same),
      )

  -- What `forward_headers` drops, but for the host: hop-by-hop headers, headers that a proxy injects,
  -- and headers that the request's `Connection` nominates.
  abbrev pub IsPrivate : Headers → Text → Type 0
  IsPrivate source n = IsHopByHop n ⊎ Nominated source n

  IsPrivate-iff :
      (source : Headers) (n : Text)
      → (is_hop_by_hop n || nominated H source n ≡ true) ↔ IsPrivate source n
  IsPrivate-iff source n =
      or_iff (is_hop_by_hop n) (nominated H source n) (is_hop_by_hop_iff n) (nominated_iff source n)

  -- A copy through a filter.
  filtered :
      (skip : Text → Bool) (source : Headers) (n : Text)
      → get_all n (append_unless H skip (entries source) empty)
        ≡ (if skip n then [] else get_all n source)
  filtered skip source n =
      get_all-append_unless skip n (entries source) empty ∙ rw (get_all-empty, ← get_all-entries)

  get_all-set_host :
      (host : Option Text) (n : Text) (out : Headers)
      → n ≢ text "host"
      → get_all n (set_host H host out) ≡ get_all n out
  unfolding set_host
  get_all-set_host none n out other = refl
  get_all-set_host (some host) n out other = elim (Result-cases (from_str host)) [
    | inl (v, valid) ↦ rw (valid, set_host, get_all-insert, text_eq-eq-false n (text "host") other)
    | inr (e, invalid) ↦ rw (invalid, set_host)
  ]

  not_forwarded_other :
      (source : Headers) (n : Text) (vs : List Value)
      → n ≢ text "host"
      → (if not_forwarded H source n then [] else vs)
        ≡ (if is_hop_by_hop n || nominated H source n then [] else vs)
  unfolding not_forwarded
  not_forwarded_other source n vs other = rw (text_eq-eq-false n (text "host") other) (ground arith)

  -- Of the headers other than `Host`, the upstream request carries no value of a private one, and
  -- of any other exactly the client's values in their order.
  pub forward_headers-get_all :
      (U : Urls) (source : Headers) (url : U.Url) (n : Text)
      → n ≢ text "host"
      → (IsPrivate source n × (get_all n (forward_headers H U source url) ≡ []))
        ⊎ ((¬ IsPrivate source n) × (get_all n (forward_headers H U source url) ≡ get_all n source))
  unfolding forward_headers
  forward_headers-get_all U source url n other =
      let skip = is_hop_by_hop n || nominated H source n in
      let out = append_unless H (not_forwarded H source) (entries source) empty in
      decided_cases skip [] (get_all n source) _ (IsPrivate-iff source n) (
        get_all-set_host (host_header U url) n out other
        ∙ filtered (not_forwarded H source) source n
        ∙ not_forwarded_other source n (get_all n source) other)

  -- The upstream request has the target's host in `Host` and no other value there; the client's own
  -- `Host` never passes.
  pub forward_headers-host :
      (U : Urls) (source : Headers) (url : U.Url) (host : Text) (v : Value)
      → host_header U url ≡ some host
      → from_str host ≡ ok v
      → get_all (text "host") (forward_headers H U source url) ≡ v ∷ []
  unfolding forward_headers set_host
  forward_headers-host U source url host v named valid =
      rw (named, valid, set_host, get_all-insert, text_eq_refl (text "host"))

  -- What `copy_response_headers` withholds from the client.
  abbrev pub IsWithheld : Headers → Bool → Text → Type 0
  IsWithheld source body_may_be_truncated n =
      ((IsHopByHop n ⊎ IsCorsResponse n) ⊎ Nominated source n)
      ⊎ ((body_may_be_truncated ≡ true) × (n ≡ text "content-length"))

  IsWithheld-iff :
      (source : Headers) (body_may_be_truncated : Bool) (n : Text)
      → (not_copied H source body_may_be_truncated n ≡ true)
        ↔ IsWithheld source body_may_be_truncated n
  unfolding not_copied
  IsWithheld-iff source truncated n =
      or_iff _ _
        (or_iff _ _ (or_iff _ _ (is_hop_by_hop_iff n) (is_cors_response_header_iff n))
          (nominated_iff source n))
        (capped_iff truncated)
    where
      capped_iff :
          (b : Bool)
          → (b && text_eq n (text "content-length") ≡ true)
            ↔ ((b ≡ true) × (n ≡ text "content-length"))
      capped_iff b = ground (arith, text_eq_iff n (text "content-length"))

  -- A copied response has no value of a withheld header, and of any other header exactly the
  -- upstream's values in their order; `Content-Length` is withheld only from a body with a cap.
  pub copy_response_headers-get_all :
      (source : Headers) (body_may_be_truncated : Bool) (n : Text)
      → (IsWithheld source body_may_be_truncated n
          × (get_all n (copy_response_headers H source body_may_be_truncated) ≡ []))
        ⊎ ((¬ IsWithheld source body_may_be_truncated n)
            × (get_all n (copy_response_headers H source body_may_be_truncated) ≡ get_all n source))
  unfolding copy_response_headers
  copy_response_headers-get_all source truncated n =
      decided_cases (not_copied H source truncated n) [] (get_all n source) _
        (IsWithheld-iff source truncated n) (filtered (not_copied H source truncated) source n)
