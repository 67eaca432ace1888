-- ===== src/Extractors/Sources.antt =====
-- Which header decides the origin and the client's address.
use corsget.Prelude.{◌≡◌, refl, ◌⊎◌, inl, inr, Option, none, some, Option-cases, Result-cases}
use corsget.Text.{Text, text}
use corsget.External.Http.{Http}
use corsget.Cors.{get_str}
use corsget.Extractors.{ip_in_header, client_ip_from_parts, first_item}

module _ (H : Http) (parse_ip : Text → Option Text) where
  ip_in_header-parsed :
      (real_ip_header : Text) (h : H.Headers) (ip : Text)
      → ip_in_header H parse_ip real_ip_header h ≡ some ip
      → (value : Text) × (parse_ip value ≡ some ip)
  unfolding ip_in_header
  ip_in_header-parsed real_ip_header h ip e = elim (Result-cases (H.parse_name real_ip_header)) [
    | inr (_, invalid) ↦ cc (rw (invalid, ip_in_header) at e)
    | inl (name, valid) ↦ elim (Option-cases (get_str H name h)) [
      | inl absent ↦ cc (rw (valid, absent, ip_in_header) at e)
      | inr (value, present) ↦ (first_item value, rw (valid, present, ip_in_header) at e)
    ]
  ]

  -- Every client address is one that parsed as an address, the address of the TCP peer, or the
  -- word `unknown` when there is no peer: an unparsable header never becomes a key.
  pub client_ip_from_parts-sources :
      (real_ip_header : Text) (peer : Option Text) (h : H.Headers)
      → ((value : Text) × (parse_ip value
            ≡ some (client_ip_from_parts H parse_ip real_ip_header peer h)))
        ⊎ (peer ≡ some (client_ip_from_parts H parse_ip real_ip_header peer h))
        ⊎ ((peer ≡ none) × (client_ip_from_parts H parse_ip real_ip_header peer h ≡ text "unknown"))
  unfolding client_ip_from_parts
  client_ip_from_parts-sources real_ip_header peer h =
      elim (Option-cases (ip_in_header H parse_ip real_ip_header h)) [
        | inr (ip, found) ↦
            rw (found, client_ip_from_parts) (inl (ip_in_header-parsed real_ip_header h ip found))
        | inl missing ↦ rw (missing, client_ip_from_parts) (inr (by_peer peer))
      ]
    where
      by_peer :
          (p : Option Text)
          → let ip : Text = elim p [ some addr ↦ addr | none ↦ text "unknown" ] in
            (p ≡ some ip) ⊎ ((p ≡ none) × (ip ≡ text "unknown"))
      by_peer (some addr) = inl refl
      by_peer none = inr (refl, refl)
