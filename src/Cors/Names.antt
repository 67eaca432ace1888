-- ===== src/Cors/Names.antt =====
-- The classification of header names, against the list and the prefix.
use mathlib.Core.List.{Memᴰ}
use corsget.Prelude.{
  subst, ◌≡◌, refl, sym, ◌∙◌, ◌↔◌, ◌⊎◌, inl, inr, true, List, [], ◌∷◌, ◌++◌, arith, any, any_iff,
  any_of_mem, any-witness, Bool-cases,
}
use corsget.Text.{
  Text, text, text_eq, member, starts_with, to_ascii_lowercase, eq_ignore_ascii_case,
}
use corsget.Text.Equality.{text_eq_iff, text_eq_refl, eq_ignore_ascii_case_iff}
use corsget.Cors.{hop_by_hop_headers, is_hop_by_hop, is_cors_response_header}

starts_with_iff : (p s : Text) → (starts_with p s ≡ true) ↔ ((rest : Text) × (s ≡ p ++ rest))
unfolding starts_with
starts_with_iff p s = (found p s, λ (rest, e). rw e (prefix p rest))
  where
    found : (p s : Text) → starts_with p s ≡ true → (rest : Text) × (s ≡ p ++ rest)
    found [] s h = (s, refl)
    found (c ∷ p) [] h = absurd (cc)
    found (c ∷ p) (d ∷ s) h = let (rest, e) = found p s (ground arith) in (rest, ground arith)

    prefix : (p rest : Text) → starts_with p (p ++ rest) ≡ true
    prefix [] rest = refl
    prefix (c ∷ p) rest = ground (arith, prefix p rest)

pub member_iff : (s : Text) (ts : List Text) → (member s ts ≡ true) ↔ Memᴰ s ts
unfolding member
member_iff s ts = (
  λ h.
      let (t, listed, same) = any-witness (text_eq s) ts h in
      subst (λ r. Memᴰ r ts) (sym ((text_eq_iff s t).0 same)) listed,
  λ m. any_of_mem (text_eq s) ts s m (text_eq_refl s),
)

-- A name is hop-by-hop or injected by a proxy: in lower case it is in the list, or it begins with
-- `x-forwarded-`.
abbrev pub IsHopByHop : Text → Type 0
IsHopByHop name =
    ((rest : Text) × (to_ascii_lowercase name ≡ text "x-forwarded-" ++ rest))
    ⊎ Memᴰ (to_ascii_lowercase name) hop_by_hop_headers

pub is_hop_by_hop_iff : (name : Text) → (is_hop_by_hop name ≡ true) ↔ IsHopByHop name
unfolding is_hop_by_hop
is_hop_by_hop_iff name =
    let lower = to_ascii_lowercase name in
    let injected = starts_with_iff (text "x-forwarded-") lower in
    let listed = member_iff lower hop_by_hop_headers in
    (
      λ h. elim (Bool-cases (starts_with (text "x-forwarded-") lower)) [
        | inl yes' ↦ inl (injected.0 yes')
        | inr no' ↦ inr (listed.0 (rw no' at h))
      ],
      λ h. elim h [
        | inl begins ↦ rw (injected.1 begins)
        | inr found ↦ rw (listed.1 found) (ground arith)
      ],
    )

-- A header of the CORS response, in any case.
abbrev pub cors_response_headers : List Text
cors_response_headers =
    text "access-control-allow-origin"
    ∷ text "access-control-allow-credentials"
    ∷ text "access-control-allow-headers"
    ∷ text "access-control-allow-methods"
    ∷ text "access-control-max-age"
    ∷ []

pub is_cors_response_header-member :
    (name : Text)
    → is_cors_response_header name ≡ any (eq_ignore_ascii_case name) cors_response_headers
unfolding is_cors_response_header any
is_cors_response_header-member name = ground arith

abbrev pub IsCorsResponse : Text → Type 0
IsCorsResponse name =
    (c : Text) × Memᴰ c cors_response_headers × (to_ascii_lowercase name ≡ to_ascii_lowercase c)

pub is_cors_response_header_iff :
    (name : Text) → (is_cors_response_header name ≡ true) ↔ IsCorsResponse name
is_cors_response_header_iff name =
    let listed = any_iff (eq_ignore_ascii_case name) cors_response_headers in
    let as_any = is_cors_response_header-member name in
    (
      λ h.
          let (c, m, same) = listed.0 (sym as_any ∙ h) in
          (c, m, (eq_ignore_ascii_case_iff name c).0 same),
      λ (c, m, same). as_any ∙ listed.1 (c, m, (eq_ignore_ascii_case_iff name c).1 same),
    )
