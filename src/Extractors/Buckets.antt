-- ===== src/Extractors/Buckets.antt =====
-- When two keys share a bucket.
use corsget.Prelude.{
  ℕ, ◌↔◌, append_assoc, ◌≡◌, ◌≢◌, refl, sym, ◌∙◌, none, some, [], ◌∷◌, ◌++◌, arith, All,
}
use corsget.Text.{Text, text}
use corsget.Extractors.{Origin, RateLimitKey, origin_key, ip_key, bucket}

abbrev pub NotBar : ℕ → Type 0
NotBar c = c ≢ b'|'

-- A text without bars in front of a bar can be read off.
append_bar_injective :
    (s t u v : Text)
    → All NotBar s
    → All NotBar t
    → s ++ b'|' ∷ u ≡ t ++ b'|' ∷ v
    → (s ≡ t) × (u ≡ v)
append_bar_injective [] [] u v hs ht e = ground arith
append_bar_injective [] (d ∷ t) u v hs ht e = ground arith
append_bar_injective (c ∷ s) [] u v hs ht e = ground arith
append_bar_injective (c ∷ s) (d ∷ t) u v hs ht e =
    ground (arith, append_bar_injective s t u v hs.1 ht.1)

append_left_injective : (s u v : Text) → s ++ u ≡ s ++ v → u ≡ v
append_left_injective [] u v e = e
append_left_injective (c ∷ s) u v e = append_left_injective s u v (ground arith)

-- What a bucket shows of the origin: a request without an origin looks like the host `unknown`.
abbrev pub label : Origin → Text
label o = elim o.host [ some h ↦ h | none ↦ text "unknown" ]

origin_key-label : (o : Origin) → origin_key o ≡ text "origin:" ++ label o
unfolding origin_key text
origin_key-label o = ground arith

bucket-label :
    (k : RateLimitKey)
    → bucket k ≡ text "origin:" ++ (label k.origin ++ b'|' ∷ (text "ip:" ++ k.client_ip))
bucket-label k =
    unfold bucket ip_key in rw (origin_key-label k.origin) (simp append_assoc (unfold text in refl))

-- Two keys share a bucket exactly when they have the same address and the same host, where a request
-- without an origin counts as one from the host `unknown`. (A host holds no bar.)
pub bucket_iff :
    (k k' : RateLimitKey)
    → All NotBar (label k.origin)
    → All NotBar (label k'.origin)
    → (bucket k ≡ bucket k') ↔ ((k.client_ip ≡ k'.client_ip) × (label k.origin ≡ label k'.origin))
bucket_iff k k' h h' = (
  λ e.
      let inner =
        append_left_injective (text "origin:") _ _ (sym (bucket-label k) ∙ e ∙ bucket-label k') in
      let (same, ips) = append_bar_injective (label k.origin) (label k'.origin) _ _ h h' inner in
      (append_left_injective (text "ip:") _ _ ips, same),
  λ (ips, same). bucket-label k ∙ rw (ips, same) (sym (bucket-label k')),
)
