-- ===== src/Cache/Answers.antt =====
-- What a lookup answers, by the entry and the body that are there.
use corsget.Prelude.{
  ℕ, ◌≡◌, refl, inl, inr, ◌&&◌, Option, none, some, ◌==◌, if◌then◌else◌, length, OnSome-eq,
  Bool-cases,
}
use corsget.Text.{Text}
use corsget.Cache.{CachePlan, CacheEntry, cache_version}
use corsget.Cache.Writing.{body_path}
use corsget.Cache.Store.{lookup, readable, is_length}

-- An entry as a request finds it.
abbrev pub accessed : Text → CachePlan → ℕ → CacheEntry → CacheEntry
accessed root plan now entry = record entry {
  key = plan.key;
  body_path = body_path root plan.key;
  last_access = now;
}

-- An entry of this version counts with a body of its length.
abbrev pub matched : CacheEntry → Text → Option (CacheEntry × Text)
matched entry body =
    if entry.version == cache_version && length body == entry.body_len
    then some (entry, body)
    else none

abbrev pub paired : Option CacheEntry → Option Text → Option (CacheEntry × Text)
paired (some entry) (some body) = matched entry body
paired _ _ = none

-- The answer to a query.
abbrev pub answered : Text → CachePlan → ℕ → Option (CacheEntry × Text) → Option CacheEntry
answered root plan now none = none
answered root plan now (some (entry, body)) = some (accessed root plan now entry)

pub matched-answered :
    (root : Text) (plan : CachePlan) (now : ℕ) (entry : CacheEntry) (body : Text)
    → (lookup root plan now (readable entry) (some (length body))).1
      ≡ answered root plan now (matched entry body)
unfolding lookup is_length
matched-answered root plan now entry body = elim (Bool-cases (entry.version == cache_version)) [
  | inl current ↦ elim (Bool-cases (length body == entry.body_len)) [
    | inl whole ↦ rw (current, whole, lookup)
    | inr short ↦ rw (current, short, lookup)
  ]
  | inr old ↦ rw (old, lookup)
]

pub lookup-none :
    (root : Text) (plan : CachePlan) (now : ℕ) (entry : CacheEntry)
    → (lookup root plan now (readable entry) none).1 ≡ none
unfolding lookup is_length
lookup-none root plan now entry = elim (Bool-cases (entry.version == cache_version)) [
  | inl current ↦ rw (current, lookup)
  | inr old ↦ rw (old, lookup)
]

-- A pair is made of what there is.
pub paired-some :
    (o : Option CacheEntry) (b : Option Text) (p : CacheEntry × Text)
    → paired o b ≡ some p
    → (o ≡ some p.0) × (b ≡ some p.1)
paired-some none none p e = cc e
paired-some none (some b) p e = cc e
paired-some (some entry) none p e = cc e
paired-some (some entry) (some b) p e =
    elim (Bool-cases (entry.version == cache_version && length b == entry.body_len)) [
      | inl fits ↦
          OnSome-eq
            (λ (q : CacheEntry × Text).
              (◌≡◌ {A = Option CacheEntry} (some entry) (some q.0))
              × (◌≡◌ {A = Option Text} (some b) (some q.1)))
            (some (entry, b)) (refl, refl) (rw (matched, fits) at e)
      | inr not_fits ↦ cc (rw (matched, not_fits) at e)
    ]
