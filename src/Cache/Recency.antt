-- ===== src/Cache/Recency.antt =====
-- Eviction, against the order of the last access and the sizes of the files.
use corsget.Prelude.{
  ℕ, ◌+◌, ◌≤◌, ◌<◌, ◌≡◌, refl, sym, ap, ◌∙◌, inl, inr, List, [], ◌∷◌, ◌++◌, All, arith, leb,
  Bool-cases, saturating_add, saturating_sub, u64_max, subst, OnSome, last,
}
use corsget.Cache.Eviction.{
  Scanned, size_of, scan_total, insert_by_access, sort_by_access, evict_from, evict,
}

-- The bytes of the files.
abbrev pub bytes_on_disk : List Scanned → ℕ
bytes_on_disk [] = 0
bytes_on_disk (e ∷ es) = e.meta_len + e.body_len + bytes_on_disk es

-- No entry was used before one that stands ahead of it.
abbrev pub ByAccess : List Scanned → Type 0
ByAccess [] = Unit
ByAccess (e ∷ es) = All (λ f. e.last_access ≤ f.last_access) es × ByAccess es

insert-bytes :
    (e : Scanned) (es : List Scanned)
    → bytes_on_disk (insert_by_access e es) ≡ e.meta_len + e.body_len + bytes_on_disk es
unfolding insert_by_access
insert-bytes e [] = refl
insert-bytes e (f ∷ fs) = ground (arith, insert-bytes e fs)

sort-bytes : (es : List Scanned) → bytes_on_disk (sort_by_access es) ≡ bytes_on_disk es
unfolding sort_by_access
sort-bytes [] = refl
sort-bytes (e ∷ es) =
    insert-bytes e (sort_by_access es) ∙ ap (λ n. e.meta_len + e.body_len + n) (sort-bytes es)

scan_total-bytes :
    (total : ℕ) (es : List Scanned)
    → total + bytes_on_disk es ≤ u64_max
    → scan_total total es ≡ total + bytes_on_disk es
unfolding scan_total
scan_total-bytes total [] small = omega arith
scan_total-bytes total (e ∷ es) small =
    let first : saturating_add (saturating_add total e.meta_len) e.body_len
        ≡ total + e.meta_len + e.body_len =
      ground arith in
    let later =
      scan_total-bytes (saturating_add (saturating_add total e.meta_len) e.body_len) es
        (omega arith) in
    omega arith

insert_above :
    (n : ℕ) (e : Scanned) (es : List Scanned)
    → n ≤ e.last_access
    → All (λ f. n ≤ f.last_access) es
    → All (λ f. n ≤ f.last_access) (insert_by_access e es)
unfolding insert_by_access
insert_above n e [] here above = (here, tt)
insert_above n e (f ∷ fs) here (first, above) =
    elim (Bool-cases (leb e.last_access f.last_access)) [
      | inl before ↦ rw (before, insert_by_access) (here, (first, above))
      | inr behind ↦ rw (behind, insert_by_access) (first, insert_above n e fs here above)
    ]

above_trans :
    (m n : ℕ) (es : List Scanned)
    → m ≤ n
    → All (λ f. n ≤ f.last_access) es
    → All (λ f. m ≤ f.last_access) es
above_trans m n [] le above = tt
above_trans m n (f ∷ fs) le (first, above) = (omega arith, above_trans m n fs le above)

insert-ByAccess : (e : Scanned) (es : List Scanned) → ByAccess es → ByAccess (insert_by_access e es)
unfolding insert_by_access
insert-ByAccess e [] sorted = (tt, tt)
insert-ByAccess e (f ∷ fs) (above, sorted) = elim (Bool-cases (leb e.last_access f.last_access)) [
  | inl before ↦
      let le : e.last_access ≤ f.last_access = ground arith in
      rw (before, insert_by_access)
        ((le, above_trans e.last_access f.last_access fs le above), (above, sorted))
  | inr behind ↦
      rw (behind, insert_by_access)
        (insert_above f.last_access e fs (ground arith) above, insert-ByAccess e fs sorted)
]

sort-ByAccess : (es : List Scanned) → ByAccess (sort_by_access es)
unfolding sort_by_access
sort-ByAccess [] = tt
sort-ByAccess (e ∷ es) = insert-ByAccess e (sort_by_access es) (sort-ByAccess es)

-- The entries that are left bring the total within the limit, and with the last one that was removed
-- they would not.
abbrev pub Fits : ℕ → List Scanned → List Scanned → Type 0
Fits max_size removed kept =
    (bytes_on_disk kept ≤ max_size)
    × OnSome (λ e. max_size < e.meta_len + e.body_len + bytes_on_disk kept) (last removed)

Fits-cons :
    (max_size : ℕ) (e : Scanned) (removed kept es : List Scanned)
    → removed ++ kept ≡ es
    → max_size < e.meta_len + e.body_len + bytes_on_disk es
    → Fits max_size removed kept
    → Fits max_size (e ∷ removed) kept
Fits-cons max_size e [] kept es same over (within, _) =
    (within, subst (λ fs. max_size < e.meta_len + e.body_len + bytes_on_disk fs) (sym same) over)
Fits-cons max_size e (f ∷ removed) kept es same over fits = fits

evict_from-Fits :
    (max_size total : ℕ) (es : List Scanned)
    → total ≡ bytes_on_disk es
    → total ≤ u64_max
    → (kept : List Scanned) × (evict_from max_size total es ++ kept ≡ es)
      × Fits max_size (evict_from max_size total es) kept
unfolding evict_from
evict_from-Fits max_size total [] counted small = ([], refl, (omega arith, tt))
evict_from-Fits max_size total (e ∷ es) counted small = elim (Bool-cases (leb total max_size)) [
  | inl within ↦
      let le : total ≤ max_size = ground arith in
      rw (within, evict_from) (e ∷ es, refl, (omega arith, tt))
  | inr over ↦
      let more : max_size < total = ground arith in
      let left : saturating_sub total (size_of e) ≡ bytes_on_disk es = ground arith in
      let (kept, same, fits) =
        evict_from-Fits max_size (saturating_sub total (size_of e)) es left (omega arith) in
      rw (over, evict_from)
        (kept, ap (λ fs. e ∷ fs) same, Fits-cons max_size e _ kept es same (omega arith) fits)
]

-- The entries that eviction removes are the first ones in the order of the last access, so none of
-- them was used after one that is kept; the files of the others fit the limit, and they would not
-- with the last one that was removed. (The sizes add up within `u64`.)
pub evict-Fits :
    (max_size : ℕ) (entries : List Scanned)
    → bytes_on_disk entries ≤ u64_max
    → (kept : List Scanned) × (evict max_size entries ++ kept ≡ sort_by_access entries)
      × ByAccess (evict max_size entries ++ kept)
      × Fits max_size (evict max_size entries) kept
unfolding evict
evict-Fits max_size entries small =
    let total : scan_total 0 entries ≡ bytes_on_disk entries =
      let counted = scan_total-bytes 0 entries (omega arith) in omega arith in
    let all = sort-bytes entries in
    let (kept, same, fits) =
      evict_from-Fits max_size (scan_total 0 entries) (sort_by_access entries) (omega arith)
        (omega arith) in
    elim (Bool-cases (leb (scan_total 0 entries) max_size)) [
      | inl within ↦
          let le : scan_total 0 entries ≤ max_size = ground arith in
          rw (within, evict)
            (sort_by_access entries, refl, sort-ByAccess entries, (omega arith, tt))
      | inr over ↦
          rw (over, evict) (kept, same, subst ByAccess (sym same) (sort-ByAccess entries), fits)
    ]
