-- ===== src/Cache/Eviction.antt =====
-- The size limit of the cache: what `Cache::evict` and `Cache::cleanup_startup` remove.
use corsget.Prelude.{ℕ, List, [], ◌∷◌, leb, if◌then◌else◌, saturating_add, saturating_sub}
use corsget.Text.{Text}

-- An entry as the scan of the directory finds it, with the sizes of its two files.
pub record Scanned : Type 0 where
  pub last_access : ℕ
  pub key : Text
  pub meta_len : ℕ
  pub body_len : ℕ

abbrev pub size_of : Scanned → ℕ
size_of e = saturating_add e.meta_len e.body_len

-- The total that the scan counts.
unfoldable pub scan_total : ℕ → List Scanned → ℕ
scan_total total [] = total
scan_total total (e ∷ es) =
    scan_total (saturating_add (saturating_add total e.meta_len) e.body_len) es

unfoldable pub insert_by_access : Scanned → List Scanned → List Scanned
insert_by_access e [] = e ∷ []
insert_by_access e (f ∷ fs) =
    let rest = insert_by_access e fs in
    if leb e.last_access f.last_access then e ∷ f ∷ fs else f ∷ rest

-- `entries.sort_by_key(|(access, _, _)| *access)`, which is stable.
unfoldable pub sort_by_access : List Scanned → List Scanned
sort_by_access [] = []
sort_by_access (e ∷ es) = insert_by_access e (sort_by_access es)

-- The loop that removes the entries until the total is within the limit: those it removes.
unfoldable pub evict_from : (max_size total : ℕ) → List Scanned → List Scanned
evict_from max_size total [] = []
evict_from max_size total (e ∷ es) =
    let rest = evict_from max_size (saturating_sub total (size_of e)) es in
    if leb total max_size then [] else e ∷ rest

-- `Cache::evict`, from the entries that the scan reads: those whose files are removed.
unfoldable pub evict : (max_size : ℕ) → List Scanned → List Scanned
evict max_size entries =
    let total = scan_total 0 entries in
    if leb total max_size then [] else evict_from max_size total (sort_by_access entries)
