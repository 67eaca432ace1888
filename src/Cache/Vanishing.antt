-- ===== src/Cache/Vanishing.antt =====
-- What is gone behind the removals of the clean-up, and which names it reads.
use mathlib.Core.List.{Memᴰ}
use corsget.Prelude.{
  ℕ, ◌≡◌, refl, ap, ◌∙◌, subst, inl, inr, true, false, none, some, [], ◌∷◌, ◌++◌, Result, ok, err,
  arith, Result-cases, Option-cases, Bool-cases, filter_map, length,
}
use corsget.Text.{Text, text, text_eq, assoc, has_char}
use corsget.Text.Equality.{text_eq_sound, text_eq_refl}
use corsget.Text.Splitting.{strip_prefix_iff}
use corsget.Disk.{Files, Disk, file_len, remove_file, name_in, not_found}
use corsget.Disk.Laws.{file_len-nil, file_len-quiet, len_of}
use corsget.Disk.Replacing.{remove_file-nil}
use corsget.Disk.Outcomes.{file_len-files}
use corsget.Disk.Paths.{dir_prefix, file_stem, has_extension}
use corsget.Cache.{CacheEntry, is_fresh}
use corsget.Cache.Writing.{meta_path}
use corsget.Cache.Cleanup.{Cleaning, is_cache_temp_file, remove_cache_file, is_stale}

pub is_stale-is_fresh :
    (now : ℕ) (entry : CacheEntry) → is_stale now entry ≡ false → is_fresh entry now ≡ true
unfolding is_stale is_fresh
is_stale-is_fresh now entry fresh = ground (arith, fresh)

module _ (path : Text) (s : Cleaning) where
  abbrev pub measured : Disk
  measured = (file_len path s.disk).0

  remove_cache_file-unknown :
      (error : Text)
      → (file_len path s.disk).1 ≡ err error
      → (remove_cache_file path s).disk ≡ measured
  unfolding remove_cache_file
  remove_cache_file-unknown error bad = rw (bad, remove_cache_file)

  remove_cache_file-known :
      (n : ℕ)
      → (file_len path s.disk).1 ≡ ok n
      → (remove_cache_file path s).disk ≡ (remove_file path measured).0
  unfolding remove_cache_file
  remove_cache_file-known n known = elim (Result-cases (remove_file path measured).1) [
    | inr (error, bad) ↦ rw (known, remove_cache_file, bad)
    | inl (_, good) ↦ rw (known, remove_cache_file, good)
  ]

  -- Without faults, the file is gone.
  pub remove_cache_file-gone :
      s.disk.faults ≡ [] → assoc path (remove_cache_file path s).disk.files ≡ none
  remove_cache_file-gone none_left =
      let len = ap (λ (r : Disk × Result Text ℕ). r.1) (file_len-nil path s.disk none_left) in
      elim (Option-cases (assoc path s.disk.files)) [
        | inl missing ↦
            rw (remove_cache_file-unknown not_found (len ∙ ap len_of missing))
              (ap (assoc path) (file_len-files path s.disk) ∙ missing)
        | inr (bytes, found) ↦
            let (_, gone) = remove_file-nil path measured (file_len-quiet path s.disk none_left) in
            rw (remove_cache_file-known (length bytes) (len ∙ ap len_of found))
              (gone path ∙ rw (text_eq_refl path) refl)
      ]

-- A name of a metadata file that the clean-up looks at.
abbrev pub IsKey : Text → Type 0
IsKey key =
    (has_char b'/' (key ++ text ".json") ≡ false)
    × (is_cache_temp_file (key ++ text ".json") ≡ false)
    × (has_extension (text "json") (key ++ text ".json") ≡ true)
    × (file_stem (key ++ text ".json") ≡ key)

pub name_in-meta_path :
    (root key bytes : Text)
    → has_char b'/' (key ++ text ".json") ≡ false
    → name_in root (meta_path root key, bytes) ≡ some (key ++ text ".json")
unfolding meta_path
name_in-meta_path root key bytes plain =
    let name = key ++ text ".json" in
    rw (name_in, (strip_prefix_iff (dir_prefix root) (dir_prefix root ++ name) name).1 refl, plain)

-- A file that is there is listed.
pub listed :
    (root path name : Text) (files : Files)
    → ((bytes : Text) → name_in root (path, bytes) ≡ some name)
    → (bytes : Text) → assoc path files ≡ some bytes
    → Memᴰ name (filter_map (name_in root) files)
unfolding assoc filter_map
listed root path name [] at bytes found = cc found
listed root path name ((other, old) ∷ files) at bytes found =
    elim (Bool-cases (text_eq path other)) [
      | inl here ↦
          let e : name_in root (other, old) ≡ some name =
            subst (λ p. name_in root (p, old) ≡ some name) (text_eq_sound path other here)
              (at old) in
          rw (e, filter_map) (Memᴰ.head refl)
      | inr there ↦
          let later = listed root path name files at bytes (rw (assoc, there) at found) in
          elim (Option-cases (name_in root (other, old))) [
            | inl skipped ↦ rw (skipped, filter_map) later
            | inr (n, kept) ↦ rw (kept, filter_map) (Memᴰ.tail later)
          ]
    ]
