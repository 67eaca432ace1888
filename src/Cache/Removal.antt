-- ===== src/Cache/Removal.antt =====
-- Eviction on the disk removes files, and does nothing else to them.
use corsget.Prelude.{
  ℕ, ◌≡◌, refl, sym, subst, ◌∙◌, inl, inr, List, [], ◌∷◌, Result-cases, Bool-cases,
}
use corsget.Text.{Text, text}
use corsget.Disk.{Disk, ◌>>=◌, read_file, file_len, remove_file, read_dir, next_item}
use corsget.Disk.Replacing.{Shrinks, Shrinks-refl, Shrinks-trans, remove_file-Shrinks}
use corsget.Disk.Outcomes.{read_file-files, file_len-files, read_dir-files, next_item-files}
use corsget.Disk.Paths.{join_path, file_stem, has_extension}
use corsget.External.Codecs.{Codec}
use corsget.Cache.{CacheEntry}
use corsget.Cache.Writing.{body_path, meta_path}
use corsget.Cache.Eviction.{Scanned, evict}
use corsget.Cache.Files.{
  persisted, file_len_or_zero, remove_entry, remove_entries, scan_metadata, scan_names, evict_files,
}

module _ (root : Text) where
  pub remove_entry-Shrinks :
      (key : Text) (disk : Disk) → Shrinks disk.files (remove_entry root key disk).files
  unfolding remove_entry
  remove_entry-Shrinks key disk =
      let between = (remove_file (meta_path root key) disk).0 in
      Shrinks-trans disk.files between.files _ (remove_file-Shrinks (meta_path root key) disk)
        (remove_file-Shrinks (body_path root key) between)

  pub remove_entries-Shrinks :
      (es : List Scanned) (disk : Disk) → Shrinks disk.files (remove_entries root es disk).files
  unfolding remove_entries
  remove_entries-Shrinks [] disk = Shrinks-refl disk.files
  remove_entries-Shrinks (e ∷ es) disk =
      Shrinks-trans disk.files (remove_entry root e.key disk).files _
        (remove_entry-Shrinks e.key disk) (remove_entries-Shrinks es (remove_entry root e.key disk))

  module _ (C : Codec CacheEntry persisted) (process : ℕ) where
    open C use {from_slice}

    scan_metadata-files :
        (name : Text) (disk : Disk) → (scan_metadata C process root name disk).0.files ≡ disk.files
    unfolding scan_metadata file_len_or_zero
    scan_metadata-files name disk =
        let (disk1, measured) = file_len (join_path root name) disk in
        let (disk2, bytes) = read_file (join_path root name) disk1 in
        let first = file_len-files (join_path root name) disk in
        let second = read_file-files (join_path root name) disk1 ∙ first in
        elim (Result-cases measured) [
          | inr (error, bad) ↦ rw (scan_metadata, ◌>>=◌, bad) first
          | inl (meta_len, known) ↦ elim (Result-cases bytes) [
            | inr (error, bad) ↦ rw (scan_metadata, ◌>>=◌, known, bad) second
            | inl (bytes', good) ↦ elim (Result-cases (from_slice bytes')) [
              | inr (error, bad) ↦ rw (scan_metadata, ◌>>=◌, known, good, bad) second
              | inl (entry, decoded) ↦
                  rw (scan_metadata, ◌>>=◌, known, good, decoded)
                    (file_len-files (body_path root (file_stem name)) disk2 ∙ second)
            ]
          ]
        ]

    scan_names-files :
        (names : List Text) (disk : Disk)
        → (scan_names C process root names disk).0.files ≡ disk.files
    unfolding scan_names
    scan_names-files [] disk = refl
    scan_names-files (name ∷ names) disk =
        let step = next_item-files root disk in
        elim (Result-cases (next_item disk).1) [
          | inr (error, bad) ↦ rw (bad, scan_names) step
          | inl (_, good) ↦ elim (Bool-cases (has_extension (text "json") name)) [
            | inl json ↦
                rw (good, scan_names, json)
                  (scan_names-files names (scan_metadata C process root name (next_item disk).0).0
                    ∙ (scan_metadata-files name (next_item disk).0 ∙ step))
            | inr other ↦
                rw (good, scan_names, other) (scan_names-files names (next_item disk).0 ∙ step)
          ]
        ]

    pub evict_files-Shrinks :
        (max_size : ℕ) (disk : Disk)
        → Shrinks disk.files (evict_files C process root max_size disk).files
    unfolding evict_files
    evict_files-Shrinks max_size disk =
        let listed = read_dir-files root disk in
        elim (Result-cases (read_dir root disk).1) [
          | inr (error, bad) ↦
              rw (bad, evict_files)
                (subst (Shrinks disk.files) (sym listed) (Shrinks-refl disk.files))
          | inl (names, good) ↦
              let (scanned, entries) = scan_names C process root names (read_dir root disk).0 in
              rw (good, evict_files)
                (subst
                  (λ files.
                    Shrinks files (remove_entries root (evict max_size entries) scanned).files)
                  (scan_names-files names (read_dir root disk).0 ∙ listed)
                  (remove_entries-Shrinks (evict max_size entries) scanned))
        ]
