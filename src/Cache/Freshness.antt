-- ===== src/Cache/Freshness.antt =====
-- What the cache shows behind the clean-up at the start.
use mathlib.Core.List.{Memᴰ}
use corsget.Prelude.{
  ℕ, ◌≡◌, refl, sym, ap, ◌∙◌, subst, inl, inr, true, not, Option, none, some, List, [], ◌∷◌, ◌++◌,
  Result, ok_or, to_option, Option-cases, Bool-cases, OnSome, OnSome-intro, OnSome-eq, filter_map,
}
use corsget.Text.{Text, text, assoc}
use corsget.Disk.{
  Files, Disk, or_default, file_len, read_file, read_dir, next_item, name_in, not_found,
}
use corsget.Disk.Laws.{
  file_len-quiet, read_file-quiet, read_file-nil, read_dir-nil, read_dir-quiet, next_item-nil,
  next_item-quiet,
}
use corsget.Disk.Replacing.{Shrinks}
use corsget.Disk.Outcomes.{file_len-files, read_file-files, read_dir-files}
use corsget.External.Codecs.{Codec}
use corsget.Cache.{CacheEntry, is_fresh}
use corsget.Cache.Writing.{body_path, meta_path}
use corsget.Cache.Store.{is_length}
use corsget.Cache.Files.{persisted}
use corsget.Cache.Shown.{decoded, shown, shown-meta}
use corsget.Cache.Installing.{shown-none}
use corsget.Cache.Committing.{shown-Shrinks}
use corsget.Cache.Cleanup.{
  Cleaning, remove_cache_file, remove_both, is_stale, judge_entry, judge_metadata, clean_metadata,
  clean_name, clean_names, clean_rest, cleanup_startup, default_summary, parsed, count_invalid,
  count_stale, record_valid,
}
use corsget.Cache.Restart.{stepped, clean_names-Cleans, clean_rest-Cleans, stepped-Cleans}
use corsget.Cache.Cleans.{remove_cache_file-Cleans}
use corsget.Cache.Vanishing.{
  is_stale-is_fresh, measured, remove_cache_file-gone, IsKey, name_in-meta_path, listed,
}

module _ (C : Codec CacheEntry persisted) (process : ℕ) (root : Text) (now : ℕ) where
  open C use {from_slice}

  -- What is shown for a key, if anything, is fresh.
  abbrev pub FreshAt : Text → Files → Type 0
  FreshAt key files = OnSome (λ p. is_fresh p.0 now ≡ true) (shown C process root files key)

  FreshAt-Shrinks : (key : Text) (a b : Files) → Shrinks a b → FreshAt key a → FreshAt key b
  FreshAt-Shrinks key a b gone fresh = elim (shown-Shrinks C process root a b gone key) [
    | inl same ↦ subst (OnSome (λ p. is_fresh p.0 now ≡ true)) (sym same) fresh
    | inr nothing ↦ rw nothing tt
  ]

  FreshAt-none :
      (key : Text) (files : Files) → assoc (meta_path root key) files ≡ none → FreshAt key files
  FreshAt-none key files missing = rw (shown-none C process root files key missing) tt

  -- The metadata goes first, and what follows brings nothing back.
  remove_both-FreshAt :
      (key : Text) (s : Cleaning)
      → s.disk.faults ≡ []
      → FreshAt key (remove_both (meta_path root key) (body_path root key) s).disk.files
  unfolding remove_both
  remove_both-FreshAt key s none_left =
      let s' = remove_cache_file (meta_path root key) s in
      FreshAt-Shrinks key s'.disk.files (remove_cache_file (body_path root key) s').disk.files
        (remove_cache_file-Cleans (body_path root key) s').0
        (FreshAt-none key s'.disk.files (remove_cache_file-gone (meta_path root key) s none_left))

  judge_entry-FreshAt :
      (key : Text) (metadata_size : ℕ) (entry : CacheEntry) (body_len : Option ℕ) (s : Cleaning)
      → s.disk.faults ≡ []
      → decoded C process root (assoc (meta_path root key) s.disk.files) ≡ some entry
      → FreshAt key
          (judge_entry C root now
            (meta_path root key)
            key
            metadata_size
            entry
            body_len
            s).disk.files
  unfolding judge_entry record_valid
  judge_entry-FreshAt key metadata_size entry body_len s none_left has =
      elim (Bool-cases (not (is_length body_len entry.body_len))) [
        | inl invalid ↦
            rw (invalid, judge_entry) (remove_both-FreshAt key (count_invalid s) none_left)
        | inr whole ↦ elim (Bool-cases (is_stale now entry)) [
          | inl stale ↦
              rw (whole, judge_entry, stale) (remove_both-FreshAt key (count_stale s) none_left)
          | inr valid ↦
              rw (whole, judge_entry, valid)
                (OnSome-intro (λ p. is_fresh p.0 now ≡ true) (shown C process root s.disk.files key)
                  λ p shows.
                    let same =
                      OnSome-eq (λ e. entry ≡ e) (some entry) refl
                        (sym has ∙ shown-meta C process root s.disk.files key p shows) in
                    subst (λ (e : CacheEntry). is_fresh e now ≡ true) same
                      (is_stale-is_fresh now entry valid))
        ]
      ]

  judge_metadata-FreshAt :
      (key : Text) (metadata_size : ℕ) (o : Option CacheEntry) (s : Cleaning)
      → s.disk.faults ≡ []
      → decoded C process root (assoc (meta_path root key) s.disk.files) ≡ o
      → FreshAt key
          (judge_metadata C root now (meta_path root key) key metadata_size o s).disk.files
  unfolding judge_metadata
  judge_metadata-FreshAt key metadata_size none s none_left has =
      FreshAt-none key (remove_cache_file (meta_path root key) (count_invalid s)).disk.files
        (remove_cache_file-gone (meta_path root key) (count_invalid s) none_left)
  judge_metadata-FreshAt key metadata_size (some entry) s none_left has =
      let (disk', body_len) = file_len (body_path root key) s.disk in
      judge_entry-FreshAt key metadata_size entry (to_option body_len) (record s { disk = disk' })
        (file_len-quiet (body_path root key) s.disk none_left)
        (ap (λ files. decoded C process root (assoc (meta_path root key) files))
            (file_len-files (body_path root key) s.disk)
          ∙ has)

  -- Reading without faults gives what the map has.
  parsed-decoded :
      (o : Option Text) → decoded C process root o ≡ parsed C root now (ok_or not_found o)
  parsed-decoded none = refl
  parsed-decoded (some bytes) = refl

  clean_metadata-FreshAt :
      (key : Text) (s : Cleaning)
      → s.disk.faults ≡ []
      → FreshAt key (clean_metadata C root now (meta_path root key) key s).disk.files
  unfolding clean_metadata
  clean_metadata-FreshAt key s none_left =
      let path = meta_path root key in
      let (measured, len) = file_len path s.disk in
      let (read, bytes) = read_file path measured in
      let quiet_measured = file_len-quiet path s.disk none_left in
      let result =
        ap (λ (r : Disk × Result Text Text). r.1) (read_file-nil path measured quiet_measured) in
      judge_metadata-FreshAt key (or_default 0 len) (parsed C root now bytes)
        (record s { disk = read }) (read_file-quiet path measured quiet_measured)
        (ap (λ files. decoded C process root (assoc path files)) (read_file-files path measured)
          ∙ parsed-decoded (assoc path measured.files)
          ∙ ap (parsed C root now) (sym result))

  module _ (key : Text) (is_key : IsKey key) where
    abbrev name : Text
    name = key ++ text ".json"

    clean_name-FreshAt :
        (s : Cleaning) → s.disk.faults ≡ [] → FreshAt key (clean_name C root now name s).disk.files
    unfolding clean_name meta_path
    clean_name-FreshAt s none_left =
        let (_, lasting, json, stem) = is_key in
        rw (clean_name, lasting, json, stem) (clean_metadata-FreshAt key s none_left)

    stepped-FreshAt :
        (s : Cleaning) → s.disk.faults ≡ [] → FreshAt key (stepped C root now name s).disk.files
    stepped-FreshAt s none_left =
        let s' : Cleaning = record s { disk = (next_item s.disk).0 } in
        let fine =
          ap (λ (r : Disk × Result Text (Unit {0})). r.1) (next_item-nil s.disk none_left) in
        rw (stepped, fine) (clean_name-FreshAt s' (next_item-quiet s.disk none_left))

    clean_names-FreshAt :
        (names : List Text) (s : Cleaning)
        → Memᴰ name names
        → s.disk.faults ≡ []
        → FreshAt key (clean_names C root now names s).disk.files
    unfolding clean_names
    clean_names-FreshAt [] s m none_left = elim m [ ]
    clean_names-FreshAt (n ∷ names) s (Memᴰ.head e) none_left =
        let s' = stepped C root now n s in
        FreshAt-Shrinks key s'.disk.files (clean_names C root now names s').disk.files
          (clean_names-Cleans C root now names s').0
          (subst (λ m. FreshAt key (stepped C root now m s).disk.files) e
            (stepped-FreshAt s none_left))
    clean_names-FreshAt (n ∷ names) s (Memᴰ.tail m) none_left =
        clean_names-FreshAt names (stepped C root now n s) m
          ((stepped-Cleans C root now n s).1 none_left)

    abbrev begun : Disk → Cleaning
    begun disk = record {
      disk = (read_dir root disk).0;
      summary = default_summary;
      valid_keys = [];
      entries = [];
      total = 0;
    }

    abbrev names_in : Disk → List Text
    names_in disk = filter_map (name_in root) disk.files

    cleanup_startup_lem :
        (max_size : ℕ) (disk : Disk)
        → disk.faults ≡ []
        → cleanup_startup C root now max_size disk
          ≡ clean_rest root max_size (clean_names C root now (names_in disk) (begun disk))
    unfolding cleanup_startup
    cleanup_startup_lem max_size disk none_left =
        let listing =
          ap (λ (r : Disk × Result Text (List Text)). r.1) (read_dir-nil root disk none_left) in
        rw (cleanup_startup, listing)

    clean_names-FreshAt_listed :
        (disk : Disk)
        → disk.faults ≡ []
        → FreshAt key (clean_names C root now (names_in disk) (begun disk)).disk.files
    clean_names-FreshAt_listed disk none_left =
        let s = begun disk in
        elim (Option-cases (assoc (meta_path root key) disk.files)) [
          | inl missing ↦
              FreshAt-Shrinks key s.disk.files (clean_names C root now (names_in disk) s).disk.files
                (clean_names-Cleans C root now (names_in disk) s).0
                (FreshAt-none key s.disk.files
                  (ap (assoc (meta_path root key)) (read_dir-files root disk) ∙ missing))
          | inr (bytes, found) ↦
              clean_names-FreshAt (names_in disk) s
                (listed root (meta_path root key) name disk.files
                  (λ b. name_in-meta_path root key b is_key.0) bytes found)
                (read_dir-quiet root disk none_left)
        ]

    pub cleanup_startup-FreshAt :
        (max_size : ℕ) (disk : Disk)
        → disk.faults ≡ []
        → FreshAt key (cleanup_startup C root now max_size disk).disk.files
    cleanup_startup-FreshAt max_size disk none_left =
        let s = clean_names C root now (names_in disk) (begun disk) in
        rw (cleanup_startup_lem max_size disk none_left) (
          FreshAt-Shrinks key s.disk.files (clean_rest root max_size s).disk.files
            (clean_rest-Cleans root max_size s).0 (clean_names-FreshAt_listed disk none_left))
