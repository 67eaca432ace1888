-- ===== src/Cache/Restart.antt =====
-- The clean-up only removes: what its loops do to the disk.
use corsget.Prelude.{
  ℕ, inl, inr, not, Option, none, some, List, [], ◌∷◌, ok, err, to_option, Result-cases, Bool-cases,
}
use corsget.Text.{Text, text, member}
use corsget.Disk.{or_default, file_len, read_file, read_dir, next_item}
use corsget.Disk.Paths.{join_path, file_stem, has_extension}
use corsget.External.Codecs.{Codec}
use corsget.Cache.{CacheEntry}
use corsget.Cache.Writing.{body_path, meta_path}
use corsget.Cache.Store.{is_length}
use corsget.Cache.Eviction.{Scanned, sort_by_access, evict_from}
use corsget.Cache.Files.{persisted}
use corsget.Cache.Cleanup.{
  Cleaning, is_cache_temp_file, remove_both, is_stale, judge_entry, judge_metadata, clean_metadata,
  clean_name, clean_names, clean_orphan, clean_orphans, clean_evicted, clean_rest, parsed,
  count_error, count_evicted, count_orphaned, count_invalid, count_stale, record_valid,
}
use corsget.Cache.Cleans.{
  Cleans, Cleans-refl, Cleans-trans, file_len-Cleans, read_file-Cleans, next_item-Cleans,
  read_dir-Cleans, remove_cache_file-Cleans, remove_both-Cleans,
}

module _ (root : Text) where
  clean_evicted-Cleans :
      (es : List Scanned) (s : Cleaning) → Cleans s.disk (clean_evicted root es s).disk
  unfolding clean_evicted
  clean_evicted-Cleans [] s = Cleans-refl s.disk
  clean_evicted-Cleans (e ∷ es) s =
      let removed = remove_both (meta_path root e.key) (body_path root e.key) (count_evicted s) in
      Cleans-trans s.disk removed.disk (clean_evicted root es removed).disk
        (remove_both-Cleans (meta_path root e.key) (body_path root e.key) (count_evicted s))
        (clean_evicted-Cleans es removed)

  clean_orphan-Cleans : (name : Text) (s : Cleaning) → Cleans s.disk (clean_orphan root name s).disk
  unfolding clean_orphan
  clean_orphan-Cleans name s = elim (Bool-cases (has_extension (text "body") name)) [
    | inr other ↦ rw (other, clean_orphan) (Cleans-refl s.disk)
    | inl body ↦ elim (Bool-cases (member (file_stem name) s.valid_keys)) [
      | inl valid ↦ rw (body, clean_orphan, valid) (Cleans-refl s.disk)
      | inr orphaned ↦
          rw (body, clean_orphan, orphaned)
            (remove_cache_file-Cleans (join_path root name) (count_orphaned s))
    ]
  ]

  clean_orphans-Cleans :
      (names : List Text) (s : Cleaning) → Cleans s.disk (clean_orphans root names s).disk
  unfolding clean_orphans
  clean_orphans-Cleans [] s = Cleans-refl s.disk
  clean_orphans-Cleans (name ∷ names) s =
      let first = next_item-Cleans s.disk in
      let s' : Cleaning = record s { disk = (next_item s.disk).0 } in
      elim (Result-cases (next_item s.disk).1) [
        | inr (error, bad) ↦
            rw (bad, clean_orphans)
              (Cleans-trans s.disk s'.disk (clean_orphans root names s').disk first
                (clean_orphans-Cleans names s'))
        | inl (_, good) ↦
            let s'' = clean_orphan root name s' in
            rw (good, clean_orphans)
              (Cleans-trans s.disk s''.disk (clean_orphans root names s'').disk
                (Cleans-trans s.disk s'.disk s''.disk first (clean_orphan-Cleans name s'))
                (clean_orphans-Cleans names s''))
      ]

  pub clean_rest-Cleans :
      (max_size : ℕ) (s : Cleaning) → Cleans s.disk (clean_rest root max_size s).disk
  unfolding clean_rest
  clean_rest-Cleans max_size s =
      let first = read_dir-Cleans root s.disk in
      let s' : Cleaning = record s { disk = (read_dir root s.disk).0 } in
      let es = evict_from max_size s.total (sort_by_access s.entries) in
      elim (Result-cases (read_dir root s.disk).1) [
        | inr (error, bad) ↦
            rw (bad, clean_rest)
              (Cleans-trans s.disk s'.disk (clean_evicted root es (count_error s')).disk first
                (clean_evicted-Cleans es (count_error s')))
        | inl (names, good) ↦
            let s'' = clean_orphans root names s' in
            rw (good, clean_rest)
              (Cleans-trans s.disk s''.disk (clean_evicted root es s'').disk
                (Cleans-trans s.disk s'.disk s''.disk first (clean_orphans-Cleans names s'))
                (clean_evicted-Cleans es s''))
      ]

module _ (C : Codec CacheEntry persisted) (root : Text) (now : ℕ) where
  open C use {from_slice}

  judge_entry-Cleans :
      (path key : Text) (metadata_size : ℕ) (entry : CacheEntry) (body_len : Option ℕ)
      (s : Cleaning)
      → Cleans s.disk (judge_entry C root now path key metadata_size entry body_len s).disk
  unfolding judge_entry record_valid
  judge_entry-Cleans path key metadata_size entry body_len s =
      elim (Bool-cases (not (is_length body_len entry.body_len))) [
        | inl invalid ↦
            rw (invalid, judge_entry)
              (remove_both-Cleans path (body_path root key) (count_invalid s))
        | inr whole ↦ elim (Bool-cases (is_stale now entry)) [
          | inl stale ↦
              rw (whole, judge_entry, stale)
                (remove_both-Cleans path (body_path root key) (count_stale s))
          | inr valid ↦ rw (whole, judge_entry, valid) (Cleans-refl s.disk)
        ]
      ]

  judge_metadata-Cleans :
      (path key : Text) (metadata_size : ℕ) (o : Option CacheEntry) (s : Cleaning)
      → Cleans s.disk (judge_metadata C root now path key metadata_size o s).disk
  unfolding judge_metadata
  judge_metadata-Cleans path key metadata_size none s =
      remove_cache_file-Cleans path (count_invalid s)
  judge_metadata-Cleans path key metadata_size (some entry) s =
      let (disk', body_len) = file_len (body_path root key) s.disk in
      let s' : Cleaning = record s { disk = disk' } in
      Cleans-trans s.disk disk'
        (judge_entry C root now path key metadata_size entry (to_option body_len) s').disk
        (file_len-Cleans (body_path root key) s.disk)
        (judge_entry-Cleans path key metadata_size entry (to_option body_len) s')

  pub clean_metadata-Cleans :
      (path key : Text) (s : Cleaning) → Cleans s.disk (clean_metadata C root now path key s).disk
  unfolding clean_metadata
  clean_metadata-Cleans path key s =
      let (measured, len) = file_len path s.disk in
      let (read, bytes) = read_file path measured in
      let s' : Cleaning = record s { disk = read } in
      Cleans-trans s.disk read
        (judge_metadata C root now path key (or_default 0 len) (parsed C root now bytes) s').disk
        (Cleans-trans s.disk measured read (file_len-Cleans path s.disk)
          (read_file-Cleans path measured))
        (judge_metadata-Cleans path key (or_default 0 len) (parsed C root now bytes) s')

  clean_name-Cleans :
      (name : Text) (s : Cleaning) → Cleans s.disk (clean_name C root now name s).disk
  unfolding clean_name
  clean_name-Cleans name s = elim (Bool-cases (is_cache_temp_file name)) [
    | inl temporary ↦ rw (temporary, clean_name) (remove_cache_file-Cleans (join_path root name) s)
    | inr lasting ↦ elim (Bool-cases (has_extension (text "json") name)) [
      | inl json ↦
          rw (lasting, clean_name, json)
            (clean_metadata-Cleans (join_path root name) (file_stem name) s)
      | inr other ↦ rw (lasting, clean_name, other) (Cleans-refl s.disk)
    ]
  ]

  -- The state behind the step to an item, and behind the item.
  abbrev pub stepped : Text → Cleaning → Cleaning
  stepped name s =
      let s' : Cleaning = record s { disk = (next_item s.disk).0 } in
      elim (next_item s.disk).1 [ err _ ↦ count_error s' | ok _ ↦ clean_name C root now name s' ]

  pub stepped-Cleans : (name : Text) (s : Cleaning) → Cleans s.disk (stepped name s).disk
  stepped-Cleans name s =
      let s' : Cleaning = record s { disk = (next_item s.disk).0 } in
      elim (Result-cases (next_item s.disk).1) [
        | inr (error, bad) ↦ rw (stepped, bad) (next_item-Cleans s.disk)
        | inl (_, good) ↦
            rw (stepped, good)
              (Cleans-trans s.disk s'.disk (clean_name C root now name s').disk
                (next_item-Cleans s.disk) (clean_name-Cleans name s'))
      ]

  pub clean_names-Cleans :
      (names : List Text) (s : Cleaning) → Cleans s.disk (clean_names C root now names s).disk
  unfolding clean_names
  clean_names-Cleans [] s = Cleans-refl s.disk
  clean_names-Cleans (name ∷ names) s =
      Cleans-trans s.disk (stepped name s).disk (clean_names C root now names (stepped name s)).disk
        (stepped-Cleans name s) (clean_names-Cleans names (stepped name s))
