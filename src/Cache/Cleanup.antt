-- ===== src/Cache/Cleanup.antt =====
-- `Cache::cleanup_startup`: what a restart removes from the directory of the cache.
use corsget.Prelude.{
  ℕ, ◌+◌, Bool, ◌||◌, not, Option, none, some, List, [], ◌∷◌, ◌++◌, Result, ok, err, to_option, leb,
  ◌==◌, if◌then◌else◌, saturating_add, saturating_sub,
}
use corsget.Text.{Text, text, has_text, member}
use corsget.Disk.{Disk, or_default, read_file, file_len, remove_file, read_dir, next_item}
use corsget.Disk.Paths.{join_path, file_stem, has_extension}
use corsget.External.Codecs.{Codec}
use corsget.Cache.{CacheEntry, cache_version}
use corsget.Cache.Writing.{body_path, meta_path}
use corsget.Cache.Store.{is_length}
use corsget.Cache.Eviction.{Scanned, size_of, sort_by_access, evict_from}
use corsget.Cache.Files.{persisted}

-- Its counters stay far below `u64::MAX`: they count files, and bytes of files that were there.
pub record CacheCleanupSummary : Type 0 where
  pub stale_entries : ℕ
  pub invalid_entries : ℕ
  pub orphaned_files : ℕ
  pub temporary_files : ℕ
  pub lru_evictions : ℕ
  pub bytes_removed : ℕ
  pub errors : ℕ

abbrev pub default_summary : CacheCleanupSummary
default_summary = record {
  stale_entries = 0;
  invalid_entries = 0;
  orphaned_files = 0;
  temporary_files = 0;
  lru_evictions = 0;
  bytes_removed = 0;
  errors = 0;
}

-- The disk and the local variables of the clean-up.
pub record Cleaning : Type 0 where
  pub disk : Disk
  pub summary : CacheCleanupSummary
  pub valid_keys : List Text
  pub entries : List Scanned
  pub total : ℕ

-- `is_cache_temp_file`.
unfoldable pub is_cache_temp_file : Text → Bool
is_cache_temp_file name = has_text (text ".tmp-") name

-- `remove_cache_file`, with the bytes that it returns added to the summary.
unfoldable pub remove_cache_file : Text → Cleaning → Cleaning
remove_cache_file path s =
    let (measured, len) = file_len path s.disk in
    let (removed, result) = remove_file path measured in
    elim len [
      | err _ ↦ record s { disk = measured }
      | ok n ↦ elim result [
        | ok _ ↦ record s {
          disk = removed;
          summary = record s.summary { bytes_removed = s.summary.bytes_removed + n };
        }
        | err _ ↦ record s {
          disk = removed;
          summary = record s.summary { errors = s.summary.errors + 1 };
        }
      ]
    ]

-- Both files of an entry are removed.
unfoldable pub remove_both : (path body_path : Text) → Cleaning → Cleaning
remove_both path body_path s = remove_cache_file body_path (remove_cache_file path s)

abbrev pub count_invalid : Cleaning → Cleaning
count_invalid s = record s {
  summary = record s.summary { invalid_entries = s.summary.invalid_entries + 1 };
}

abbrev pub count_stale : Cleaning → Cleaning
count_stale s = record s {
  summary = record s.summary { stale_entries = s.summary.stale_entries + 1 };
}

abbrev pub count_temporary : Cleaning → Cleaning
count_temporary s = record s {
  summary = record s.summary { temporary_files = s.summary.temporary_files + 1 };
}

abbrev pub count_orphaned : Cleaning → Cleaning
count_orphaned s = record s {
  summary = record s.summary { orphaned_files = s.summary.orphaned_files + 1 };
}

abbrev pub count_evicted : Cleaning → Cleaning
count_evicted s = record s {
  summary = record s.summary { lru_evictions = s.summary.lru_evictions + 1 };
}

abbrev pub count_error : Cleaning → Cleaning
count_error s = record s { summary = record s.summary { errors = s.summary.errors + 1 } }

-- The test for an entry that is kept no longer.
unfoldable pub is_stale : ℕ → CacheEntry → Bool
is_stale now entry =
    not (entry.version == cache_version)
    || entry.revalidate
    || leb entry.ttl (saturating_sub now entry.created_at)

-- A valid entry is recorded.
unfoldable pub record_valid : Text → ℕ → CacheEntry → Cleaning → Cleaning
record_valid key metadata_size entry s =
    let e : Scanned = record {
      last_access = entry.last_access;
      key = key;
      meta_len = metadata_size;
      body_len = entry.body_len;
    } in
    record s {
      valid_keys = key ∷ s.valid_keys;
      entries = s.entries ++ e ∷ [];
      total = saturating_add s.total (size_of e);
    }

module _ (root : Text) where
  -- One item of the second loop: a body without a valid entry.
  unfoldable pub clean_orphan : Text → Cleaning → Cleaning
  clean_orphan name s =
      if has_extension (text "body") name
      then if member (file_stem name) s.valid_keys
        then s
        else remove_cache_file (join_path root name) (count_orphaned s)
      else s

  unfoldable pub clean_orphans : List Text → Cleaning → Cleaning
  clean_orphans [] s = s
  clean_orphans (name ∷ names) s =
      let (disk', item) = next_item s.disk in
      let s' = record s { disk = disk' } in
      clean_orphans names (elim item [ err _ ↦ s' | ok _ ↦ clean_orphan name s' ])

  -- The last loop removes the least recently used entries.
  unfoldable pub clean_evicted : List Scanned → Cleaning → Cleaning
  clean_evicted [] s = s
  clean_evicted (e ∷ es) s =
      clean_evicted es (remove_both (meta_path root e.key) (body_path root e.key) (count_evicted s))

  -- The second listing of the directory, and the last two loops.
  unfoldable pub clean_rest : ℕ → Cleaning → Cleaning
  clean_rest max_size s =
      let (disk', listing) = read_dir root s.disk in
      let s' = record s { disk = disk' } in
      clean_evicted (evict_from max_size s.total (sort_by_access s.entries))
        (elim listing [ err _ ↦ count_error s' | ok names ↦ clean_orphans names s' ])

module _ (C : Codec CacheEntry persisted) (root : Text) (now : ℕ) where
  open C use {from_slice}

  -- An entry with the length of its body, if there is one.
  unfoldable pub judge_entry : (path key : Text) → ℕ → CacheEntry → Option ℕ → Cleaning → Cleaning
  judge_entry path key metadata_size entry body_len s =
      if not (is_length body_len entry.body_len)
      then remove_both path (body_path root key) (count_invalid s)
      else if is_stale now entry
      then remove_both path (body_path root key) (count_stale s)
      else record_valid key metadata_size entry s

  -- A metadata file, with what reading it gives.
  unfoldable pub judge_metadata : (path key : Text) → ℕ → Option CacheEntry → Cleaning → Cleaning
  judge_metadata path key metadata_size none s = remove_cache_file path (count_invalid s)
  judge_metadata path key metadata_size (some entry) s =
      let (disk', body_len) = file_len (body_path root key) s.disk in
      judge_entry path key metadata_size entry (to_option body_len) (record s { disk = disk' })

  -- `std::fs::read(&path).ok().and_then(|data| serde_json::from_slice(&data).ok())`.
  abbrev pub parsed : Result Text Text → Option CacheEntry
  parsed (err _) = none
  parsed (ok bytes) = to_option (from_slice bytes)

  -- The metadata file at a path, of a key.
  unfoldable pub clean_metadata : (path key : Text) → Cleaning → Cleaning
  clean_metadata path key s =
      let (measured, len) = file_len path s.disk in
      let (read, bytes) = read_file path measured in
      judge_metadata path key (or_default 0 len) (parsed bytes) (record s { disk = read })

  -- One item of the first loop. A name always has a stem.
  unfoldable pub clean_name : Text → Cleaning → Cleaning
  clean_name name s =
      if is_cache_temp_file name
      then count_temporary (remove_cache_file (join_path root name) s)
      else if has_extension (text "json") name
      then clean_metadata (join_path root name) (file_stem name) s
      else s

  unfoldable pub clean_names : List Text → Cleaning → Cleaning
  clean_names [] s = s
  clean_names (name ∷ names) s =
      let (disk', item) = next_item s.disk in
      let s' = record s { disk = disk' } in
      clean_names names (elim item [ err _ ↦ count_error s' | ok _ ↦ clean_name name s' ])

  -- `Cache::cleanup_startup`.
  unfoldable pub cleanup_startup : ℕ → Disk → Cleaning
  cleanup_startup max_size disk =
      let (disk', listing) = read_dir root disk in
      let s : Cleaning = record {
        disk = disk';
        summary = default_summary;
        valid_keys = [];
        entries = [];
        total = 0;
      } in
      elim listing [
        | err _ ↦ count_error s
        | ok names ↦ clean_rest root max_size (clean_names names s)
      ]
