-- ===== src/Cache/Files.antt =====
-- The files of the cache: writing an entry, committing a body, evicting, and reading back.
use corsget.Prelude.{
  ℕ, suc, Bool, true, false, Option, none, some, List, [], ◌∷◌, ◌++◌, Result, ok, err, to_option,
  map_err, if◌then◌else◌,
}
use corsget.Text.{Text, text, to_decimal}
use corsget.Disk.{
  Disk, Io, ◌>>=◌, ◌>>◌, attempted, pure, of_result, or_default, read_file, file_len, remove_file,
  rename, write_file, fetch_add, read_dir, next_item, flush, append_file, create_file,
}
use corsget.Disk.Paths.{join_path, file_stem, has_extension}
use corsget.External.Http.{Http}
use corsget.External.Codecs.{Codec}
use corsget.Cache.{CachePlan, CacheEntry}
use corsget.Cache.Writing.{
  CacheWriter, body_path, meta_path, temp_body_path, admit, write, finished,
}
use corsget.Cache.Store.{lookup, refresh, readable, corrupt}
use corsget.Cache.Eviction.{Scanned, evict}

-- The fields that serde skips.
abbrev pub persisted : CacheEntry → CacheEntry
persisted entry = record entry { key = []; body_path = [] }

-- The temporary file of `Cache::write_metadata`.
unfoldable pub temp_meta_path : Text → Text → ℕ → ℕ → Text
temp_meta_path root key process temp_id =
    join_path root
      (text "." ++ key ++ text ".meta.tmp-" ++ to_decimal process ++ text "-" ++ to_decimal temp_id)

-- An item of the directory whose metadata and length are read.
unfoldable pub file_len_or_zero : Text → Io ℕ
file_len_or_zero path disk = ((file_len path disk).0, ok (or_default 0 (file_len path disk).1))

-- Both files of a key are removed, as far as that succeeds.
unfoldable pub remove_entry : Text → Text → Disk → Disk
remove_entry root key disk =
    attempted (remove_file (body_path root key)) (attempted (remove_file (meta_path root key)) disk)

unfoldable pub remove_entries : Text → List Scanned → Disk → Disk
remove_entries root [] disk = disk
remove_entries root (e ∷ es) disk = remove_entries root es (remove_entry root e.key disk)

-- `CacheWriter::write` on the files.
unfoldable pub write_body : Text → CacheWriter → Disk → Disk × CacheWriter × Result Text (Unit {0})
write_body bytes writer disk =
    let (disk', written) = append_file writer.temp_body bytes disk in
    let (writer', result) = write (map_err (λ error. (error, [])) written) bytes writer in
    (disk', writer', result)

-- `CacheWriter::discard`.
unfoldable pub discard : CacheWriter → Disk → Disk
discard writer = attempted (remove_file writer.temp_body)

module _ (C : Codec CacheEntry persisted) (process : ℕ) (root : Text) where
  open C use {to_vec, from_slice}

  -- `Cache::write_metadata`.
  unfoldable pub write_metadata : CacheEntry → Io (Unit {0})
  write_metadata entry = do
    temp_id ← fetch_add
    bytes ← of_result (to_vec entry)
    write_file (temp_meta_path root entry.key process temp_id) bytes
    rename (temp_meta_path root entry.key process temp_id) (meta_path root entry.key)

  -- The scan of one metadata file in `Cache::evict`; an error skips it.
  unfoldable pub scan_metadata : Text → Io Scanned
  scan_metadata name = do
    meta_len ← file_len (join_path root name)
    bytes ← read_file (join_path root name)
    entry ← of_result (from_slice bytes)
    body_len ← file_len_or_zero (body_path root (file_stem name))
    pure (record {
      last_access = entry.last_access;
      key = file_stem name;
      meta_len = meta_len;
      body_len = body_len;
    })

  abbrev pub push_scanned : Result Text Scanned → List Scanned → List Scanned
  push_scanned (ok e) es = e ∷ es
  push_scanned (err _) es = es

  -- The loop of `Cache::evict` over the directory, which an item that cannot be read ends.
  unfoldable pub scan_names : List Text → Disk → Disk × List Scanned
  scan_names [] disk = (disk, [])
  scan_names (name ∷ names) disk =
      let (disk', step) = next_item disk in
      let (scanned_disk, scanned) = scan_metadata name disk' in
      let (skipped_end, skipped) = scan_names names disk' in
      let (rest_end, rest) = scan_names names scanned_disk in
      elim step [
        | err _ ↦ (disk', [])
        | ok _ ↦
            if has_extension (text "json") name
            then (rest_end, push_scanned scanned rest)
            else (skipped_end, skipped)
      ]

  -- `Cache::evict`.
  unfoldable pub evict_files : ℕ → Disk → Disk
  evict_files max_size disk =
      let (disk', listing) = read_dir root disk in
      elim listing [
        | err _ ↦ disk'
        | ok names ↦
            let (scanned_disk, entries) = scan_names names disk' in
            remove_entries root (evict max_size entries) scanned_disk
      ]

  -- `Cache::commit`, but for the eviction at its end.
  unfoldable pub install : CacheEntry → Text → Io (Unit {0})
  install entry temp_body = do
    rename temp_body (body_path root entry.key)
    write_metadata (record entry { body_path = body_path root entry.key })

  -- `Cache::commit`.
  unfoldable pub commit : ℕ → CacheEntry → Text → Io (Unit {0})
  commit max_size entry temp_body = do
    install entry temp_body
    λ disk. (evict_files max_size disk, ok tt)

  -- The end of `Cache::lookup`, by what `lookup` decides about the entry.
  unfoldable pub settle_lookup : Text → Bool × Option CacheEntry → Disk → Disk × Option CacheEntry
  settle_lookup key (true, found) disk = (attempted (remove_file (meta_path root key)) disk, found)
  settle_lookup key (false, none) disk = (disk, none)
  settle_lookup key (false, some entry) disk = (attempted (write_metadata entry) disk, some entry)

  -- `Cache::lookup` behind the reading of the metadata.
  unfoldable pub lookup_decoded :
      CachePlan → ℕ → Result Text CacheEntry → Disk → Disk × Option CacheEntry
  lookup_decoded plan now (err _) disk =
      settle_lookup plan.key (lookup root plan now corrupt none) disk
  lookup_decoded plan now (ok entry) disk =
      let (disk', body_len) = file_len (body_path root plan.key) disk in
      settle_lookup plan.key (lookup root plan now (readable entry) (to_option body_len)) disk'

  -- `Cache::lookup` on the files.
  unfoldable pub lookup_files : CachePlan → ℕ → Disk → Disk × Option CacheEntry
  lookup_files plan now disk =
      let (disk', bytes) = read_file (meta_path root plan.key) disk in
      elim bytes [
        | err _ ↦ (disk', none)
        | ok bytes' ↦ lookup_decoded plan now (from_slice bytes') disk'
      ]

  -- `Cache::refresh` on the files: the entry, and whether its metadata was written.
  unfoldable pub refresh_files :
      (H : Http)
      → (Text → Option ℕ)
      → (now dated : ℕ) → CacheEntry
      → H.Headers
      → ℕ
      → Disk
      → Disk × CacheEntry × Result Text (Unit {0})
  refresh_files H parse_http_date now dated entry response_headers configured_ttl disk =
      let refreshed = refresh H parse_http_date now dated entry response_headers configured_ttl in
      let (disk', written) = write_metadata refreshed disk in (disk', refreshed, written)

  -- `Cache::begin_write` on the files, in a cache of this size.
  unfoldable pub begin_write :
      (H : Http)
      → (Text → Option ℕ)
      → (created accessed dated : ℕ) (max_size : ℕ) → CachePlan
      → ℕ
      → H.Headers
      → H.Headers
      → Disk
      → Disk × Option CacheWriter
  begin_write H parse_http_date created accessed dated max_size plan status headers request_headers
        disk =
      elim (admit H parse_http_date created accessed dated root plan status headers
        request_headers) [
          | none ↦ (disk, none)
          | some entry ↦
              let temp_body = temp_body_path root plan.key process disk.temp_counter in
              let opened = record disk { temp_counter = suc disk.temp_counter } in
              let (disk', made) = create_file temp_body opened in
              let writer : CacheWriter = record {
                root = root;
                max_size = max_size;
                entry = entry;
                temp_body = temp_body;
                body_file = [];
                body_len = 0;
              } in
              (disk', elim made [ err _ ↦ none | ok _ ↦ some writer ])
        ]

-- `CacheWriter::finish`; a flush that fails is an error.
unfoldable pub finish : Codec CacheEntry persisted → ℕ → CacheWriter → Io (Unit {0})
finish C process writer = do
  flush
  commit C process writer.root writer.max_size (finished writer).entry writer.temp_body
