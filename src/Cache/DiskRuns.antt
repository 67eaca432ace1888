-- ===== src/Cache/DiskRuns.antt =====
-- Runs of the cache on a disk, and the theorems on it at concrete inputs.
use corsget.Prelude.{
  ℕ, ◌≡◌, refl, ◌⊎◌, inl, inr, true, false, none, some, Option, List, [], ◌∷◌, Result, ok, err,
  OnSome, if◌then◌else◌,
}
use corsget.Text.{Text, text, text_eq, assoc}
use corsget.Disk.{Files, Disk, fine, failing}
use corsget.Disk.Replacing.{Shrinks-refl}
use corsget.Samples.Codecs.{entry_codec, enc_entry}
use corsget.Cache.{CachePlan, CacheEntry, cache_version}
use corsget.Cache.Writing.{body_path, meta_path, temp_body_path}
use corsget.Samples.Http.{list_http}
use corsget.Cache.Reachable.{here, after, refreshes, looks_up, Reach-decodes}
use corsget.Cache.Files.{persisted, commit, lookup_files, refresh_files}
use corsget.Cache.Cleanup.{cleanup_startup}
use corsget.Cache.Freshness.{FreshAt, cleanup_startup-FreshAt}
use corsget.Cache.Shown.{shown, lookup_files-shown}
use corsget.Cache.Answers.{accessed, answered}
use corsget.Cache.Installing.{update}
use corsget.Cache.Committing.{commit-update, commit-failed, commit-stale, commit-lookup}

on_disk : Unit {0}
unfolding commit corsget.Cache.Files.install corsget.Cache.Files.write_metadata
    corsget.Cache.Files.evict_files corsget.Cache.Files.scan_names corsget.Cache.Files.scan_metadata
    corsget.Cache.Files.file_len_or_zero corsget.Cache.Files.remove_entries
    corsget.Cache.Files.remove_entry corsget.Cache.Files.temp_meta_path lookup_files
    corsget.Cache.Files.lookup_decoded corsget.Cache.Files.settle_lookup corsget.Cache.Store.lookup
    corsget.Cache.Store.is_length body_path meta_path temp_body_path shown
    corsget.Cache.Eviction.evict corsget.Cache.Eviction.evict_from corsget.Cache.Eviction.scan_total
    corsget.Cache.Eviction.sort_by_access corsget.Cache.Eviction.insert_by_access corsget.Disk.put
    corsget.Disk.drop corsget.Disk.run corsget.Disk.run_with corsget.Disk.take
    corsget.Disk.read_file corsget.Disk.file_len corsget.Disk.remove_file corsget.Disk.rename
    corsget.Disk.write_file corsget.Disk.fetch_add corsget.Disk.read_dir corsget.Disk.next_item
    corsget.Disk.flush corsget.Disk.Paths.dir_prefix corsget.Disk.Paths.split_name
    corsget.Disk.Paths.has_extension text text_eq assoc corsget.Text.to_decimal
    corsget.Text.digits_of corsget.Text.strip_prefix corsget.Text.has_char corsget.Text.rsplit_once
    corsget.Prelude.any corsget.Prelude.filter corsget.Prelude.filter_map
on_disk = tt

abbrev entry : CacheEntry
entry = record {
  version = cache_version;
  status = 200;
  headers = (text "a", text "b") ∷ [];
  body_len = 3;
  created_at = 5;
  last_access = 5;
  ttl = 60;
  revalidate = false;
  etag = some (text "t");
  last_modified = none;
  vary = text "origin" ∷ [];
  request_variants = [];
  key = text "k";
  body_path = [];
}

abbrev body : Text
body = text "new"

abbrev old : CacheEntry
old = persisted (record entry { created_at = 1; status = 203 })

abbrev root : Text
root = text "c"

abbrev fresh_disk : Disk
fresh_disk = record {
  files = (temp_body_path root (text "k") 1 0, body) ∷ [];
  faults = [];
  temp_counter = 1;
}

-- The same, where the metadata cannot be written; a part of it is left in a temporary file.
abbrev full_disk : Disk
full_disk = record fresh_disk { faults = fine ∷ failing 4 (text "disk full") ∷ [] }

abbrev used_disk : Disk
used_disk = record full_disk {
  files =
      (meta_path root (text "k"), enc_entry old)
      ∷ (body_path root (text "k"), text "old")
      ∷ fresh_disk.files;
}

abbrev no_date : Text → Option ℕ
no_date _ = none

abbrev planned : CachePlan
planned = record { key = text "k"; ttl = 60 }

abbrev committed : Disk
committed = (commit entry_codec 1 root 1000 entry (temp_body_path root (text "k") 1 0) fresh_disk).0

-- What is committed is found, and a limit below its size evicts it at once.
commits :
    ((commit entry_codec 1 root 1000 entry (temp_body_path root (text "k") 1 0) fresh_disk).1
      ≡ ok tt)
    × ((lookup_files entry_codec 1 root planned 9 committed).1
        ≡ some (record entry { body_path = text "c/k.body"; last_access = 9 }))
    × ((commit entry_codec 1 root 2 entry (temp_body_path root (text "k") 1 0) fresh_disk).0.files
        ≡ [])
unfolding on_disk
commits = (refl, refl, refl)

commit-update_example :
    (shown entry_codec 1 root committed.files (text "k")
      ≡ update
          (shown entry_codec 1 root fresh_disk.files)
          (text "k")
          (some (persisted entry, body))
          (text "k"))
    ⊎ (shown entry_codec 1 root committed.files (text "k") ≡ none)
unfolding on_disk
commit-update_example =
    commit-update entry_codec 1 root 1000 entry 0 fresh_disk body refl refl refl refl (text "k")

commit-lookup_example :
    OnSome
      (λ found.
        (found ≡ accessed root planned 9 entry)
        × (assoc (body_path root planned.key) committed.files ≡ some body))
      (lookup_files entry_codec 1 root planned 9 committed).1
unfolding on_disk
commit-lookup_example =
    commit-lookup entry_codec 1 root 1000 entry 0 fresh_disk body planned 9 committed refl refl refl
      refl (Shrinks-refl committed.files) refl

commit-failed_example :
    shown entry_codec 1 root
      (commit entry_codec 1 root 1000 entry (temp_body_path root (text "k") 1 0) full_disk).0.files
      (text "k")
    ≡ shown entry_codec 1 root full_disk.files (text "k")
unfolding on_disk
commit-failed_example =
    commit-failed entry_codec 1 root 1000 entry 0 full_disk (text "disk full") refl refl (text "k")

commit-stale_example :
    shown entry_codec 1 root
      (commit entry_codec 1 root 1000 entry (temp_body_path root (text "k") 1 0) used_disk).0.files
      (text "k")
    ≡ some (old, body)
unfolding on_disk
commit-stale_example =
    commit-stale entry_codec 1 root 1000 entry 0 used_disk (text "disk full") (enc_entry old) body
      old refl refl refl refl refl refl

lookup_files-shown_example :
    (lookup_files entry_codec 1 root planned 9 committed).1
    ≡ answered root planned 9 (shown entry_codec 1 root committed.files (text "k"))
unfolding on_disk
lookup_files-shown_example = lookup_files-shown entry_codec 1 root planned 9 committed refl

cleaned : Unit {0}
unfolding on_disk corsget.Cache.Cleanup.is_cache_temp_file corsget.Text.has_text
    corsget.Text.starts_with corsget.Cache.Cleanup.remove_cache_file
    corsget.Cache.Cleanup.remove_both corsget.Cache.Cleanup.is_stale
    corsget.Cache.Cleanup.record_valid corsget.Cache.Cleanup.clean_orphan
    corsget.Cache.Cleanup.clean_orphans corsget.Cache.Cleanup.clean_evicted
    corsget.Cache.Cleanup.clean_rest corsget.Cache.Cleanup.judge_entry
    corsget.Cache.Cleanup.judge_metadata corsget.Cache.Cleanup.clean_metadata
    corsget.Cache.Cleanup.clean_name corsget.Cache.Cleanup.clean_names cleanup_startup
    corsget.Text.member
cleaned = tt

abbrev at_rest : Disk
at_rest = record used_disk { faults = [] }

-- A stale entry goes, and so does the file of a write that was cut short; a fresh entry stays.
cleans :
    ((cleanup_startup entry_codec root 100 1000 at_rest).disk.files ≡ [])
    × ((cleanup_startup entry_codec root 100 1000 at_rest).summary.stale_entries ≡ 1)
    × ((cleanup_startup entry_codec root 100 1000 at_rest).summary.temporary_files ≡ 1)
    × ((cleanup_startup entry_codec root 9 1000 committed).disk.files ≡ committed.files)
unfolding cleaned
cleans = (refl, refl, refl, refl)

cleanup_startup-FreshAt_example :
    FreshAt entry_codec 1 root 100
      (text "k")
      (cleanup_startup entry_codec root 100 1000 at_rest).disk.files
unfolding cleaned
cleanup_startup-FreshAt_example =
    cleanup_startup-FreshAt entry_codec 1 root 100 (text "k") (refl, refl, refl, refl) 1000 at_rest
      refl

-- An empty disk, on which the second write of a file is cut short.
abbrev failing_disk : Disk
failing_disk = record full_disk {
  files = [];
  faults = fine ∷ fine ∷ failing 4 (text "disk full") ∷ [];
}

abbrev refreshed : ℕ → Disk → Disk
refreshed now disk = (refresh_files entry_codec 1 root list_http no_date now now entry [] 60 disk).0

abbrev refreshed_twice : Disk
refreshed_twice = refreshed 6 (refreshed 5 failing_disk)

Reach-decodes_example :
    OnSome
      (λ bytes. (e : CacheEntry) × (entry_codec.from_slice bytes ≡ ok (persisted e)))
      (assoc
        (meta_path root (text "k"))
        (lookup_files entry_codec 1 root planned 9 refreshed_twice).0.files)
Reach-decodes_example =
    Reach-decodes list_http entry_codec 1 root no_date 1000 failing_disk
      (lookup_files entry_codec 1 root planned 9 refreshed_twice).0 (text "k")
      (after
        (after (after (here failing_disk) (refreshes 5 5 entry [] 60 failing_disk))
          (refreshes 6 6 entry [] 60 (refreshed 5 failing_disk)))
        (looks_up planned 9 refreshed_twice))
      refl
