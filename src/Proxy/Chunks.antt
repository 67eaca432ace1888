-- ===== src/Proxy/Chunks.antt =====
-- One chunk of a response on its way into the copy on the disk.
use corsget.Prelude.{
  ℕ, ◌+◌, ◌≤◌, ◌≡◌, ap, Option, none, some, [], ◌++◌, Result, ok, err, arith, length, length-append,
  u64_max, saturating_add,
}
use corsget.Text.{Text}
use corsget.Disk.{Disk, append_file, remove_file}
use corsget.Cache.{CacheEntry}
use corsget.Cache.Writing.{CacheWriter, write}
use corsget.Cache.Files.{write_body, discard}
use corsget.Proxy.Filing.{write_files}

module _ (root : Text) (max_size : ℕ) (entry : CacheEntry) (temp : Text) where
  -- The writer that has written these bytes.
  abbrev pub writing : Text → CacheWriter
  writing file = record {
    root = root;
    max_size = max_size;
    entry = entry;
    temp_body = temp;
    body_file = file;
    body_len = length file;
  }

  writing-append :
      (file bytes : Text)
      → length file + length bytes ≤ u64_max
      → record (writing file) {
        body_file = file ++ bytes;
        body_len = saturating_add (length file) (length bytes);
      }
        ≡ writing (file ++ bytes)
  writing-append file bytes small =
      let sum : saturating_add (length file) (length bytes) ≡ length (file ++ bytes) =
        rw (length-append file bytes) (ground arith) in
      ap (λ n. record (writing file) { body_file = file ++ bytes; body_len = n }) sum

  write_body-ok :
      (file bytes : Text) (disk : Disk)
      → (append_file temp bytes disk).1 ≡ ok tt
      → length file + length bytes ≤ u64_max
      → write_body bytes (writing file) disk
        ≡ ((append_file temp bytes disk).0, writing (file ++ bytes), ok tt)
  unfolding write_body write
  write_body-ok file bytes disk good small =
      rw (write_body, good)
        (ap
          (λ (w : CacheWriter).
            let result : Result Text (Unit {0}) = ok tt in
            ((append_file temp bytes disk).0, w, result))
          (writing-append file bytes small))

  pub write_files-ok :
      (file bytes : Text) (disk : Disk)
      → (append_file temp bytes disk).1 ≡ ok tt
      → length file + length bytes ≤ u64_max
      → write_files bytes (some (writing file)) disk
        ≡ ((append_file temp bytes disk).0, some (writing (file ++ bytes)))
  unfolding write_files
  write_files-ok file bytes disk good small =
      let e = write_body-ok file bytes disk good small in
      rw (write_files, e)
        (ap (λ (r : Disk × CacheWriter × Result Text (Unit {0})). (r.0, some r.1)) e)

  write_body-err :
      (file bytes : Text) (disk : Disk) (error : Text)
      → (append_file temp bytes disk).1 ≡ err error
      → write_body bytes (writing file) disk ≡ (
        (append_file temp bytes disk).0,
        record (writing file) { body_file = file ++ [] },
        err error,
      )
  unfolding write_body write
  write_body-err file bytes disk error bad = rw (write_body, bad)

  pub write_files-err :
      (file bytes : Text) (disk : Disk) (error : Text)
      → (append_file temp bytes disk).1 ≡ err error
      → write_files bytes (some (writing file)) disk
        ≡ ((remove_file temp (append_file temp bytes disk).0).0, none)
  unfolding write_files discard
  write_files-err file bytes disk error bad =
      let e = write_body-err file bytes disk error bad in
      rw (write_files, e)
        (ap
          (λ (r : Disk × CacheWriter × Result Text (Unit {0})).
            let gone : Option CacheWriter = none in (discard r.1 r.0, gone))
          e)
