-- ===== src/Cache/Cleans.antt =====
-- The clean-up only removes: what its single operations on the disk do.
use corsget.Prelude.{◌≡◌, sym, subst, inl, inr, [], Result-cases}
use corsget.Text.{Text}
use corsget.Disk.{Disk, file_len, read_file, remove_file, read_dir, next_item}
use corsget.Disk.Laws.{
  file_len-quiet, read_file-quiet, remove_file-quiet, next_item-quiet, read_dir-quiet,
}
use corsget.Disk.Replacing.{Shrinks, Shrinks-refl, Shrinks-trans, remove_file-Shrinks}
use corsget.Disk.Outcomes.{read_file-files, file_len-files, read_dir-files, next_item-files}
use corsget.Cache.Cleanup.{Cleaning, remove_cache_file, remove_both}

-- The clean-up removes files, and brings no faults.
abbrev pub Cleans : Disk → Disk → Type 0
Cleans old new = Shrinks old.files new.files × (old.faults ≡ [] → new.faults ≡ [])

pub Cleans-refl : (disk : Disk) → Cleans disk disk
Cleans-refl disk = (Shrinks-refl disk.files, λ e. e)

pub Cleans-trans : (a b c : Disk) → Cleans a b → Cleans b c → Cleans a c
Cleans-trans a b c (ab, qab) (bc, qbc) =
    (Shrinks-trans a.files b.files c.files ab bc, λ e. qbc (qab e))

reads : (a b : Disk) → b.files ≡ a.files → (a.faults ≡ [] → b.faults ≡ []) → Cleans a b
reads a b same quiet = (subst (Shrinks a.files) (sym same) (Shrinks-refl a.files), quiet)

pub file_len-Cleans : (path : Text) (disk : Disk) → Cleans disk (file_len path disk).0
file_len-Cleans path disk =
    reads disk (file_len path disk).0 (file_len-files path disk) (file_len-quiet path disk)

pub read_file-Cleans : (path : Text) (disk : Disk) → Cleans disk (read_file path disk).0
read_file-Cleans path disk =
    reads disk (read_file path disk).0 (read_file-files path disk) (read_file-quiet path disk)

pub next_item-Cleans : (disk : Disk) → Cleans disk (next_item disk).0
next_item-Cleans disk =
    reads disk (next_item disk).0 (next_item-files [] disk) (next_item-quiet disk)

pub read_dir-Cleans : (root : Text) (disk : Disk) → Cleans disk (read_dir root disk).0
read_dir-Cleans root disk =
    reads disk (read_dir root disk).0 (read_dir-files root disk) (read_dir-quiet root disk)

remove_file-Cleans : (path : Text) (disk : Disk) → Cleans disk (remove_file path disk).0
remove_file-Cleans path disk = (remove_file-Shrinks path disk, remove_file-quiet path disk)

pub remove_cache_file-Cleans :
    (path : Text) (s : Cleaning) → Cleans s.disk (remove_cache_file path s).disk
unfolding remove_cache_file
remove_cache_file-Cleans path s =
    let (measured, len) = file_len path s.disk in
    let first = file_len-Cleans path s.disk in
    elim (Result-cases len) [
      | inr (error, bad) ↦ rw (bad, remove_cache_file) first
      | inl (n, known) ↦
          let both =
            Cleans-trans s.disk measured (remove_file path measured).0 first
              (remove_file-Cleans path measured) in
          elim (Result-cases (remove_file path measured).1) [
            | inr (error, bad) ↦ rw (known, remove_cache_file, bad) both
            | inl (_, good) ↦ rw (known, remove_cache_file, good) both
          ]
    ]

pub remove_both-Cleans :
    (path body : Text) (s : Cleaning) → Cleans s.disk (remove_both path body s).disk
unfolding remove_both
remove_both-Cleans path body s =
    Cleans-trans s.disk (remove_cache_file path s).disk
      (remove_cache_file body (remove_cache_file path s)).disk (remove_cache_file-Cleans path s)
      (remove_cache_file-Cleans body (remove_cache_file path s))
