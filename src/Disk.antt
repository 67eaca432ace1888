-- ===== src/Disk.antt =====
-- The files that src/cache.rs works on, with the operations of `std::fs` and `tokio::fs` that it calls.
-- Any operation may fail, and a write may fail half-way.
pub mod Paths
pub mod Outcomes
pub mod Replacing
pub mod Laws
pub mod Chains
use corsget.Prelude.{
  ℕ, zero, suc, Bool, true, false, ◌&&◌, not, Option, none, some, List, [], ◌∷◌, ◌++◌, Result, ok,
  err, ok_or, if◌then◌else◌, filter, filter_map, length,
}
use corsget.Disk.Paths.{dir_prefix}
use corsget.Text.{Text, text, text_eq, assoc, strip_prefix, has_char}

-- The files by their paths.
abbrev pub Files : Type 0
Files = List (Text × Text)

unfoldable pub put : Text → Text → Files → Files
put path bytes [] = (path, bytes) ∷ []
put path bytes ((other, old) ∷ files) =
    if text_eq path other then (path, bytes) ∷ files else (other, old) ∷ put path bytes files

unfoldable pub drop : Text → Files → Files
drop path files = filter (λ file. not (text_eq path file.0)) files

-- How the next operation ends. One that writes may have written a number of bytes when it fails.
pub data Fault : Type 0 where
  fine : Fault
  failing : (written : ℕ) → (error : Text) → Fault

-- The files, the faults of the operations to come (behind the list, they succeed), and the
-- process's `TEMP_COUNTER`.
pub record Disk : Type 0 where
  pub files : Files
  pub faults : List Fault
  pub temp_counter : ℕ

abbrev pub Io : Type 0 → Type 0
Io A = Disk → Disk × Result Text A

infixl 5 ◌>>=◌ ◌>>◌
-- The `?` operator on an operation.
abbrev pub ◌>>=◌ : {A B : Type 0} → Io A → (A → Io B) → Io B
(operation >>= continue) disk = elim (operation disk).1 [
  | ok value ↦ continue value (operation disk).0
  | err error ↦ ((operation disk).0, err error)
]

abbrev pub ◌>>◌ : {B : Type 0} → Io (Unit {0}) → Io B → Io B
operation >> continue = operation >>= λ _. continue

-- `let _ = operation`.
abbrev pub attempted : {A : Type 0} → Io A → Disk → Disk
attempted operation disk = (operation disk).0

-- A value, and a result that is not the file system's.
abbrev pub pure : {A : Type 0} → A → Io A
pure value disk = (disk, ok value)

abbrev pub of_result : {A : Type 0} → Result Text A → Io A
of_result result disk = (disk, result)

-- `unwrap_or(default)`.
abbrev pub or_default : {A : Type 0} → A → Result Text A → A
or_default default (ok value) = value
or_default default (err error) = default

-- An operation: what it does to the files, and what is left of it when it fails.
unfoldable pub run_with :
    {A : Type 0} (act : Files → Files × Result Text A) (cut : ℕ → Files → Files)
    → ℕ
    → Files
    → List Fault
    → Disk × Result Text A
run_with act cut counter files [] =
    (record { files = (act files).0; faults = []; temp_counter = counter }, (act files).1)
run_with act cut counter files (fine ∷ faults) =
    (record { files = (act files).0; faults = faults; temp_counter = counter }, (act files).1)
run_with act cut counter files (failing n error ∷ faults) =
    (record { files = cut n files; faults = faults; temp_counter = counter }, err error)

unfoldable pub run :
    {A : Type 0} (act : Files → Files × Result Text A) (cut : ℕ → Files → Files) → Io A
run act cut disk = run_with act cut disk.temp_counter disk.files disk.faults

abbrev pub unchanged : ℕ → Files → Files
unchanged n files = files

abbrev pub not_found : Text
not_found = text "No such file or directory (os error 2)"

-- The first bytes of some bytes.
unfoldable pub take : ℕ → Text → Text
take zero bytes = []
take (suc n) [] = []
take (suc n) (c ∷ bytes) = c ∷ take n bytes

-- `fs::read`.
unfoldable pub read_file : Text → Io Text
read_file path = run (λ files. (files, ok_or not_found (assoc path files))) unchanged

-- `fs::metadata(path)`, of which the length is used.
unfoldable pub file_len : Text → Io ℕ
file_len path =
    run
      (λ files.
        (files, elim (assoc path files) [ none ↦ err not_found | some bytes ↦ ok (length bytes) ]))
      unchanged

-- `fs::remove_file`.
unfoldable pub remove_file : Text → Io (Unit {0})
remove_file path =
    run
      (λ files. elim (assoc path files) [
        | none ↦ (files, err not_found)
        | some _ ↦ (drop path files, ok tt)
      ])
      unchanged

-- `fs::rename`, which replaces the file at the new path.
unfoldable pub rename : Text → Text → Io (Unit {0})
rename from to =
    run
      (λ files. elim (assoc from files) [
        | none ↦ (files, err not_found)
        | some bytes ↦ (put to bytes (drop from files), ok tt)
      ])
      unchanged

-- `fs::write`, which creates or truncates the file first.
unfoldable pub write_file : Text → Text → Io (Unit {0})
write_file path bytes =
    run (λ files. (put path bytes files, ok tt)) (λ n files. put path (take n bytes) files)

-- `File::create`.
unfoldable pub create_file : Text → Io (Unit {0})
create_file path = run (λ files. (put path [] files, ok tt)) unchanged

-- `TEMP_COUNTER.fetch_add(1)`.
unfoldable pub fetch_add : Io ℕ
fetch_add disk = (record disk { temp_counter = suc disk.temp_counter }, ok disk.temp_counter)

-- A name of the directory, if the path lies directly in it.
abbrev pub name_in : Text → Text × Text → Option Text
name_in root (path, bytes) = elim (strip_prefix (dir_prefix root) path) [
  | none ↦ none
  | some name ↦ if has_char b'/' name then none else some name
]

-- `fs::read_dir`: the names of the files in the directory.
unfoldable pub read_dir : Text → Io (List Text)
read_dir root = run (λ files. (files, ok (filter_map (name_in root) files))) unchanged

-- The step to the next item of a directory that is being read.
unfoldable pub next_item : Io (Unit {0})
next_item = run (λ files. (files, ok tt)) unchanged

-- `file.flush()`.
unfoldable pub flush : Io (Unit {0})
flush = run (λ files. (files, ok tt)) unchanged

-- The file at a path, with more bytes at its end.
abbrev pub appended : Text → Text → Files → Files
appended path bytes files = elim (assoc path files) [
  | none ↦ files
  | some old ↦ put path (old ++ bytes) files
]

-- `file.write_all(bytes)` on an open file, to whose end it writes. A file that was removed takes the
-- bytes unseen.
unfoldable pub append_file : Text → Text → Io (Unit {0})
append_file path bytes =
    run (λ files. (appended path bytes files, ok tt))
      (λ n files. appended path (take n bytes) files)

-- A read of an open file, which gives these bytes. An open file keeps its bytes, whatever happens to
-- its path.
unfoldable pub read_open : Text → Io Text
read_open bytes = run (λ files. (files, ok bytes)) unchanged
