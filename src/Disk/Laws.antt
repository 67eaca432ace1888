-- ===== src/Disk/Laws.antt =====
-- What reading, listing and appending give, and what is left when nothing fails.
use corsget.Prelude.{
  ℕ, ◌≡◌, refl, ap, ◌∙◌, inl, inr, false, Option, none, some, [], ◌++◌, Result, ok, err, ok_or,
  filter_map, length, Option-cases, ok-injective,
}
use corsget.Text.{Text, text_eq, assoc}
use corsget.Text.Equality.{text_eq_refl}
use corsget.Disk.{
  Files, Disk, run, unchanged, take, read_file, file_len, remove_file, read_dir, next_item,
  not_found, name_in, appended, append_file, flush, read_open,
}
use corsget.Disk.Replacing.{removed}
use corsget.Disk.Outcomes.{assoc-put, run-OnFiles, run-ok, run-nil}

abbrev pub len_of : Option Text → Result Text ℕ
len_of none = err not_found
len_of (some bytes) = ok (length bytes)

ok_or-ok : (o : Option Text) (bytes : Text) → ok_or not_found o ≡ ok bytes → o ≡ some bytes
ok_or-ok none bytes e = cc e
ok_or-ok (some b) bytes e = ap some (ok-injective e)

len_of-ok :
    (o : Option Text) (n : ℕ)
    → len_of o ≡ ok n
    → (bytes : Text) × (o ≡ some bytes) × (length bytes ≡ n)
len_of-ok none n e = cc e
len_of-ok (some bytes) n e = (bytes, refl, ok-injective e)

module _ (path : Text) (disk : Disk) where
  -- What is read is the file.
  pub read_file-ok :
      (bytes : Text) → (read_file path disk).1 ≡ ok bytes → assoc path disk.files ≡ some bytes
  unfolding read_file
  read_file-ok bytes e =
      ok_or-ok (assoc path disk.files) bytes
        (run-ok (λ files. (files, ok_or not_found (assoc path files))) unchanged disk e).1

  pub file_len-ok :
      (n : ℕ)
      → (file_len path disk).1 ≡ ok n
      → (bytes : Text) × (assoc path disk.files ≡ some bytes) × (length bytes ≡ n)
  unfolding file_len
  file_len-ok n e =
      len_of-ok (assoc path disk.files) n
        (run-ok (λ files. (files, len_of (assoc path files))) unchanged disk e).1

  abbrev pub quiet : Disk
  quiet = record disk { faults = [] }

  pub read_file-nil :
      disk.faults ≡ [] → read_file path disk ≡ (quiet, ok_or not_found (assoc path disk.files))
  unfolding read_file
  read_file-nil none_left =
      run-nil (λ files. (files, ok_or not_found (assoc path files))) unchanged disk none_left

  pub file_len-nil : disk.faults ≡ [] → file_len path disk ≡ (quiet, len_of (assoc path disk.files))
  unfolding file_len
  file_len-nil none_left =
      run-nil (λ files. (files, len_of (assoc path files))) unchanged disk none_left

appended-other :
    (path bytes q : Text) (files : Files)
    → text_eq q path ≡ false
    → assoc q (appended path bytes files) ≡ assoc q files
appended-other path bytes q files other = elim (Option-cases (assoc path files)) [
  | inl missing ↦ rw (missing, appended)
  | inr (old, found) ↦ rw (found, appended) (assoc-put q path (old ++ bytes) files ∙ rw other refl)
]

module _ (path bytes : Text) (disk : Disk) where
  pub append_file-other :
      (q : Text)
      → text_eq q path ≡ false
      → assoc q (append_file path bytes disk).0.files ≡ assoc q disk.files
  unfolding append_file
  append_file-other q other =
      run-OnFiles (λ files. (appended path bytes files, ok tt))
        (λ n files. appended path (take n bytes) files)
        (λ files. assoc q files ≡ assoc q disk.files) disk
        (appended-other path bytes q disk.files other)
        (λ n. appended-other path (take n bytes) q disk.files other)

  pub append_file-ok :
      (old : Text)
      → assoc path disk.files ≡ some old
      → (append_file path bytes disk).1 ≡ ok tt
      → assoc path (append_file path bytes disk).0.files ≡ some (old ++ bytes)
  unfolding append_file
  append_file-ok old found e =
      let (after, _) =
        run-ok (λ files. (appended path bytes files, ok tt))
          (λ n files. appended path (take n bytes) files) disk e in
      rw (after, appended, found, assoc-put, text_eq_refl)

pub flush-files : (disk : Disk) → (flush disk).0.files ≡ disk.files
unfolding flush
flush-files disk = run-OnFiles _ unchanged (λ files. files ≡ disk.files) disk refl (λ n. refl)

-- Where no faults are to come, none are behind an operation.
run-quiet :
    {A : Type 0} (act : Files → Files × Result Text A) (cut : ℕ → Files → Files) (disk : Disk)
    → disk.faults ≡ []
    → (run act cut disk).0.faults ≡ []
run-quiet act cut disk none_left = rw (run-nil act cut disk none_left) refl

module _ (path : Text) (disk : Disk) (none_left : disk.faults ≡ []) where
  pub read_file-quiet : (read_file path disk).0.faults ≡ []
  unfolding read_file
  read_file-quiet =
      run-quiet (λ files. (files, ok_or not_found (assoc path files))) unchanged disk none_left

  pub file_len-quiet : (file_len path disk).0.faults ≡ []
  unfolding file_len
  file_len-quiet = run-quiet (λ files. (files, len_of (assoc path files))) unchanged disk none_left

  pub remove_file-quiet : (remove_file path disk).0.faults ≡ []
  unfolding remove_file
  remove_file-quiet = run-quiet (removed path) unchanged disk none_left

  pub read_dir-nil :
      read_dir path disk ≡ (quiet path disk, ok (filter_map (name_in path) disk.files))
  unfolding read_dir
  read_dir-nil =
      run-nil (λ files. (files, ok (filter_map (name_in path) files))) unchanged disk none_left

pub next_item-nil : (disk : Disk) → disk.faults ≡ [] → next_item disk ≡ (quiet [] disk, ok tt)
unfolding next_item
next_item-nil disk none_left = run-nil (λ files. (files, ok tt)) unchanged disk none_left

pub next_item-quiet : (disk : Disk) → disk.faults ≡ [] → (next_item disk).0.faults ≡ []
next_item-quiet disk none_left = rw (next_item-nil disk none_left) refl

pub read_dir-quiet :
    (root : Text) (disk : Disk) → disk.faults ≡ [] → (read_dir root disk).0.faults ≡ []
read_dir-quiet root disk none_left = rw (read_dir-nil root disk none_left) refl

pub read_open-nil :
    (bytes : Text) (disk : Disk)
    → disk.faults ≡ []
    → read_open bytes disk ≡ (quiet [] disk, ok bytes)
unfolding read_open
read_open-nil bytes disk none_left = run-nil (λ files. (files, ok bytes)) unchanged disk none_left

pub read_open-files : (bytes : Text) (disk : Disk) → (read_open bytes disk).0.files ≡ disk.files
unfolding read_open
read_open-files bytes disk =
    run-OnFiles _ unchanged (λ files. files ≡ disk.files) disk refl (λ n. refl)
