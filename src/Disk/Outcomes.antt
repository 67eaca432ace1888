-- ===== src/Disk/Outcomes.antt =====
-- How an operation on the disk ends, with the faults to come, and the files as a map.
use corsget.Prelude.{
  ℕ, ◌≡◌, refl, ap, ◌∙◌, inl, inr, false, Option, none, some, List, [], ◌∷◌, Result, ok, arith,
  if◌then◌else◌, filter, Bool-cases,
}
use corsget.Text.{Text, text_eq, assoc}
use corsget.Text.Equality.{text_eq_sound, text_eq_symm}
use corsget.Disk.{
  Files, put, drop, Fault, fine, failing, Disk, run_with, run, unchanged, read_file, file_len,
  read_dir, next_item,
}

-- The file at a path, if there is one.
abbrev pub at : Text → Disk → Option Text
at path disk = assoc path disk.files

pub assoc-put :
    (j k bytes : Text) (files : Files)
    → assoc j (put k bytes files) ≡ (if text_eq j k then some bytes else assoc j files)
unfolding assoc put
assoc-put j k bytes [] = refl
assoc-put j k bytes ((other, old) ∷ files) = elim (Bool-cases (text_eq k other)) [
  | inl same ↦ let e = text_eq_sound k other same in rw (same, put) (ground (arith, e))
  | inr different ↦ elim (Bool-cases (text_eq j other)) [
    | inl here ↦
        let e = text_eq_sound j other here in
        let apart : text_eq j k ≡ false = text_eq_symm j k ∙ (ap (text_eq k) e ∙ different) in
        rw (different, put, apart) (ground (arith, here))
    | inr there ↦ rw (different, put, there) (assoc-put j k bytes files)
  ]
]

pub assoc-drop :
    (j k : Text) (files : Files)
    → assoc j (drop k files) ≡ (if text_eq j k then none else assoc j files)
unfolding assoc drop filter
assoc-drop j k [] = ground arith
assoc-drop j k ((other, old) ∷ files) = elim (Bool-cases (text_eq k other)) [
  | inl same ↦
      let e = text_eq_sound k other same in rw same (ground (arith, assoc-drop j k files, e))
  | inr different ↦ elim (Bool-cases (text_eq j other)) [
    | inl here ↦
        let e = text_eq_sound j other here in
        let apart : text_eq j k ≡ false = text_eq_symm j k ∙ (ap (text_eq k) e ∙ different) in
        rw (different, apart) (ground (arith, here))
    | inr there ↦ rw (different, there) (ground (arith, assoc-drop j k files, there))
  ]
]

module _ {A : Type 0} (act : Files → Files × Result Text A) (cut : ℕ → Files → Files) where
  pub run-OnFiles {ℓ} :
      (P : Files → Type ℓ) (disk : Disk)
      → P (act disk.files).0
      → ((n : ℕ) → P (cut n disk.files))
      → P (run act cut disk).0.files
  unfolding run run_with
  run-OnFiles P disk done part = by_faults disk.faults
    where
      by_faults :
          (faults : List Fault) → P (run_with act cut disk.temp_counter disk.files faults).0.files
      by_faults [] = done
      by_faults (fine ∷ faults) = done
      by_faults (failing n error ∷ faults) = part n

  -- A success has done the whole of it.
  pub run-ok :
      (disk : Disk) {a : A}
      → (run act cut disk).1 ≡ ok a
      → ((run act cut disk).0.files ≡ (act disk.files).0) × ((act disk.files).1 ≡ ok a)
  unfolding run run_with
  run-ok disk {a} e = by_faults disk.faults e
    where
      by_faults :
          (faults : List Fault)
          → (run_with act cut disk.temp_counter disk.files faults).1 ≡ ok a
          → ((run_with act cut disk.temp_counter disk.files faults).0.files ≡ (act disk.files).0)
            × ((act disk.files).1 ≡ ok a)
      by_faults [] e = (refl, e)
      by_faults (fine ∷ faults) e = (refl, e)
      by_faults (failing n error ∷ faults) e = cc e

  -- Without faults to come, it is done, and there are none behind it.
  pub run-nil :
      (disk : Disk)
      → disk.faults ≡ []
      → run act cut disk ≡ (
        record { files = (act disk.files).0; faults = []; temp_counter = disk.temp_counter },
        (act disk.files).1,
      )
  unfolding run run_with
  run-nil disk e = rw (e, run_with)

module _ (path : Text) (disk : Disk) where
  pub read_file-files : (read_file path disk).0.files ≡ disk.files
  unfolding read_file
  read_file-files = run-OnFiles _ unchanged (λ files. files ≡ disk.files) disk refl (λ n. refl)

  pub file_len-files : (file_len path disk).0.files ≡ disk.files
  unfolding file_len
  file_len-files = run-OnFiles _ unchanged (λ files. files ≡ disk.files) disk refl (λ n. refl)

  pub read_dir-files : (read_dir path disk).0.files ≡ disk.files
  unfolding read_dir
  read_dir-files = run-OnFiles _ unchanged (λ files. files ≡ disk.files) disk refl (λ n. refl)

  pub next_item-files : (next_item disk).0.files ≡ disk.files
  unfolding next_item
  next_item-files = run-OnFiles _ unchanged (λ files. files ≡ disk.files) disk refl (λ n. refl)
