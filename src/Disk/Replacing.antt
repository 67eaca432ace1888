-- ===== src/Disk/Replacing.antt =====
-- Removing, creating, writing and renaming files, and what each leaves of the others.
use corsget.Prelude.{
  ◌≡◌, refl, ap, ◌∙◌, ◌⊎◌, inl, inr, false, none, some, List, [], ◌∷◌, Result, ok, err,
  if◌then◌else◌, Bool-cases, Option-cases,
}
use corsget.Text.{Text, text_eq, assoc}
use corsget.Text.Equality.{text_eq_sound, text_eq_refl}
use corsget.Disk.{
  Files, put, drop, Fault, fine, failing, Disk, run_with, run, unchanged, take, remove_file, rename,
  write_file, create_file, not_found,
}
use corsget.Disk.Outcomes.{assoc-put, assoc-drop, run-OnFiles, run-ok, run-nil}

-- Every file is as before, or gone.
abbrev pub Shrinks : Files → Files → Type 0
Shrinks old new = (q : Text) → (assoc q new ≡ assoc q old) ⊎ (assoc q new ≡ none)

pub Shrinks-refl : (files : Files) → Shrinks files files
Shrinks-refl files q = inl refl

pub Shrinks-trans : (a b c : Files) → Shrinks a b → Shrinks b c → Shrinks a c
Shrinks-trans a b c ab bc q = elim (bc q) [
  | inr gone ↦ inr gone
  | inl same ↦ elim (ab q) [ inl same' ↦ inl (same ∙ same') | inr gone ↦ inr (same ∙ gone) ]
]

drop-Shrinks : (path : Text) (files : Files) → Shrinks files (drop path files)
drop-Shrinks path files q = elim (Bool-cases (text_eq q path)) [
  | inl same ↦ inr (rw (assoc-drop, same))
  | inr other ↦ inl (rw (assoc-drop, other))
]

-- The act of removing.
abbrev pub removed : Text → Files → Files × Result Text (Unit {0})
removed path files = elim (assoc path files) [
  | none ↦ (files, err not_found)
  | some _ ↦ (drop path files, ok tt)
]

removed-Shrinks : (path : Text) (files : Files) → Shrinks files (removed path files).0
removed-Shrinks path files = elim (Option-cases (assoc path files)) [
  | inl missing ↦ rw (missing, removed) (Shrinks-refl files)
  | inr (_, found) ↦ rw (found, removed) (drop-Shrinks path files)
]

pub removed-at :
    (path q : Text) (files : Files)
    → assoc q (removed path files).0 ≡ (if text_eq q path then none else assoc q files)
removed-at path q files = elim (Option-cases (assoc path files)) [
  | inl missing ↦ elim (Bool-cases (text_eq q path)) [
    | inl same ↦
        rw (missing, removed, same) (ap (λ p. assoc p files) (text_eq_sound q path same) ∙ missing)
    | inr other ↦ rw (missing, removed, other)
  ]
  | inr (_, found) ↦ rw (found, removed) (assoc-drop q path files)
]

module _ (path : Text) (disk : Disk) where
  pub remove_file-Shrinks : Shrinks disk.files (remove_file path disk).0.files
  unfolding remove_file
  remove_file-Shrinks =
      run-OnFiles (removed path) unchanged (Shrinks disk.files) disk
        (removed-Shrinks path disk.files) (λ n. Shrinks-refl disk.files)

  -- Other files are untouched.
  pub remove_file-other :
      (q : Text)
      → text_eq q path ≡ false
      → assoc q (remove_file path disk).0.files ≡ assoc q disk.files
  unfolding remove_file
  remove_file-other q other =
      run-OnFiles (removed path) unchanged (λ files. assoc q files ≡ assoc q disk.files) disk
        (removed-at path q disk.files ∙ rw other refl) (λ n. refl)

  pub remove_file-nil :
      disk.faults ≡ []
      → ((remove_file path disk).0.faults ≡ [])
        × ((q : Text)
            → assoc q (remove_file path disk).0.files
              ≡ (if text_eq q path then none else assoc q disk.files))
  unfolding remove_file
  remove_file-nil e =
      rw (run-nil (removed path) unchanged disk e) (refl, λ q. removed-at path q disk.files)

  pub create_file-other :
      (q : Text)
      → text_eq q path ≡ false
      → assoc q (create_file path disk).0.files ≡ assoc q disk.files
  unfolding create_file
  create_file-other q other =
      run-OnFiles (λ files. (put path [] files, ok tt)) unchanged
        (λ files. assoc q files ≡ assoc q disk.files) disk
        (assoc-put q path [] disk.files ∙ rw other refl) (λ n. refl)

  pub create_file-ok :
      (create_file path disk).1 ≡ ok tt → assoc path (create_file path disk).0.files ≡ some []
  unfolding create_file
  create_file-ok e =
      let (after, _) = run-ok (λ files. (put path [] files, ok tt)) unchanged disk e in
      rw (after, assoc-put, text_eq_refl)

module _ (path bytes : Text) (disk : Disk) where
  pub write_file-other :
      (q : Text)
      → text_eq q path ≡ false
      → assoc q (write_file path bytes disk).0.files ≡ assoc q disk.files
  unfolding write_file
  write_file-other q other =
      run-OnFiles (λ files. (put path bytes files, ok tt))
        (λ n files. put path (take n bytes) files) (λ files. assoc q files ≡ assoc q disk.files)
        disk (assoc-put q path bytes disk.files ∙ rw other refl)
        (λ n. assoc-put q path (take n bytes) disk.files ∙ rw other refl)

  pub write_file-ok :
      (write_file path bytes disk).1 ≡ ok tt
      → assoc path (write_file path bytes disk).0.files ≡ some bytes
  unfolding write_file
  write_file-ok e =
      let (after, _) =
        run-ok (λ files. (put path bytes files, ok tt)) (λ n files. put path (take n bytes) files)
          disk e in
      rw (after, assoc-put, text_eq_refl)

-- The act of renaming.
abbrev pub renamed : Text → Text → Files → Files × Result Text (Unit {0})
renamed from to files = elim (assoc from files) [
  | none ↦ (files, err not_found)
  | some bytes ↦ (put to bytes (drop from files), ok tt)
]

renamed-err :
    (from to error : Text) (files : Files)
    → (renamed from to files).1 ≡ err error
    → (renamed from to files).0 ≡ files
renamed-err from to error files e = elim (Option-cases (assoc from files)) [
  | inl missing ↦ rw (renamed, missing)
  | inr (_, found) ↦ cc (rw (renamed, found) at e)
]

module _ (from to : Text) (disk : Disk) where
  pub rename-other :
      (q : Text)
      → text_eq q from ≡ false
      → text_eq q to ≡ false
      → assoc q (rename from to disk).0.files ≡ assoc q disk.files
  unfolding rename
  rename-other q apart_from apart_to =
      run-OnFiles (renamed from to) unchanged (λ files. assoc q files ≡ assoc q disk.files) disk
        (elim (Option-cases (assoc from disk.files)) [
          | inl missing ↦ rw (missing, renamed)
          | inr (bytes, found) ↦ rw (found, renamed, assoc-put, apart_to, assoc-drop, apart_from)
        ])
        (λ n. refl)

  pub rename-ok :
      (bytes : Text)
      → assoc from disk.files ≡ some bytes
      → (rename from to disk).1 ≡ ok tt
      → assoc to (rename from to disk).0.files ≡ some bytes
  unfolding rename
  rename-ok bytes found e =
      let (after, _) = run-ok (renamed from to) unchanged disk e in
      rw (after, renamed, found, assoc-put, text_eq_refl)

  -- A rename that fails changes nothing.
  pub rename-err :
      (error : Text)
      → (rename from to disk).1 ≡ err error
      → (rename from to disk).0.files ≡ disk.files
  unfolding rename run run_with
  rename-err error e = by_faults disk.faults e
    where
      by_faults :
          (faults : List Fault)
          → (run_with (renamed from to) unchanged disk.temp_counter disk.files faults).1 ≡ err error
          → (run_with (renamed from to) unchanged disk.temp_counter disk.files faults).0.files
            ≡ disk.files
      by_faults [] e = renamed-err from to error disk.files e
      by_faults (fine ∷ faults) e = renamed-err from to error disk.files e
      by_faults (failing n error' ∷ faults) e = refl

-- The length of a file.
