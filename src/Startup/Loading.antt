-- ===== src/Startup/Loading.antt =====
-- What the start does to the file of the configuration.
use corsget.Prelude.{
  ℕ, ◌≡◌, refl, ◌∙◌, inl, inr, Bool, true, false, Option, none, some, [], Result, ok, err, ok_or,
  map_err, if◌then◌else◌, Option-cases, Result-cases,
}
use corsget.Text.{Text, assoc}
use corsget.Text.Equality.{text_eq_refl}
use corsget.Disk.{Files, put, Disk, run, run_with, read_file, write_file, file_len, not_found}
use corsget.Disk.Outcomes.{assoc-put, read_file-files}
use corsget.Config.{Config}
use corsget.Config.Loading.{ConfigError, io, load}
use corsget.Startup.ConfigFile.{
  LoadError, failed_to_load, bad_default, load_file, exists, create_default, load_or_create,
}

-- A disk on which nothing is going to fail.
abbrev pub at_rest : Files → ℕ → Disk
at_rest files counter = record { files = files; faults = []; temp_counter = counter }

module _ (from_reader_strict : Text → Result Text Config) (template : Text) where
  -- A path that is given, by an argument or the variable, is never written to, whatever fails.
  pub load_or_create-given :
      (path : Text) (disk : Disk)
      → (load_or_create from_reader_strict template false path disk).0.files ≡ disk.files
  unfolding load_or_create load_file
  load_or_create-given path disk =
      elim (Result-cases (load_file from_reader_strict template path disk).1) [
        | inl (config, good) ↦ rw (good, load_or_create) (read_file-files path disk)
        | inr (e, bad) ↦ rw (bad, load_or_create) (read_file-files path disk)
      ]

  -- What the bytes of a file are loaded as.
  abbrev pub contents : Text → Text → Result ConfigError Config
  contents path bytes = load (λ _. ok bytes) from_reader_strict path

  -- The outcome where nothing fails, by what is at the path.
  abbrev pub expected : Bool → Text → Files → ℕ → Option Text → Disk × Result LoadError Config
  expected implicit path files counter (some bytes) =
      (at_rest files counter, map_err (failed_to_load path) (contents path bytes))
  expected implicit path files counter none =
      if implicit
      then (at_rest (put path template files) counter, map_err bad_default (contents path template))
      else (at_rest files counter, err (failed_to_load path (io not_found)))

  load_file-at_rest :
      (path : Text) (files : Files) (counter : ℕ)
      → load_file from_reader_strict template path (at_rest files counter) ≡ (
        at_rest files counter,
        load (λ _. ok_or not_found (assoc path files)) from_reader_strict path,
      )
  unfolding load_file read_file run run_with
  load_file-at_rest path files counter = refl

  exists-there :
      (path : Text) (files : Files) (counter : ℕ) {bytes : Text}
      → assoc path files ≡ some bytes
      → exists from_reader_strict template path (at_rest files counter)
        ≡ (at_rest files counter, true)
  unfolding exists file_len run run_with
  exists-there path files counter found = rw (exists, found) refl

  exists-missing :
      (path : Text) (files : Files) (counter : ℕ)
      → assoc path files ≡ none
      → exists from_reader_strict template path (at_rest files counter)
        ≡ (at_rest files counter, false)
  unfolding exists file_len run run_with
  exists-missing path files counter missing = rw (exists, missing) refl

  create_default-at_rest :
      (path : Text) (files : Files) (counter : ℕ)
      → create_default from_reader_strict template path (at_rest files counter)
        ≡ (at_rest (put path template files) counter, map_err bad_default (contents path template))
  unfolding create_default write_file run run_with
  create_default-at_rest path files counter =
      let there : assoc path (put path template files) ≡ some template =
        assoc-put path path template files ∙ rw (text_eq_refl path) refl in
      rw (load_file-at_rest path (put path template files) counter, there) refl

  -- Where nothing fails, a file that is there is loaded and kept, be it valid or not. A missing one is
  -- created from the template, and loaded, if the path is the default; otherwise this is an error.
  pub load_or_create_lem :
      (implicit : Bool) (path : Text) (files : Files) (counter : ℕ)
      → load_or_create from_reader_strict template implicit path (at_rest files counter)
        ≡ expected implicit path files counter (assoc path files)
  unfolding load_or_create load load_file read_file run run_with
  load_or_create_lem true path files counter = elim (Option-cases (assoc path files)) [
    | inl missing ↦
        rw (load_or_create, load_file, missing, exists-missing path files counter missing)
          (create_default-at_rest path files counter)
    | inr (bytes, found) ↦ elim (Result-cases (contents path bytes)) [
      | inl (config, good) ↦ rw (load_or_create, load_file, found, good) refl
      | inr (e, bad) ↦
          rw (load_or_create, load_file, found, bad, exists-there path files counter found) refl
    ]
  ]
  load_or_create_lem false path files counter = elim (Option-cases (assoc path files)) [
    | inl missing ↦ rw (load_or_create, load_file, missing) refl
    | inr (bytes, found) ↦ elim (Result-cases (contents path bytes)) [
      | inl (config, good) ↦ rw (load_or_create, load_file, found, good) refl
      | inr (e, bad) ↦ rw (load_or_create, load_file, found, bad) refl
    ]
  ]
