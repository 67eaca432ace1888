-- ===== src/Cache/Intact.antt =====
-- What no operation of the cache breaks, however many of the operations on the disk fail.
use corsget.Prelude.{ℕ, ◌≡◌, sym, subst, ◌∙◌, ◌⊎◌, inl, inr, ok, OnSome, Bool-cases, Result-cases}
use corsget.Text.{Text, text_eq, assoc}
use corsget.Text.Equality.{text_eq_sound, ne_of_text_eq}
use corsget.Disk.{Files, Disk, rename}
use corsget.Disk.Replacing.{Shrinks, rename-other}
use corsget.Disk.Chains.{bind-OnFiles}
use corsget.External.Codecs.{Codec}
use corsget.Cache.{CacheEntry}
use corsget.Cache.Writing.{meta_path, body_path, temp_body_path}
use corsget.Cache.Files.{persisted, write_metadata, install, commit, evict_files}
use corsget.Cache.Names.{meta-body, meta-temp_body, meta-temp_meta, meta_path-ne}
use corsget.Cache.Commits.{write_metadata-other, write_metadata-ok, write_metadata-err}
use corsget.Cache.Removal.{evict_files-Shrinks}

module _ (C : Codec CacheEntry persisted) (process : ℕ) (root : Text) where
  open C use {to_vec, from_slice}

  -- The whole encoding of some entry.
  abbrev pub IsWritten : Text → Type 0
  IsWritten bytes = (entry : CacheEntry) × (to_vec entry ≡ ok bytes)

  abbrev pub Intact : Files → Type 0
  Intact files = (key : Text) → OnSome IsWritten (assoc (meta_path root key) files)

  -- The metadata of each key is as before, or it is gone or a whole encoding.
  abbrev pub Keeps : Files → Files → Type 0
  Keeps old new =
      (key : Text)
      → (assoc (meta_path root key) new ≡ assoc (meta_path root key) old)
        ⊎ OnSome IsWritten (assoc (meta_path root key) new)

  pub Keeps-Intact : (old new : Files) → Keeps old new → Intact old → Intact new
  Keeps-Intact old new kept intact key = elim (kept key) [
    | inl same ↦ subst (OnSome IsWritten) (sym same) (intact key)
    | inr written ↦ written
  ]

  pub Keeps-trans : (a b c : Files) → Keeps a b → Keeps b c → Keeps a c
  Keeps-trans a b c ab bc key = elim (bc key) [
    | inr written ↦ inr written
    | inl same ↦ elim (ab key) [
      | inl same' ↦ inl (same ∙ same')
      | inr written ↦ inr (subst (OnSome IsWritten) (sym same) written)
    ]
  ]

  pub Shrinks-Keeps : (old new : Files) → Shrinks old new → Keeps old new
  Shrinks-Keeps old new gone key = elim (gone (meta_path root key)) [
    | inl same ↦ inl same
    | inr nothing ↦ inr (rw nothing tt)
  ]

  pub write_metadata-Keeps :
      (entry : CacheEntry) (disk : Disk)
      → Keeps disk.files (write_metadata C process root entry disk).0.files
  write_metadata-Keeps entry disk key = elim (Bool-cases (text_eq key entry.key)) [
    | inr other ↦ inl (
        write_metadata-other C process root entry disk (meta_path root key)
          (meta_path-ne root key entry.key (ne_of_text_eq key entry.key other))
          (λ temp_id. meta-temp_meta root key entry.key process temp_id))
    | inl own ↦
        subst
          (λ k.
            (assoc (meta_path root k) (write_metadata C process root entry disk).0.files
              ≡ assoc (meta_path root k) disk.files)
            ⊎ OnSome IsWritten
                (assoc (meta_path root k) (write_metadata C process root entry disk).0.files))
          (sym (text_eq_sound key entry.key own))
          (elim (Result-cases (write_metadata C process root entry disk).1) [
            | inr (error, bad) ↦ inl (write_metadata-err C process root entry disk error bad)
            | inl (_, good) ↦
                let (bytes, encoded, there) = write_metadata-ok C process root entry disk good in
                inr (rw there (entry, encoded))
          ])
  ]

  module _ (max_size : ℕ) where
    install-Keeps :
        (entry : CacheEntry) (key : Text) (temp_id : ℕ) (disk : Disk)
        → Keeps disk.files
            (install C process root entry (temp_body_path root key process temp_id) disk).0.files
    unfolding install
    install-Keeps entry key temp_id disk =
        let temp = temp_body_path root key process temp_id in
        let body = body_path root entry.key in
        let moved : Keeps disk.files (rename temp body disk).0.files = λ k. inl (
          rename-other temp body disk (meta_path root k) (meta-temp_body root k key process temp_id)
            (meta-body root k entry.key)) in
        let stored = record entry { body_path = body } in
        bind-OnFiles (rename temp body) (λ _. write_metadata C process root stored) disk
          (Keeps disk.files) moved
          (λ _ _.
            Keeps-trans disk.files (rename temp body disk).0.files
              (write_metadata C process root stored (rename temp body disk).0).0.files moved
              (write_metadata-Keeps stored (rename temp body disk).0))

    pub commit-Keeps :
        (entry : CacheEntry) (key : Text) (temp_id : ℕ) (disk : Disk)
        → Keeps disk.files
            (commit C process root max_size entry
              (temp_body_path root key process temp_id)
              disk).0.files
    unfolding commit
    commit-Keeps entry key temp_id disk =
        let temp = temp_body_path root key process temp_id in
        let installed = install C process root entry temp disk in
        let kept = install-Keeps entry key temp_id disk in
        bind-OnFiles (install C process root entry temp)
          (λ _ d. (evict_files C process root max_size d, ok tt)) disk (Keeps disk.files) kept
          (λ _ _.
            Keeps-trans disk.files installed.0.files
              (evict_files C process root max_size installed.0).files kept
              (Shrinks-Keeps installed.0.files
                (evict_files C process root max_size installed.0).files
                (evict_files-Shrinks root C process max_size installed.0)))
