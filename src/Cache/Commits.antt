-- ===== src/Cache/Commits.antt =====
-- What writing an entry leaves on the disk, whichever operation fails.
use corsget.Prelude.{
  ℕ, suc, ◌≡◌, sym, ap, ◌∙◌, inl, inr, false, some, Result, ok, err, Result-cases,
}
use corsget.Text.{Text, text_eq, assoc}
use corsget.Disk.{Disk, Io, ◌>>=◌, ◌>>◌, fetch_add, write_file, rename}
use corsget.Disk.Chains.{bind-OnFiles, bind-ok, bind-after}
use corsget.Disk.Replacing.{write_file-other, write_file-ok, rename-other, rename-ok, rename-err}
use corsget.External.Codecs.{Codec}
use corsget.Cache.{CacheEntry}
use corsget.Cache.Writing.{meta_path}
use corsget.Cache.Files.{persisted, temp_meta_path, write_metadata}
use corsget.Cache.Names.{meta-temp_meta}

module _ (C : Codec CacheEntry persisted) (process : ℕ) (root : Text) where
  open C use {to_vec}

  -- No name of a temporary metadata file of a key.
  abbrev pub IsNoTemp : Text → Text → Type 0
  IsNoTemp key q = (temp_id : ℕ) → text_eq q (temp_meta_path root key process temp_id) ≡ false

  module _ (entry : CacheEntry) (disk : Disk) where
    abbrev temp : Text
    temp = temp_meta_path root entry.key process disk.temp_counter

    -- Behind the encoding, the two operations on files.
    abbrev replace_metadata : Text → Io (Unit {0})
    replace_metadata bytes = write_file temp bytes >> rename temp (meta_path root entry.key)

    abbrev counted : Disk
    counted = record disk { temp_counter = suc disk.temp_counter }

    write_metadata-good :
        (bytes : Text)
        → to_vec entry ≡ ok bytes
        → write_metadata C process root entry disk ≡ replace_metadata bytes counted
    unfolding write_metadata fetch_add
    write_metadata-good bytes good = rw (good, write_metadata)

    write_metadata-bad :
        (error : Text)
        → to_vec entry ≡ err error
        → write_metadata C process root entry disk ≡ (counted, err error)
    unfolding write_metadata fetch_add
    write_metadata-bad error bad = rw (bad, write_metadata)

    replace-other :
        (bytes q : Text)
        → text_eq q (meta_path root entry.key) ≡ false
        → IsNoTemp entry.key q
        → assoc q (replace_metadata bytes counted).0.files ≡ assoc q disk.files
    replace-other bytes q no_meta no_temp =
        let before = write_file-other temp bytes counted q (no_temp disk.temp_counter) in
        bind-OnFiles (write_file temp bytes) (λ _. rename temp (meta_path root entry.key)) counted
          (λ files. assoc q files ≡ assoc q disk.files) before
          (λ _ _.
            rename-other temp (meta_path root entry.key) (write_file temp bytes counted).0 q
              (no_temp disk.temp_counter) no_meta
            ∙ before)

    -- Only the metadata file and a temporary one change.
    pub write_metadata-other :
        (q : Text)
        → text_eq q (meta_path root entry.key) ≡ false
        → IsNoTemp entry.key q
        → assoc q (write_metadata C process root entry disk).0.files ≡ assoc q disk.files
    write_metadata-other q no_meta no_temp = elim (Result-cases (to_vec entry)) [
      | inr (e, bad) ↦ rw (write_metadata-bad e bad)
      | inl (bytes, good) ↦
          rw (write_metadata-good bytes good) (replace-other bytes q no_meta no_temp)
    ]

    -- A success has put the whole encoding there.
    pub write_metadata-ok :
        (write_metadata C process root entry disk).1 ≡ ok tt
        → (bytes : Text) × (to_vec entry ≡ ok bytes)
          × (assoc (meta_path root entry.key) (write_metadata C process root entry disk).0.files
              ≡ some bytes)
    write_metadata-ok e = elim (Result-cases (to_vec entry)) [
      | inr (error, bad) ↦ cc (rw (write_metadata-bad error bad) at e)
      | inl (bytes, good) ↦
          let (_, wrote, same) =
            bind-ok (write_file temp bytes) (λ _. rename temp (meta_path root entry.key)) counted tt
              (rw (write_metadata-good bytes good) at e) in
          (
            bytes,
            good,
            rw (write_metadata-good bytes good, same)
                (rename-ok temp (meta_path root entry.key) (write_file temp bytes counted).0 bytes
                  (write_file-ok temp bytes counted wrote)
                  (ap (λ (r : Disk × Result Text (Unit {0})). r.1) (sym same)
                    ∙ (rw (write_metadata-good bytes good) at e))),
          )
    ]

    -- A failure has left the metadata file as it was.
    pub write_metadata-err :
        (error : Text)
        → (write_metadata C process root entry disk).1 ≡ err error
        → assoc (meta_path root entry.key) (write_metadata C process root entry disk).0.files
          ≡ assoc (meta_path root entry.key) disk.files
    write_metadata-err error e = elim (Result-cases (to_vec entry)) [
      | inr (error', bad) ↦ rw (write_metadata-bad error' bad)
      | inl (bytes, good) ↦
          let before =
            write_file-other temp bytes counted (meta_path root entry.key)
              (meta-temp_meta root entry.key entry.key process disk.temp_counter) in
          rw (write_metadata-good bytes good)
            (elim (Result-cases (write_file temp bytes counted).1) [
              | inr (error', bad) ↦ rw (bad, ◌>>=◌) before
              | inl (_, wrote) ↦
                  rw (wrote, ◌>>=◌)
                    (ap (assoc (meta_path root entry.key)) (
                        rename-err temp (meta_path root entry.key) (write_file temp bytes counted).0
                          error
                          (ap (λ (r : Disk × Result Text (Unit {0})). r.1)
                              (sym (
                                bind-after (write_file temp bytes)
                                  (λ _. rename temp (meta_path root entry.key)) counted tt wrote))
                            ∙ (rw (write_metadata-good bytes good) at e)))
                      ∙ before)
            ])
    ]
