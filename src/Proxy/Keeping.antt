-- ===== src/Proxy/Keeping.antt =====
-- What the stream of a response leaves in the cache, on the disk.
use corsget.Prelude.{
  ℕ, ◌+◌, ◌≤◌, ◌≡◌, refl, sym, subst, ap, ◌∙◌, ◌⊎◌, inl, inr, Option, none, some, List, [], ◌∷◌,
  ◌++◌, append-nil, append_assoc, Result, ok, err, arith, All, length, length-append, Result-cases,
  OnSome, OnSome-mono, OnSome-eq, OnSome-intro, u64_max,
}
use corsget.Text.{Text, assoc}
use corsget.Text.Equality.{text_eq_refl}
use corsget.Disk.{Disk, ◌>>=◌, append_file, remove_file, flush}
use corsget.Disk.Laws.{append_file-other, append_file-ok, flush-files}
use corsget.Disk.Replacing.{remove_file-other}
use corsget.External.Codecs.{Codec}
use corsget.Limit.{MeteredError}
use corsget.Cache.{CacheEntry, cache_version}
use corsget.Cache.Writing.{CacheWriter, meta_path, temp_body_path, finished}
use corsget.Cache.Files.{persisted, discard, finish, commit}
use corsget.Cache.Names.{meta-temp_body}
use corsget.Cache.Shown.{decoded, shown, shown-meta}
use corsget.Cache.Committing.{commit-update, commit-meta_err}
use corsget.Proxy.Tee.{tee}
use corsget.Proxy.Chunks.{writing, write_files-ok, write_files-err}
use corsget.Proxy.Storing.{joined, IsChunk}
use corsget.Proxy.Filing.{discard_files, write_files, finish_files, tee_files}

module _ (C : Codec CacheEntry persisted) (process : ℕ) (root : Text) (max_size : ℕ) where
  -- The client's stream is that of `tee`, whatever happens on the disk.
  pub tee_files-tee :
      (outcomes : ℕ → Result (Text × Text) (Unit {0})) (writer writer' : Option CacheWriter)
      (items : List (Result MeteredError Text)) (disk : Disk)
      → (tee_files C process writer items disk).0 ≡ (tee outcomes writer' items).0
  unfolding tee_files tee
  tee_files-tee outcomes writer writer' [] disk = refl
  tee_files-tee outcomes writer writer' (err e ∷ items) disk = refl
  tee_files-tee outcomes writer writer' (ok bytes ∷ items) disk =
      ap (λ rest. ok bytes ∷ rest)
        (tee_files-tee outcomes (write_files bytes writer disk).1 _ items
          (write_files bytes writer disk).0)

  -- A stream without a writer leaves the disk alone.
  pub tee_files-none :
      (items : List (Result MeteredError Text)) (disk : Disk)
      → (tee_files C process none items disk).1 ≡ disk
  unfolding tee_files write_files finish_files discard_files
  tee_files-none [] disk = refl
  tee_files-none (err e ∷ items) disk = refl
  tee_files-none (ok bytes ∷ items) disk = tee_files-none items disk

  module _ (entry : CacheEntry) (temp_id : ℕ) (current : entry.version ≡ cache_version) where
    abbrev temp : Text
    temp = temp_body_path root entry.key process temp_id

    abbrev meta_at : Text
    meta_at = meta_path root entry.key

    -- The writer that has written these bytes.
    abbrev pub writer_with : Text → CacheWriter
    writer_with file = writing root max_size entry temp file

    -- The entry with its body: the whole of the stream, or an entry from before.
    abbrev pub IsKept :
        Text → List (Result Text Text) → Option CacheEntry → CacheEntry × Text → Type 0
    IsKept file client old (e, body) =
        (All IsChunk client
          × (body ≡ file ++ joined client)
          × (e ≡ persisted (record entry { body_len = length body })))
        ⊎ (old ≡ some e)

    abbrev pub AllKept : Text → List (Result Text Text) → Option CacheEntry → Disk → Type 0
    AllKept file client old disk =
        OnSome (IsKept file client old) (shown C process root disk.files entry.key)

    abbrev pub old_at : Disk → Option CacheEntry
    old_at disk = decoded C process root (assoc meta_at disk.files)

    shown-old :
        (file : Text) (client : List (Result Text Text)) (old : Option CacheEntry) (disk : Disk)
        → old_at disk ≡ old
        → AllKept file client old disk
    shown-old file client old disk same =
        OnSome-intro (IsKept file client old) (shown C process root disk.files entry.key)
          λ p has. inr (sym same ∙ shown-meta C process root disk.files entry.key p has)

    finish_files-err :
        (file : Text) (disk : Disk) (error : Text)
        → (flush disk).1 ≡ err error
        → finish_files C process (some (writer_with file)) disk ≡ (flush disk).0
    unfolding finish_files finish
    finish_files-err file disk error bad = rw (bad, finish_files, finish, ◌>>=◌)

    abbrev whole : Text → CacheEntry
    whole file = record entry { body_len = length file }

    finish_files-ok :
        (file : Text) (disk : Disk)
        → (flush disk).1 ≡ ok tt
        → finish_files C process (some (writer_with file)) disk
          ≡ (commit C process root max_size (whole file) temp (flush disk).0).0
    unfolding finish_files finish finished
    finish_files-ok file disk good = rw (good, finish_files, finish, ◌>>=◌)

    -- A commit keeps the whole file, or the entry from before.
    commit-AllKept :
        (file : Text) (disk : Disk)
        → assoc temp disk.files ≡ some file
        → AllKept file [] (old_at disk) (commit C process root max_size (whole file) temp disk).0
    commit-AllKept file disk written =
        let after = (commit C process root max_size (whole file) temp disk).0 in
        elim (Result-cases (commit C process root max_size (whole file) temp disk).1) [
          | inr (error, bad) ↦ shown-old file [] (old_at disk) after (
              ap (decoded C process root)
                (commit-meta_err C process root max_size (whole file) temp_id disk error bad))
          | inl (_, done) ↦ OnSome-intro _ _ λ p has.
              elim (commit-update C process root max_size (whole file) temp_id disk file written
                current refl done entry.key) [
                  | inr gone ↦ cc (sym gone ∙ has)
                  | inl there ↦
                      let put : shown C process root after.files entry.key
                          ≡ some (persisted (whole file), file) =
                        rw (text_eq_refl entry.key) at there in
                      subst (IsKept file [] (old_at disk))
                        (OnSome-eq (λ q. (persisted (whole file), file) ≡ q)
                          (some (persisted (whole file), file)) refl (sym put ∙ has))
                        (inl (tt, sym (append-nil file), refl))
                ]
        ]

    finish-AllKept :
        (file : Text) (disk : Disk)
        → assoc temp disk.files ≡ some file
        → AllKept file [] (old_at disk) (finish_files C process (some (writer_with file)) disk)
    finish-AllKept file disk written =
        let flushed = flush-files disk in
        elim (Result-cases (flush disk).1) [
          | inr (error, bad) ↦ rw (finish_files-err file disk error bad) (
              shown-old file [] (old_at disk) (flush disk).0
                (ap (λ files. decoded C process root (assoc meta_at files)) flushed))
          | inl (_, good) ↦ rw (finish_files-ok file disk good) (
              subst
                (λ files.
                  AllKept file [] (decoded C process root (assoc meta_at files))
                    (commit C process root max_size (whole file) temp (flush disk).0).0)
                flushed (commit-AllKept file (flush disk).0 (ap (assoc temp) flushed ∙ written)))
        ]

    -- Neither a chunk nor the end of the writer touches the metadata.
    append-old : (bytes : Text) (disk : Disk) → old_at (append_file temp bytes disk).0 ≡ old_at disk
    append-old bytes disk = ap (decoded C process root) (
        append_file-other temp bytes disk meta_at
          (meta-temp_body root entry.key entry.key process temp_id))

    remove-old : (disk : Disk) → old_at (remove_file temp disk).0 ≡ old_at disk
    remove-old disk = ap (decoded C process root) (
        remove_file-other temp disk meta_at
          (meta-temp_body root entry.key entry.key process temp_id))

    IsKept-cons :
        (file bytes : Text) (client : List (Result Text Text)) (old : Option CacheEntry)
        (p : CacheEntry × Text)
        → IsKept (file ++ bytes) client old p
        → IsKept file (ok bytes ∷ client) old p
    IsKept-cons file bytes client old (e, body) (inl (chunks, long, is)) =
        inl (((bytes, refl), chunks), long ∙ append_assoc file bytes (joined client), is)
    IsKept-cons file bytes client old (e, body) (inr same) = inr same

    abbrev pub client_of :
        Option CacheWriter → List (Result MeteredError Text) → Disk → List (Result Text Text)
    client_of writer items disk = (tee_files C process writer items disk).0

    -- What is kept behind a stream that goes on with this disk and this writer.
    abbrev KeptBehind :
        Text
        → Text
        → List (Result MeteredError Text)
        → Option CacheEntry
        → Disk × Option CacheWriter
        → Type 0
    KeptBehind file bytes items old (disk, writer) =
        AllKept file (ok bytes ∷ client_of writer items disk) old
          (tee_files C process writer items disk).1

    abbrev IsSmall :
        Text → Text → List (Result MeteredError Text) → Disk × Option CacheWriter → Type 0
    IsSmall file bytes items (disk, writer) =
        length file + length (bytes ++ joined (client_of writer items disk)) ≤ u64_max

    stopped-KeptBehind :
        (file bytes : Text) (items : List (Result MeteredError Text)) (disk : Disk)
        → KeptBehind file bytes items
            (old_at disk)
            ((remove_file temp (append_file temp bytes disk).0).0, none)
    stopped-KeptBehind file bytes items disk =
        let disk' = (remove_file temp (append_file temp bytes disk).0).0 in
        shown-old file (ok bytes ∷ client_of none items disk') (old_at disk)
          (tee_files C process none items disk').1
          (ap old_at (tee_files-none items disk')
            ∙ remove-old (append_file temp bytes disk).0
            ∙ append-old bytes disk)

    pub tee-AllKept :
        (file : Text) (items : List (Result MeteredError Text)) (disk : Disk)
        → assoc temp disk.files ≡ some file
        → length file + length (joined (client_of (some (writer_with file)) items disk)) ≤ u64_max
        → AllKept file
            (client_of (some (writer_with file)) items disk)
            (old_at disk)
            (tee_files C process (some (writer_with file)) items disk).1
    unfolding tee_files discard_files discard
    tee-AllKept file [] disk written small = finish-AllKept file disk written
    tee-AllKept file (err e ∷ items) disk written small =
        shown-old file (client_of (some (writer_with file)) (err e ∷ items) disk) (old_at disk)
          (remove_file temp disk).0 (remove-old disk)
    tee-AllKept file (ok bytes ∷ items) disk written small =
        let step = write_files bytes (some (writer_with file)) disk in
        let disk' = (append_file temp bytes disk).0 in
        let more = length-append bytes (joined (client_of step.1 items step.0)) in
        elim (Result-cases (append_file temp bytes disk).1) [
          | inr (error, bad) ↦
              subst (KeptBehind file bytes items (old_at disk))
                (sym (write_files-err root max_size entry temp file bytes disk error bad))
                (stopped-KeptBehind file bytes items disk)
          | inl (_, good) ↦
              let goes_on =
                write_files-ok root max_size entry temp file bytes disk good
                  (omega (arith, more, small)) in
              let small' : IsSmall file bytes items (disk', some (writer_with (file ++ bytes))) =
                subst (IsSmall file bytes items) goes_on small in
              let more' =
                length-append bytes
                  (joined (client_of (some (writer_with (file ++ bytes))) items disk')) in
              let later =
                tee-AllKept (file ++ bytes) items disk'
                  (append_file-ok temp bytes disk file written good)
                  (omega (arith, small', more', length-append file bytes)) in
              subst (KeptBehind file bytes items (old_at disk)) (sym goes_on) (
                OnSome-mono _ _ (shown C process root _ entry.key)
                  (λ p kept.
                    IsKept-cons file bytes
                      (client_of (some (writer_with (file ++ bytes))) items disk') (old_at disk) p
                      (subst
                        (λ old.
                          IsKept (file ++ bytes)
                            (client_of (some (writer_with (file ++ bytes))) items disk') old p)
                        (append-old bytes disk) kept))
                  later)
        ]
