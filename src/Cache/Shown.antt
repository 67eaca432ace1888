-- ===== src/Cache/Shown.antt =====
-- The cache as a map from keys to entries with their bodies, and `Cache::lookup` as its query.
use corsget.Prelude.{
  ℕ, ◌≡◌, refl, ap, ◌∙◌, inl, inr, Bool, true, false, ◌&&◌, Option, none, some, Result, ok, err,
  to_option, ◌==◌, length, OnSome, Result-cases, Bool-cases, Option-cases, [],
}
use corsget.Text.{Text, assoc}
use corsget.Disk.{Files, Disk, read_file, file_len}
use corsget.Disk.Laws.{read_file-ok, file_len-ok, read_file-nil, file_len-nil, quiet}
use corsget.Disk.Outcomes.{read_file-files}
use corsget.External.Codecs.{Codec}
use corsget.Cache.{CachePlan, CacheEntry, cache_version}
use corsget.Cache.Writing.{body_path, meta_path}
use corsget.Cache.Store.{lookup, readable}
use corsget.Cache.Files.{persisted, settle_lookup, lookup_decoded, lookup_files}
use corsget.Cache.Answers.{
  accessed, matched, paired, answered, matched-answered, lookup-none, paired-some,
}

module _ (C : Codec CacheEntry persisted) (process : ℕ) (root : Text) where
  open C use {from_slice}

  abbrev pub decoded : Option Text → Option CacheEntry
  decoded none = none
  decoded (some bytes) = to_option (from_slice bytes)

  -- The entry and the body that the files have for a key.
  unfoldable pub shown : Files → Text → Option (CacheEntry × Text)
  shown files key =
      paired (decoded (assoc (meta_path root key) files)) (assoc (body_path root key) files)

  pub shown-body :
      (files : Files) (key : Text) (p : CacheEntry × Text)
      → shown files key ≡ some p
      → assoc (body_path root key) files ≡ some p.1
  unfolding shown
  shown-body files key p has =
      (paired-some (decoded (assoc (meta_path root key) files)) (assoc (body_path root key) files) p
        has).1

  pub shown-meta :
      (files : Files) (key : Text) (p : CacheEntry × Text)
      → shown files key ≡ some p
      → decoded (assoc (meta_path root key) files) ≡ some p.0
  unfolding shown
  shown-meta files key p has =
      (paired-some (decoded (assoc (meta_path root key) files)) (assoc (body_path root key) files) p
        has).0

  settle_lookup_lem :
      (key : Text) (verdict : Bool × Option CacheEntry) (disk : Disk)
      → (settle_lookup C process root key verdict disk).1 ≡ verdict.1
  unfolding settle_lookup
  settle_lookup_lem key (true, found) disk = refl
  settle_lookup_lem key (false, none) disk = refl
  settle_lookup_lem key (false, some entry) disk = refl

  module _ (plan : CachePlan) (now : ℕ) where
    lookup_decoded-ok :
        (entry : CacheEntry) (disk : Disk)
        → (lookup_decoded C process root plan now (ok entry) disk).1
          ≡ (lookup root plan now
              (readable entry)
              (to_option (file_len (body_path root plan.key) disk).1)).1
    unfolding lookup_decoded
    lookup_decoded-ok entry disk =
        settle_lookup_lem plan.key
          (lookup root plan now (readable entry)
            (to_option (file_len (body_path root plan.key) disk).1))
          (file_len (body_path root plan.key) disk).0

    lookup_decoded-err :
        (e : Text) (disk : Disk) → (lookup_decoded C process root plan now (err e) disk).1 ≡ none
    unfolding lookup_decoded lookup settle_lookup
    lookup_decoded-err e disk = refl

    lookup_decoded-shown :
        (r : Result Text CacheEntry) (disk : Disk)
        → disk.faults ≡ []
        → (lookup_decoded C process root plan now r disk).1
          ≡ answered root plan now
              (paired (to_option r) (assoc (body_path root plan.key) disk.files))
    lookup_decoded-shown (err e) disk none_left = lookup_decoded-err e disk
    lookup_decoded-shown (ok entry) disk none_left =
        rw (lookup_decoded-ok entry disk, file_len-nil (body_path root plan.key) disk none_left)
          (elim (Option-cases (assoc (body_path root plan.key) disk.files)) [
            | inl missing ↦ rw missing (lookup-none root plan now entry)
            | inr (body, found) ↦ rw found (matched-answered root plan now entry body)
          ])

    -- When nothing fails, a lookup answers what the map has.
    pub lookup_files-shown :
        (disk : Disk)
        → disk.faults ≡ []
        → (lookup_files C process root plan now disk).1
          ≡ answered root plan now (shown disk.files plan.key)
    unfolding lookup_files shown
    lookup_files-shown disk none_left =
        let path = meta_path root plan.key in
        let read = read_file-nil path disk none_left in
        elim (Option-cases (assoc path disk.files)) [
          | inl missing ↦ rw (lookup_files, read, missing)
          | inr (bytes, found) ↦
              let behind : (read_file path disk).0 ≡ quiet path disk =
                ap (λ (r : Disk × Result Text Text). r.0) read in
              rw (lookup_files, read, found, behind)
                (lookup_decoded-shown (from_slice bytes) (quiet path disk) refl)
        ]

    -- What a lookup finds.
    abbrev pub IsAnswer : Files → CacheEntry → Type 0
    IsAnswer files found =
        (entry : CacheEntry) × (body : Text) × (shown files plan.key ≡ some (entry, body))
        × (found ≡ accessed root plan now entry)

    matched-IsAnswer :
        (files : Files) (entry : CacheEntry) (body : Text)
        → shown files plan.key ≡ matched entry body
        → OnSome (IsAnswer files) (answered root plan now (matched entry body))
    matched-IsAnswer files entry body same =
        elim (Bool-cases (entry.version == cache_version && length body == entry.body_len)) [
          | inl fits ↦ rw (matched, fits) (entry, body, same ∙ rw (matched, fits) refl, refl)
          | inr not_fits ↦ rw (matched, not_fits) tt
        ]

    -- Whatever fails, a lookup finds nothing or what the map has.
    pub lookup_files-IsAnswer :
        (disk : Disk) → OnSome (IsAnswer disk.files) (lookup_files C process root plan now disk).1
    unfolding lookup_files shown
    lookup_files-IsAnswer disk =
        let (disk', bytes) = read_file (meta_path root plan.key) disk in
        let same = read_file-files (meta_path root plan.key) disk in
        elim (Result-cases bytes) [
          | inr (error, bad) ↦ rw (lookup_files, bad) tt
          | inl (bytes', good) ↦
              let there = read_file-ok (meta_path root plan.key) disk bytes' good in
              elim (Result-cases (from_slice bytes')) [
                | inr (error, corrupted) ↦
                    rw (lookup_files, good, corrupted, lookup_decoded-err error disk') tt
                | inl (entry, parsed) ↦
                    elim (Result-cases (file_len (body_path root plan.key) disk').1) [
                      | inr (error, unknown) ↦
                          rw
                            (
                              lookup_files,
                              good,
                              parsed,
                              lookup_decoded-ok entry disk',
                              unknown,
                              lookup-none root plan now entry,
                            )
                            tt
                      | inl (n, known) ↦
                          let (body, found, long) =
                            file_len-ok (body_path root plan.key) disk' n known in
                          rw
                            (
                              lookup_files,
                              good,
                              parsed,
                              lookup_decoded-ok entry disk',
                              known,
                              ← long,
                              matched-answered root plan now entry body,
                            )
                            (matched-IsAnswer disk.files entry body
                              (rw (there, decoded, parsed, ← same, found) refl))
                    ]
              ]
        ]
