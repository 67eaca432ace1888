-- ===== src/Cache/Installing.antt =====
-- `Cache::commit` as an update of the map that the cache shows.
use corsget.Prelude.{
  ℕ, ◌≡◌, sym, ◌∙◌, inl, inr, false, Option, none, some, ok, err, if◌then◌else◌, length,
  Result-cases, ==_iff,
}
use corsget.Text.{Text, text_eq, assoc}
use corsget.Text.Equality.{ne_of_text_eq}
use corsget.Disk.{Files, Disk, ◌>>=◌, rename}
use corsget.Disk.Replacing.{rename-other, rename-ok}
use corsget.Disk.Chains.{bind-after}
use corsget.External.Codecs.{Codec}
use corsget.Cache.{CacheEntry, cache_version}
use corsget.Cache.Writing.{body_path, meta_path, temp_body_path}
use corsget.Cache.Files.{persisted, write_metadata, install}
use corsget.Cache.Names.{
  meta-body, body-meta, meta-temp_meta, body-temp_meta, meta-temp_body, body-temp_body,
  meta_path-ne, body_path-ne,
}
use corsget.Cache.Commits.{write_metadata-other, write_metadata-ok, write_metadata-err}
use corsget.Cache.Shown.{decoded, shown}
use corsget.Cache.Answers.{matched}

-- A map, changed at one key.
abbrev pub update {ℓ} : {V : Type ℓ} → (Text → Option V) → Text → Option V → Text → Option V
update f key v k = if text_eq k key then v else f k

module _ (C : Codec CacheEntry persisted) (process : ℕ) (root : Text) where
  open C use {to_vec, from_slice, from_slice-to_vec}

  module _ (entry : CacheEntry) (temp_id : ℕ) (disk : Disk) where
    abbrev temp : Text
    temp = temp_body_path root entry.key process temp_id

    abbrev body_at : Text
    body_at = body_path root entry.key

    abbrev placed : CacheEntry
    placed = record entry { body_path = body_at }

    abbrev renamed : Disk
    renamed = (rename temp body_at disk).0

    -- Behind the rename of the body, the metadata is written.
    install-renamed :
        (rename temp body_at disk).1 ≡ ok tt
        → install C process root entry temp disk ≡ write_metadata C process root placed renamed
    unfolding install
    install-renamed good =
        bind-after (rename temp body_at) (λ _. write_metadata C process root placed) disk tt good

    install-failed :
        (error : Text)
        → (rename temp body_at disk).1 ≡ err error
        → install C process root entry temp disk ≡ (renamed, err error)
    unfolding install
    install-failed error bad = rw (install, ◌>>=◌, bad)

    -- The files of the other keys stay.
    install-meta_other :
        (k : Text)
        → text_eq k entry.key ≡ false
        → assoc (meta_path root k) (install C process root entry temp disk).0.files
          ≡ assoc (meta_path root k) disk.files
    install-meta_other k other =
        let before =
          rename-other temp body_at disk (meta_path root k)
            (meta-temp_body root k entry.key process temp_id) (meta-body root k entry.key) in
        elim (Result-cases (rename temp body_at disk).1) [
          | inr (error, bad) ↦ rw (install-failed error bad) before
          | inl (_, good) ↦ rw (install-renamed good) (
              write_metadata-other C process root placed renamed (meta_path root k)
                (meta_path-ne root k entry.key (ne_of_text_eq k entry.key other))
                (meta-temp_meta root k entry.key process)
              ∙ before)
        ]

    install-body_other :
        (k : Text)
        → text_eq k entry.key ≡ false
        → assoc (body_path root k) (install C process root entry temp disk).0.files
          ≡ assoc (body_path root k) disk.files
    install-body_other k other =
        let before =
          rename-other temp body_at disk (body_path root k)
            (body-temp_body root k entry.key process temp_id)
            (body_path-ne root k entry.key (ne_of_text_eq k entry.key other)) in
        elim (Result-cases (rename temp body_at disk).1) [
          | inr (error, bad) ↦ rw (install-failed error bad) before
          | inl (_, good) ↦ rw (install-renamed good) (
              write_metadata-other C process root placed renamed (body_path root k)
                (body-meta root k entry.key) (body-temp_meta root k entry.key process)
              ∙ before)
        ]

    pub install-shown_other :
        (k : Text)
        → text_eq k entry.key ≡ false
        → shown C process root (install C process root entry temp disk).0.files k
          ≡ shown C process root disk.files k
    unfolding shown
    install-shown_other k other = rw (install-meta_other k other, install-body_other k other)

    pub matched-fits :
        (e : CacheEntry) (body : Text)
        → e.version ≡ cache_version
        → e.body_len ≡ length body
        → matched e body ≡ some (e, body)
    matched-fits e body current long =
        let v = (==_iff e.version cache_version).1 current in
        let l = (==_iff (length body) e.body_len).1 (sym long) in rw (matched, v, l)

    -- A success has put the entry and the body there.
    pub install-shown_same :
        (body : Text)
        → assoc temp disk.files ≡ some body
        → entry.version ≡ cache_version
        → entry.body_len ≡ length body
        → (install C process root entry temp disk).1 ≡ ok tt
        → shown C process root (install C process root entry temp disk).0.files entry.key
          ≡ some (persisted entry, body)
    unfolding shown
    install-shown_same body written current long done =
        elim (Result-cases (rename temp body_at disk).1) [
          | inr (error, bad) ↦ cc (rw (install-failed error bad) at done)
          | inl (_, good) ↦
              let wrote = rw (install-renamed good) at done in
              let (bytes, encoded, there) = write_metadata-ok C process root placed renamed wrote in
              let kept =
                write_metadata-other C process root placed renamed body_at
                  (body-meta root entry.key entry.key)
                  (body-temp_meta root entry.key entry.key process)
                ∙ rename-ok temp body_at disk body written good in
              rw
                (install-renamed good, there, decoded, from_slice-to_vec placed bytes encoded, kept)
                (matched-fits (persisted entry) body current long)
        ]

    -- A failure leaves the metadata as it was.
    pub install-meta_err :
        (error : Text)
        → (install C process root entry temp disk).1 ≡ err error
        → assoc (meta_path root entry.key) (install C process root entry temp disk).0.files
          ≡ assoc (meta_path root entry.key) disk.files
    install-meta_err error failed =
        let before =
          rename-other temp body_at disk (meta_path root entry.key)
            (meta-temp_body root entry.key entry.key process temp_id)
            (meta-body root entry.key entry.key) in
        elim (Result-cases (rename temp body_at disk).1) [
          | inr (error', bad) ↦ rw (install-failed error' bad) before
          | inl (_, good) ↦ rw (install-renamed good) (
              write_metadata-err C process root placed renamed error
                (rw (install-renamed good) at failed)
              ∙ before)
        ]

  pub shown-none :
      (files : Files) (key : Text)
      → assoc (meta_path root key) files ≡ none
      → shown C process root files key ≡ none
  unfolding shown
  shown-none files key missing = rw (missing, decoded)
