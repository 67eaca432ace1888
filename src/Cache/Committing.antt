-- ===== src/Cache/Committing.antt =====
-- A commit, with the eviction at its end, against the map that the cache shows.
use corsget.Prelude.{
  ℕ, ◌≡◌, refl, sym, ap, ◌∙◌, subst, ◌⊎◌, inl, inr, true, Option, none, some, Result, ok, err,
  length, Result-cases, Bool-cases, OnSome, OnSome-mono, OnSome-eq,
}
use corsget.Text.{Text, text_eq, assoc}
use corsget.Text.Equality.{text_eq_sound, text_eq_refl}
use corsget.Disk.{Files, Disk, ◌>>=◌}
use corsget.Disk.Replacing.{Shrinks}
use corsget.Disk.Chains.{bind-ok}
use corsget.External.Codecs.{Codec}
use corsget.Cache.{CachePlan, CacheEntry, cache_version}
use corsget.Cache.Writing.{body_path, meta_path, temp_body_path}
use corsget.Cache.Files.{persisted, install, commit, lookup_files, evict_files}
use corsget.Cache.Removal.{evict_files-Shrinks}
use corsget.Cache.Shown.{decoded, shown, IsAnswer, lookup_files-IsAnswer, shown-body}
use corsget.Cache.Answers.{accessed, paired}
use corsget.Cache.Installing.{
  update, matched-fits, install-shown_other, install-shown_same, install-meta_err, shown-none,
}

module _ (C : Codec CacheEntry persisted) (process : ℕ) (root : Text) where
  open C use {from_slice}

  -- Files that go take entries from the map, and change none.
  pub shown-Shrinks :
      (a b : Files)
      → Shrinks a b
      → (k : Text)
      → (shown C process root b k ≡ shown C process root a k) ⊎ (shown C process root b k ≡ none)
  unfolding shown
  shown-Shrinks a b gone k = elim (gone (meta_path root k)) [
    | inr no_meta ↦ inr (rw no_meta refl)
    | inl same_meta ↦ elim (gone (body_path root k)) [
      | inl same_body ↦ inl (rw (same_meta, same_body))
      | inr no_body ↦
          inr (rw no_body (no_pair (decoded C process root (assoc (meta_path root k) b))))
    ]
  ]
    where
      no_pair : (o : Option CacheEntry) → paired o none ≡ none
      no_pair none = refl
      no_pair (some e) = refl

  module _ (max_size : ℕ) (entry : CacheEntry) (temp_id : ℕ) (disk : Disk) where
    abbrev temp : Text
    temp = temp_body_path root entry.key process temp_id

    abbrev after : Disk
    after = (commit C process root max_size entry temp disk).0

    commit-ok :
        (commit C process root max_size entry temp disk).1 ≡ ok tt
        → ((install C process root entry temp disk).1 ≡ ok tt)
          × (after ≡ evict_files C process root max_size (install C process root entry temp disk).0)
    unfolding commit
    commit-ok done =
        let (_, installed, same) =
          bind-ok (install C process root entry temp)
            (λ _ disk'. (evict_files C process root max_size disk', ok tt)) disk tt done in
        (installed, ap (λ (r : Disk × Result Text (Unit {0})). r.0) same)

    commit-bad :
        (error : Text)
        → (install C process root entry temp disk).1 ≡ err error
        → commit C process root max_size entry temp disk
          ≡ ((install C process root entry temp disk).0, err error)
    unfolding commit
    commit-bad error bad = rw (commit, ◌>>=◌, bad)

    commit-good :
        (install C process root entry temp disk).1 ≡ ok tt
        → (commit C process root max_size entry temp disk).1 ≡ ok tt
    unfolding commit
    commit-good good = rw (commit, ◌>>=◌, good)

    commit-err :
        (error : Text)
        → (commit C process root max_size entry temp disk).1 ≡ err error
        → ((install C process root entry temp disk).1 ≡ err error)
          × (after ≡ (install C process root entry temp disk).0)
    commit-err error e = elim (Result-cases (install C process root entry temp disk).1) [
      | inl (_, good) ↦ cc (sym (commit-good good) ∙ e)
      | inr (error', bad) ↦
          let whole = commit-bad error' bad in
          (
            bad ∙ sym (ap (λ (r : Disk × Result Text (Unit {0})). r.1) whole) ∙ e,
            ap (λ (r : Disk × Result Text (Unit {0})). r.0) whole,
          )
    ]

    -- A failure leaves the metadata as it was.
    pub commit-meta_err :
        (error : Text)
        → (commit C process root max_size entry temp disk).1 ≡ err error
        → assoc (meta_path root entry.key) after.files ≡ assoc (meta_path root entry.key) disk.files
    commit-meta_err error failed =
        let (bad, stopped) = commit-err error failed in
        ap (λ (d : Disk). assoc (meta_path root entry.key) d.files) stopped
        ∙ install-meta_err C process root entry temp_id disk error bad

    -- A commit that succeeds, of a body in its temporary file, updates the map at the entry's key, with
    -- the entry and the body; the eviction at its end takes keys out of the map, and changes none. (The
    -- entry has the cache's version and the length of the body.)
    pub commit-update :
        (body : Text)
        → assoc temp disk.files ≡ some body
        → entry.version ≡ cache_version
        → entry.body_len ≡ length body
        → (commit C process root max_size entry temp disk).1 ≡ ok tt
        → (k : Text)
        → (shown C process root after.files k
            ≡ update (shown C process root disk.files) entry.key (some (persisted entry, body)) k)
          ⊎ (shown C process root after.files k ≡ none)
    commit-update body written current long done k =
        let (installed, evicted) = commit-ok done in
        let between = (install C process root entry temp disk).0 in
        let expected =
          update (shown C process root disk.files) entry.key (some (persisted entry, body)) k in
        let installed_k : shown C process root between.files k ≡ expected =
          elim (Bool-cases (text_eq k entry.key)) [
            | inl here ↦ rw here (
                ap (shown C process root between.files) (text_eq_sound k entry.key here)
                ∙ install-shown_same C process root entry temp_id disk body written current long
                    installed)
            | inr there ↦ rw there (install-shown_other C process root entry temp_id disk k there)
          ] in
        elim (shown-Shrinks between.files after.files
          (subst (λ (d : Disk). Shrinks between.files d.files) (sym evicted)
            (evict_files-Shrinks root C process max_size between))
          k) [ inl same ↦ inl (same ∙ installed_k) | inr gone ↦ inr gone ]

    -- A commit that fails, for a key without metadata, leaves the map as it was: whichever of its
    -- operations fails, the body that it has put there is never served.
    pub commit-failed :
        (error : Text)
        → assoc (meta_path root entry.key) disk.files ≡ none
        → (commit C process root max_size entry temp disk).1 ≡ err error
        → (k : Text) → shown C process root after.files k ≡ shown C process root disk.files k
    commit-failed error fresh failed k =
        let (bad, stopped) = commit-err error failed in
        let between = (install C process root entry temp disk).0 in
        ap (λ (d : Disk). shown C process root d.files k) stopped
        ∙ elim (Bool-cases (text_eq k entry.key)) [
          | inr there ↦ install-shown_other C process root entry temp_id disk k there
          | inl here ↦ rw (text_eq_sound k entry.key here) (
              shown-none C process root between.files entry.key
                (install-meta_err C process root entry temp_id disk error bad ∙ fresh)
              ∙ sym (shown-none C process root disk.files entry.key fresh))
        ]

    pub commit-stale :
        (error bytes body : Text) (old : CacheEntry)
        → (commit C process root max_size entry temp disk).1 ≡ err error
        → assoc (body_path root entry.key) after.files ≡ some body
        → assoc (meta_path root entry.key) disk.files ≡ some bytes
        → from_slice bytes ≡ ok old
        → old.version ≡ cache_version
        → old.body_len ≡ length body
        → shown C process root after.files entry.key ≡ some (old, body)
    unfolding shown
    commit-stale error bytes body old failed replaced older parsed current long =
        let meta = commit-meta_err error failed ∙ older in
        rw (meta, decoded, parsed, replaced)
          (matched-fits C process root entry temp_id disk old body current long)

    -- What a commit has stored comes back: a lookup of its key finds nothing, or the entry with its
    -- body; whatever was removed in between, and whatever fails in the lookup.
    pub commit-lookup :
        (body : Text) (plan : CachePlan) (now : ℕ) (later : Disk)
        → assoc temp disk.files ≡ some body
        → entry.version ≡ cache_version
        → entry.body_len ≡ length body
        → (commit C process root max_size entry temp disk).1 ≡ ok tt
        → Shrinks after.files later.files
        → plan.key ≡ entry.key
        → OnSome
            (λ found.
              (found ≡ accessed root plan now entry)
              × (assoc (body_path root plan.key) later.files ≡ some body))
            (lookup_files C process root plan now later).1
    commit-lookup body plan now later written current long done gone same_key =
        OnSome-mono (IsAnswer C process root plan now later.files) _ _
          (λ found (entry', body', has, is).
            let stored = is_stored (entry', body') has in
            (
              is ∙ ap (λ (p : CacheEntry × Text). accessed root plan now p.0) stored ∙ refl,
              shown-body C process root later.files plan.key (entry', body') has
                  ∙ ap (λ (p : CacheEntry × Text). some p.1) stored,
            ))
          (lookup_files-IsAnswer C process root plan now later)
      where
        is_stored :
            (p : CacheEntry × Text)
            → shown C process root later.files plan.key ≡ some p
            → p ≡ (persisted entry, body)
        is_stored p has = elim (shown-Shrinks after.files later.files gone plan.key) [
          | inr none_left ↦ cc (sym none_left ∙ has)
          | inl as_after ↦ elim (commit-update body written current long done plan.key) [
            | inr evicted ↦ cc (sym evicted ∙ sym as_after ∙ has)
            | inl updated ↦
                let here : text_eq plan.key entry.key ≡ true =
                  rw (← same_key) (text_eq_refl plan.key) in
                let e = rw here at updated in
                OnSome-eq (λ q. p ≡ q) (some p) refl (sym has ∙ as_after ∙ e)
          ]
        ]
