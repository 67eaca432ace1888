-- ===== src/Cache/Reachable.antt =====
-- The operations of the cache as steps, in any order, on a disk on which any of them may fail.
use corsget.Prelude.{
  ℕ, suc, ◌≡◌, refl, sym, subst, ap, inl, inr, Bool, true, false, Option, none, some, [], Result,
  ok, err, OnSome, OnSome-mono, Option-cases, Result-cases, to_option,
}
use corsget.Text.{Text, assoc}
use corsget.Disk.{Files, Disk, read_dir, read_file, file_len, flush}
use corsget.Disk.Laws.{append_file-other, flush-files}
use corsget.Disk.Replacing.{
  Shrinks, create_file-other, remove_file-Shrinks, Shrinks-trans, Shrinks-refl,
}
use corsget.Disk.Outcomes.{read_file-files, file_len-files, read_dir-files}
use corsget.External.Http.{Http}
use corsget.External.Codecs.{Codec}
use corsget.Cache.{CacheEntry, CachePlan}
use corsget.Cache.Store.{lookup, corrupt, readable, refresh}
use corsget.Cache.Writing.{CacheWriter, meta_path, body_path, temp_body_path, admit}
use corsget.Cache.Files.{
  persisted, commit, begin_write, write_body, discard, settle_lookup, lookup_decoded, lookup_files,
  refresh_files,
}
use corsget.Cache.Names.{meta-temp_body}
use corsget.Cache.Cleanup.{Cleaning, default_summary, clean_rest, clean_names, cleanup_startup}
use corsget.Cache.Restart.{clean_rest-Cleans, clean_names-Cleans}
use corsget.Cache.Intact.{
  IsWritten, Intact, Keeps, Keeps-Intact, Shrinks-Keeps, write_metadata-Keeps, commit-Keeps,
}

module _ (H : Http) (C : Codec CacheEntry persisted) (process : ℕ) (root : Text)
    (parse_http_date : Text → Option ℕ) (max_size : ℕ) where
  open C use {from_slice, from_slice-to_vec}

  -- One operation, from a disk to the disk behind it.
  pub data Step : Disk → Disk → Type 0 where
    begins :
        (created accessed dated : ℕ)
        → (plan : CachePlan) → (status : ℕ) → (headers request_headers : H.Headers) → (disk : Disk)
        → Step disk
            (begin_write C process root H parse_http_date created accessed dated max_size plan
              status headers request_headers disk).0
    writes :
        (bytes : Text)
        → (writer : CacheWriter) → (key : Text) → (temp_id : ℕ)
        → writer.temp_body ≡ temp_body_path root key process temp_id
        → (disk : Disk) → Step disk (write_body bytes writer disk).0
    discards : (writer : CacheWriter) → (disk : Disk) → Step disk (discard writer disk)
    commits :
        (entry : CacheEntry)
        → (key : Text) → (temp_id : ℕ) → (disk : Disk)
        → Step disk
            (commit C process root max_size entry (temp_body_path root key process temp_id) disk).0
    flushes : (disk : Disk) → Step disk (flush disk).0
    looks_up :
        (plan : CachePlan)
        → (now : ℕ) → (disk : Disk) → Step disk (lookup_files C process root plan now disk).0
    refreshes :
        (now dated : ℕ)
        → (entry : CacheEntry) → (response_headers : H.Headers) → (ttl : ℕ) → (disk : Disk)
        → Step disk
            (refresh_files C process root H parse_http_date now dated entry response_headers ttl
              disk).0
    cleans : (now : ℕ) → (disk : Disk) → Step disk (cleanup_startup C root now max_size disk).disk

  pub data Reach : Disk → Disk → Type 0 where
    here : (disk : Disk) → Reach disk disk
    after : {a b c : Disk} → Reach a b → Step b c → Reach a c

  same-Keeps :
      (old new : Files)
      → ((key : Text) → assoc (meta_path root key) new ≡ assoc (meta_path root key) old)
      → Keeps C process root old new
  same-Keeps old new same key = inl (same key)

  begin_write-Keeps :
      (created accessed dated : ℕ) (plan : CachePlan) (status : ℕ)
      (headers request_headers : H.Headers) (disk : Disk)
      → Keeps C process root disk.files
          (begin_write C process root H parse_http_date created accessed dated max_size plan status
            headers request_headers disk).0.files
  unfolding begin_write
  begin_write-Keeps created accessed dated plan status headers request_headers disk =
      elim (Option-cases
        (admit H parse_http_date created accessed dated root plan status headers request_headers)) [
          | inl refused ↦ rw (refused, begin_write) (λ key. inl refl)
          | inr (made, accepted) ↦
              rw (accepted, begin_write)
                (λ key. inl (
                  create_file-other (temp_body_path root plan.key process disk.temp_counter)
                    (record disk { temp_counter = suc disk.temp_counter }) (meta_path root key)
                    (meta-temp_body root key plan.key process disk.temp_counter)))
        ]

  write_body-Keeps :
      (bytes : Text) (writer : CacheWriter) (key : Text) (temp_id : ℕ)
      → writer.temp_body ≡ temp_body_path root key process temp_id
      → (disk : Disk) → Keeps C process root disk.files (write_body bytes writer disk).0.files
  unfolding write_body
  write_body-Keeps bytes writer key temp_id same disk k = inl (
      append_file-other writer.temp_body bytes disk (meta_path root k)
        (rw same (meta-temp_body root k key process temp_id)))

  settle_lookup-Keeps :
      (key : Text) (outcome : Bool × Option CacheEntry) (disk : Disk)
      → Keeps C process root disk.files (settle_lookup C process root key outcome disk).0.files
  unfolding settle_lookup
  settle_lookup-Keeps key (true, found) disk =
      Shrinks-Keeps C process root disk.files
        (settle_lookup C process root key (true, found) disk).0.files
        (remove_file-Shrinks (meta_path root key) disk)
  settle_lookup-Keeps key (false, none) disk = λ k. inl refl
  settle_lookup-Keeps key (false, some entry) disk = write_metadata-Keeps C process root entry disk

  lookup_decoded-Keeps :
      (plan : CachePlan) (now : ℕ) (read : Result Text CacheEntry) (disk : Disk)
      → Keeps C process root disk.files (lookup_decoded C process root plan now read disk).0.files
  unfolding lookup_decoded
  lookup_decoded-Keeps plan now (err e) disk =
      settle_lookup-Keeps plan.key (lookup root plan now corrupt none) disk
  lookup_decoded-Keeps plan now (ok entry) disk =
      let measured = file_len (body_path root plan.key) disk in
      let settled =
        settle_lookup-Keeps plan.key (lookup root plan now (readable entry) (to_option measured.1))
          measured.0 in
      subst
        (λ files.
          Keeps C process root files
            (lookup_decoded C process root plan now (ok entry) disk).0.files)
        (file_len-files (body_path root plan.key) disk) settled

  lookup_files-Keeps :
      (plan : CachePlan) (now : ℕ) (disk : Disk)
      → Keeps C process root disk.files (lookup_files C process root plan now disk).0.files
  unfolding lookup_files
  lookup_files-Keeps plan now disk =
      let path = meta_path root plan.key in
      let same = read_file-files path disk in
      elim (Result-cases (read_file path disk).1) [
        | inr (e, bad) ↦ rw (bad, lookup_files) (λ key. inl (ap (assoc (meta_path root key)) same))
        | inl (bytes, good) ↦
            rw (good, lookup_files)
              (subst
                (λ files.
                  Keeps C process root files
                    (lookup_decoded C process root plan now (from_slice bytes)
                      (read_file path disk).0).0.files)
                same (lookup_decoded-Keeps plan now (from_slice bytes) (read_file path disk).0))
      ]

  cleanup_startup-Shrinks :
      (now : ℕ) (disk : Disk)
      → Shrinks disk.files (cleanup_startup C root now max_size disk).disk.files
  unfolding cleanup_startup
  cleanup_startup-Shrinks now disk =
      let same = read_dir-files root disk in
      elim (Result-cases (read_dir root disk).1) [
        | inr (e, bad) ↦
            rw (bad, cleanup_startup)
              (subst (Shrinks disk.files) (sym same) (Shrinks-refl disk.files))
        | inl (names, good) ↦
            let s : Cleaning = record {
              disk = (read_dir root disk).0;
              summary = default_summary;
              valid_keys = [];
              entries = [];
              total = 0;
            } in
            let s' = clean_names C root now names s in
            rw (good, cleanup_startup)
              (subst (λ files. Shrinks files (clean_rest root max_size s').disk.files) same
                (Shrinks-trans s.disk.files s'.disk.files (clean_rest root max_size s').disk.files
                  (clean_names-Cleans C root now names s).0 (clean_rest-Cleans root max_size s').0))
      ]

  Step-Keeps : {a b : Disk} → Step a b → Keeps C process root a.files b.files
  unfolding discard refresh_files
  Step-Keeps (begins created accessed dated plan status headers request_headers disk) =
      begin_write-Keeps created accessed dated plan status headers request_headers disk
  Step-Keeps (writes bytes writer key temp_id same disk) =
      write_body-Keeps bytes writer key temp_id same disk
  Step-Keeps (discards writer disk) =
      Shrinks-Keeps C process root disk.files (discard writer disk).files
        (remove_file-Shrinks writer.temp_body disk)
  Step-Keeps (commits entry key temp_id disk) =
      commit-Keeps C process root max_size entry key temp_id disk
  Step-Keeps (flushes disk) = λ key. inl (ap (assoc (meta_path root key)) (flush-files disk))
  Step-Keeps (looks_up plan now disk) = lookup_files-Keeps plan now disk
  Step-Keeps (refreshes now dated entry response_headers ttl disk) =
      write_metadata-Keeps C process root
        (refresh H parse_http_date now dated entry response_headers ttl) disk
  Step-Keeps (cleans now disk) =
      Shrinks-Keeps C process root disk.files (cleanup_startup C root now max_size disk).disk.files
        (cleanup_startup-Shrinks now disk)

  Reach-Intact :
      {a b : Disk} → Reach a b → Intact C process root a.files → Intact C process root b.files
  Reach-Intact (here disk) intact = intact
  Reach-Intact (after {b} {c} before step) intact =
      Keeps-Intact C process root b.files c.files (Step-Keeps step) (Reach-Intact before intact)

  -- From an empty disk, whatever operations follow each other and whichever of them fail, the metadata
  -- of a key is missing, or it is the whole encoding of an entry, which reads back: a failure or a
  -- crash in the middle of a write leaves no metadata cut short.
  pub Reach-decodes :
      (start end : Disk) (key : Text)
      → Reach start end
      → start.files ≡ []
      → OnSome
          (λ bytes. (entry : CacheEntry) × (from_slice bytes ≡ ok (persisted entry)))
          (assoc (meta_path root key) end.files)
  unfolding assoc
  Reach-decodes start end key reach empty =
      OnSome-mono (IsWritten C process root) _ (assoc (meta_path root key) end.files)
        (λ bytes (entry, encoded). (entry, from_slice-to_vec entry bytes encoded))
        (Reach-Intact reach (λ k. rw empty tt) key)
