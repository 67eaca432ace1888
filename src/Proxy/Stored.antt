-- ===== src/Proxy/Stored.antt =====
-- A response from the begin of its copy to the entry that the cache shows.
use corsget.Prelude.{
  ℕ, suc, ◌≤◌, ◌≡◌, refl, sym, subst, ap, ◌∙◌, ◌⊎◌, inl, inr, Option, none, some, List, [], Result,
  ok, err, All, arith, length, Result-cases, Option-cases, OnSome, OnSome-mono, OnSome-intro,
  u64_max,
}
use corsget.Text.{Text, assoc}
use corsget.Disk.{Disk, create_file}
use corsget.Disk.Replacing.{create_file-other, create_file-ok}
use corsget.External.Http.{Http}
use corsget.External.Codecs.{Codec}
use corsget.Limit.{MeteredError}
use corsget.Cache.{CachePlan, CacheEntry, cache_version}
use corsget.Cache.Writing.{CacheWriter, meta_path, temp_body_path, admit}
use corsget.Cache.Admission.{admit-IsStorable}
use corsget.Cache.Files.{persisted, begin_write}
use corsget.Cache.Names.{meta-temp_body}
use corsget.Cache.Shown.{decoded, shown, shown-meta}
use corsget.Proxy.Storing.{joined, IsChunk}
use corsget.Proxy.Filing.{tee_files}
use corsget.Proxy.Keeping.{writer_with, tee_files-none, tee-AllKept}

module _ (H : Http) (C : Codec CacheEntry persisted) (process : ℕ) (root : Text) (max_size : ℕ)
    (parse_http_date : Text → Option ℕ) (created accessed dated : ℕ) (plan : CachePlan) (status : ℕ)
    (headers request_headers : H.Headers) where
  abbrev begun : Disk → Disk × Option CacheWriter
  begun disk =
      begin_write C process root H parse_http_date created accessed dated max_size plan status
        headers request_headers disk

  abbrev admitted : Option CacheEntry
  admitted = admit H parse_http_date created accessed dated root plan status headers request_headers

  abbrev opened : Disk → Disk
  opened disk = record disk { temp_counter = suc disk.temp_counter }

  abbrev temp : Disk → Text
  temp disk = temp_body_path root plan.key process disk.temp_counter

  -- The whole of the client's stream under the entry that was admitted, or an entry from before.
  abbrev pub IsWhole : Disk → List (Result Text Text) → CacheEntry × Text → Type 0
  IsWhole disk client (e, body) =
      ((made : CacheEntry) × (admitted ≡ some made)
        × All IsChunk client
        × (body ≡ joined client)
        × (e ≡ persisted (record made { body_len = length body })))
      ⊎ (decoded C process root (assoc (meta_path root plan.key) disk.files) ≡ some e)

  -- The end of a stream with what `begin_write` gives.
  abbrev streamed :
      List (Result MeteredError Text) → Disk × Option CacheWriter → List (Result Text Text) × Disk
  streamed items (disk, writer) = tee_files C process writer items disk

  begun-refused : (disk : Disk) → admitted ≡ none → begun disk ≡ (disk, none)
  unfolding begin_write
  begun-refused disk refused = rw (begin_write, refused)

  begun-unopened :
      (disk : Disk) (made : CacheEntry) (error : Text)
      → admitted ≡ some made
      → (create_file (temp disk) (opened disk)).1 ≡ err error
      → begun disk ≡ ((create_file (temp disk) (opened disk)).0, none)
  unfolding begin_write
  begun-unopened disk made error accepted bad = rw (begin_write, accepted, bad)

  begun-opened :
      (disk : Disk) (made : CacheEntry)
      → admitted ≡ some made
      → (create_file (temp disk) (opened disk)).1 ≡ ok tt
      → made.key ≡ plan.key
      → (current : made.version ≡ cache_version)
      → begun disk ≡ (
        (create_file (temp disk) (opened disk)).0,
        some (writer_with C process root max_size made disk.temp_counter current []),
      )
  unfolding begin_write
  begun-opened disk made accepted good same_key current =
      rw (begin_write, accepted, good)
        (ap
          (λ k.
            let writer : CacheWriter = record {
              root = root;
              max_size = max_size;
              entry = made;
              temp_body = temp_body_path root k process disk.temp_counter;
              body_file = [];
              body_len = 0;
            } in
            ((create_file (temp disk) (opened disk)).0, some writer))
          (sym same_key))

  -- What the stream leaves, as far as it goes on with this disk and this writer.
  abbrev EndsWhole : List (Result MeteredError Text) → Disk → Disk × Option CacheWriter → Type 0
  EndsWhole items disk start =
      OnSome (IsWhole disk (streamed items start).0)
        (shown C process root (streamed items start).1.files plan.key)

  unwritten :
      (items : List (Result MeteredError Text)) (disk disk' : Disk)
      → assoc (meta_path root plan.key) disk'.files ≡ assoc (meta_path root plan.key) disk.files
      → EndsWhole items disk (disk', none)
  unwritten items disk disk' same =
      let end = tee_files-none C process root max_size items disk' in
      OnSome-intro (IsWhole disk (streamed items (disk', none)).0)
        (shown C process root (streamed items (disk', none)).1.files plan.key)
        λ p has. inr (
          ap (decoded C process root)
            (sym (ap (λ (d : Disk). assoc (meta_path root plan.key) d.files) end ∙ same))
          ∙ shown-meta C process root (streamed items (disk', none)).1.files plan.key p has)

  abbrev started :
      Disk → (made : CacheEntry) → made.version ≡ cache_version → Disk × Option CacheWriter
  started disk made current = (
    (create_file (temp disk) (opened disk)).0,
    some (writer_with C process root max_size made disk.temp_counter current []),
  )

  written :
      (items : List (Result MeteredError Text)) (disk : Disk) (made : CacheEntry)
      → admitted ≡ some made
      → (create_file (temp disk) (opened disk)).1 ≡ ok tt
      → made.key ≡ plan.key
      → (current : made.version ≡ cache_version)
      → length (joined (streamed items (started disk made current)).0) ≤ u64_max
      → EndsWhole items disk (started disk made current)
  written items disk made accepted good same_key current small =
      let disk' = (create_file (temp disk) (opened disk)).0 in
      let client = (streamed items (started disk made current)).0 in
      let empty : assoc (temp_body_path root made.key process disk.temp_counter) disk'.files
          ≡ some [] =
        subst (λ k. assoc (temp_body_path root k process disk.temp_counter) disk'.files ≡ some [])
          (sym same_key) (create_file-ok (temp disk) (opened disk) good) in
      let before =
        create_file-other (temp disk) (opened disk) (meta_path root made.key)
          (meta-temp_body root made.key plan.key process disk.temp_counter) in
      let kept =
        tee-AllKept C process root max_size made disk.temp_counter current [] items disk' empty
          (omega (arith, small)) in
      subst
        (λ k.
          OnSome (IsWhole disk client)
            (shown C process root (streamed items (started disk made current)).1.files k))
        same_key
        (OnSome-mono _ (IsWhole disk client)
          (shown C process root (streamed items (started disk made current)).1.files made.key)
          (λ p k. elim k [
            | inl (chunks, long, is) ↦ inl (made, accepted, chunks, long, is)
            | inr old ↦ inr (
                ap (λ k. decoded C process root (assoc (meta_path root k) disk.files))
                  (sym same_key)
                ∙ ap (decoded C process root) (sym before)
                ∙ old)
          ])
          kept)

  pub stream-IsWhole :
      (items : List (Result MeteredError Text)) (disk : Disk)
      → length (joined (streamed items (begun disk)).0) ≤ u64_max
      → OnSome
          (IsWhole disk (streamed items (begun disk)).0)
          (shown C process root (streamed items (begun disk)).1.files plan.key)
  stream-IsWhole items disk small = elim (Option-cases admitted) [
    | inl refused ↦
        subst (EndsWhole items disk) (sym (begun-refused disk refused))
          (unwritten items disk disk refl)
    | inr (made, accepted) ↦
        let (_, (_, _, _, same_key, current)) =
          admit-IsStorable H parse_http_date created accessed dated root plan status headers
            request_headers made accepted in
        elim (Result-cases (create_file (temp disk) (opened disk)).1) [
          | inr (error, bad) ↦
              subst (EndsWhole items disk) (sym (begun-unopened disk made error accepted bad)) (
                unwritten items disk (create_file (temp disk) (opened disk)).0 (
                  create_file-other (temp disk) (opened disk) (meta_path root plan.key)
                    (meta-temp_body root plan.key plan.key process disk.temp_counter)))
          | inl (_, good) ↦
              let start = begun-opened disk made accepted good same_key current in
              subst (EndsWhole items disk) (sym start) (
                written items disk made accepted good same_key current
                  (subst (λ s. length (joined (streamed items s).0) ≤ u64_max) start small))
        ]
  ]
