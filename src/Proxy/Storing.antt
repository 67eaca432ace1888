-- ===== src/Proxy/Storing.antt =====
-- The stored body against the streamed one.
use corsget.Prelude.{
  ℕ, ◌+◌, ◌≡◌, refl, sym, ap, ◌∙◌, Option, none, some, List, [], ◌∷◌, ◌++◌, append-nil,
  append_assoc, All, Result, ok, err, arith, length, length-append, OnSome, OnSome-mono, OnSome-eq,
  min, u64_max, saturating_add,
}
use corsget.Text.{Text}
use corsget.Limit.{MeteredError}
use corsget.Cache.Writing.{CacheWriter, write, finished}
use corsget.Proxy.Tee.{write_chunk, finish_writer, tee}

-- The bytes of the chunks in a stream.
abbrev pub joined : List (Result Text Text) → Text
joined [] = []
joined (ok bytes ∷ items) = bytes ++ joined items
joined (err e ∷ items) = joined items

abbrev pub IsChunk : Result Text Text → Type 0
IsChunk item = (bytes : Text) × (item ≡ ok bytes)

-- The length that the writer keeps is that of the file, saturated.
abbrev pub Counts : CacheWriter → Type 0
Counts w = w.body_len ≡ min (length w.body_file) u64_max

-- What a writer, if there is one, has become behind a stream.
abbrev Extends : CacheWriter → List (Result Text Text) → CacheWriter → Type 0
Extends w items w' =
    All IsChunk items
    × (w'.body_file ≡ w.body_file ++ joined items)
    × (w'.entry.body_len ≡ min (length w'.body_file) u64_max)

-- The client's stream is the same whatever happens to the stored copy: with or without a writer, and
-- whether writing fails.
pub tee-client :
    (outcomes outcomes' : ℕ → Result (Text × Text) (Unit {0})) (writer writer' : Option CacheWriter)
    (items : List (Result MeteredError Text))
    → (tee outcomes writer items).0 ≡ (tee outcomes' writer' items).0
unfolding tee
tee-client o o' writer writer' [] = refl
tee-client o o' writer writer' (err e ∷ items) = refl
tee-client o o' writer writer' (ok bytes ∷ items) =
    ap (λ rest. ok bytes ∷ rest)
      (tee-client o o' (write_chunk (o (length items)) bytes writer)
        (write_chunk (o' (length items)) bytes writer') items)

tee-none :
    (outcomes : ℕ → Result (Text × Text) (Unit {0})) (items : List (Result MeteredError Text))
    → (tee outcomes none items).1 ≡ none
unfolding tee write_chunk finish_writer
tee-none outcomes [] = refl
tee-none outcomes (err e ∷ items) = refl
tee-none outcomes (ok bytes ∷ items) = tee-none outcomes items

abbrev grow : Text → CacheWriter → CacheWriter
grow bytes w = record w {
  body_file = w.body_file ++ bytes;
  body_len = saturating_add w.body_len (length bytes);
}

saturating_add-min : (a n : ℕ) → saturating_add (min a u64_max) n ≡ min (a + n) u64_max
saturating_add-min a n = ground arith

Counts-grow : (bytes : Text) (w : CacheWriter) → Counts w → Counts (grow bytes w)
Counts-grow bytes w counts =
    ap (λ k. saturating_add k (length bytes)) counts
    ∙ saturating_add-min (length w.body_file) (length bytes)
    ∙ ap (λ k. min k u64_max) (sym (length-append w.body_file bytes))

tee-Extends :
    (outcomes : ℕ → Result (Text × Text) (Unit {0})) (w : CacheWriter)
    (items : List (Result MeteredError Text))
    → Counts w
    → OnSome (Extends w (tee outcomes (some w) items).0) (tee outcomes (some w) items).1
unfolding tee write_chunk finish_writer finished write
tee-Extends outcomes w [] counts = (tt, sym (append-nil w.body_file), counts)
tee-Extends outcomes w (err e ∷ items) counts = tt
tee-Extends outcomes w (ok bytes ∷ items) counts =
    step (tee-Extends outcomes (grow bytes w) items (Counts-grow bytes w counts))
      (outcomes (length items))
  where
    step :
        OnSome
          (Extends (grow bytes w) (tee outcomes (some (grow bytes w)) items).0)
          (tee outcomes (some (grow bytes w)) items).1
        → (outcome : Result (Text × Text) (Unit {0}))
        → OnSome
            (Extends w (ok bytes ∷ (tee outcomes (write_chunk outcome bytes (some w)) items).0))
            (tee outcomes (write_chunk outcome bytes (some w)) items).1
    step later (err (e, part)) = rw (tee-none outcomes items) tt
    step later (ok _) =
        OnSome-mono (Extends (grow bytes w) (tee outcomes (some (grow bytes w)) items).0)
          (Extends w (ok bytes ∷ (tee outcomes (some (grow bytes w)) items).0)) _
          (λ w' (whole, file, counted).
            (((bytes, refl), whole), file ∙ append_assoc w.body_file bytes _, counted))
          later

-- A writer that was fresh when the stream began and is committed at its end holds exactly the bytes
-- of the client's stream, that stream had no error, and the entry records the length of the body,
-- saturated to `u64`. So no truncated body is ever committed.
pub tee-committed :
    (outcomes : ℕ → Result (Text × Text) (Unit {0})) (w w' : CacheWriter)
    (items : List (Result MeteredError Text))
    → w.body_file ≡ []
    → w.body_len ≡ 0
    → (tee outcomes (some w) items).1 ≡ some w'
    → All IsChunk (tee outcomes (some w) items).0
      × (w'.body_file ≡ joined (tee outcomes (some w) items).0)
      × (w'.entry.body_len ≡ min (length w'.body_file) u64_max)
tee-committed outcomes w w' items fresh zero_len e =
    let counts : Counts w = rw (fresh, zero_len) (omega arith) in
    let (whole, file, counted) =
      OnSome-eq (Extends w (tee outcomes (some w) items).0) (tee outcomes (some w) items).1
        (tee-Extends outcomes w items counts) e in
    (whole, file ∙ ap (λ u. u ++ joined (tee outcomes (some w) items).0) fresh, counted)
