-- ===== src/Proxy/Streamed.antt =====
-- The body of a cached response: what `file_stream` gives of a file.
use corsget.Prelude.{
  ℕ, zero, suc, ◌+◌, ◌≤◌, ◌<◌, ◌≡◌, refl, ap, ◌∙◌, some, List, [], ◌∷◌, ◌++◌, Result, ok, arith,
  All, length,
}
use corsget.Text.{Text, assoc}
use corsget.Disk.{Disk, read_file, read_open, take}
use corsget.Disk.Laws.{read_file-nil, read_file-quiet, read_open-nil}
use corsget.Cache.Streaming.{skip, read_buffers, buffer_size, file_stream}
use corsget.Proxy.Storing.{joined}

take-skip : (n : ℕ) (bytes : Text) → take n bytes ++ skip n bytes ≡ bytes
unfolding take skip
take-skip zero bytes = refl
take-skip (suc n) [] = refl
take-skip (suc n) (c ∷ bytes) = ap (λ t. c ∷ t) (take-skip n bytes)

length-take-le : (n : ℕ) (bytes : Text) → length (take n bytes) ≤ n
unfolding take
length-take-le zero bytes = omega arith
length-take-le (suc n) [] = omega arith
length-take-le (suc n) (c ∷ bytes) = omega (arith, length-take-le n bytes)

length-skip-le : (n : ℕ) (bytes : Text) → length (skip n bytes) ≤ length bytes
unfolding skip
length-skip-le zero bytes = omega arith
length-skip-le (suc n) [] = omega arith
length-skip-le (suc n) (c ∷ bytes) = omega (arith, length-skip-le n bytes)

-- A buffer of this size, with a byte in it.
abbrev pub IsBuffer : ℕ → Result Text Text → Type 0
IsBuffer size item = (bytes : Text) × (item ≡ ok bytes) × (1 ≤ length bytes) × (length bytes ≤ size)

-- The items make up the bytes, and each fits into the buffer.
abbrev pub Streams : ℕ → Text → List (Result Text Text) → Type 0
Streams size bytes items = (joined items ≡ bytes) × All (IsBuffer size) items

-- With more fuel than there are bytes, the loop reads them all.
read_buffers-Streams :
    (f n : ℕ) (bytes : Text) (disk : Disk)
    → disk.faults ≡ []
    → length bytes < f
    → Streams (suc n) bytes (read_buffers f (suc n) bytes disk).1
unfolding read_buffers take skip
read_buffers-Streams zero n bytes disk none_left enough =
    let no : ⊥ = omega (arith, enough) in elim no [ ]
read_buffers-Streams (suc f) n [] disk none_left enough =
    rw (read_buffers, read_open-nil [] disk none_left) (refl, tt)
read_buffers-Streams (suc f) n (c ∷ bytes) disk none_left enough =
    let first = c ∷ take n bytes in
    let read = read_open-nil first disk none_left in
    let (whole, full) =
      read_buffers-Streams f n (skip n bytes) (read_open first disk).0 (rw read refl)
        (omega (arith, length-skip-le n bytes, enough)) in
    rw (read_buffers, ap (λ (r : Disk × Result Text Text). r.1) read)
      (
        ap (λ t. c ∷ (take n bytes ++ t)) whole ∙ ap (λ t. c ∷ t) (take-skip n bytes),
        ((first, refl, omega arith, omega (arith, length-take-le n bytes)), full),
      )

-- The stream of a file that is there ends, and its chunks, none of them empty or above 64 KiB, are
-- together the bytes of the file. (No operation fails while it is read.)
pub file_stream-Streams :
    (path bytes : Text) (disk : Disk)
    → disk.faults ≡ []
    → assoc path disk.files ≡ some bytes
    → (joined (file_stream path disk).1 ≡ bytes)
      × All
          (λ item.
            (chunk : Text) × (item ≡ ok chunk) × (1 ≤ length chunk) × (length chunk ≤ buffer_size))
          (file_stream path disk).1
unfolding file_stream
file_stream-Streams path bytes disk none_left there =
    let read : (read_file path disk).1 ≡ ok bytes =
      ap (λ (r : Disk × Result Text Text). r.1) (read_file-nil path disk none_left)
      ∙ rw there refl in
    rw (file_stream, read)
      (read_buffers-Streams (length bytes + 1) 65535 bytes (read_file path disk).0
        (read_file-quiet path disk none_left) (omega arith))
