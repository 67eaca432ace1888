-- ===== src/Cache/Streaming.antt =====
-- `file_stream`: the body of an entry from the disk.
use corsget.Prelude.{
  ℕ, zero, suc, ◌+◌, ◌*◌, List, [], ◌∷◌, Result, ok, err, length, is_empty, if◌then◌else◌,
}
use corsget.Text.{Text}
use corsget.Disk.{Disk, read_file, read_open, take}

-- What is left behind the first bytes.
unfoldable pub skip : ℕ → Text → Text
skip zero bytes = bytes
skip (suc n) [] = []
skip (suc n) (c ∷ bytes) = skip n bytes

-- The loop, over what is left of the file; a read fills the buffer as far as there are bytes. The fuel
-- bounds the number of reads.
unfoldable pub read_buffers : ℕ → ℕ → Text → Disk → Disk × List (Result Text Text)
read_buffers zero size bytes disk = (disk, [])
read_buffers (suc f) size bytes disk =
    let (disk', read) = read_open (take size bytes) disk in
    let (end, rest) = read_buffers f size (skip size bytes) disk' in
    elim read [
      | err e ↦ (disk', err e ∷ [])
      | ok buffer ↦ if is_empty buffer then (disk', []) else (end, ok buffer ∷ rest)
    ]

abbrev pub buffer_size : ℕ
buffer_size = 64 * 1024

-- `file_stream`. Every read but the last takes a byte at least, so one read more than there are bytes
-- is enough.
unfoldable pub file_stream : Text → Disk → Disk × List (Result Text Text)
file_stream path disk =
    let (disk', opened) = read_file path disk in
    elim opened [
      | err e ↦ (disk', err e ∷ [])
      | ok bytes ↦ read_buffers (length bytes + 1) buffer_size bytes disk'
    ]
