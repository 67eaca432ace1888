-- ===== src/Proxy/Filing.antt =====
-- The stream of a proxied response, with its copy on the disk.
use corsget.Prelude.{ℕ, Option, none, some, List, [], ◌∷◌, Result, ok, err}
use corsget.Text.{Text}
use corsget.Disk.{Disk}
use corsget.External.Codecs.{Codec}
use corsget.Limit.{MeteredError}
use corsget.Cache.{CacheEntry}
use corsget.Cache.Writing.{CacheWriter}
use corsget.Cache.Files.{persisted, write_body, discard, finish}
use corsget.Proxy.Tee.{metered_message}

unfoldable pub discard_files : Option CacheWriter → Disk → Disk
discard_files none disk = disk
discard_files (some writer) disk = discard writer disk

-- Writes one chunk, and gives the writer up, with its file, when that fails.
unfoldable pub write_files : Text → Option CacheWriter → Disk → Disk × Option CacheWriter
write_files bytes none disk = (disk, none)
write_files bytes (some writer) disk =
    let (disk', writer', written) = write_body bytes writer disk in
    elim written [ ok _ ↦ (disk', some writer') | err _ ↦ (discard writer' disk', none) ]

module _ (C : Codec CacheEntry persisted) (process : ℕ) where
  -- The end of the stream; a commit that fails is only logged.
  unfoldable pub finish_files : Option CacheWriter → Disk → Disk
  finish_files none disk = disk
  finish_files (some writer) disk = (finish C process writer disk).0

  -- The stream of `proxy_handler`: the items for the client, and the disk behind it.
  unfoldable pub tee_files :
      Option CacheWriter → List (Result MeteredError Text) → Disk → List (Result Text Text) × Disk
  tee_files writer [] disk = ([], finish_files writer disk)
  tee_files writer (err e ∷ items) disk = (err (metered_message e) ∷ [], discard_files writer disk)
  tee_files writer (ok bytes ∷ items) disk =
      let (disk', writer') = write_files bytes writer disk in
      let (rest, end) = tee_files writer' items disk' in (ok bytes ∷ rest, end)
