-- ===== src/Proxy/StreamRuns.antt =====
-- Runs of the stream that keeps a copy on the disk, and the theorem on it at a concrete input.
use corsget.Prelude.{
  ℕ, ◌≡◌, refl, true, false, none, some, Option, List, [], ◌∷◌, arith, Result, ok, err, OnSome, All,
  ◌≤◌, length,
}
use corsget.Text.{Text, text}
use corsget.Disk.{Disk, fine, failing}
use corsget.Samples.Http.{list_http}
use corsget.Samples.Codecs.{entry_codec}
use corsget.Limit.{MeteredError, upstream}
use corsget.Cache.{CachePlan}
use corsget.Cache.Files.{begin_write}
use corsget.Cache.Shown.{shown}
use corsget.Proxy.Filing.{tee_files}
use corsget.Cache.Streaming.{file_stream, buffer_size}
use corsget.Proxy.Streamed.{file_stream-Streams}
use corsget.Proxy.Storing.{joined}
use corsget.Proxy.Stored.{IsWhole, stream-IsWhole}

streaming : Unit {0}
unfolding tee_files corsget.Proxy.Filing.write_files corsget.Proxy.Filing.discard_files
    corsget.Proxy.Filing.finish_files begin_write corsget.Cache.Files.write_body
    corsget.Cache.Files.discard corsget.Cache.Files.finish corsget.Cache.Files.commit
    corsget.Cache.Files.install corsget.Cache.Files.write_metadata corsget.Cache.Files.evict_files
    corsget.Cache.Files.scan_names corsget.Cache.Files.scan_metadata
    corsget.Cache.Files.file_len_or_zero corsget.Cache.Files.remove_entries
    corsget.Cache.Files.remove_entry corsget.Cache.Files.temp_meta_path shown
    corsget.Cache.Writing.body_path corsget.Cache.Writing.meta_path
    corsget.Cache.Writing.temp_body_path corsget.Cache.Writing.admit corsget.Cache.Writing.new_entry
    corsget.Cache.Writing.is_success corsget.Cache.Writing.request_variants
    corsget.Cache.Writing.write corsget.Cache.Writing.finished corsget.Cache.cacheable_headers
    corsget.Cache.parse_vary corsget.Cache.parse_vary_from corsget.Cache.effective_ttl
    corsget.Cache.expires_ttl corsget.Cache.cache_control_requires_revalidation
    corsget.Cache.cache_headers corsget.Cors.get_str corsget.Samples.Http.without
    corsget.External.Http.values_of corsget.Cache.Eviction.evict corsget.Cache.Eviction.evict_from
    corsget.Cache.Eviction.scan_total corsget.Cache.Eviction.sort_by_access
    corsget.Cache.Eviction.insert_by_access corsget.Disk.put corsget.Disk.drop corsget.Disk.run
    corsget.Disk.run_with corsget.Disk.take corsget.Disk.read_file corsget.Disk.file_len
    corsget.Disk.remove_file corsget.Disk.rename corsget.Disk.write_file corsget.Disk.create_file
    corsget.Disk.append_file corsget.Disk.fetch_add corsget.Disk.read_dir corsget.Disk.next_item
    corsget.Disk.flush corsget.Disk.Paths.dir_prefix corsget.Disk.Paths.split_name
    corsget.Disk.Paths.has_extension text corsget.Text.text_eq corsget.Text.assoc
    corsget.Text.to_decimal corsget.Text.digits_of corsget.Text.strip_prefix corsget.Text.has_char
    corsget.Text.rsplit_once corsget.Prelude.any corsget.Prelude.filter corsget.Prelude.filter_map
    corsget.Prelude.flat_map corsget.Prelude.find_map corsget.Text.member
    corsget.Text.to_ascii_lowercase corsget.Text.split corsget.Text.trim corsget.Text.trim_matches
    corsget.Cors.comma_list corsget.Proxy.Tee.metered_message
streaming = tt

abbrev no_date : Text → Option ℕ
no_date t = none

abbrev planned : CachePlan
planned = record { key = text "k"; ttl = 60 }

abbrev empty_disk : Disk
empty_disk = record { files = []; faults = []; temp_counter = 0 }

abbrev chunks : List (Result MeteredError Text)
chunks = ok (text "ab") ∷ ok (text "c") ∷ []

abbrev begun : Disk → Disk × Option corsget.Cache.Writing.CacheWriter
begun disk =
    begin_write entry_codec 1 (text "c") list_http no_date 0 0 0 1000 planned 200 [] [] disk

abbrev kept : List (Result MeteredError Text) → Disk → Option Text
kept items disk =
    let (disk', writer) = begun disk in
    elim (shown entry_codec 1 (text "c") (tee_files entry_codec 1 writer items disk').1.files
      (text "k")) [ none ↦ none | some (entry, body) ↦ some body ]

-- The whole body is kept; a stream that ends with an error, or a disk that is full, keeps nothing.
keeps :
    (kept chunks empty_disk ≡ some (text "abc"))
    × (kept (ok (text "ab") ∷ err (upstream (text "reset")) ∷ []) empty_disk ≡ none)
    × (kept chunks (record empty_disk { faults = fine ∷ fine ∷ failing 0 (text "disk full") ∷ [] })
        ≡ none)
unfolding streaming
keeps = (refl, refl, refl)

abbrev one_body : Disk
one_body = record empty_disk { files = (text "c/k.body", text "abc") ∷ [] }

stream-IsWhole_example :
    OnSome
      (IsWhole list_http entry_codec 1
        (text "c")
        1000
        no_date
        0
        0
        0
        planned
        200
        []
        []
        empty_disk
        (ok (text "ab") ∷ ok (text "c") ∷ []))
      (shown entry_codec 1
        (text "c")
        (tee_files entry_codec 1 (begun empty_disk).1 chunks (begun empty_disk).0).1.files
        (text "k"))
unfolding streaming
stream-IsWhole_example =
    stream-IsWhole list_http entry_codec 1 (text "c") 1000 no_date 0 0 0 planned 200 [] [] chunks
      empty_disk (omega arith)

file_stream-Streams_example :
    (joined (file_stream (text "c/k.body") one_body).1 ≡ text "abc")
    × All
        (λ item.
          (chunk : Text) × (item ≡ ok chunk) × (1 ≤ length chunk) × (length chunk ≤ buffer_size))
        (file_stream (text "c/k.body") one_body).1
unfolding streaming
file_stream-Streams_example = file_stream-Streams (text "c/k.body") (text "abc") one_body refl refl
