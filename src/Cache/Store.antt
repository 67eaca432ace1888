-- ===== src/Cache/Store.antt =====
-- Reading an entry back, and refreshing it after a 304.
use corsget.Prelude.{ℕ, ◌/◌, Bool, true, false, ◌||◌, not, Option, none, some, ◌==◌, if◌then◌else◌}
use corsget.Text.{Text, text}
use corsget.External.Http.{Http}
use corsget.Limit.{nanos_per_sec}
use corsget.Cors.{get_str}
use corsget.Cache.{CachePlan, CacheEntry, cache_version, effective_ttl}
use corsget.Cache.Writing.{body_path}

-- What the metadata file of a key gives: it cannot be read, it is corrupt, or it has an entry.
pub data Metadata : Type 0 where
  unreadable : Metadata
  corrupt : Metadata
  readable : CacheEntry → Metadata

-- `body_len != Some(entry.body_len)`, negated.
unfoldable pub is_length : Option ℕ → ℕ → Bool
is_length none n = false
is_length (some m) n = m == n

-- `Cache::lookup`: whether the metadata file is removed, and the entry, with the file's contents and
-- the length of the body file. The entry's access is also written back.
unfoldable pub lookup : Text → CachePlan → ℕ → Metadata → Option ℕ → Bool × Option CacheEntry
lookup root plan now unreadable body_len = (false, none)
lookup root plan now corrupt body_len = (true, none)
lookup root plan now (readable entry) body_len =
    if not (entry.version == cache_version) || not (is_length body_len entry.body_len)
    then (true, none)
    else (
      false,
      some
          (record entry { key = plan.key; body_path = body_path root plan.key; last_access = now }),
    )

-- The new value of a validator, or the old one.
abbrev pub updated : Option Text → Option Text → Option Text
updated none old = old
updated (some value) old = some value

-- `Cache::refresh`, but for the write of the metadata.
unfoldable pub refresh :
    (H : Http) → (Text → Option ℕ) → (now dated : ℕ) → CacheEntry → H.Headers → ℕ → CacheEntry
refresh H parse_http_date now dated entry response_headers configured_ttl = record entry {
  created_at = now / nanos_per_sec;
  last_access = now / nanos_per_sec;
  ttl = effective_ttl H parse_http_date dated configured_ttl response_headers;
  etag = updated (get_str H (text "etag") response_headers) entry.etag;
  last_modified = updated (get_str H (text "last-modified") response_headers) entry.last_modified;
}
