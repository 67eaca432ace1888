-- ===== src/Cache/Writing.antt =====
-- Whether a response is stored, and the writer of its body.
use corsget.Prelude.{
  ℕ, ◌/◌, Bool, ◌&&◌, ◌||◌, not, Option, none, some, List, ◌++◌, Result, ok, err, leb, ltb, ◌==◌,
  if◌then◌else◌, filter_map, length, saturating_add,
}
use corsget.Text.{Text, text, to_decimal}
use corsget.Disk.Paths.{join_path}
use corsget.External.Http.{Http}
use corsget.Limit.{nanos_per_sec}
use corsget.Cors.{get_str}
use corsget.Cache.{
  CachePlan, CacheEntry, cache_version, cacheable_headers, parse_vary, effective_ttl,
  cache_control_requires_revalidation, cache_headers,
}

-- `Cache::body_path` and `Cache::meta_path`.
unfoldable pub body_path : Text → Text → Text
body_path root key = join_path root (key ++ text ".body")

unfoldable pub meta_path : Text → Text → Text
meta_path root key = join_path root (key ++ text ".json")

-- The temporary body of one write.
unfoldable pub temp_body_path : Text → Text → ℕ → ℕ → Text
temp_body_path root key process temp_id =
    join_path root
      (text "." ++ key ++ text ".body.tmp-" ++ to_decimal process ++ text "-" ++ to_decimal temp_id)

-- `root` and `max_size` are those of its cache. The body file is the bytes that were written to it.
pub record CacheWriter : Type 0 where
  pub root : Text
  pub max_size : ℕ
  pub entry : CacheEntry
  pub temp_body : Text
  pub body_file : Text
  pub body_len : ℕ

-- `(200..300).contains(&status)`.
unfoldable pub is_success : ℕ → Bool
is_success status = leb 200 status && ltb status 300

module _ (H : Http) where
  open H use {Headers, contains_key}

  -- The values of the request headers that the response varies by.
  unfoldable pub request_variants : List Text → Headers → List (Text × Text)
  request_variants vary request_headers =
      filter_map
        (λ name. elim (get_str H name request_headers) [
          | none ↦ none
          | some value ↦ some (name, value)
        ])
        vary

  -- The entry of `Cache::begin_write`. The clock is read three times, in nanoseconds since the epoch.
  unfoldable pub new_entry :
      (Text → Option ℕ)
      → (created accessed dated : ℕ) → Text
      → CachePlan
      → ℕ
      → Headers
      → List Text
      → Headers
      → CacheEntry
  new_entry parse_http_date created accessed dated root plan status headers vary request_headers =
      record {
        version = cache_version;
        status = status;
        headers = cache_headers H headers;
        body_len = 0;
        created_at = created / nanos_per_sec;
        last_access = accessed / nanos_per_sec;
        ttl = effective_ttl H parse_http_date dated plan.ttl headers;
        revalidate = cache_control_requires_revalidation H headers;
        etag = get_str H (text "etag") headers;
        last_modified = get_str H (text "last-modified") headers;
        vary = vary;
        request_variants = request_variants vary request_headers;
        key = plan.key;
        body_path = body_path root plan.key;
      }

  -- The part of `Cache::begin_write` before the file system: the entry, or a refusal.
  unfoldable pub admit :
      (Text → Option ℕ)
      → (created accessed dated : ℕ) → Text
      → CachePlan
      → ℕ
      → Headers
      → Headers
      → Option CacheEntry
  admit parse_http_date created accessed dated root plan status headers request_headers =
      if not (is_success status) || not (cacheable_headers H headers)
      then none
      else elim (parse_vary H headers) [
        | none ↦ none
        | some vary ↦
            if contains_key (text "authorization") request_headers
            then none
            else let entry =
                new_entry parse_http_date created accessed dated root plan status headers vary
                  request_headers in
              if entry.ttl == 0 then none else some entry
      ]

-- `CacheWriter::write`, with what writing to the file gives: a failure may leave a part of the bytes.
unfoldable pub write :
    Result (Text × Text) (Unit {0}) → Text → CacheWriter → CacheWriter × Result Text (Unit {0})
write (err (e, part)) bytes w = (record w { body_file = w.body_file ++ part }, err e)
write (ok _) bytes w = (
  record w {
    body_file = w.body_file ++ bytes;
    body_len = saturating_add w.body_len (length bytes);
  },
  ok tt,
)

-- The entry that `CacheWriter::finish` commits.
unfoldable pub finished : CacheWriter → CacheWriter
finished w = record w { entry = record w.entry { body_len = w.body_len } }
