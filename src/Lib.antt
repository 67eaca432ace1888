-- ===== src/Lib.antt =====
-- corsget: a CORS proxy for GET requests. A request `GET /<target>` is checked against the allow and
-- deny lists, counted against the rate and bandwidth limits, answered from the response cache or sent
-- to the target, and its response goes back with CORS headers.
--
-- The parts and their files (the Rust sources are under src/):
--   - Matcher models src/matcher.rs: MatchEntry::parse is `parse`, TargetList::is_allowed is
--     `is_allowed`, MatchPolicy::new is `match_policy`. Proxy asks it for each host.
--   - Limit models src/limit.rs: WindowState::charge is `charge_window`, BandwidthLimiter::charge is
--     `charge`, ResultSizeGuard is the record of that name, and metered_stream maps the list of the
--     chunks to the list of the items. The state is passed on: each operation returns the new one.
--   - Cors models src/cors.rs: the header names, cors_headers, add_vary_field and cors_layer;
--     Cors/Preflight is preflight_handler.
--   - Extractors models src/extractors.rs: the origin, the client's address, and the key of the limits.
--   - Proxy models src/proxy.rs: parse_target_url, forward_headers, copy_response_headers,
--     validate_target_policy. Of proxy_handler, Proxy/Handler has the steps in front and behind, with
--     cached_response, Proxy/Fetch is step 6, the loop over redirects, Proxy/Filing is the stream that
--     serves the client and writes the copy (Proxy/Tee is the part of it that needs no disk), and
--     Proxy/Request composes them. It takes the shared state with the disk, and returns the new one with
--     the requests that were sent.
--   - Cache models src/cache.rs. What decides: the entry, storing and reuse in Cache, Cache/Rules and
--     Cache/Plan for the rules, the plan and the key, Cache/Writing, Cache/Store and Cache/Eviction. What
--     acts on the files: Cache/Files is begin_write, commit, lookup, refresh and evict, Cache/Cleanup is
--     cleanup_startup, Cache/Streaming is file_stream, and Cache/Setup is initialize. `shown` of
--     Cache/Shown is the cache as a map from keys to entries with their bodies, which the files implement.
--   - Headers models src/headers.rs, the overrides: HeaderOverridePolicy::new is `compile_policy`, and
--     its apply is `apply`. Proxy applies it to each response.
--   - Config models src/config.rs: the records that the YAML file fills, byte expressions;
--     Config/Loading is load and validate.
--   - State models src/state.rs: AppState::new is `new_state`.
--   - Startup models src/main.rs: Startup/ConfigFile, Startup/Addresses and Startup/Start are `main` up to
--     the servers, and Startup/Router is its router, whose `app` composes cors_layer with the handlers of
--     all routes. An answer to HEAD is that to GET without its body; the state behind a body that is
--     not read is not shown.
--   - Disk is what the sources use of the file system: a list of paths with their bytes, and a schedule that
--     says for each operation in turn whether it fails, and how much of a write that fails is done.
--     A crash is a schedule in which all later operations fail.
--   - Error models src/error.rs. Messages has the parts of a request and a response that are read.
--
-- Text is a list of code points. An Instant or a Duration is a number of nanoseconds, and what the clock
-- reads is an argument. A u64 saturates or is checked where the source does so.
--
-- The crates outside the repository are records in External: Http (HeaderMap, HeaderName and
-- HeaderValue), Urls (url), Regexes (regex), Maps (DashMap), Limits (axum-limit), Codecs (serde_json),
-- Routes (the router of axum). Each has the operations in use and their documented laws. Samples has an
-- instance of each, on which the tests run.
--
-- `follow` recurses on the number of redirects that are left, as the source's counter does: no fuel is
-- added. `to_decimal` prints a number with one unit of fuel more than the number, which is more than it has
-- digits. `read_buffers` has one unit of fuel more than the file has bytes, and each read takes a byte at
-- least. All other loops are structural.
--
-- Not modelled: the serving of the sockets, logging with the text of the start-up summary, the shutdown,
-- and the YAML reader. The directory of the cache holds files only, and its names are UTF-8. The counters
-- of the clean-up are taken to stay below 2 ^ 64. The operations on the disk are run one after the other;
-- other requests between them are not modelled.
pub mod Prelude
pub mod Text
pub mod External
mod Samples
pub mod Disk
pub mod Messages
pub mod Error
pub mod Matcher
pub mod Limit
pub mod Cors
pub mod Extractors
pub mod Proxy
pub mod Cache
pub mod Config
pub mod Headers
pub mod State
pub mod Startup
