-- ===== src/Proxy/Tee.antt =====
-- The body of a proxied response: what the client receives, and what is stored of it.
use corsget.Prelude.{ℕ, Option, none, some, List, [], ◌∷◌, ◌++◌, Result, ok, err, length}
use corsget.Text.{Text, text, to_decimal}
use corsget.Limit.{MeteredError, upstream, result_exceeded, connection_exceeded}
use corsget.Cache.Writing.{CacheWriter, write, finished}

-- `MeteredError::to_string`.
unfoldable pub metered_message : MeteredError → Text
metered_message (upstream e) = text "upstream stream error: " ++ e
metered_message (result_exceeded used max) =
    text "result size cap exceeded ("
    ++ to_decimal used
    ++ text " > "
    ++ to_decimal max
    ++ text " bytes)"
metered_message (connection_exceeded max secs) =
    text "bandwidth limit exceeded for tier ("
    ++ to_decimal max
    ++ text " bytes / "
    ++ to_decimal secs
    ++ text "s)"

-- Writes one chunk, and gives the writer up when that fails.
unfoldable pub write_chunk :
    Result (Text × Text) (Unit {0}) → Text → Option CacheWriter → Option CacheWriter
write_chunk outcome bytes none = none
write_chunk outcome bytes (some writer) =
    let written = write outcome bytes writer in
    elim written.1 [ ok _ ↦ some written.0 | err _ ↦ none ]

-- What is left to finish at the end of the stream.
unfoldable pub finish_writer : Option CacheWriter → Option CacheWriter
finish_writer none = none
finish_writer (some writer) = some (finished writer)

-- The stream of `proxy_handler`: the items for the client, and the writer that is committed, if it is
-- still there at the end. `outcomes` is what writing a chunk gives, by the number of items left.
unfoldable pub tee :
    (ℕ → Result (Text × Text) (Unit {0}))
    → Option CacheWriter
    → List (Result MeteredError Text)
    → List (Result Text Text) × Option CacheWriter
tee outcomes writer [] = ([], finish_writer writer)
tee outcomes writer (err e ∷ items) = (err (metered_message e) ∷ [], none)
tee outcomes writer (ok bytes ∷ items) =
    let (rest, committed) =
      tee outcomes (write_chunk (outcomes (length items)) bytes writer) items in
    (ok bytes ∷ rest, committed)
