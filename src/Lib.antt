-- ===== src/Lib.antt =====
-- A model of the core of PJS, a protocol that streams a JSON document as a skeleton and patches, the
-- most important first.
--
-- The parts and how they interact. A client opens a session (`StreamSession`), which hosts streams.
-- A stream holds one JSON document and makes frames from it: a skeleton with the shape of the
-- document, patch frames with its values, and a completion frame. A priority heuristic ranks each
-- value by its key, depth and size; patches are grouped into frames, and a session picks the best
-- frames of all its streams. On the other way, a streamer makes the whole plan of a document and the
-- client's reconstructor applies its frames. A validator checks documents against schemas, and a rate
-- limiter admits requests, connections and messages. Compressed bytes are read under limits, and
-- frames wait in channels with a budget of bytes. Each part is a pure state machine behind
-- `&mut self`; here an operation maps a state to the state after it, with its result.
--
-- Files, and the code that they model (paths from the repository's root):
--   Outcome      crates/pjs-domain/src/lib.rs: DomainError, DomainResult and the operator `?`.
--   Priority     crates/pjs-domain/src/value_objects/priority.rs.
--   JsonPath     crates/pjs-domain/src/value_objects/json_path.rs: the accessors, Display (`display`)
--                and FromStr (`from_str`). Keys and Parse hold lemmas on the scanners, RoundTrip and
--                Laws what the operations satisfy.
--   JsonData     crates/pjs-domain/src/value_objects/json_data.rs: the value, `path`, `set_path`;
--                Equality is its equality and hash, Deserialize is the visitor, with one constructor of `Input` for each of its methods.
--   Heuristic    crates/pjs-domain/src/services/priority.rs: `compute_priority`.
--   Frame        crates/pjs-domain/src/entities/frame.rs.
--   Stream       crates/pjs-domain/src/entities/stream.rs: the operations; Extract is the walk that
--                makes the skeleton and the patches, Chunks the grouping into frames, Lifecycle any
--                sequence of calls, Frames the batches.
--   Session      crates/pjs-core/src/domain/aggregates/stream_session.rs: Basics is the life cycle,
--                Streams the operations on one stream, Batch those across streams. Counters, Closing
--                and Batch/Selection hold what they satisfy. The events are of
--                crates/pjs-domain/src/events/mod.rs.
--   Streamer     crates/pjs-core/src/stream/priority.rs: `analyze`; Batches and Plan are on what it makes.
--   Reconstruct  crates/pjs-core/src/stream/reconstruction.rs: Laws is on the walk along a path, Spots
--                on where an operation writes, Patches on the operations, Queue on the frames.
--   Schema       crates/pjs-domain/src/value_objects/schema.rs.
--   Validation   crates/pjs-core/src/domain/services/validation_service.rs; Cache is its cache of
--                patterns, Meaning what a schema means, Leaves, Uniqueness and Nested the checks
--                against it.
--   RateLimit    crates/pjs-core/src/security/rate_limit.rs: Guard holds a connection, Inv is the
--                invariant, Traces any sequence of calls, Waiting what a client is told.
--   Decompression  crates/pjs-core/src/security/compression_bomb.rs and
--                crates/pjs-core/src/compression/secure.rs: Limits is on what is collected, Success and
--                RoundTrip on the results.
--   BoundedChannel  crates/pjs-core/src/infrastructure/bounded_channel.rs: Budget is on the permits.
--   Rebuild      the streamer and the reconstruction engine together: Steps and Here say what a patch does
--                below a path, Appends and Walk what the patches of a value do, Frames and Delivery what
--                the client has at the end.
--   Store        crates/pjs-core/src/infrastructure/adapters/generic_store.rs.
--   Repository   crates/pjs-core/src/infrastructure/adapters/gat_memory_repository.rs with the criteria, filters
--                and pages of crates/pjs-core/src/domain/ports/repositories.rs: Atomic holds the methods that
--                change a session under its lock, Queries and Streams the rest; Cache, Kept and Calls are on
--                the cached statistics, Refines on the atomic methods, Pages, Criteria and Status on the
--                queries.
--   Dictionary   crates/pjs-core/src/compression/mod.rs and crates/pjs-core/src/stream/compression_integration.rs,
--                the dictionary scheme: building, substitution, metadata and decoding.
--   Words, F64   machine integers and the text of a `usize`; operations on `f64` as a parameter.
--   Prelude      tests, lists, maps, text and the stable sort.
--
-- Correspondence. `usize` and `u64` are 64 bits wide and their additions wrap, as in release builds;
-- a `String` is its list of code points, with the length in UTF-8; a `HashMap` is a list of entries
-- in an order of iteration, with one entry for each key; an `f64` is its bit pattern. A method with
-- `&mut self` that can fail after a change returns the state beside the result; one that fails before
-- any change returns the error alone.
--
-- Parameters. The clocks (a reading for each call, in order), the random identifiers, chrono's
-- addition of seconds, `to_lowercase` and the arithmetic of `f64` are arguments, as is the text of a float; so are
-- the compiler of regular expressions, the equality of the items in a hash set, the codecs with the
-- quotient of two sizes, and tokio's semaphore and queue. Repositories keep sessions and streams in
-- maps whose methods are single steps, and one handle uses a repository: a clone is not modelled.
--
-- Fuel. The path parser takes one unit for each character of the text and each segment uses up at
-- least one character; the decimal text of `n` takes `n + 1` rounds of a division by ten; the cut of a
-- list of `n` items into chunks takes `n` rounds, since a chunk is not empty; the validator has as many
-- levels as its maximum depth and one, which is where the source answers an error.
--
-- Not modelled: message texts of errors, serde glue, percentages, the progress estimates and rates
-- (`f32` and `f64` rounding), the arithmetic of the token bucket, the transports, handlers, the other
-- stores, the other schemes of structural compression, the parsers and the JavaScript client.
pub mod Prelude
pub mod Outcome
pub mod Priority
pub mod Words
pub mod JsonPath
pub mod F64
pub mod JsonData
pub mod Heuristic
pub mod Frame
pub mod Stream
pub mod Session
pub mod BoundedChannel
pub mod Decompression
pub mod Dictionary
pub mod RateLimit
pub mod Rebuild
pub mod Reconstruct
pub mod Repository
pub mod Schema
pub mod Store
pub mod Streamer
pub mod Validation
