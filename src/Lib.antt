-- ===== src/Lib.antt =====
-- Verification of drakkar, a media server that streams directly from Usenet: a player's read of a
-- byte range is resolved to the segments of an NZB, each segment is an article that is fetched from
-- one of several providers, decoded from yEnc, and kept in memory for the next read.
--
-- The parts and their files:
-- - Stream.RangeMap: internal/stream/range_map.go, from a byte range of a file to the parts of the
--   segments that hold it (ResolveRange, resolveRange). Offsets are ℤ; the sum of the offset and the
--   length wraps around at 64 bits, as in the source. Option models the one error. The binary search of
--   package sort is on fuel, one step more than the length of the table, which the bounds that it
--   halves never use up. Proofs: Search (the search finds the first true answer), Layout (the
--   reference definition), Exact, Tiling, Limit.
-- - Cache.Shard and Cache.ByteLru: internal/cache/byte_lru.go. A shard's list holds its elements from
--   the one used last to the oldest; the map from keys to elements is the list of its keys. The loop
--   of trim is on fuel, the number of elements, and each round removes one. Cloning a slice is the
--   identity, as values are not shared. The hash is a parameter. Proofs: Shard.Invariant,
--   Shard.Recency, ByteLru.Bounds.
-- - Yenc: internal/yenc, the pure Go build. Lines (splitLines), Header (PartInfo and its parser,
--   parseHexUint32), Decoder (DecodeArticle, DecodeArticleWithInfo, verifyExpectedCRCLines). Bytes are
--   numbers below 256 in lists; the CRC-32 is a parameter. Proofs: Lines.Join, Header.Range,
--   Decoder.RoundTrip, Decoder.Article, Decoder.Errors.
-- - Nntp.Errors and Nntp.CircuitBreaker: internal/nntp/circuit_breaker.go and the error classes of
--   article_cache.go. An error is its message and its sentinels; instants and durations are
--   nanoseconds, and the clock is an argument. Proofs: CircuitBreaker.State, CircuitBreaker.Bursts.
-- - Nntp.Pool: internal/nntp/pool.go, the connections to one provider. Pool has the atomic pieces of its
--   methods, one use of the lock or one operation on a channel each; Pool.System puts them together as
--   events of all goroutines, in any order, on the pool and the numbers of sessions that each kind of
--   caller holds or dials. Proofs: Pool.Accounts, Pool.Capacity.
-- - Nntp.Fetcher: internal/nntp/fetcher.go, from a range of a segment to the bytes of its article
--   (FetchRangeInfoPriority). The source of decoded articles is a parameter, with its optional
--   interfaces as options. Proofs: Fetcher.Clip, and Fetcher.Reads and Fetcher.Volumes,
--   where the readers of plain and of stored files read through it.
-- - Database.Spans: internal/database/content_repository.go, the table of spans of a file from the
--   sizes of its segments (computeSpans, spanFileSize, truncateSpans). Proofs: Spans.Ends,
--   Spans.Layout. Database.StoredRar: in the same file, the spans of a file in several volumes
--   (buildStoredRarSpans) and the ranges of the volumes (reconstructStoredRarRanges). The stable sorts
--   are parameters, paths are ASCII. Proofs: StoredRar.Layout, StoredRar.Partition.
-- - Nntp.Fallback and Nntp.ArticleSource: internal/nntp/fallback.go. The sources, the clock, the context
--   and the wait are functions of a world that a call passes on; BodyPriority and StatPriority are one
--   loop with two ways to ask a source. The debug records are kept, as the list of the attempts.
--   Proofs: Fallback.Calls, Fallback.Bounds.
-- - Nntp.MissingCache: internal/nntp/article_cache.go, the map of missing message ids, and
--   in MissingCache.Fetch the calls that go through it. Proofs: Expiry, Held, Fetch.
-- - Stream.DirectReader: internal/stream/direct_reader.go. The fetcher and what other calls do to the
--   spans during a fetch are parameters. The loop of ReadAt is on fuel and gives none where it is used
--   up; other calls may keep the loop going without a bound in the source too. Without them, and with
--   the fetcher of Nntp.Fetcher, a round for each byte of the buffer and one more are enough.
--   Proofs: Spans, Reads, Progress, Places, Content.
-- - Stream.StoredRar: internal/stream/stored_rar_reader.go, a file stored in the volumes of an archive.
--   StoredRar has the published state, its validation and correction, StoredRar.ReadAt the loop of
--   ReadAt, on fuel as above, with as many rounds; other calls publish states while a fetch runs. Proofs: Valid, Realign,
--   Places, Blocks, Rounds, Content.
-- - Stream.ReadAhead: internal/stream/session_manager.go, the sessions of the open streams and the windows
--   that are fetched ahead of them. ReadAhead has the state and the operations, ReadAhead.Schedule the
--   start of a window, ReadAhead.System the interleavings of the calls with the goroutines of the
--   windows, ReadAhead.Launch the loop that starts the fetches of one window. Proofs: Windows, Tracked,
--   Owner, Replaced, Settled, Single (one window for a session), Plan, Start (what a window fetches),
--   Ends, Share.
-- - Stream.Sessions: StartSession of internal/stream/direct_reader.go, and the reader and its manager
--   together.
-- - Stream.EncryptedRar: internal/stream/encrypted_rar_reader.go, with DecryptBlockAligned and
--   VerifyContainerHeader of internal/rarcrypto/rar5.go. The inner reader and the cipher of one block are
--   parameters, the chaining of the blocks is written out. Proofs: Blocks, Plaintext, Verify, Reads.
-- - Cache.SingleFlight: internal/cache/singleflight.go, one fetch for all callers of a key, as events of
--   the callers in any order. Proofs: Invariant, Fetched, Freed, Entered, Kept, Shared.
-- - Api.LoginThrottle: internal/api/login_throttle.go. The loop that makes room is on fuel, the number
--   of entries, and each round removes one. Limits has its calls in any order,
--   with the attempts that were given out. Proofs: Backoff, Capacity, Limits.
-- - Policy: internal/policy/policy.go. Proofs: Agreement, with the error classes of the sources.
-- - Prelude: Boolean tests, lists over the native numbers, signed integers, byte strings, Go's maps.
-- - Tests: runs of the theorems on concrete inputs.
--
-- A mutex that is held through an operation makes the operation one step; the interleavings of several
-- callers are the sequences of such steps. Logging is left out. Not modelled: the database, HTTP
-- clients and handlers, the file system, external processes, the user interface, and the libraries
-- that the source calls.
mod Prelude
pub mod Stream
pub mod Cache
pub mod Yenc
pub mod Api
pub mod Database
pub mod Nntp
pub mod Policy
mod Tests
