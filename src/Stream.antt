-- ===== src/Stream.antt =====
-- internal/stream: the byte ranges of virtual files, and the reader over them.
pub mod RangeMap
pub mod DirectReader
pub mod StoredRar
pub mod ReadAhead
pub mod EncryptedRar
pub mod Sessions
