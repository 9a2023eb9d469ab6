-- ===== src/Cache.antt =====
-- internal/cache: the in-memory cache of decoded article bytes, a shard of it and the whole.
pub mod Shard
pub mod ByteLru
pub mod SingleFlight
