-- ===== src/Tests.antt =====
-- Runs of the models on concrete inputs, and the theorems applied to such inputs.
mod RangeMap
mod Lru
mod Yenc
mod Breaker
mod Policy
mod LoginThrottle
mod Fallback
mod Reader
mod MissingCache
mod Fetcher
mod Pool
mod Spans
mod StoredRar
mod Volumes
mod ReadAhead
mod EncryptedRar
mod SingleFlight
