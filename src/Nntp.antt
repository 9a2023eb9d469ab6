-- ===== src/Nntp.antt =====
-- internal/nntp: errors of the article sources, the circuit breaker of the providers, and the
-- fallback over several of them.
pub mod Errors
pub mod CircuitBreaker
pub mod Fallback
pub mod ArticleSource
pub mod MissingCache
pub mod Pool
pub mod Fetcher
