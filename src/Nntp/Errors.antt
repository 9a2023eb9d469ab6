-- ===== src/Nntp/Errors.antt =====
-- The errors of the article sources, as internal/nntp/circuit_breaker.go and article_cache.go read
-- them. An error is its message, and whether errors.Is finds each of the two sentinels in its chain.
use drakkar.Prelude.{ℕ, ◌*◌, Bool, ◌||◌, Option, none, some, if◌then◌else◌}
use drakkar.Prelude.Bytes.{Bytes, codes, contains}

pub record Error : Type 0 where
  pub message : Bytes
  pub circuit_open : Bool  -- errors.Is(err, ErrProviderCircuitOpen)
  pub article_missing : Bool  -- errors.Is(err, ErrArticleMissing)

-- Durations and instants are nanoseconds.
abbrev pub second : ℕ
second = 1_000_000_000

unfoldable pub is_throttle_like_err : Error → Bool
unfolding contains
is_throttle_like_err err =
    err.circuit_open
    || (contains err.message (codes "i/o timeout")
        || contains err.message (codes "deadline exceeded")
        || contains err.message (codes "connection reset")
        || contains err.message (codes "connection refused")
        || contains err.message (codes "provider circuit open"))

abbrev pub missing_article_ttl : ℕ
missing_article_ttl = 24 * 3600 * second

abbrev pub throttle_ttl : ℕ
throttle_ttl = 30 * second

-- `none` stands for (0, false).
unfoldable pub classify_cacheable_error : Error → Option ℕ
unfolding contains
classify_cacheable_error err =
    if err.circuit_open
    then some throttle_ttl
    else if err.article_missing
    then some missing_article_ttl
    else if contains err.message (codes "status 430")
        || contains err.message (codes "status 423")
        || contains err.message (codes "article not found")
        || contains err.message (codes "article missing")
    then some missing_article_ttl
    else none
