-- ===== src/Tests/Breaker.antt =====
-- The circuit breaker on short histories (internal/nntp/circuit_breaker.go).
use drakkar.Prelude.{
  ℕ, ◌+◌, ◌-◌, ◌*◌, ◌≤◌, some, true, false, List, [], ◌∷◌, ◌≡◌, refl, arith, ltb, leb,
  if◌then◌else◌, length, replicate,
}
use drakkar.Prelude.Bytes.{Bytes, codes, bytes_eq}
use drakkar.Prelude.Dict.{lookup, insert}
use drakkar.Nntp.Errors.{Error, second, is_throttle_like_err}
use drakkar.Nntp.CircuitBreaker.{
  breaker_trip_threshold, BreakerState, new_provider_circuit_breaker, allow, record_failure,
}
use drakkar.Nntp.CircuitBreaker.State.{Event, failure, run, allow_after_cooldown}
use drakkar.Nntp.CircuitBreaker.Bursts.{cooldown_of, fail_all, last_of, allow_after_burst}

abbrev timeout : Error
timeout = record {
  message = codes "read: i/o timeout";
  circuit_open = false;
  article_missing = false;
}

abbrev news : Bytes
news = codes "news"

timeout_throttles : is_throttle_like_err timeout ≡ true
unfolding is_throttle_like_err
timeout_throttles = refl

-- Forty failures at the instant 5.
abbrev forty : List ℕ
forty = replicate 39 5

allow_after_burst_example :
    allow (fail_all news timeout new_provider_circuit_breaker (5 ∷ forty)) news 6 ≡ (
      if ltb (length (5 ∷ forty)) breaker_trip_threshold
      then true
      else leb (last_of 5 forty + cooldown_of (length (5 ∷ forty) - breaker_trip_threshold)) 6)
allow_after_burst_example =
    allow_after_burst news timeout timeout_throttles new_provider_circuit_breaker 5 forty 6
      (unfold new_provider_circuit_breaker lookup in refl) (omega arith) (omega arith)

abbrev once : List Event
once = failure news timeout 7 ∷ []

abbrev one_failure : BreakerState
one_failure = record {
  consecutive_failures = 1;
  last_failure_at = 7;
  disabled_until = 0;
  cooldown = 3_000_000_000;
}

once_recorded : lookup news (run new_provider_circuit_breaker once) ≡ some one_failure
unfolding lookup insert bytes_eq record_failure new_provider_circuit_breaker is_throttle_like_err
once_recorded = refl

allow_after_cooldown_example :
    (3 * second ≤ one_failure.cooldown)
    × (one_failure.cooldown ≤ 30 * second)
    × (one_failure.last_failure_at + 30 * second ≤ 100 * second
        → allow (run new_provider_circuit_breaker once) news (100 * second) ≡ true)
allow_after_cooldown_example =
    allow_after_cooldown once news one_failure (100 * second) (omega arith) once_recorded
