-- ===== src/Nntp/CircuitBreaker.antt =====
-- internal/nntp/circuit_breaker.go: the health of each provider. Instants are nanoseconds after the
-- zero time, which is 0; the difference of two instants is taken to fit time.Duration (292 years). The
-- clock is an argument of each operation. Each operation holds the breaker's lock, so it is one step.
pub mod State
pub mod Bursts
use drakkar.Prelude.{
  ℕ, suc, ◌+◌, ◌-◌, ◌*◌, Bool, true, false, ◌&&◌, not, Option, none, some, List, [], ltb, ◌==◌,
  if◌then◌else◌,
}
use drakkar.Prelude.Bytes.{Bytes}
use drakkar.Prelude.Dict.{lookup, insert, remove}
use drakkar.Nntp.Errors.{Error, second, is_throttle_like_err}

abbrev pub breaker_trip_threshold : ℕ
breaker_trip_threshold = 40

abbrev pub breaker_base_cooldown : ℕ
breaker_base_cooldown = 3 * second

abbrev pub breaker_max_cooldown : ℕ
breaker_max_cooldown = 30 * second

abbrev pub failure_window : ℕ
failure_window = 2 * second

pub record BreakerState : Type 0 where
  pub consecutive_failures : ℕ
  pub last_failure_at : ℕ
  pub disabled_until : ℕ
  pub cooldown : ℕ

abbrev pub ProviderCircuitBreaker : Type 0
ProviderCircuitBreaker = List (Bytes × BreakerState)

unfoldable pub new_provider_circuit_breaker : ProviderCircuitBreaker
new_provider_circuit_breaker = []

-- `!time.Now().Before(st.disabledUntil)`
unfoldable pub allow_state : Option BreakerState → ℕ → Bool
allow_state none now = true
allow_state (some st) now = not (ltb now st.disabled_until)

unfoldable pub allow : ProviderCircuitBreaker → Bytes → ℕ → Bool
unfolding allow_state
allow b name now = allow_state (lookup name b) now

unfoldable pub record_success : ProviderCircuitBreaker → Bytes → ProviderCircuitBreaker
record_success b name = remove name b

-- The state that a failure starts from: a new one where the map has none.
unfoldable pub state_or_new : Option BreakerState → BreakerState
state_or_new none = record {
  consecutive_failures = 0;
  last_failure_at = 0;
  disabled_until = 0;
  cooldown = breaker_base_cooldown;
}
state_or_new (some st) = st

-- `st.lastFailureAt` is set and longer ago than the window: the streak starts anew. The difference on
-- ℕ stops at 0, which like a negative one is within the window.
unfoldable pub after_gap : BreakerState → ℕ → BreakerState
after_gap st now =
    if not (st.last_failure_at == 0) && ltb failure_window (now - st.last_failure_at)
    then record st { consecutive_failures = 0 }
    else st

-- `st.cooldown *= 2`, up to the maximum.
unfoldable pub longer_cooldown : ℕ → ℕ
longer_cooldown cooldown =
    if ltb cooldown breaker_max_cooldown
    then if ltb breaker_max_cooldown (cooldown * 2) then breaker_max_cooldown else cooldown * 2
    else cooldown

unfoldable pub trip : BreakerState → ℕ → BreakerState
unfolding longer_cooldown
trip st now = record st {
  disabled_until = now + st.cooldown;
  cooldown = longer_cooldown st.cooldown;
}

-- The failure counted, and the return below the threshold.
unfoldable pub count_failure : BreakerState → ℕ → BreakerState
unfolding trip
count_failure st now =
    let counted = record st {
      last_failure_at = now;
      consecutive_failures = st.consecutive_failures + 1;
    } in
    if ltb counted.consecutive_failures breaker_trip_threshold then counted else trip counted now

unfoldable pub fail_state : Option BreakerState → ℕ → BreakerState
unfolding state_or_new after_gap count_failure
fail_state st now = count_failure (after_gap (state_or_new st) now) now

unfoldable pub record_failure : ProviderCircuitBreaker → Bytes → Error → ℕ → ProviderCircuitBreaker
unfolding fail_state
record_failure b name err now =
    if not (is_throttle_like_err err) then b else insert name (fail_state (lookup name b) now) b
