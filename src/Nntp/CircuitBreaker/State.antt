-- ===== src/Nntp/CircuitBreaker/State.antt =====
-- What each operation of the breaker does to each provider, and what holds of every state.
use drakkar.Prelude.{
  ℕ, ◌+◌, ◌*◌, ◌≤◌, ◌≡◌, Bool, true, false, ◌&&◌, Option, none, some, List, [], ◌∷◌, inl, inr,
  arith, if◌then◌else◌, Bool-cases,
}
use drakkar.Prelude.Bytes.{Bytes, bytes_eq}
use drakkar.Prelude.Dict.{lookup, lookup-insert, lookup-remove}
use drakkar.Nntp.Errors.{Error, second, is_throttle_like_err}
use drakkar.Nntp.CircuitBreaker.{
  breaker_base_cooldown, breaker_max_cooldown, BreakerState, ProviderCircuitBreaker, allow,
  record_success, fail_state, record_failure, new_provider_circuit_breaker,
}

-- What a call of the breaker may do.
pub data Event : Type 0 where
  success : Bytes → Event
  failure : Bytes → Error → ℕ → Event

abbrev pub apply : ProviderCircuitBreaker → Event → ProviderCircuitBreaker
apply b (success name) = record_success b name
apply b (failure name err now) = record_failure b name err now

abbrev pub run : ProviderCircuitBreaker → List Event → ProviderCircuitBreaker
run b [] = b
run b (e ∷ es) = run (apply b e) es

-- The clock does not run backwards: the failures are recorded at or after `t`, in order.
abbrev pub InOrder : ℕ → List Event → Type 0
InOrder t [] = Unit
InOrder t (success name ∷ es) = InOrder t es
InOrder t (failure name err now ∷ es) = (t ≤ now) × InOrder now es

abbrev pub clock_after : ℕ → List Event → ℕ
clock_after t [] = t
clock_after t (success name ∷ es) = clock_after t es
clock_after t (failure name err now ∷ es) = clock_after now es

-- At the time `t`: the cooldown lies between its bounds, the last failure is past, and a provider is
-- disabled for at most the longest cooldown after it.
pub record IsHealthy (t : ℕ) (st : BreakerState) : Type 0 where
  pub base : breaker_base_cooldown ≤ st.cooldown
  pub capped : st.cooldown ≤ breaker_max_cooldown
  pub past : st.last_failure_at ≤ t
  pub bounded : st.disabled_until ≤ st.last_failure_at + breaker_max_cooldown

abbrev pub IsHealthyOption : ℕ → Option BreakerState → Type 0
IsHealthyOption t none = Unit
IsHealthyOption t (some st) = IsHealthy t st

-- Every provider's state, by lookup.
abbrev pub IsValid : ℕ → ProviderCircuitBreaker → Type 0
IsValid t b = (name : Bytes) → IsHealthyOption t (lookup name b)

-- A failure changes only the state of its own provider, and only if it looks like throttling.
pub lookup-record_failure :
    (b : ProviderCircuitBreaker) (name j : Bytes) (err : Error) (now : ℕ)
    → lookup j (record_failure b name err now) ≡ (
        if is_throttle_like_err err && bytes_eq name j
        then some (fail_state (lookup name b) now)
        else lookup j b)
unfolding record_failure
lookup-record_failure b name j err now =
    ground (arith, lookup-insert name j (fail_state (lookup name b) now) b)

fail_state-IsHealthy :
    (t : ℕ) (st : Option BreakerState) (now : ℕ)
    → IsHealthyOption t st
    → t ≤ now
    → IsHealthy now (fail_state st now)
unfolding fail_state
fail_state-IsHealthy t none now h l = ground arith
fail_state-IsHealthy t (some st) now h l = ground arith

IsHealthy-later :
    (t now : ℕ) (st : Option BreakerState) → IsHealthyOption t st → t ≤ now → IsHealthyOption now st
IsHealthy-later t now none h l = tt
IsHealthy-later t now (some st) h l = omega arith

healthy_at :
    (t : ℕ) (b : ProviderCircuitBreaker) (name j : Bytes) (now : ℕ) (own : Bool)
    → IsValid t b
    → t ≤ now
    → IsHealthyOption now (if own then some (fail_state (lookup name b) now) else lookup j b)
healthy_at t b name j now true v l = fail_state-IsHealthy t (lookup name b) now (v name) l
healthy_at t b name j now false v l = IsHealthy-later t now (lookup j b) (v j) l

record_failure-IsValid :
    (t : ℕ) (b : ProviderCircuitBreaker) (name : Bytes) (err : Error) (now : ℕ)
    → IsValid t b
    → t ≤ now
    → IsValid now (record_failure b name err now)
record_failure-IsValid t b name err now v l j =
    rw (lookup-record_failure b name j err now)
      (healthy_at t b name j now (is_throttle_like_err err && bytes_eq name j) v l)

record_success-IsValid :
    (t : ℕ) (b : ProviderCircuitBreaker) (name : Bytes)
    → IsValid t b
    → IsValid t (record_success b name)
unfolding record_success
record_success-IsValid t b name v j =
    rw (lookup-remove name j b)
      (elim (Bool-cases (bytes_eq name j)) [ inl e ↦ rw e tt | inr e ↦ rw e (v j) ])

run-IsValid :
    (t : ℕ) (b : ProviderCircuitBreaker) (es : List Event)
    → IsValid t b
    → InOrder t es
    → IsValid (clock_after t es) (run b es)
run-IsValid t b [] v o = v
run-IsValid t b (success name ∷ es) v o =
    run-IsValid t (record_success b name) es (record_success-IsValid t b name v) o
run-IsValid t b (failure name err now ∷ es) v (l, o) =
    run-IsValid now (record_failure b name err now) es (record_failure-IsValid t b name err now v l)
      o

new-IsValid : IsValid 0 new_provider_circuit_breaker
unfolding new_provider_circuit_breaker lookup
new-IsValid name = tt

-- Whatever was recorded since the start, by a clock that does not run backwards, a provider's
-- cooldown is between 3 and 30 seconds, and once 30 seconds have passed since its last counted
-- failure a request to it is allowed.
pub allow_after_cooldown :
    (es : List Event) (name : Bytes) (st : BreakerState) (now : ℕ)
    → InOrder 0 es
    → lookup name (run new_provider_circuit_breaker es) ≡ some st
    → (3 * second ≤ st.cooldown)
      × (st.cooldown ≤ 30 * second)
      × (st.last_failure_at + 30 * second ≤ now
          → allow (run new_provider_circuit_breaker es) name now ≡ true)
unfolding allow
allow_after_cooldown es name st now o h =
    let v = run-IsValid 0 new_provider_circuit_breaker es new-IsValid o name in
    let healthy : IsHealthy (clock_after 0 es) st = rw h at v in
    (healthy.base, healthy.capped, λ p. rw h (ground arith))

-- A success makes the breaker forget the provider, and leaves every other provider as it was.
allow-record_success :
    (b : ProviderCircuitBreaker) (name j : Bytes) (now : ℕ)
    → allow (record_success b name) j now ≡ (if bytes_eq name j then true else allow b j now)
unfolding allow record_success
allow-record_success b name j now =
    rw (lookup-remove name j b)
      (elim (Bool-cases (bytes_eq name j)) [ inl t ↦ rw t | inr t ↦ rw t ])
