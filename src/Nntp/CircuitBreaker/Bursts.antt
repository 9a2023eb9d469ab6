-- ===== src/Nntp/CircuitBreaker/Bursts.antt =====
-- When a burst of failures disables a provider, and for how long.
use drakkar.Prelude.{
  ℕ, zero, suc, ◌+◌, ◌-◌, ◌*◌, ◌≤◌, ◌<◌, ◌≡◌, refl, ap, ◌∙◌, min, true, none, some, List, [], ◌∷◌,
  arith, ltb, leb, if◌then◌else◌, length,
}
use drakkar.Prelude.Bytes.{Bytes, bytes_eq_refl}
use drakkar.Prelude.Dict.{lookup}
use drakkar.Nntp.Errors.{Error, is_throttle_like_err}
use drakkar.Nntp.CircuitBreaker.{
  breaker_trip_threshold, breaker_base_cooldown, breaker_max_cooldown, failure_window, BreakerState,
  ProviderCircuitBreaker, allow, fail_state, longer_cooldown, record_failure,
}
use drakkar.Nntp.CircuitBreaker.State.{lookup-record_failure}

-- The cooldown of the k-th trip in a row: 3 seconds, doubled each time, up to 30.
abbrev pub cooldown_of : ℕ → ℕ
cooldown_of zero = breaker_base_cooldown
cooldown_of (suc k) = min (2 * cooldown_of k) breaker_max_cooldown

-- Failures that come one after the other, each at most the window after the one before.
abbrev pub IsBurst : ℕ → List ℕ → Type 0
IsBurst last [] = Unit
IsBurst last (t ∷ ts) = (0 < t) × (t ≤ last + failure_window) × IsBurst t ts

abbrev pub last_of : ℕ → List ℕ → ℕ
last_of t [] = t
last_of t (u ∷ ts) = last_of u ts

module _ (name : Bytes) (err : Error) where
  abbrev pub fail_all : ProviderCircuitBreaker → List ℕ → ProviderCircuitBreaker
  fail_all b [] = b
  fail_all b (t ∷ ts) = fail_all (record_failure b name err t) ts

-- The state after `n` failures of one burst, the last at `t`.
record IsAfter (n t : ℕ) (st : BreakerState) : Type 0 where
  counted : st.consecutive_failures ≡ n
  at : st.last_failure_at ≡ t
  started : 0 < t
  quiet : n < breaker_trip_threshold → (st.disabled_until ≡ 0) × (st.cooldown ≡ cooldown_of 0)
  tripped :
      breaker_trip_threshold ≤ n
      → (st.disabled_until ≡ t + cooldown_of (n - breaker_trip_threshold))
        × (st.cooldown ≡ cooldown_of (n - breaker_trip_threshold + 1))

longer_cooldown-cooldown_of : (k : ℕ) → longer_cooldown (cooldown_of k) ≡ cooldown_of (suc k)
unfolding longer_cooldown
longer_cooldown-cooldown_of zero = refl
longer_cooldown-cooldown_of (suc k) = ground arith

first_failure : (t : ℕ) → 0 < t → IsAfter 1 t (fail_state none t)
unfolding fail_state
first_failure t h = ground arith

next_failure :
    (n t u : ℕ) (st : BreakerState)
    → IsAfter n t st
    → 0 < u
    → u ≤ t + failure_window
    → IsAfter (n + 1) u (fail_state (some st) u)
unfolding fail_state
next_failure n t u st a h k = ground (
  arith,
  longer_cooldown-cooldown_of 0,
  longer_cooldown-cooldown_of (n - breaker_trip_threshold + 1),
)

module _ (name : Bytes) (err : Error) (throttled : is_throttle_like_err err ≡ true) where
  own_failure :
      (b : ProviderCircuitBreaker) (t : ℕ)
      → lookup name (record_failure b name err t) ≡ some (fail_state (lookup name b) t)
  own_failure b t = rw (lookup-record_failure b name name err t, throttled, bytes_eq_refl name)

  burst_state :
      (n t : ℕ) (st : BreakerState) (b : ProviderCircuitBreaker) (ts : List ℕ)
      → lookup name b ≡ some st
      → IsAfter n t st
      → IsBurst t ts
      → (st' : BreakerState) × (lookup name (fail_all name err b ts) ≡ some st')
        × IsAfter (n + length ts) (last_of t ts) st'
  burst_state n t st b [] e a h = (st, e, let q : n + 0 ≡ n = omega arith in rw q a)
  burst_state n t st b (u ∷ ts) e a (p, l, h) =
      let (st', e', a') =
        burst_state (n + 1) u (fail_state (some st) u) (record_failure b name err u) ts
          (own_failure b u ∙ ap (λ o. some (fail_state o u)) e) (next_failure n t u st a p l) h in
      (st', e', let q : n + suc (length ts) ≡ n + 1 + length ts = omega arith in rw q a')

  -- A provider without recorded failures that throttles `n` times in one burst, each failure within
  -- two seconds of the one before: below 40 failures its requests are all allowed; from 40 on they
  -- are refused until the cooldown has passed since the last failure, 3 seconds at the 40th, doubled
  -- with each further failure up to 30, and allowed afterwards.
  pub allow_after_burst :
      (b : ProviderCircuitBreaker) (t : ℕ) (ts : List ℕ) (now : ℕ)
      → lookup name b ≡ none
      → 0 < t
      → IsBurst t ts
      → let n = length (t ∷ ts) in
        allow (fail_all name err b (t ∷ ts)) name now ≡ (
          if ltb n breaker_trip_threshold
          then true
          else leb (last_of t ts + cooldown_of (n - breaker_trip_threshold)) now)
  allow_after_burst b t ts now e h burst =
      let (st, f, a) =
        burst_state 1 t (fail_state none t) (record_failure b name err t) ts
          (own_failure b t ∙ ap (λ o. some (fail_state o t)) e) (first_failure t h) burst in
      let c : 1 + length ts ≡ suc (length ts) = omega arith in
      let a' : IsAfter (suc (length ts)) (last_of t ts) st = rw c at a in
      unfold allow in rw f (ground arith)
