-- ===== src/Api/LoginThrottle/Backoff.antt =====
-- The delay after failed logins.
use drakkar.Prelude.{ℕ, zero, suc, ◌-◌, ◌*◌, ◌^◌, ◌≤◌, ◌≡◌, arith, min}
use native.Mathlib.Numerals.{unary_clauses}
use drakkar.Api.LoginThrottle.{LoginThrottleConfig, backoff_loop, backoff}

doubled : (m n d : ℕ) → m ≤ d → min m (d * 2 ^ n) ≡ m
doubled m zero d h = omega arith
doubled m (suc n) d h = simp unary_clauses (let k = doubled m n d h in omega arith)

double_first : (d n : ℕ) → d * 2 ^ suc n ≡ d * 2 * 2 ^ n
double_first d n = simp unary_clauses (omega arith)

backoff_loop-min : (m n d : ℕ) → backoff_loop m n d ≡ min m (d * 2 ^ n)
unfolding backoff_loop
backoff_loop-min m zero d = ground arith
backoff_loop-min m (suc n) d = rw (double_first d n) (
    ground (
      arith,
      backoff_loop-min m n (d * 2),
      doubled m n (d * 2),
      doubled m (suc n) d,
      double_first d n,
    ))

-- After k failures the delay is the base delay doubled for each failure beyond the threshold, up to
-- the maximum, however often it is doubled.
pub backoff_lem :
    (c : LoginThrottleConfig) (failures : ℕ)
    → backoff c failures ≡ min c.max_backoff (c.base_backoff * 2 ^ (failures - c.failure_threshold))
unfolding backoff
backoff_lem c failures =
    backoff_loop-min c.max_backoff (failures - c.failure_threshold) c.base_backoff
