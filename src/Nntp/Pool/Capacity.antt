-- ===== src/Nntp/Pool/Capacity.antt =====
-- What the accounts of the pool mean for its callers.
use drakkar.Prelude.{
  ℕ, suc, zero, ◌+◌, ◌≤◌, ◌<◌, ◌≡◌, refl, List, [], ◌∷◌, ◌++◌, ◌⊎◌, inl, inr, arith, length,
  replicate, List-cases,
}
use drakkar.Prelude.Int.{ℤ, pos, ◌<ℤ◌, ◌+ℤ◌, ◌-ℤ◌}
use drakkar.Nntp.Pool.{
  coerce_max_open, coerce_reserved, new_pooled_source_reserved, reserve_slot, free_slot,
}
use drakkar.Nntp.Pool.System.{
  direct, System, new_system, nobody, Event, dials, dial_fails, parks, step, run, dials_step,
  dial_fails_step,
}
use drakkar.Nntp.Pool.Accounts.{sessions, places, new_gate, new_system-IsAccounted, run-IsAccounted}

-- The system after any events.
abbrev pub after : ℤ → ℤ → List Event → System
after max_open reserved es = run (new_system max_open reserved) es

-- After any events, in any order, the slots taken are exactly the sessions that are idle, held,
-- dialed, about to be closed or out for a sweep, and they are no more than the limit, which is at least
-- one; the callers inside the gate are no more than its places.
pub run-bounded_pool :
    (max_open reserved : ℤ) (es : List Event)
    → let s = after max_open reserved es in
      (s.pool.opened ≡ pos (sessions s))
      × (sessions s ≤ coerce_max_open max_open)
      × (s.gated_users.held + s.gated_users.dialing ≤ places (new_gate max_open reserved))
run-bounded_pool max_open reserved es =
    let a =
      run-IsAccounted (new_system max_open reserved) es
        (new_system-IsAccounted max_open reserved) in
    let g = rw a.gates at a.placed in
    let i = a.inside in (a.slots, rw a.size at a.bounded, omega arith)

places-lt :
    (max_open reserved : ℤ)
    → 0 < coerce_reserved (coerce_max_open max_open) reserved
    → places (new_gate max_open reserved) < coerce_max_open max_open
unfolding new_pooled_source_reserved coerce_reserved coerce_max_open
places-lt max_open reserved h = ground arith

-- With connections reserved, and while no caller of interactive priority and no warm-up holds or dials
-- one and none is about to be closed or out for a sweep, an interactive caller gets a connection at
-- once, whatever the callers of lower priority do: one is idle, or a slot is free.
pub interactive-path :
    (max_open reserved : ℤ) (es : List Event)
    → 0 < coerce_reserved (coerce_max_open max_open) reserved
    → (after max_open reserved es).direct_users ≡ nobody
    → (after max_open reserved es).warm_users ≡ nobody
    → (after max_open reserved es).closing ≡ 0
    → (after max_open reserved es).kept ≡ []
    → (0 < length (after max_open reserved es).pool.idle)
      ⊎ ((after max_open reserved es).pool.opened <ℤ pos (coerce_max_open max_open))
interactive-path max_open reserved es h d w c k =
    let s = after max_open reserved es in
    let a =
      run-IsAccounted (new_system max_open reserved) es
        (new_system-IsAccounted max_open reserved) in
    let g = rw a.gates at a.placed in
    let i = a.inside in
    let o = a.slots in
    elim (List-cases s.pool.idle) [
      | inr (x, rest, e) ↦ inl (rw e (omega arith))
      | inl e ↦ inr (rw o (rw (e, k, c, d, w) (omega (arith, places-lt max_open reserved h))))
    ]

-- `n` callers that dial at the same time.
abbrev pub dial_all : ℕ → List Event
dial_all n = replicate n (dials direct)

abbrev pub fail_all : ℕ → List Event
fail_all n = replicate n (dial_fails direct)

-- `n` dials are under way and nothing else; so many callers wait.
record IsDialing (m n waiting : ℕ) (s : System) : Type 0 where
  size : s.pool.max_open ≡ m
  slots : s.pool.opened ≡ pos n
  quiet : s.pool.idle ≡ []
  silent : s.pool.freed ≡ 0
  under_way : s.direct_users.dialing ≡ n
  waiters : s.parked ≡ waiting

dials-IsDialing :
    (m n : ℕ) (s : System)
    → n < m
    → IsDialing m n 0 s
    → IsDialing m (n + 1) 0 (step s (dials direct))
unfolding step dials_step reserve_slot ◌+ℤ◌
dials-IsDialing m n s h a = ground arith

dial_fails-IsDialing :
    (m n p : ℕ) (s : System)
    → IsDialing m (suc n) p s
    → IsDialing m n p (step s (dial_fails direct))
unfolding step dial_fails_step free_slot ◌-ℤ◌
dial_fails-IsDialing m n p s a = ground arith

parks-IsDialing : (m : ℕ) (s : System) → IsDialing m m 0 s → IsDialing m m 1 (step s parks)
unfolding step
parks-IsDialing m s a = ground arith

dial_all-IsDialing :
    (k m n : ℕ) (s : System)
    → n + k ≤ m
    → IsDialing m n 0 s
    → IsDialing m (n + k) 0 (run s (dial_all k))
unfolding run
dial_all-IsDialing zero m n s h a = let e : n + 0 ≡ n = omega arith in rw e a
dial_all-IsDialing (suc k) m n s h a =
    let e : n + suc k ≡ n + 1 + k = omega arith in
    rw e (
      dial_all-IsDialing k m (n + 1) (step s (dials direct)) (omega arith)
        (dials-IsDialing m n s (omega arith) a))

fail_all-IsDialing :
    (n m p : ℕ) (s : System) → IsDialing m n p s → IsDialing m 0 p (run s (fail_all n))
unfolding run
fail_all-IsDialing zero m p s a = a
fail_all-IsDialing (suc n) m p s a =
    fail_all-IsDialing n m p (step s (dial_fails direct)) (dial_fails-IsDialing m n p s a)

run-append : (s : System) (es fs : List Event) → run s (es ++ fs) ≡ run (run s es) fs
unfolding run
run-append s [] fs = refl
run-append s (e ∷ es) fs = run-append (step s e) es fs

-- Where as many callers dial as the pool may open, another one waits, and all the dials fail, the pool
-- ends with no slot taken while that caller still waits, with neither a session nor a signal for it.
pub run-stranded :
    (max_open reserved : ℤ)
    → let n = coerce_max_open max_open in
      let s = after max_open reserved (dial_all n ++ (parks ∷ fail_all n)) in
      (s.parked ≡ 1) × (s.pool.opened ≡ pos 0) × (s.pool.idle ≡ []) × (s.pool.freed ≡ 0)
run-stranded max_open reserved =
    let n = coerce_max_open max_open in
    let s = new_system max_open reserved in
    let start : IsDialing n 0 0 s =
      (unfold new_system new_pooled_source_reserved in
        record {
          size = refl;
          slots = refl;
          quiet = refl;
          silent = refl;
          under_way = refl;
          waiters = refl;
        }) in
    let z : 0 + n ≡ n = omega arith in
    let full : IsDialing n n 0 (run s (dial_all n)) =
      (let d = dial_all-IsDialing n n 0 s (omega arith) start in rw z at d) in
    let end = fail_all-IsDialing n n 1 _ (parks-IsDialing n _ full) in
    rw (run-append s (dial_all n) (parks ∷ fail_all n))
      (unfold run in (end.waiters, end.slots, end.quiet, end.silent))
