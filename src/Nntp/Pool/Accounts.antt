-- ===== src/Nntp/Pool/Accounts.antt =====
-- Every slot of the pool is accounted for.
use drakkar.Prelude.{
  ℕ, ◌+◌, ◌-◌, ◌≤◌, ◌≡◌, ◌&&◌, Bool-cases, Option, none, some, List, [], ◌∷◌, arith, ltb, length,
  length-append, List-cases, inl, inr,
}
use drakkar.Prelude.Int.{ℤ, pos, ◌+ℤ◌, ◌-ℤ◌}
use drakkar.Nntp.Pool.{
  PooledSession, new_pooled_source_reserved, discarded, notify_freed, free_slot, reserve_slot,
  warm_limit, receive_idle, send_idle, enter_gate, leave_gate, coerce_max_open,
}
use drakkar.Nntp.Pool.System.{
  Caller, direct, gated, warming, System, new_system, may_start, Event, enters, leaves, takes,
  dials, dialed, dial_fails, releases, discards, closes, sweeps, puts_back, drains, parks, wakes,
  served, gives_up, take_session, takes_step, served_step, dials_step, dialed_step, dial_fails_step,
  releases_step, discards_step, closes_step, swept, put_back, step, run,
}

-- The sessions that are idle, held, dialed, closed or kept by a sweep.
abbrev pub sessions : System → ℕ
sessions s =
    length s.pool.idle
    + length s.kept
    + s.closing
    + s.direct_users.held
    + s.direct_users.dialing
    + s.gated_users.held
    + s.gated_users.dialing
    + s.warm_users.held
    + s.warm_users.dialing

-- The places of the gate: none without a gate.
abbrev pub places : Option ℕ → ℕ
places none = 0
places (some n) = n

-- The limits are those of the start, the slots taken are the sessions there are, at most as many as the pool may open, and the callers
-- that the gate admitted are those that are ready, hold or dial, at most as many as it has places.
pub record IsAccounted (limit : ℕ) (gate : Option ℕ) (s : System) : Type 0 where
  pub size : s.pool.max_open ≡ limit
  pub gates : s.pool.low_gate ≡ gate
  pub slots : s.pool.opened ≡ pos (sessions s)
  pub bounded : sessions s ≤ s.pool.max_open
  pub inside : s.pool.admitted ≡ s.ready + s.gated_users.held + s.gated_users.dialing
  pub placed : s.pool.admitted ≤ places s.pool.low_gate

takes-IsAccounted :
    {m : ℕ} {g : Option ℕ} (c : Caller) (now : ℕ) (s : System)
    → IsAccounted m g s
    → IsAccounted m g (takes_step c now s)
unfolding takes_step receive_idle take_session
takes-IsAccounted direct now s a = ground arith
takes-IsAccounted gated now s a = ground arith
takes-IsAccounted warming now s a = ground arith

dials-IsAccounted :
    {m : ℕ} {g : Option ℕ} (c : Caller) (s : System)
    → IsAccounted m g s
    → IsAccounted m g (dials_step c s)
unfolding dials_step reserve_slot warm_limit ◌+ℤ◌
dials-IsAccounted direct s a = ground arith
dials-IsAccounted gated s a = ground arith
dials-IsAccounted warming s a = ground arith

dialed-IsAccounted :
    {m : ℕ} {g : Option ℕ} (c : Caller) (s : System)
    → IsAccounted m g s
    → IsAccounted m g (dialed_step c s)
unfolding dialed_step
dialed-IsAccounted direct s a = ground arith
dialed-IsAccounted gated s a = ground arith
dialed-IsAccounted warming s a = ground arith

dial_fails-IsAccounted :
    {m : ℕ} {g : Option ℕ} (c : Caller) (s : System)
    → IsAccounted m g s
    → IsAccounted m g (dial_fails_step c s)
unfolding dial_fails_step free_slot ◌-ℤ◌
dial_fails-IsAccounted direct s a = ground arith
dial_fails-IsAccounted gated s a = ground arith
dial_fails-IsAccounted warming s a = ground arith

releases-IsAccounted :
    {m : ℕ} {g : Option ℕ} (c : Caller) (now : ℕ) (s : System)
    → IsAccounted m g s
    → IsAccounted m g (releases_step c now s)
unfolding releases_step send_idle
releases-IsAccounted direct now s a =
    ground (arith, length-append s.pool.idle (record { idle_since = now } ∷ []))
releases-IsAccounted gated now s a =
    ground (arith, length-append s.pool.idle (record { idle_since = now } ∷ []))
releases-IsAccounted warming now s a =
    ground (arith, length-append s.pool.idle (record { idle_since = now } ∷ []))

discards-IsAccounted :
    {m : ℕ} {g : Option ℕ} (c : Caller) (s : System)
    → IsAccounted m g s
    → IsAccounted m g (discards_step c s)
unfolding discards_step
discards-IsAccounted direct s a = ground arith
discards-IsAccounted gated s a = ground arith
discards-IsAccounted warming s a = ground arith

closes-IsAccounted :
    {m : ℕ} {g : Option ℕ} (s : System) → IsAccounted m g s → IsAccounted m g (closes_step s)
unfolding closes_step discarded notify_freed free_slot ◌-ℤ◌
closes-IsAccounted s a = ground arith

swept-IsAccounted :
    {m : ℕ} {g : Option ℕ} (now : ℕ) (s : System) (x : PooledSession) (rest : List PooledSession)
    → s.pool.idle ≡ x ∷ rest
    → IsAccounted m g s
    → IsAccounted m g (swept now s (x, record s.pool { idle = rest }))
unfolding swept
swept-IsAccounted now s x rest e a = ground (arith, length-append s.kept (x ∷ []))

put_back-IsAccounted :
    {m : ℕ} {g : Option ℕ} (s : System) (x : PooledSession) (rest : List PooledSession)
    → s.kept ≡ x ∷ rest
    → IsAccounted m g s
    → IsAccounted m g (put_back s x rest)
unfolding put_back send_idle
put_back-IsAccounted s x rest e a = ground (arith, length-append s.pool.idle (x ∷ []))

unparked-IsAccounted :
    {m : ℕ} {g : Option ℕ} (n : ℕ) (s : System)
    → IsAccounted m g s
    → IsAccounted m g (record s { parked = n })
unparked-IsAccounted n s a = ground arith

served-IsAccounted :
    {m : ℕ} {g : Option ℕ} (c : Caller) (now : ℕ) (s : System)
    → IsAccounted m g s
    → IsAccounted m g (served_step c now s)
unfolding served_step
served-IsAccounted c now s a =
    let w = takes-IsAccounted c now _ (unparked-IsAccounted (s.parked - 1) s a) in
    elim (Bool-cases (ltb 0 s.parked && may_start c s && ltb 0 (length s.pool.idle))) [
      | inl e ↦ rw (served_step, e) w
      | inr e ↦ rw (served_step, e) a
    ]

step-IsAccounted :
    {m : ℕ} {g : Option ℕ} (s : System) (e : Event) → IsAccounted m g s → IsAccounted m g (step s e)
unfolding step receive_idle enter_gate leave_gate
step-IsAccounted s enters a = ground arith
step-IsAccounted s leaves a = ground arith
step-IsAccounted s (takes c now) a = takes-IsAccounted c now s a
step-IsAccounted s (served c now) a = served-IsAccounted c now s a
step-IsAccounted s gives_up a = ground arith
step-IsAccounted s (dials c) a = dials-IsAccounted c s a
step-IsAccounted s (dialed c) a = dialed-IsAccounted c s a
step-IsAccounted s (dial_fails c) a = dial_fails-IsAccounted c s a
step-IsAccounted s (releases c now) a = releases-IsAccounted c now s a
step-IsAccounted s (discards c) a = discards-IsAccounted c s a
step-IsAccounted s closes a = closes-IsAccounted s a
step-IsAccounted s (sweeps now) a = elim (List-cases s.pool.idle) [
  | inl e ↦ rw (step, e) a
  | inr (x, rest, e) ↦ rw (step, receive_idle, e) (swept-IsAccounted now s x rest e a)
]
step-IsAccounted s puts_back a = elim (List-cases s.kept) [
  | inl e ↦ rw (step, e) a
  | inr (x, rest, e) ↦ rw (step, e) (put_back-IsAccounted s x rest e a)
]
step-IsAccounted s drains a = ground arith
step-IsAccounted s parks a = ground arith
step-IsAccounted s wakes a = ground arith

-- The gate of a new pool.
abbrev pub new_gate : ℤ → ℤ → Option ℕ
new_gate max_open reserved = (new_pooled_source_reserved max_open reserved).low_gate

pub new_system-IsAccounted :
    (max_open reserved : ℤ)
    → IsAccounted
        (coerce_max_open max_open)
        (new_gate max_open reserved)
        (new_system max_open reserved)
unfolding new_system new_pooled_source_reserved
new_system-IsAccounted max_open reserved = ground arith

pub run-IsAccounted :
    {m : ℕ} {g : Option ℕ} (s : System) (es : List Event)
    → IsAccounted m g s
    → IsAccounted m g (run s es)
unfolding run
run-IsAccounted s [] a = a
run-IsAccounted s (e ∷ es) a = run-IsAccounted (step s e) es (step-IsAccounted s e a)
