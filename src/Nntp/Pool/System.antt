-- ===== src/Nntp/Pool/System.antt =====
-- internal/nntp/pool.go, all goroutines together: the pool, and how many sessions each kind of caller
-- holds or dials. Every event is one atomic piece of acquire, release, discard, acquireGate,
-- keepWarmOnce, sweepOnce or DrainIdle, in any order; an event that is not possible changes nothing.
-- The test for a free slot and the wait that follows it are one event.
use drakkar.Prelude.{
  ℕ, ◌+◌, ◌-◌, Bool, true, ◌&&◌, none, some, List, [], ◌∷◌, ◌++◌, ltb, if◌then◌else◌, length,
}
use drakkar.Prelude.Int.{ℤ, pos, ltb_ℤ}
use drakkar.Nntp.Pool.{
  PooledSession, PooledSource, new_pooled_source_reserved, discarded, free_slot, reserve_slot,
  warm_limit, receive_idle, is_stale, send_idle, enter_gate, leave_gate,
}

-- Who holds or dials a session: a caller that bypasses the gate, one that has passed it, or keepWarmOnce.
pub data Caller : Type 0 where
  direct gated warming : Caller

pub record Users : Type 0 where
  pub held : ℕ
  pub dialing : ℕ

-- `ready` counts the callers that have passed the gate and hold or dial nothing, `closing` the
-- sessions that are closed while their slot is not free yet, `kept` those that a sweep has taken out
-- of the channel, and `parked` the callers in the last select of `acquire`.
pub record System : Type 0 where
  pub pool : PooledSource
  pub direct_users : Users
  pub gated_users : Users
  pub warm_users : Users
  pub ready : ℕ
  pub closing : ℕ
  pub kept : List PooledSession
  pub parked : ℕ

abbrev pub nobody : Users
nobody = record { held = 0; dialing = 0 }

unfoldable pub new_system : ℤ → ℤ → System
new_system max_open reserved = record {
  pool = new_pooled_source_reserved max_open reserved;
  direct_users = nobody;
  gated_users = nobody;
  warm_users = nobody;
  ready = 0;
  closing = 0;
  kept = [];
  parked = 0;
}

abbrev pub users : Caller → System → Users
users direct s = s.direct_users
users gated s = s.gated_users
users warming s = s.warm_users

-- A caller that passed the gate is ready exactly while it neither holds nor dials.
abbrev pub set_users : Caller → Users → System → System
set_users direct u s = record s { direct_users = u }
set_users gated u s = record s {
  gated_users = u;
  ready = s.ready + s.gated_users.held + s.gated_users.dialing - u.held - u.dialing;
}
set_users warming u s = record s { warm_users = u }

-- The caller may start: one of the gate's has to be ready.
abbrev pub may_start : Caller → System → Bool
may_start direct s = true
may_start gated s = ltb 0 s.ready
may_start warming s = true

abbrev pub start_limit : Caller → System → ℕ
start_limit direct s = s.pool.max_open
start_limit gated s = s.pool.max_open
start_limit warming s = warm_limit s.pool

abbrev pub with_held : Users → ℕ → Users
with_held u n = record u { held = n }

abbrev pub with_dialing : Users → ℕ → Users
with_dialing u n = record u { dialing = n }

pub data Event : Type 0 where
  enters leaves : Event  -- acquireGate and its release
  takes : Caller → ℕ → Event  -- a receive from idle in acquire
  dials dialed dial_fails : Caller → Event  -- around a call of the factory
  releases : Caller → ℕ → Event
  discards : Caller → Event
  closes : Event  -- the slot of a closed session becomes free
  sweeps : ℕ → Event  -- a receive in sweepOnce
  puts_back : Event  -- a send in sweepOnce
  drains : Event  -- a receive in DrainIdle
  parks wakes gives_up : Event  -- the last select of acquire, and its cases on freed and on the context
  served : Caller → ℕ → Event  -- its case on idle

-- A session came out of the channel: a stale one is closed, a fresh one goes to the caller.
unfoldable pub take_session : Caller → ℕ → System → PooledSession × PooledSource → System
unfolding is_stale
take_session c now s (x, p) =
    let s' = record s { pool = p } in
    if is_stale x now
    then record s' { closing = s.closing + 1 }
    else set_users c (with_held (users c s) ((users c s).held + 1)) s'

unfoldable pub takes_step : Caller → ℕ → System → System
unfolding take_session receive_idle
takes_step c now s =
    if may_start c s
    then elim (receive_idle s.pool) [ none ↦ s | some r ↦ take_session c now s r ]
    else s

unfoldable pub served_step : Caller → ℕ → System → System
unfolding takes_step
served_step c now s =
    if ltb 0 s.parked && may_start c s && ltb 0 (length s.pool.idle)
    then takes_step c now (record s { parked = s.parked - 1 })
    else s

unfoldable pub dials_step : Caller → System → System
unfolding reserve_slot
dials_step c s =
    if may_start c s
    then elim (reserve_slot s.pool (start_limit c s)) [
      | none ↦ s
      | some p ↦
          set_users c (with_dialing (users c s) ((users c s).dialing + 1)) (record s { pool = p })
    ]
    else s

unfoldable pub dialed_step : Caller → System → System
dialed_step c s =
    let u = users c s in
    if ltb 0 u.dialing
    then set_users c (record { held = u.held + 1; dialing = u.dialing - 1 }) s
    else s

-- `p.open--`, and the error: there is no signal here.
unfoldable pub dial_fails_step : Caller → System → System
unfolding free_slot
dial_fails_step c s =
    let u = users c s in
    if ltb 0 u.dialing
    then set_users c (with_dialing u (u.dialing - 1)) (record s { pool = free_slot s.pool })
    else s

unfoldable pub releases_step : Caller → ℕ → System → System
unfolding send_idle
releases_step c now s =
    let u = users c s in
    let s' = set_users c (with_held u (u.held - 1)) s in
    if ltb 0 u.held
    then elim (send_idle s.pool (record { idle_since = now })) [
      | some p ↦ record s' { pool = p }
      | none ↦ record s' { closing = s.closing + 1 }
    ]
    else s

unfoldable pub discards_step : Caller → System → System
discards_step c s =
    let u = users c s in
    if ltb 0 u.held
    then record (set_users c (with_held u (u.held - 1)) s) { closing = s.closing + 1 }
    else s

unfoldable pub closes_step : System → System
unfolding discarded
closes_step s =
    if ltb 0 s.closing then record s { closing = s.closing - 1; pool = discarded s.pool } else s

unfoldable pub swept : ℕ → System → PooledSession × PooledSource → System
unfolding is_stale
swept now s (x, p) =
    if is_stale x now
    then record s { pool = p; closing = s.closing + 1 }
    else record s { pool = p; kept = s.kept ++ x ∷ [] }

unfoldable pub put_back : System → PooledSession → List PooledSession → System
unfolding send_idle
put_back s x rest = elim (send_idle s.pool x) [
  | some p ↦ record s { pool = p; kept = rest }
  | none ↦ record s { kept = rest; closing = s.closing + 1 }
]

unfoldable pub step : System → Event → System
unfolding takes_step served_step dials_step dialed_step dial_fails_step releases_step discards_step
    closes_step swept put_back receive_idle enter_gate leave_gate
step s enters = elim (enter_gate s.pool) [
  | none ↦ s
  | some p ↦ record s { pool = p; ready = s.ready + 1 }
]
step s leaves =
    if ltb 0 s.ready then record s { pool = leave_gate s.pool; ready = s.ready - 1 } else s
step s (takes c now) = takes_step c now s
step s (served c now) = served_step c now s
step s gives_up = record s { parked = s.parked - 1 }
step s (dials c) = dials_step c s
step s (dialed c) = dialed_step c s
step s (dial_fails c) = dial_fails_step c s
step s (releases c now) = releases_step c now s
step s (discards c) = discards_step c s
step s closes = closes_step s
step s (sweeps now) = elim (receive_idle s.pool) [ none ↦ s | some r ↦ swept now s r ]
step s puts_back = elim s.kept [ [] ↦ s | x ∷ rest ↦ put_back s x rest ]
step s drains = elim (receive_idle s.pool) [
  | none ↦ s
  | some r ↦ record s { pool = r.1; closing = s.closing + 1 }
]
step s parks =
    if ltb_ℤ s.pool.opened (pos s.pool.max_open)
    then s
    else if ltb 0 (length s.pool.idle)
    then s
    else record s { parked = s.parked + 1 }
step s wakes =
    if ltb 0 s.parked
    then if ltb 0 s.pool.freed
      then record s { parked = s.parked - 1; pool = record s.pool { freed = s.pool.freed - 1 } }
      else s
    else s

unfoldable pub run : System → List Event → System
unfolding step
run s [] = s
run s (e ∷ es) = run (step s e) es
