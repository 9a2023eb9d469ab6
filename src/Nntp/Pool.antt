-- ===== src/Nntp/Pool.antt =====
-- internal/nntp/pool.go: the pool of connections to one provider. What stands here are the atomic
-- pieces of its methods: one use of the lock, or one operation on a channel. The channels are `idle`,
-- in the order of their sends, the number of signals in `freed`, and the number of callers that
-- `lowGate` has admitted. The pool only passes a session on, so that what stands for it is the time
-- since when it is idle.
pub mod System
pub mod Accounts
pub mod Capacity
use drakkar.Prelude.{
  ℕ, ◌+◌, ◌-◌, ◌*◌, Bool, true, false, ◌||◌, Option, none, some, List, [], ◌∷◌, ◌++◌, ltb, leb,
  if◌then◌else◌, length, min,
}
use drakkar.Prelude.Int.{ℤ, pos, ◌+ℤ◌, ◌-ℤ◌, ltb_ℤ, leb_ℤ, pos_part}
use drakkar.Nntp.Errors.{second}
use drakkar.Nntp.ArticleSource.{FetchPriority, priority_interactive}

abbrev pub idle_timeout : ℕ
idle_timeout = 30 * second

abbrev pub min_warm_conns : ℕ
min_warm_conns = 2

pub record PooledSession : Type 0 where
  pub idle_since : ℕ

-- `low_gate` is the capacity of the channel lowGate, `none` where it is nil.
pub record PooledSource : Type 0 where
  pub max_open : ℕ
  pub opened : ℤ
  pub idle : List PooledSession
  pub freed : ℕ
  pub low_gate : Option ℕ
  pub admitted : ℕ

-- The coercions of NewPooledSourceReserved.
unfoldable pub coerce_max_open : ℤ → ℕ
coerce_max_open max_open = if leb_ℤ max_open (pos 0) then 1 else pos_part max_open

unfoldable pub coerce_reserved : ℕ → ℤ → ℕ
coerce_reserved max_open reserved =
    if ltb_ℤ reserved (pos 0)
    then 0
    else if ltb_ℤ (pos (max_open - 1)) reserved
    then max_open - 1
    else pos_part reserved

unfoldable pub new_pooled_source_reserved : ℤ → ℤ → PooledSource
unfolding coerce_max_open coerce_reserved
new_pooled_source_reserved max_open reserved =
    let limit = coerce_max_open max_open in
    let kept = coerce_reserved limit reserved in
    record {
      max_open = limit;
      opened = pos 0;
      idle = [];
      freed = 0;
      low_gate = if ltb 0 kept then some (limit - kept) else none;
      admitted = 0;
    }

unfoldable pub new_pooled_source : ℤ → PooledSource
unfolding new_pooled_source_reserved
new_pooled_source max_open = new_pooled_source_reserved max_open (pos 0)

-- The send to `freed`, whose buffer holds maxOpen signals, or its default.
unfoldable pub notify_freed : PooledSource → PooledSource
notify_freed p = if ltb p.freed p.max_open then record p { freed = p.freed + 1 } else p

-- `p.open--` under the lock.
unfoldable pub free_slot : PooledSource → PooledSource
free_slot p = record p { opened = p.opened -ℤ pos 1 }

-- What `discard` does after it closed the session; a stale session is treated alike.
unfoldable pub discarded : PooledSource → PooledSource
unfolding free_slot notify_freed
discarded p = notify_freed (free_slot p)

-- `p.open++` under the lock, where `p.open` is below a limit: the one of the pool in `acquire`, and
-- also the number of warm connections in `keepWarmOnce`.
unfoldable pub reserve_slot : PooledSource → ℕ → Option PooledSource
reserve_slot p limit =
    if ltb_ℤ p.opened (pos limit) then some (record p { opened = p.opened +ℤ pos 1 }) else none

unfoldable pub warm_limit : PooledSource → ℕ
warm_limit p = min min_warm_conns p.max_open

-- The receive from `idle`, where it holds a session.
unfoldable pub receive_idle : PooledSource → Option (PooledSession × PooledSource)
receive_idle p = elim p.idle [ [] ↦ none | s ∷ rest ↦ some (s, record p { idle = rest }) ]

-- `time.Since(s.idleSince) > idleTimeout`, and the test of the sweep on the cutoff.
unfoldable pub is_stale : PooledSession → ℕ → Bool
is_stale s now = ltb (s.idle_since + idle_timeout) now

-- The send to `idle`, whose buffer has twice as many places as maxOpen; `none` is the default branch.
unfoldable pub send_idle : PooledSource → PooledSession → Option PooledSource
send_idle p s =
    if ltb (length p.idle) (p.max_open * 2)
    then some (record p { idle = p.idle ++ (s ∷ []) })
    else none

-- A caller of this priority goes past the gate without a place in it.
unfoldable pub bypasses_gate : PooledSource → FetchPriority → Bool
bypasses_gate p priority = elim p.low_gate [
  | none ↦ true
  | some _ ↦ leb_ℤ priority_interactive priority
]

-- The send to lowGate; `none` blocks.
unfoldable pub enter_gate : PooledSource → Option PooledSource
enter_gate p = elim p.low_gate [
  | none ↦ none
  | some places ↦
      if ltb p.admitted places then some (record p { admitted = p.admitted + 1 }) else none
]

-- The receive of the function that acquireGate returns.
unfoldable pub leave_gate : PooledSource → PooledSource
leave_gate p = record p { admitted = p.admitted - 1 }

unfoldable pub stats : PooledSource → ℤ × ℕ
stats p = (p.opened, length p.idle)
