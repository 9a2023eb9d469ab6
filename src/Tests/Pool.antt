-- ===== src/Tests/Pool.antt =====
-- A pool of three connections, one of them reserved (internal/nntp/pool.go).
use drakkar.Prelude.{List, ◌+◌, ◌≤◌, ◌<◌, ◌≡◌, ◌⊎◌, refl, [], ◌∷◌, ◌++◌, arith, length}
use drakkar.Prelude.Int.{pos, ◌<ℤ◌, ◌+ℤ◌}
use drakkar.Nntp.Pool.{
  new_pooled_source_reserved, coerce_max_open, coerce_reserved, enter_gate, reserve_slot, send_idle,
}
use drakkar.Nntp.Pool.System.{
  new_system, Event, enters, dials, dialed, releases, parks, gated, step, run, dials_step,
  dialed_step, releases_step,
}
use drakkar.Nntp.Pool.Accounts.{sessions, places, new_gate}
use drakkar.Nntp.Pool.Capacity.{
  after, run-bounded_pool, interactive-path, run-stranded, dial_all, fail_all,
}

-- Two read-aheads come in and dial; one of them gives its session back.
abbrev read_ahead : List Event
read_ahead = enters ∷ enters ∷ dials gated ∷ dials gated ∷ dialed gated ∷ releases gated 7 ∷ []

run-bounded_pool_example :
    ((after (pos 3) (pos 1) read_ahead).pool.opened
      ≡ pos (sessions (after (pos 3) (pos 1) read_ahead)))
    × (sessions (after (pos 3) (pos 1) read_ahead) ≤ coerce_max_open (pos 3))
    × ((after (pos 3) (pos 1) read_ahead).gated_users.held
          + (after (pos 3) (pos 1) read_ahead).gated_users.dialing
        ≤ places (new_gate (pos 3) (pos 1)))
run-bounded_pool_example = run-bounded_pool (pos 3) (pos 1) read_ahead

interactive-path_example :
    (0 < length (after (pos 3) (pos 1) read_ahead).pool.idle)
    ⊎ ((after (pos 3) (pos 1) read_ahead).pool.opened <ℤ pos (coerce_max_open (pos 3)))
unfolding run step new_system new_pooled_source_reserved coerce_max_open coerce_reserved enter_gate
    dials_step reserve_slot dialed_step releases_step send_idle ◌+ℤ◌
interactive-path_example =
    interactive-path (pos 3) (pos 1) read_ahead (omega arith) refl refl refl refl

run-stranded_example :
    ((after (pos 2) (pos 0) (dial_all 2 ++ (parks ∷ fail_all 2))).parked ≡ 1)
    × ((after (pos 2) (pos 0) (dial_all 2 ++ (parks ∷ fail_all 2))).pool.opened ≡ pos 0)
    × ((after (pos 2) (pos 0) (dial_all 2 ++ (parks ∷ fail_all 2))).pool.idle ≡ [])
    × ((after (pos 2) (pos 0) (dial_all 2 ++ (parks ∷ fail_all 2))).pool.freed ≡ 0)
unfolding coerce_max_open
run-stranded_example = run-stranded (pos 2) (pos 0)
