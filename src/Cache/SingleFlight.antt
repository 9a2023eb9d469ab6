-- ===== src/Cache/SingleFlight.antt =====
-- internal/cache/singleflight.go: SingleFlight, with all its callers. Every event is one use of the
-- lock in Do, the end of a fetch, or the end of a wait, in any order; an event that is not possible
-- changes nothing. A flight object is known by its place in `objects`, a call of Do by its place in
-- `calls`. `R` is what a fetch gives, its data and its error.
pub mod Invariant
pub mod Fetched
pub mod Freed
pub mod Entered
pub mod Kept
pub mod Shared
use drakkar.Prelude.{ℕ, ◌≡◌, Option, none, some, List, [], ◌∷◌, ◌++◌, length, get_elem?, set}
use drakkar.Prelude.Bytes.{Bytes}
use drakkar.Prelude.Dict.{lookup, insert, remove}

-- `done` is closed exactly if there is a result.
pub record Flight {ℓ} (R : Type ℓ) : Type ℓ where
  pub key : Bytes
  pub owner : ℕ
  pub result : Option R

-- Where a call is: it runs the fetch, has closed the channel and not yet the map, waits for another
-- call's flight, or has returned, with a result or the error of its context. A fetch that panics ends
-- its call.
pub data Stage {ℓ} (R : Type ℓ) : Type ℓ where
  fetching closing waiting panicked : Stage R
  returned : Option R → Stage R

pub record Call {ℓ} (R : Type ℓ) : Type ℓ where
  pub key : Bytes
  pub flight : ℕ
  pub stage : Stage R

pub record SingleFlight {ℓ} (R : Type ℓ) : Type ℓ where
  pub flights : List (Bytes × ℕ)
  pub objects : List (Flight R)
  pub calls : List (Call R)

unfoldable pub new_single_flight {ℓ} : {R : Type ℓ} → SingleFlight R
new_single_flight = record { flights = []; objects = []; calls = [] }

pub data Action {ℓ} (R : Type ℓ) : Type ℓ where
  fetched : R → Action R  -- fn returns, and the channel is closed
  deletes : Action R  -- the second locked part, and the return
  panics : Action R  -- fn panics
  served gives_up : Action R  -- the cases of the select

-- The first locked part of Do, or an action of a call.
pub data Event {ℓ} (R : Type ℓ) : Type ℓ where
  enters : Bytes → Event R
  acts : ℕ → Action R → Event R

module _ {ℓ} {R : Type ℓ} where
  unfoldable pub enter_with : Bytes → SingleFlight R → Option ℕ → SingleFlight R
  enter_with k s (some f) = record s {
    calls = s.calls ++ record { key = k; flight = f; stage = waiting } ∷ [];
  }
  enter_with k s none =
      let f = length s.objects in
      record {
        flights = insert k f s.flights;
        objects = s.objects ++ record { key = k; owner = length s.calls; result = none } ∷ [];
        calls = s.calls ++ record { key = k; flight = f; stage = fetching } ∷ [];
      }

  unfoldable pub set_stage : ℕ → Call R → Stage R → SingleFlight R → SingleFlight R
  set_stage c call stage s = record s { calls = set s.calls c (record call { stage = stage }) }

  unfoldable pub end_fetch : ℕ → Call R → R → SingleFlight R → SingleFlight R
  unfolding set_stage
  end_fetch c call r s = elim (get_elem? s.objects call.flight) [
    | none ↦ s
    | some o ↦ record (set_stage c call closing s) {
      objects = set s.objects call.flight (record o { result = some r });
    }
  ]

  unfoldable pub result_of : Call R → SingleFlight R → Option R
  result_of call s = elim (get_elem? s.objects call.flight) [ none ↦ none | some o ↦ o.result ]

  unfoldable pub end_call : ℕ → Call R → SingleFlight R → SingleFlight R
  unfolding set_stage result_of
  end_call c call s = record (set_stage c call (returned (result_of call s)) s) {
    flights = remove call.key s.flights;
  }

  unfoldable pub end_wait : ℕ → Call R → SingleFlight R → SingleFlight R
  unfolding set_stage result_of
  end_wait c call s = elim (result_of call s) [
    | none ↦ s
    | some r ↦ set_stage c call (returned (some r)) s
  ]

  -- What the action does at the stage of its call.
  unfoldable pub act : ℕ → Call R → Action R → Stage R → SingleFlight R → SingleFlight R
  unfolding end_fetch end_call end_wait set_stage
  act c call (fetched r) fetching s = end_fetch c call r s
  act c call panics fetching s = set_stage c call panicked s
  act c call deletes closing s = end_call c call s
  act c call served waiting s = end_wait c call s
  act c call gives_up waiting s = set_stage c call (returned none) s
  act c call _ _ s = s

  unfoldable pub step : SingleFlight R → Event R → SingleFlight R
  unfolding act enter_with lookup
  step s (enters k) = enter_with k s (lookup k s.flights)
  step s (acts c a) = elim (get_elem? s.calls c) [
    | none ↦ s
    | some call ↦ act c call a call.stage s
  ]

  unfoldable pub run : SingleFlight R → List (Event R) → SingleFlight R
  unfolding step
  run s [] = s
  run s (e ∷ es) = run (step s e) es
