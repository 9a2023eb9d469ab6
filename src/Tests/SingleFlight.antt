-- ===== src/Tests/SingleFlight.antt =====
-- Callers of one key.
use drakkar.Prelude.{ℕ, ◌≡◌, ◌≢◌, refl, some, List, [], ◌∷◌, ◌⊎◌, get_elem?}
use drakkar.Prelude.Bytes.{Bytes, bytes_eq}
use drakkar.Prelude.Dict.{lookup, insert}
use drakkar.Cache.SingleFlight.{
  Flight, fetching, waiting, panicked, returned, Call, SingleFlight, new_single_flight, fetched,
  deletes, panics, served, Event, enters, acts, result_of, run,
}
use drakkar.Cache.SingleFlight.Invariant.{Unfinished}
use drakkar.Cache.SingleFlight.Kept.{new-IsFlying, run-IsFlying}
use drakkar.Cache.SingleFlight.Shared.{run-single_flight, run-panicked}

abbrev key : Bytes
key = 7 ∷ []

-- The second caller waits for the fetch of the first.
abbrev both : List (Event ℕ)
both = enters key ∷ enters key ∷ acts 0 (fetched 42) ∷ acts 1 served ∷ acts 0 deletes ∷ []

both_have_it :
    (run new_single_flight both).calls
    ≡ record { key = key; flight = 0; stage = returned (some 42) }
      ∷ record { key = key; flight = 0; stage = returned (some 42) }
      ∷ []
unfolding run new_single_flight lookup insert bytes_eq
both_have_it = refl

run-single_flight_example :
    let s = run new_single_flight both in
    ((c j : ℕ) (call v : Call ℕ)
      → get_elem? s.calls c ≡ some call
      → get_elem? s.calls j ≡ some v
      → call.stage ≡ fetching
      → v.stage ≡ fetching
      → call.key ≡ v.key
      → c ≡ j)
    × ((c : ℕ) (call : Call ℕ) (r : ℕ)
        → get_elem? s.calls c ≡ some call
        → call.stage ≡ returned (some r)
        → (o : Flight ℕ) × (get_elem? s.objects call.flight ≡ some o)
          × (o.key ≡ call.key)
          × (o.result ≡ some r))
    × ((c : ℕ) (call : Call ℕ)
        → get_elem? s.calls c ≡ some call
        → call.stage ≡ waiting
        → ((r : ℕ) × (result_of call s ≡ some r))
          ⊎ (j : ℕ) × (v : Call ℕ) × (get_elem? s.calls j ≡ some v)
            × (v.flight ≡ call.flight)
            × Unfinished v.stage)
run-single_flight_example = run-single_flight both

abbrev broken : SingleFlight ℕ
broken = run new_single_flight (enters key ∷ acts 0 panics ∷ [])

abbrev broken_call : Call ℕ
broken_call = record { key = key; flight = 0; stage = panicked }

broken_call_there : get_elem? broken.calls 0 ≡ some broken_call
unfolding run new_single_flight lookup
broken_call_there = refl

run-panicked_example :
    let s = run broken (enters key ∷ acts 1 served ∷ []) in
    (lookup key s.flights ≡ some 0)
    × ((j : ℕ) (v : Call ℕ) (r : ℕ)
        → get_elem? s.calls j ≡ some v
        → v.flight ≡ 0
        → v.stage ≢ returned (some r))
run-panicked_example =
    run-panicked broken 0 broken_call (enters key ∷ acts 1 served ∷ [])
      (run-IsFlying (enters key ∷ acts 0 panics ∷ []) new_single_flight new-IsFlying)
      broken_call_there refl
