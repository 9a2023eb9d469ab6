-- ===== src/Tests/ReadAhead.antt =====
-- Runs of the read-ahead manager.
use drakkar.Prelude.{
  map, ◌≢◌, ◌⊎◌, if◌then◌else◌, ℕ, ◌+◌, ◌≤◌, ◌≡◌, refl, true, false, ◌&&◌, not, none, some, List,
  [], ◌∷◌, arith, length, take, get_elem?,
}
use drakkar.Prelude.Int.{ℤ, pos, ◌+ℤ◌, sub64}
use drakkar.Prelude.Bytes.{Bytes, bytes_eq}
use drakkar.Prelude.Dict.{lookup, insert}
use drakkar.Stream.RangeMap.{SegmentSpan, resolve_range_max}
use drakkar.Stream.RangeMap.Layout.{slices}
use drakkar.Stream.ReadAhead.{
  ReadAheadSession, closed, Window, ReadAheadManager, new_read_ahead_manager, read_ahead_ramp_floor,
  set_connection_budget, new_session, first_meta,
}
use drakkar.Stream.ReadAhead.Schedule.{coalesced, notify_read, schedule, share_of}
use drakkar.Stream.ReadAhead.System.{
  Event, registers, schedules, seeks, fetch_fails, finishes, settle, run,
}
use drakkar.Stream.ReadAhead.Tracked.{Owns}
use drakkar.Stream.ReadAhead.Single.{IsLive, run-one_window}
use drakkar.Stream.ReadAhead.Plan.{wanted, limit_of}
use drakkar.Stream.ReadAhead.Start.{IsStarted, schedule_starts}
use drakkar.Stream.ReadAhead.Ends.{settle_lem}
use drakkar.Stream.DirectReader.{DirectNzbReader}
use drakkar.Stream.Sessions.{start_session, buffered, notify_read-start_session}
use drakkar.Stream.ReadAhead.Launch.{
  LaunchEvent, launches, returns, new_launcher, launch, launch-ramped,
}

abbrev span : ℤ → ℤ → ℤ → SegmentSpan
span id start end = record {
  segment_id = id;
  message_id = [];
  start = start;
  end = end;
  decoded_start = pos 0;
  segment_byte_start = pos 0;
  entry_truncated = false;
}

abbrev two : List SegmentSpan
two = span (pos 1) (pos 0) (pos 10) ∷ span (pos 2) (pos 10) (pos 25) ∷ []

abbrev viewer : Bytes
viewer = 7 ∷ []

abbrev playback : List Event
playback =
    registers viewer two (some 3) none 5
    ∷ schedules viewer (pos 0)
    ∷ seeks viewer
    ∷ schedules viewer (pos 12)
    ∷ []

abbrev after_seek : ReadAheadManager
after_seek = run (new_read_ahead_manager (pos 20)) playback

-- The window before the seek is cancelled, the one behind it runs.
two_windows : length after_seek.windows ≡ 2
unfolding run schedule lookup insert bytes_eq new_read_ahead_manager resolve_range_max sub64
    new_session first_meta
two_windows = refl

run-one_window_example :
    ((k : ℕ) (w : Window)
      → IsLive after_seek k w
      → (s : ReadAheadSession) × (lookup w.session_id after_seek.sessions ≡ some s) × Owns s k w)
    × ((k j : ℕ) (v w : Window)
        → IsLive after_seek k v
        → IsLive after_seek j w
        → v.session_id ≡ w.session_id
        → k ≡ j)
run-one_window_example = run-one_window (pos 20) playback (omega arith)

abbrev opened : ReadAheadManager
opened = run (new_read_ahead_manager (pos 20)) (registers viewer two (some 3) none 5 ∷ [])

abbrev fresh : ReadAheadSession
fresh = record {
  ident = 0;
  spans = two;
  fetcher = 3;
  cancel = none;
  meta = record { virtual_file_id = pos 0; file_name = []; file_size_bytes = pos 0; opened_at = 5 };
  current_offset = pos 0;
  window_start = pos 0;
  reschedule_at = pos 0;
  window_valid = false;
  generation = 0;
}

fresh_registered : lookup viewer opened.sessions ≡ some fresh
unfolding run lookup insert bytes_eq new_read_ahead_manager new_session first_meta
fresh_registered = refl

named : bytes_eq viewer [] ≡ false
unfolding bytes_eq
named = refl

opened_window : opened.window_bytes ≡ pos 20
unfolding run lookup insert bytes_eq new_read_ahead_manager new_session first_meta
opened_window = refl

nothing_served : coalesced fresh (pos 12) ≡ false
unfolding coalesced
nothing_served = refl

schedule_starts_example :
    IsStarted viewer fresh
      (pos 12)
      (pos 25)
      (take
        (limit_of opened fresh (pos 12) (pos 25))
        (slices two (pos 12) (pos 12 +ℤ wanted opened (pos 12) (pos 25))))
      (length opened.windows)
      (schedule viewer (pos 12) opened)
schedule_starts_example =
    schedule_starts viewer fresh opened (pos 12) (pos 25) named fresh_registered
      (refl, omega arith, (refl, omega arith, refl)) (omega arith) (rw opened_window (omega arith))
      (rw opened_window (omega arith)) (omega arith) (omega arith) nothing_served

-- 80 of 100 parts of 30 connections, divided by five streams.
shared : share_of (set_connection_budget (pos 30) (pos 80) opened).max_parallelism 5 ≡ 4
unfolding set_connection_budget share_of
shared = refl

abbrev failing : ReadAheadManager
failing = run (new_read_ahead_manager (pos 20)) (
    registers viewer two (some 3) none 5
    ∷ schedules viewer (pos 0)
    ∷ fetch_fails 0
    ∷ finishes 0
    ∷ [])

abbrev failed_window : Window
failed_window = record {
  session_id = viewer;
  ident = 0;
  generation = 1;
  fetcher = 3;
  ranges = slices two (pos 0) (pos 20);
  parallelism = 4;
  cancelled = true;
  fetch_failed = true;
  stage = closed false;
}

abbrev failed_session : ReadAheadSession
failed_session = record fresh {
  cancel = some 0;
  reschedule_at = pos 10;
  window_valid = true;
  generation = 1;
}

failed_window_there : get_elem? failing.windows 0 ≡ some failed_window
unfolding run schedule lookup insert bytes_eq new_read_ahead_manager resolve_range_max sub64
    new_session first_meta
failed_window_there = refl

failed_session_there : lookup viewer failing.sessions ≡ some failed_session
unfolding run schedule lookup insert bytes_eq new_read_ahead_manager resolve_range_max sub64
    new_session first_meta
failed_session_there = refl

settle_lem_example :
    ((failed_session.ident ≡ failed_window.ident)
      × (failed_session.generation ≡ failed_window.generation)
      × (t : ReadAheadSession) × ((id : Bytes)
          → lookup id (settle 0 failing).sessions
            ≡ (if bytes_eq viewer id then some t else lookup id failing.sessions))
      × (t.cancel ≡ none)
      × (t.generation ≡ 1)
      × (t.current_offset ≡ failed_session.current_offset)
      × (t.spans ≡ two)
      × ((offset : ℤ)
          → coalesced t offset ≡ (not (true && not false) && coalesced failed_session offset)))
    ⊎ (((failed_session.ident ≢ failed_window.ident)
          ⊎ (failed_session.generation ≢ failed_window.generation))
        × ((settle 0 failing).sessions ≡ failing.sessions))
settle_lem_example =
    settle_lem 0 false failed_window failed_session failing failed_window_there refl
      failed_session_there

abbrev launched : List LaunchEvent
launched = launches ∷ launches ∷ returns ∷ launches ∷ []

launch-ramped_example :
    let l = launch (new_launcher failed_window) launched in
    (l.in_flight ≤ 4) × (l.in_flight ≤ read_ahead_ramp_floor + l.ticks) × (l.index ≤ 2)
launch-ramped_example = launch-ramped failed_window launched

-- A window keeps the share of the moment at which it was started: together more than the budget of 4.
over_budget :
    map
      (λ (w : Window). w.parallelism)
      (run (new_read_ahead_manager (pos 20)) (
        registers viewer two (some 3) none 5
        ∷ schedules viewer (pos 0)
        ∷ registers (8 ∷ []) two (some 3) none 6
        ∷ schedules (8 ∷ []) (pos 0)
        ∷ [])).windows
    ≡ 4 ∷ 2 ∷ []
unfolding run schedule lookup insert bytes_eq new_read_ahead_manager resolve_range_max sub64
    new_session first_meta
over_budget = refl

abbrev direct : DirectNzbReader
direct = record { size = pos 25; spans = two }

abbrev manager : ReadAheadManager
manager = new_read_ahead_manager (pos 20)

manager_window : manager.window_bytes ≡ pos 20
unfolding new_read_ahead_manager
manager_window = refl

notify_read-start_session_example :
    (s : ReadAheadSession) × (k : ℕ) × (s.fetcher ≡ 3)
    × IsStarted viewer s
        (pos 12)
        (pos 25)
        (take
          (buffered manager.article_limit)
          (slices two (pos 12) (pos 12 +ℤ wanted manager (pos 12) (pos 25))))
        k
        (notify_read viewer (pos 12) (start_session direct viewer (some 3) 5 manager))
notify_read-start_session_example =
    notify_read-start_session direct viewer 3 5 manager (pos 12) (pos 25) named
      (refl, omega arith, (refl, omega arith, refl)) (omega arith) (rw manager_window (omega arith))
      (rw manager_window (omega arith)) (omega arith) (omega arith)
