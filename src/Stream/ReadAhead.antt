-- ===== src/Stream/ReadAhead.antt =====
-- internal/stream/session_manager.go: ReadAheadManager, the sessions of the open streams and the
-- windows that are fetched ahead of them. Each operation holds the lock, so it is one step; the
-- goroutine that schedule starts is a `Window`, and its context is known by its place in `windows`.
-- A session object is known by `ident`, which is counted by `allocated`, as a fetcher is by a number.
-- Register refuses a missing fetcher, so the test of schedule for one has no counterpart here.
-- What runs between the operations is in System, the loop of the goroutine in Launch.
pub mod Schedule
pub mod System
pub mod Windows
pub mod Tracked
pub mod Owner
pub mod Replaced
pub mod Settled
pub mod Single
pub mod Plan
pub mod Start
pub mod Ends
pub mod Share
pub mod Launch
use drakkar.Prelude.{
  ℕ, zero, suc, ◌+◌, ◌-◌, ◌*◌, ◌/◌, ◌%◌, ◌^◌, Bool, true, false, ◌&&◌, ◌||◌, not, Option, none,
  some, List, [], ◌∷◌, ◌++◌, ltb, leb, ◌==◌, if◌then◌else◌, length,
}
use drakkar.Prelude.Int.{ℤ, pos, negsuc, pos_part, ltb_ℤ, leb_ℤ, eqb_ℤ, add64, sub64}
use drakkar.Prelude.Bytes.{Bytes, bytes_eq}
use drakkar.Prelude.Dict.{lookup, insert, remove}
use drakkar.Stream.RangeMap.{SegmentRange, SegmentSpan, resolve_range_max}

abbrev pub default_max_read_ahead_parallelism : ℕ
default_max_read_ahead_parallelism = 4

abbrev pub absolute_max_read_ahead_parallelism : ℕ
absolute_max_read_ahead_parallelism = 60

abbrev pub min_read_ahead_parallelism : ℕ
min_read_ahead_parallelism = 1

abbrev pub default_article_buffer_size : ℕ
default_article_buffer_size = 40

abbrev pub high_bitrate_file_size_threshold : ℤ
high_bitrate_file_size_threshold = pos (2 * 2 ^ 30)

abbrev pub high_bitrate_min_read_ahead_bytes : ℤ
high_bitrate_min_read_ahead_bytes = pos (128 * 2 ^ 20)

abbrev pub high_bitrate_max_article_buffer_size : ℕ
high_bitrate_max_article_buffer_size = 256

abbrev pub read_ahead_ramp_floor : ℕ
read_ahead_ramp_floor = 8

-- `opened_at` is 0 for the zero time.
pub record SessionMeta : Type 0 where
  pub virtual_file_id : ℤ
  pub file_name : Bytes
  pub file_size_bytes : ℤ
  pub opened_at : ℕ

-- `cancel` is the context that the function would cancel, `none` where it is nil.
pub record ReadAheadSession : Type 0 where
  pub ident : ℕ
  pub spans : List SegmentSpan
  pub fetcher : ℕ
  pub cancel : Option ℕ
  pub meta : SessionMeta
  pub current_offset : ℤ
  pub window_start : ℤ
  pub reschedule_at : ℤ
  pub window_valid : Bool
  pub generation : ℕ

-- Where the goroutine of a window is: its fetches run, or it has read whether its context was
-- cancelled and cancelled it, or it has ended.
pub data Stage : Type 0 where
  fetching : Stage
  closed : Bool → Stage
  ended : Stage

-- What the goroutine of a window has from the session, and its context and flags.
pub record Window : Type 0 where
  pub session_id : Bytes
  pub ident : ℕ
  pub generation : ℕ
  pub fetcher : ℕ
  pub ranges : List SegmentRange
  pub parallelism : ℕ
  pub cancelled : Bool
  pub fetch_failed : Bool
  pub stage : Stage

pub record ReadAheadManager : Type 0 where
  pub window_bytes : ℤ
  pub sessions : List (Bytes × ReadAheadSession)
  pub max_parallelism : ℕ
  pub article_limit : ℕ
  pub windows : List Window
  pub allocated : ℕ

unfoldable pub new_read_ahead_manager : ℤ → ReadAheadManager
new_read_ahead_manager window_bytes = record {
  window_bytes = if ltb_ℤ window_bytes (pos 0) then pos 0 else window_bytes;
  sessions = [];
  max_parallelism = default_max_read_ahead_parallelism;
  article_limit = default_article_buffer_size;
  windows = [];
  allocated = 0;
}

abbrev clamp : ℕ → ℕ → ℕ → ℕ
clamp lo hi x = if ltb x lo then lo else if ltb hi x then hi else x

-- The product and the quotient are floats in the code; the integer part of theirs is that of the
-- exact quotient for fewer than 2 ^ 40 connections.
unfoldable pub streaming_budget : ℕ → ℤ → ℕ
streaming_budget total pct =
    let p = if leb_ℤ pct (pos 0) || ltb_ℤ (pos 100) pct then 80 else pos_part pct in
    let budget = total * p / 100 in if ltb budget 1 then 1 else budget

unfoldable pub set_connection_budget : ℤ → ℤ → ReadAheadManager → ReadAheadManager
unfolding streaming_budget
set_connection_budget total pct m = record m {
  max_parallelism =
      if ltb_ℤ (pos 0) total
      then clamp min_read_ahead_parallelism absolute_max_read_ahead_parallelism
          (streaming_budget (pos_part total) pct)
      else default_max_read_ahead_parallelism;
}

unfoldable pub set_article_buffer_size : ℤ → ReadAheadManager → ReadAheadManager
set_article_buffer_size limit m = record m {
  article_limit = if leb_ℤ limit (pos 0) then default_article_buffer_size else pos_part limit;
}

-- A call of the cancel function of the context at a place of `windows`.
unfoldable pub cancel_at : ℕ → List Window → List Window
cancel_at k [] = []
cancel_at zero (w ∷ ws) = record w { cancelled = true } ∷ ws
cancel_at (suc k) (w ∷ ws) = w ∷ cancel_at k ws

-- `if session.cancel != nil { session.cancel() }`
unfoldable pub cancel_window : ReadAheadSession → ReadAheadManager → ReadAheadManager
unfolding cancel_at
cancel_window s m = elim s.cancel [
  | none ↦ m
  | some k ↦ record m { windows = cancel_at k m.windows }
]

-- m.sessions[sessionID] = session
unfoldable pub store : Bytes → ReadAheadSession → ReadAheadManager → ReadAheadManager
store id s m = record m { sessions = insert id s m.sessions }

-- Stop, and what RegisterMeta does with each stale session.
unfoldable pub stop : Bytes → ReadAheadManager → ReadAheadManager
unfolding cancel_window
stop id m = elim (lookup id m.sessions) [
  | none ↦ m
  | some s ↦ let m' = cancel_window s m in record m' { sessions = remove id m'.sessions }
]

unfoldable pub first_meta : Option SessionMeta → ℕ → SessionMeta
first_meta none now = record {
  virtual_file_id = pos 0;
  file_name = [];
  file_size_bytes = pos 0;
  opened_at = now;
}
first_meta (some meta) now = record meta {
  opened_at = if meta.opened_at == 0 then now else meta.opened_at;
}

unfoldable pub new_session : ℕ → List SegmentSpan → ℕ → SessionMeta → ReadAheadSession
new_session ident spans fetcher meta = record {
  ident = ident;
  spans = spans;
  fetcher = fetcher;
  cancel = none;
  meta = meta;
  current_offset = pos 0;
  window_start = pos 0;
  reschedule_at = pos 0;
  window_valid = false;
  generation = 0;
}

-- The cancellation of the session that Register replaces.
unfoldable pub cancel_existing : Bytes → ReadAheadManager → ReadAheadManager
unfolding cancel_window
cancel_existing id m = elim (lookup id m.sessions) [ none ↦ m | some s ↦ cancel_window s m ]

unfoldable pub register :
    Bytes
    → List SegmentSpan
    → Option ℕ
    → Option SessionMeta
    → ℕ
    → ReadAheadManager
    → ReadAheadManager
unfolding cancel_existing store new_session first_meta
register id spans none meta now m = m
register id spans (some fetcher) meta now m =
    let m' = cancel_existing id m in
    if bytes_eq id []
    then m
    else store id (new_session m'.allocated spans fetcher (first_meta meta now))
        (record m' { allocated = m'.allocated + 1 })

-- The ids of the other sessions of this file.
unfoldable pub stale_ids : Bytes → ℤ → List (Bytes × ReadAheadSession) → List Bytes
stale_ids id file [] = []
stale_ids id file ((j, s) ∷ rest) =
    let more = stale_ids id file rest in
    if not (bytes_eq j id) && eqb_ℤ s.meta.virtual_file_id file then j ∷ more else more

unfoldable pub stop_all : List Bytes → ReadAheadManager → ReadAheadManager
unfolding stop
stop_all [] m = m
stop_all (id ∷ ids) m = stop_all ids (stop id m)

-- `f` on the session of this id, where there is one.
unfoldable pub with_session :
    Bytes → (ReadAheadSession → ReadAheadSession) → ReadAheadManager → ReadAheadManager
unfolding store
with_session id f m = elim (lookup id m.sessions) [ none ↦ m | some s ↦ store id (f s) m ]

unfoldable pub register_meta : Bytes → SessionMeta → ReadAheadManager → ReadAheadManager
unfolding stale_ids stop_all with_session
register_meta id meta m =
    let m' = with_session id (λ s. record s { meta = meta }) m in
    if bytes_eq id []
    then m
    else if eqb_ℤ meta.virtual_file_id (pos 0)
    then m'
    else stop_all (stale_ids id meta.virtual_file_id m'.sessions) m'

-- generation++ on an uint64.
unfoldable pub next_generation : ℕ → ℕ
next_generation g = (g + 1) % 2 ^ 64

abbrev pub sought : ReadAheadSession → ReadAheadSession
sought s = record s {
  cancel = none;
  window_valid = false;
  generation = next_generation s.generation;
}

unfoldable pub seek : Bytes → ReadAheadManager → ReadAheadManager
unfolding cancel_window store next_generation
seek id m =
    if bytes_eq id []
    then m
    else elim (lookup id m.sessions) [ none ↦ m | some s ↦ store id (sought s) (cancel_window s m) ]

unfoldable pub active_count : ReadAheadManager → ℕ
active_count m = length m.sessions

-- The first locked part of NotifyRead.
unfoldable pub note_offset : Bytes → ℤ → ReadAheadManager → ReadAheadManager
unfolding with_session
note_offset id offset m =
    if bytes_eq id [] || ltb_ℤ offset (pos 0)
    then m
    else with_session id (λ s. record s { current_offset = offset }) m
