-- ===== src/Stream/ReadAhead/System.antt =====
-- internal/stream/session_manager.go, all goroutines together: the calls of the manager and the
-- goroutines of its windows, in any order. Every event is one locked part of a method, or a step of a
-- goroutine outside the lock; an event that is not possible changes nothing.
use drakkar.Prelude.{
  ℕ, Bool, true, false, ◌&&◌, ◌||◌, not, Option, none, some, List, [], ◌∷◌, ◌==◌, if◌then◌else◌,
  get_elem?, set,
}
use drakkar.Prelude.Int.{ℤ}
use drakkar.Prelude.Bytes.{Bytes}
use drakkar.Prelude.Dict.{lookup}
use drakkar.Stream.RangeMap.{SegmentSpan}
use drakkar.Stream.ReadAhead.{
  SessionMeta, ReadAheadSession, fetching, closed, ended, Window, ReadAheadManager,
  set_connection_budget, set_article_buffer_size, store, stop, register, register_meta, seek,
  note_offset,
}
use drakkar.Stream.ReadAhead.Schedule.{schedule}

pub data Event : Type 0 where
  budget : ℤ → ℤ → Event  -- SetConnectionBudget
  buffer : ℤ → Event  -- SetArticleBufferSize
  registers : Bytes → List SegmentSpan → Option ℕ → Option SessionMeta → ℕ → Event
  describes : Bytes → SessionMeta → Event  -- RegisterMeta
  notes schedules : Bytes → ℤ → Event  -- the two locked parts of NotifyRead
  seeks stops : Bytes → Event
  fetch_fails : ℕ → Event  -- a fetch of a window gives an error
  finishes : ℕ → Event  -- all fetches of a window are over: it reads its context and cancels it
  settles : ℕ → Event  -- the last locked part of the goroutine

-- The failure counts only while the context is not cancelled.
abbrev pub failed_fetch : Window → Window
failed_fetch w = elim w.stage [
  | fetching ↦ record w { fetch_failed = w.fetch_failed || not w.cancelled }
  | _ ↦ w
]

-- `wasCancelled := ctx.Err() != nil` and `cancel()`.
abbrev pub finished : Window → Window
finished w = elim w.stage [
  | fetching ↦ record w { cancelled = true; stage = closed w.cancelled }
  | _ ↦ w
]

unfoldable pub change_window : ℕ → (Window → Window) → ReadAheadManager → ReadAheadManager
change_window k f m = elim (get_elem? m.windows k) [
  | none ↦ m
  | some w ↦ record m { windows = set m.windows k (f w) }
]

-- The session when its own window has ended; a window that failed does not count as fetched.
abbrev pub settled : Bool → ReadAheadSession → ReadAheadSession
settled failed s = record s {
  cancel = none;
  window_valid = if failed then false else s.window_valid;
}

-- The session has neither been replaced nor got another window since.
unfoldable pub is_current : ReadAheadSession → Window → Bool
is_current s w = (s.ident == w.ident) && (s.generation == w.generation)

unfoldable pub settle_session : Window → Bool → ReadAheadManager → ReadAheadManager
unfolding is_current store
settle_session w was_cancelled m = elim (lookup w.session_id m.sessions) [
  | none ↦ m
  | some s ↦
      if is_current s w
      then store w.session_id (settled (w.fetch_failed && not was_cancelled) s) m
      else m
]

abbrev pub end_window : Window → Window
end_window w = record w { stage = ended }

-- The last part of the goroutine, once it is at it.
unfoldable pub settle : ℕ → ReadAheadManager → ReadAheadManager
unfolding settle_session change_window
settle k m = elim (get_elem? m.windows k) [
  | none ↦ m
  | some w ↦ elim w.stage [
    | closed was_cancelled ↦ change_window k end_window (settle_session w was_cancelled m)
    | _ ↦ m
  ]
]

unfoldable pub step : ReadAheadManager → Event → ReadAheadManager
unfolding set_connection_budget set_article_buffer_size register register_meta note_offset schedule
    seek stop change_window settle
step m (budget total pct) = set_connection_budget total pct m
step m (buffer limit) = set_article_buffer_size limit m
step m (registers id spans fetcher meta now) = register id spans fetcher meta now m
step m (describes id meta) = register_meta id meta m
step m (notes id offset) = note_offset id offset m
step m (schedules id offset) = schedule id offset m
step m (seeks id) = seek id m
step m (stops id) = stop id m
step m (fetch_fails k) = change_window k failed_fetch m
step m (finishes k) = change_window k finished m
step m (settles k) = settle k m

unfoldable pub run : ReadAheadManager → List Event → ReadAheadManager
unfolding step
run m [] = m
run m (e ∷ es) = run (step m e) es
