-- ===== src/Stream/ReadAhead/Single.antt =====
-- A session never has two windows that run at once, whatever the calls and the goroutines do.
use drakkar.Prelude.{
  ℕ, suc, ◌+◌, ◌^◌, ◌<◌, ◌≡◌, refl, sym, ◌∙◌, subst, ap, true, false, ◌||◌, Option, none, some,
  List, [], ◌∷◌, inl, inr, arith, if◌then◌else◌, length, get_elem?, Bool-cases, Option-cases,
}
use drakkar.Prelude.Int.{ℤ, pos, ltb_ℤ, eqb_ℤ}
use drakkar.Prelude.Bytes.{Bytes, bytes_eq}
use drakkar.Prelude.Dict.{lookup}
use drakkar.Stream.ReadAhead.{
  ReadAheadSession, Window, ReadAheadManager, new_read_ahead_manager, set_connection_budget,
  set_article_buffer_size, cancel_window, store, sought, seek,
}
use drakkar.Stream.ReadAhead.Schedule.{replace_window, plan_window, coalesced, schedule}
use drakkar.Stream.ReadAhead.System.{
  Event, budget, buffer, registers, describes, notes, schedules, seeks, stops, fetch_fails,
  finishes, settles, failed_fetch, finished, step, run,
}
use drakkar.Stream.ReadAhead.Tracked.{Owns, IsTracked}
use drakkar.Stream.ReadAhead.Owner.{
  if-both, stop-IsTracked, note_offset-IsTracked, register_meta-IsTracked,
}
use drakkar.Stream.ReadAhead.Replaced.{
  register-IsTracked, IsTracked-mono, restored-IsTracked, start_window-IsTracked,
}
use drakkar.Stream.ReadAhead.Settled.{
  change_window-IsTracked, failed_fetch-Later, finished-Later, settle-IsTracked,
}
use mathlib.Core.Option.{some-injective}

seek-IsTracked :
    (n : ℕ) (id : Bytes) (m : ReadAheadManager)
    → n + 1 < 2 ^ 64
    → IsTracked n m
    → IsTracked (n + 1) (seek id m)
seek-IsTracked n id m few inv = elim (Bool-cases (bytes_eq id [])) [
  | inl b ↦ subst (IsTracked (n + 1)) (sym (unnamed b)) weak
  | inr b ↦ elim (Option-cases (lookup id m.sessions)) [
    | inl e ↦ subst (IsTracked (n + 1)) (sym (absent b e)) weak
    | inr (s, e) ↦
        subst (IsTracked (n + 1)) (sym (present b s e))
          (restored-IsTracked n id s m inv e few (sought s) refl refl)
  ]
]
  where
    weak : IsTracked (n + 1) m
    weak = IsTracked-mono n (n + 1) m (omega arith) inv

    unnamed : bytes_eq id [] ≡ true → seek id m ≡ m
    unnamed b = unfold seek in ground arith

    absent : bytes_eq id [] ≡ false → lookup id m.sessions ≡ none → seek id m ≡ m
    absent b e = unfold seek in ground arith

    present :
        bytes_eq id [] ≡ false
        → (s : ReadAheadSession) → lookup id m.sessions ≡ some s
        → seek id m ≡ store id (sought s) (cancel_window s m)
    present b s e = unfold seek in ground arith

schedule-IsTracked :
    (n : ℕ) (id : Bytes) (offset : ℤ) (m : ReadAheadManager)
    → n + 1 < 2 ^ 64
    → IsTracked n m
    → IsTracked (n + 1) (schedule id offset m)
unfolding schedule
schedule-IsTracked n id offset m few inv =
    if-both (IsTracked (n + 1))
      (bytes_eq id [] || (eqb_ℤ m.window_bytes (pos 0) || ltb_ℤ offset (pos 0))) weak
      (elim (Option-cases (lookup id m.sessions)) [
        | inl e ↦ subst (IsTracked (n + 1)) (sym (absent e)) weak
        | inr (s, e) ↦ subst (IsTracked (n + 1)) (sym (present s e)) (
            if-both (IsTracked (n + 1)) (coalesced s offset) weak (
              unfold replace_window in
              start_window-IsTracked n id s m inv e few offset (plan_window m s offset)))
      ])
  where
    weak : IsTracked (n + 1) m
    weak = IsTracked-mono n (n + 1) m (omega arith) inv

    abbrev_of : Option ReadAheadSession → ReadAheadManager
    abbrev_of o = elim o [
      | none ↦ m
      | some s ↦ if coalesced s offset then m else replace_window id s offset m
    ]

    absent : lookup id m.sessions ≡ none → abbrev_of (lookup id m.sessions) ≡ m
    absent e = ap abbrev_of e

    present :
        (s : ReadAheadSession)
        → lookup id m.sessions ≡ some s
        → abbrev_of (lookup id m.sessions)
          ≡ (if coalesced s offset then m else replace_window id s offset m)
    present s e = ap abbrev_of e

step-IsTracked :
    (n : ℕ) (m : ReadAheadManager) (e : Event)
    → n + 1 < 2 ^ 64
    → IsTracked n m
    → IsTracked (n + 1) (step m e)
unfolding step set_connection_budget set_article_buffer_size
step-IsTracked n m e few inv = by_event e
  where
    up : (m' : ReadAheadManager) → IsTracked n m' → IsTracked (n + 1) m'
    up m' i = IsTracked-mono n (n + 1) m' (omega arith) i

    -- The settings are no part of the invariant.
    configured :
        (parallelism limit : ℕ)
        → IsTracked n (record m { max_parallelism = parallelism; article_limit = limit })
    configured parallelism limit = record {
      allocated_sessions = inv.allocated_sessions;
      allocated_windows = inv.allocated_windows;
      older = inv.older;
      distinct = inv.distinct;
      owned = inv.owned;
    }

    by_event : (e : Event) → IsTracked (n + 1) (step m e)
    by_event (budget total pct) = up _ (configured _ m.article_limit)
    by_event (buffer limit) = up _ (configured m.max_parallelism _)
    by_event (registers id spans fetcher meta now) =
        up _ (register-IsTracked n id spans fetcher meta now m inv)
    by_event (describes id meta) = up _ (register_meta-IsTracked n id meta m inv)
    by_event (notes id offset) = up _ (note_offset-IsTracked n id offset m inv)
    by_event (schedules id offset) = schedule-IsTracked n id offset m few inv
    by_event (seeks id) = seek-IsTracked n id m few inv
    by_event (stops id) = up _ (stop-IsTracked n id m inv)
    by_event (fetch_fails k) =
        up _ (change_window-IsTracked n k failed_fetch m (λ w _. failed_fetch-Later w) inv)
    by_event (finishes k) =
        up _ (change_window-IsTracked n k finished m (λ w _. finished-Later w) inv)
    by_event (settles k) = up _ (settle-IsTracked n k m inv)

new-IsTracked : (bytes : ℤ) → IsTracked 0 (new_read_ahead_manager bytes)
unfolding new_read_ahead_manager lookup
new-IsTracked bytes = record {
  allocated_sessions = λ j s h. absurd (cc);
  allocated_windows = λ j w h. absurd (cc);
  older = λ j w s h. absurd (cc);
  distinct = λ i j v w h. absurd (cc);
  owned = λ j w h. absurd (cc);
}

run-IsTracked :
    (es : List Event) (n : ℕ) (m : ReadAheadManager)
    → n + length es < 2 ^ 64
    → IsTracked n m
    → IsTracked (n + length es) (run m es)
unfolding run
run-IsTracked [] n m few inv = IsTracked-mono n (n + 0) m (omega arith) inv
run-IsTracked (e ∷ es) n m few inv =
    let t =
      run-IsTracked es (n + 1) (step m e) (omega arith) (step-IsTracked n m e (omega arith) inv) in
    IsTracked-mono (n + 1 + length es) (n + suc (length es)) (run (step m e) es) (omega arith) t

-- The windows whose fetches may still go out.
abbrev pub IsLive : ReadAheadManager → ℕ → Window → Type 0
IsLive m k w = (get_elem? m.windows k ≡ some w) × (w.cancelled ≡ false)

-- After any sequence of calls of the manager and steps of its goroutines, in any order, fewer than
-- 2 ^ 64 of them, every window that is not cancelled belongs to a registered session, whose current
-- window it is, of the session's generation; and two such windows of one id are the same window.
pub run-one_window :
    (bytes : ℤ) (es : List Event)
    → length es < 2 ^ 64
    → let m = run (new_read_ahead_manager bytes) es in
      ((k : ℕ) (w : Window)
        → IsLive m k w
        → (s : ReadAheadSession) × (lookup w.session_id m.sessions ≡ some s) × Owns s k w)
      × ((k j : ℕ) (v w : Window)
          → IsLive m k v
          → IsLive m j w
          → v.session_id ≡ w.session_id
          → k ≡ j)
run-one_window bytes es few =
    let m = run (new_read_ahead_manager bytes) es in
    let inv =
      run-IsTracked es 0 (new_read_ahead_manager bytes) (omega arith) (new-IsTracked bytes) in
    (
      λ k w (h, live). inv.owned k w h live,
      λ k j v w (h, a) (g, b) q.
          let (s, l, (c, _, _)) = inv.owned k v h a in
          let (t, p, (d, _, _)) = inv.owned j w g b in
          let z = some-injective _ _ (sym l ∙ ap (λ x. lookup x m.sessions) q ∙ p) in
          some-injective _ _ (sym c ∙ ap (λ (x : ReadAheadSession). x.cancel) z ∙ d),
    )
