-- ===== src/Stream/ReadAhead/Start.antt =====
-- What a read starts: the new window, what it fetches, and from which offset on it is replaced.
use drakkar.Prelude.{
  ℕ, zero, suc, ◌≡◌, refl, sym, subst, ap, true, false, Option, none, some, List, [], ◌∷◌, ◌++◌,
  arith, length, take, get_elem?, get_elem?-last,
}
use drakkar.Prelude.Int.{ℤ, pos, ◌+ℤ◌, ◌≤ℤ◌, ◌<ℤ◌, IsInt64}
use drakkar.Prelude.Bytes.{Bytes, bytes_eq, bytes_eq_refl}
use drakkar.Prelude.Dict.{lookup, lookup-insert}
use drakkar.Stream.RangeMap.{SegmentRange}
use drakkar.Stream.RangeMap.Layout.{Layout, slices}
use drakkar.Stream.ReadAhead.{
  ReadAheadSession, Window, ReadAheadManager, cancel_at, cancel_window, store, sought, active_count,
}
use drakkar.Stream.ReadAhead.Schedule.{
  last_range_end, midpoint, plan_window, new_window, started, share_of, start_window,
  replace_window, coalesced, schedule,
}
use drakkar.Stream.ReadAhead.Plan.{wanted, limit_of, midpoint_bounds, plan_window_lem, planned_end}

length-cancel_at : (k : ℕ) (ws : List Window) → length (cancel_at k ws) ≡ length ws
unfolding cancel_at
length-cancel_at k [] = refl
length-cancel_at zero (w ∷ ws) = refl
length-cancel_at (suc k) (w ∷ ws) = ap suc (length-cancel_at k ws)

length-cancel_window :
    (s : ReadAheadSession) (m : ReadAheadManager)
    → length (cancel_window s m).windows ≡ length m.windows
unfolding cancel_window
length-cancel_window s m = by_cancel s.cancel
  where
    by_cancel :
        (c : Option ℕ)
        → length (
            let x : ReadAheadManager = elim c [
              | none ↦ m
              | some k ↦ record m { windows = cancel_at k m.windows }
            ] in
            x.windows)
          ≡ length m.windows
    by_cancel none = refl
    by_cancel (some k) = length-cancel_at k m.windows

start_window-some :
    (id : Bytes) (s : ReadAheadSession) (offset : ℤ) (ranges : List SegmentRange)
    (m : ReadAheadManager) {z : ℤ}
    → last_range_end ranges ≡ some z
    → start_window id s offset ranges m
      ≡ record (store id (started s (length m.windows) offset z) m) {
        windows =
            m.windows ++ new_window id s ranges (share_of m.max_parallelism (active_count m)) ∷ [];
      }
unfolding start_window
start_window-some id s offset ranges m e = ground arith

schedule_replaces :
    (id : Bytes) (s : ReadAheadSession) (m : ReadAheadManager) (offset : ℤ)
    → bytes_eq id [] ≡ false
    → pos 0 <ℤ m.window_bytes
    → pos 0 ≤ℤ offset
    → lookup id m.sessions ≡ some s
    → coalesced s offset ≡ false
    → schedule id offset m ≡ replace_window id s offset m
unfolding schedule
schedule_replaces id s m offset b w at l c = ground arith

-- The new window `w` is the last one, and `t` is its session.
pub record IsStarted (id : Bytes) (s : ReadAheadSession) (offset end : ℤ)
    (ranges : List SegmentRange) (k : ℕ) (m : ReadAheadManager) : Type 0 where
  pub window : Window
  pub session : ReadAheadSession
  pub last : get_elem? m.windows k ≡ some window
  pub registered : lookup id m.sessions ≡ some session
  pub current : session.cancel ≡ some k
  pub named : window.session_id ≡ id
  pub source : window.fetcher ≡ s.fetcher
  pub fetches : window.ranges ≡ ranges
  pub running : window.cancelled ≡ false
  pub from : session.window_start ≡ offset
  pub counts : session.window_valid ≡ true
  pub ahead : offset <ℤ session.reschedule_at
  pub before_end : session.reschedule_at ≤ℤ end

started_lem :
    (id : Bytes) (s : ReadAheadSession) (offset end z : ℤ) (ranges : List SegmentRange)
    (m : ReadAheadManager)
    → last_range_end ranges ≡ some z
    → offset <ℤ midpoint offset z
    → midpoint offset z ≤ℤ end
    → IsStarted id s offset end ranges
        (length m.windows)
        (start_window id (sought s) offset ranges m)
started_lem id s offset end z ranges m e a b =
    subst (IsStarted id s offset end ranges (length m.windows))
      (sym (start_window-some id (sought s) offset ranges m e))
      (unfold store in
        record {
          window = new_window id (sought s) ranges (share_of m.max_parallelism (active_count m));
          session = started (sought s) (length m.windows) offset z;
          last = get_elem?-last m.windows _;
          registered = rw (lookup-insert id id _ m.sessions, bytes_eq_refl id) refl;
          current = unfold started in refl;
          named = unfold new_window in refl;
          source = unfold new_window in refl;
          fetches = unfold new_window in refl;
          running = unfold new_window in refl;
          from = unfold started in refl;
          counts = unfold started in refl;
          ahead = unfold started in a;
          before_end = unfold started in b;
        })

-- A read at an offset in the file that no valid window serves any more starts a new window of its
-- session. It fetches, with the session's own fetcher, the segments that overlap the wanted bytes, each
-- cut to them and in order: the bytes from the offset on, up to the window's length or the end of the
-- file, and of their segments no more than the limit. It counts as current from there on, and is
-- replaced from an offset behind this one, which is not behind the end of the file.
pub schedule_starts :
    (id : Bytes) (s : ReadAheadSession) (m : ReadAheadManager) (offset end : ℤ)
    → bytes_eq id [] ≡ false
    → lookup id m.sessions ≡ some s
    → Layout (pos 0) s.spans end
    → IsInt64 end
    → pos 0 <ℤ m.window_bytes
    → IsInt64 m.window_bytes
    → pos 0 ≤ℤ offset
    → offset <ℤ end
    → coalesced s offset ≡ false
    → IsStarted id s offset end
        (take (limit_of m s offset end) (slices s.spans offset (offset +ℤ wanted m offset end)))
        (length m.windows)
        (schedule id offset m)
schedule_starts id s m offset end b l lay fits window wide at inside c =
    let (z, e, p, q) = planned_end s m offset end lay fits window wide at inside in
    let small : IsInt64 z = ground arith in
    let (x, y) = midpoint_bounds offset z at p small in
    let st =
      started_lem id s offset end z (plan_window m s offset) (cancel_window s m) e x
        (omega arith) in
    subst (λ rs. IsStarted id s offset end rs (length m.windows) (schedule id offset m))
      (plan_window_lem s m offset end lay fits window wide at inside)
      (subst (IsStarted id s offset end (plan_window m s offset) (length m.windows))
        (sym (schedule_replaces id s m offset b window at l c))
        (unfold replace_window in
          subst
            (λ k.
              IsStarted id s offset end (plan_window m s offset) k
                (start_window id (sought s) offset (plan_window m s offset) (cancel_window s m)))
            (length-cancel_window s m) st))
