-- ===== src/Stream/ReadAhead/Launch.antt =====
-- internal/stream/session_manager.go: the loop of a window's goroutine that starts its fetches. The
-- semaphore `sem` is the number of fetches in flight; `ticks` counts the receives from the ticker, one
-- every readAheadRampStaggerInterval. What happens and may not happen changes nothing.
use drakkar.Prelude.{
  ℕ, ◌+◌, ◌-◌, ◌≤◌, ◌≡◌, refl, ◌∙◌, ◌⊎◌, Bool, true, false, ◌&&◌, ◌||◌, not, List, [], ◌∷◌, arith,
  ltb, leb, if◌then◌else◌, length,
}
use drakkar.Stream.ReadAhead.{read_ahead_ramp_floor, Window}

-- `index` is the i of the loop, `waited` that its wait for the ticker is over, `done` that the loop is.
pub record Launcher : Type 0 where
  pub total : ℕ
  pub parallelism : ℕ
  pub index : ℕ
  pub waited : Bool
  pub in_flight : ℕ
  pub ticks : ℕ
  pub done : Bool

unfoldable pub new_launcher : Window → Launcher
new_launcher w = record {
  total = length w.ranges;
  parallelism = w.parallelism;
  index = 0;
  waited = false;
  in_flight = 0;
  ticks = 0;
  done = false;
}

-- `stagger != nil && i >= readAheadRampFloor && i < parallelism`
unfoldable pub is_paced : Launcher → Bool
is_paced l =
    ltb read_ahead_ramp_floor l.parallelism
    && (leb read_ahead_ramp_floor l.index && ltb l.index l.parallelism)

pub data LaunchEvent : Type 0 where
  ticks launches returns cancels : LaunchEvent

-- The case on the ticker, the case on the semaphore with the start of a fetch, the end of a fetch, and
-- a case on the context, which leaves the loop.
unfoldable pub launch_step : Launcher → LaunchEvent → Launcher
unfolding is_paced
launch_step l ticks =
    if not l.done && (ltb l.index l.total && (is_paced l && not l.waited))
    then record l { waited = true; ticks = l.ticks + 1 }
    else l
launch_step l launches =
    if not l.done
      && (ltb l.index l.total && ((not (is_paced l) || l.waited) && ltb l.in_flight l.parallelism))
    then record l { index = l.index + 1; waited = false; in_flight = l.in_flight + 1 }
    else l
launch_step l returns = if ltb 0 l.in_flight then record l { in_flight = l.in_flight - 1 } else l
launch_step l cancels = record l { done = true }

unfoldable pub launch : Launcher → List LaunchEvent → Launcher
unfolding launch_step
launch l [] = l
launch l (e ∷ es) = launch (launch_step l e) es

record IsRamped (l : Launcher) : Type 0 where
  within : l.in_flight ≤ l.parallelism
  behind : l.in_flight ≤ l.index
  listed : l.index ≤ l.total
  ramped :
      (l.index + (if l.waited then 1 else 0) ≤ read_ahead_ramp_floor + l.ticks)
      ⊎ (l.parallelism ≤ read_ahead_ramp_floor + l.ticks)

launch_step-IsRamped : (l : Launcher) (e : LaunchEvent) → IsRamped l → IsRamped (launch_step l e)
unfolding launch_step
launch_step-IsRamped l ticks v = ground arith
launch_step-IsRamped l launches v = ground arith
launch_step-IsRamped l returns v = ground arith
launch_step-IsRamped l cancels v = ground arith

launch-IsRamped : (es : List LaunchEvent) (l : Launcher) → IsRamped l → IsRamped (launch l es)
unfolding launch
launch-IsRamped [] l v = v
launch-IsRamped (e ∷ es) l v = launch-IsRamped es (launch_step l e) (launch_step-IsRamped l e v)

launch_step-fixed :
    (l : Launcher) (e : LaunchEvent)
    → ((launch_step l e).parallelism ≡ l.parallelism) × ((launch_step l e).total ≡ l.total)
unfolding launch_step
launch_step-fixed l ticks = ground arith
launch_step-fixed l launches = ground arith
launch_step-fixed l returns = ground arith
launch_step-fixed l cancels = ground arith

launch-fixed :
    (es : List LaunchEvent) (l : Launcher)
    → ((launch l es).parallelism ≡ l.parallelism) × ((launch l es).total ≡ l.total)
unfolding launch
launch-fixed [] l = (refl, refl)
launch-fixed (e ∷ es) l =
    let (p, t) = launch-fixed es (launch_step l e) in
    let (p', t') = launch_step-fixed l e in (p ∙ p', t ∙ t')

-- However its fetches and the ticker are timed, a window has never more fetches in flight than its
-- share, never more than eight and one for each tick of the ticker so far, and never starts more
-- fetches than it has ranges.
pub launch-ramped :
    (w : Window) (es : List LaunchEvent)
    → let l = launch (new_launcher w) es in
      (l.in_flight ≤ w.parallelism)
      × (l.in_flight ≤ read_ahead_ramp_floor + l.ticks)
      × (l.index ≤ length w.ranges)
launch-ramped w es =
    let v = launch-IsRamped es (new_launcher w) (start w) in
    let (p, t) = launch-fixed es (new_launcher w) in
    let (p', t') = given w in
    (omega (arith, v.within), final (launch (new_launcher w) es) v, omega (arith, v.listed))
  where
    start : (w : Window) → IsRamped (new_launcher w)
    start w = unfold new_launcher in ground arith

    given :
        (w : Window)
        → ((new_launcher w).parallelism ≡ w.parallelism)
          × ((new_launcher w).total ≡ length w.ranges)
    given w = unfold new_launcher in (refl, refl)

    final : (l : Launcher) → IsRamped l → l.in_flight ≤ read_ahead_ramp_floor + l.ticks
    final l v = ground arith
