-- ===== src/Stream/ReadAhead/Share.antt =====
-- The parts of the connections that the windows of several streams get, and the limit on the segments
-- of one window.
use drakkar.Prelude.{ℕ, ◌+◌, ◌*◌, ◌≤◌, ◌<◌, ◌≡◌, ◌⊎◌, Bool, true, List, [], ◌∷◌, arith}
use drakkar.Prelude.Int.{ℤ, add64}
use drakkar.Stream.RangeMap.{SegmentSpan}
use drakkar.Stream.ReadAhead.{ReadAheadManager, set_connection_budget}
use drakkar.Stream.ReadAhead.Schedule.{
  count_spans, coerce_limit, adaptive_article_limit, ahead_target, share_of,
}

budget_bounds :
    (total pct : ℤ) (m : ReadAheadManager)
    → (1 ≤ (set_connection_budget total pct m).max_parallelism)
      × ((set_connection_budget total pct m).max_parallelism ≤ 60)
unfolding set_connection_budget
budget_bounds total pct m = ground arith

-- The division, and the floor of one.
share_cases :
    (p a : ℕ)
    → 1 ≤ a
    → (1 ≤ share_of p a) × (a ≤ p → a * share_of p a ≤ p) × (1 ≤ p → share_of p a ≤ p)
unfolding share_of
share_cases p a h = (ground arith, λ k. grind arith, λ k. grind arith)

-- Whatever the connection budget is set to, the window of every stream gets between one and sixty
-- fetches at once, and as long as there are no more streams than the whole allows, the equal parts of
-- all active streams together do not exceed the whole.
share_of-budget :
    (total pct : ℤ) (m : ReadAheadManager) (active : ℕ)
    → 1 ≤ active
    → let whole = (set_connection_budget total pct m).max_parallelism in
      (1 ≤ share_of whole active)
      × (share_of whole active ≤ 60)
      × (active ≤ whole → active * share_of whole active ≤ whole)
share_of-budget total pct m active h =
    let (lo, hi) = budget_bounds total pct m in
    let (a, b, c) = share_cases (set_connection_budget total pct m).max_parallelism active h in
    (a, omega (arith, c lo), b)

-- A step of the count leads on from the span's end.
count_spans-le :
    (e c : ℤ) (k : ℕ) (spans : List SegmentSpan) → k < 256 → count_spans e c k spans ≤ 256
unfolding count_spans
count_spans-le e c k [] h = omega arith
count_spans-le e c k (s ∷ spans) h =
    ground (arith, count_spans-le e c k spans h, count_spans-le e s.end (k + 1) spans)

-- The limit on the segments of a window is the configured one, or for a large file as many segments
-- as are needed, but never less than configured nor, by this, more than 256.
pub adaptive_article_limit_bounds :
    (spans : List SegmentSpan) (offset window : ℤ) (configured : ℕ) (high_bitrate : Bool)
    → let limit = adaptive_article_limit spans offset window configured high_bitrate in
      (1 ≤ limit)
      × (configured ≤ limit)
      × ((limit ≡ coerce_limit configured) × (1 ≤ limit) ⊎ (high_bitrate ≡ true) × (limit ≤ 256))
unfolding adaptive_article_limit coerce_limit
adaptive_article_limit_bounds spans offset window configured hb =
    ground (arith, count_spans-le (add64 offset (ahead_target window)) offset 0 spans (omega arith))
