-- ===== src/Stream/ReadAhead/Plan.antt =====
-- What is planned for a window: the segments from the read position on, up to the window's length, the
-- end of the file and the limit on segments.
use drakkar.Prelude.{
  ℕ, zero, suc, ◌<◌, ◌≡◌, refl, ◌∙◌, subst, ap, ◌||◌, none, some, List, [], ◌∷◌, arith,
  if◌then◌else◌, take,
}
use drakkar.Prelude.Int.{
  ℤ, pos, negsuc, pos_part, neg_part, ◌+ℤ◌, ◌-ℤ◌, ◌≤ℤ◌, ◌<ℤ◌, ltb_ℤ, leb_ℤ, eqb_ℤ, min_ℤ, add64,
  sub64, IsInt64, +ℤ_parts,
}
use drakkar.Stream.RangeMap.{SegmentRange, SegmentSpan, resolve_range, resolve_range_max}
use drakkar.Stream.RangeMap.Layout.{Layout, slices}
use drakkar.Stream.RangeMap.Exact.{resolve_range-expected}
use drakkar.Stream.RangeMap.Tiling.{Tiles, resolve_range-Tiles}
use drakkar.Stream.RangeMap.Limit.{resolve_range_max-take}
use drakkar.Stream.ReadAhead.{ReadAheadSession, ReadAheadManager, high_bitrate_file_size_threshold}
use drakkar.Stream.ReadAhead.Schedule.{
  file_end, last_range_end, midpoint, window_length, plan_before, plan_window,
  adaptive_article_limit,
}
use drakkar.Stream.ReadAhead.Share.{adaptive_article_limit_bounds}

file_end-Layout :
    (a b : ℤ) (s : SegmentSpan) (spans : List SegmentSpan)
    → Layout a (s ∷ spans) b
    → file_end (s ∷ spans) ≡ some b
unfolding file_end
file_end-Layout a b s [] (_, _, h) = ap some h
file_end-Layout a b s (t ∷ spans) (_, _, h) = file_end-Layout s.end b t spans h

file_end_lem :
    (spans : List SegmentSpan) (b : ℤ)
    → Layout (pos 0) spans b
    → pos 0 <ℤ b
    → file_end spans ≡ some b
file_end_lem [] b h l = absurd (omega (arith, ap pos_part h, ap neg_part h))
file_end_lem (s ∷ spans) b h l = file_end-Layout (pos 0) b s spans h

-- The wanted length is positive, within the window, and ends within the file.
window_length_bounds :
    (w offset end : ℤ)
    → pos 0 <ℤ w
    → pos 0 ≤ℤ offset
    → offset <ℤ end
    → IsInt64 w
    → IsInt64 end
    → (window_length w offset end ≡ min_ℤ w (end -ℤ offset))
      × (pos 0 <ℤ window_length w offset end)
      × (offset +ℤ window_length w offset end ≤ℤ end)
      × IsInt64 (window_length w offset end)
unfolding window_length sub64 ◌-ℤ◌ ◌+ℤ◌
window_length_bounds w offset end p q h f g = ground arith

Tiles-le : (a : ℤ) (rs : List SegmentRange) (b : ℤ) → Tiles a rs b → a ≤ℤ b
Tiles-le a [] b t = omega (arith, ap pos_part t, ap neg_part t)
Tiles-le a (r ∷ rs) b (_, p, _, _, t) = omega (arith, Tiles-le r.range_end rs b t)

-- A non-empty first part of ranges that tile an interval ends inside of it.
last_range_end-Tiles :
    (k : ℕ) (a b : ℤ) (rs : List SegmentRange)
    → Tiles a rs b
    → a <ℤ b
    → 0 < k
    → (z : ℤ) × (last_range_end (take k rs) ≡ some z) × (a <ℤ z) × (z ≤ℤ b)
unfolding last_range_end
last_range_end-Tiles zero a b rs t h l = absurd (omega arith)
last_range_end-Tiles (suc k) a b [] t h l = absurd (omega (arith, ap pos_part t, ap neg_part t))
last_range_end-Tiles (suc zero) a b (r ∷ rs) (_, p, _, _, t) h l =
    (r.range_end, refl, p, Tiles-le r.range_end rs b t)
last_range_end-Tiles (suc (suc k)) a b (r ∷ []) (_, p, _, _, t) h l =
    (r.range_end, refl, p, Tiles-le r.range_end [] b t)
last_range_end-Tiles (suc (suc k)) a b (r ∷ q ∷ rs) (_, p, _, _, t) h l =
    let (_, p', _, _, t') = t in
    let inside = Tiles-le q.range_end rs b t' in
    let (z, e, x, y) =
      last_range_end-Tiles (suc k) r.range_end b (q ∷ rs) t (omega arith) (omega arith) in
    (z, e, omega arith, y)

-- Half way to the end of the window, or its end.
pub midpoint_bounds :
    (offset end : ℤ)
    → pos 0 ≤ℤ offset
    → offset <ℤ end
    → IsInt64 end
    → (offset <ℤ midpoint offset end) × (midpoint offset end ≤ℤ end)
unfolding midpoint add64 sub64 ◌-ℤ◌ ◌+ℤ◌
midpoint_bounds (pos o) (pos e) p h f = ground arith
midpoint_bounds (pos o) (negsuc e) p h f = absurd (omega arith)
midpoint_bounds (negsuc o) e p h f = absurd (omega arith)

-- What is asked of the table, and its limit.
abbrev pub wanted : ReadAheadManager → ℤ → ℤ → ℤ
wanted m offset end = min_ℤ m.window_bytes (end -ℤ offset)

abbrev pub limit_of : ReadAheadManager → ReadAheadSession → ℤ → ℤ → ℕ
limit_of m s offset end =
    adaptive_article_limit s.spans offset (wanted m offset end) m.article_limit
      (leb_ℤ high_bitrate_file_size_threshold s.meta.file_size_bytes)

module _ (s : ReadAheadSession) (m : ReadAheadManager) (offset end : ℤ)
    (lay : Layout (pos 0) s.spans end) (fits : IsInt64 end) (window : pos 0 <ℤ m.window_bytes)
    (wide : IsInt64 m.window_bytes) (at : pos 0 ≤ℤ offset) (inside : offset <ℤ end) where
  length_bounds :
      (window_length m.window_bytes offset end ≡ wanted m offset end)
      × (pos 0 <ℤ wanted m offset end)
      × (offset +ℤ wanted m offset end ≤ℤ end)
      × IsInt64 (wanted m offset end)
  length_bounds =
      let (e, p, q, f) =
        window_length_bounds m.window_bytes offset end window at inside wide fits in
      (e, subst (λ x. pos 0 <ℤ x) e p, subst (λ x. offset +ℤ x ≤ℤ end) e q, subst IsInt64 e f)

  offset-IsInt64 : IsInt64 offset
  offset-IsInt64 = ground arith

  whole_range :
      resolve_range s.spans offset (wanted m offset end)
      ≡ some (slices s.spans offset (offset +ℤ wanted m offset end))
  whole_range =
      let (_, p, q, f) = length_bounds in
      resolve_range-expected s.spans end offset (wanted m offset end) lay fits offset-IsInt64 f
      ∙ accepted (wanted m offset end) p q
    where
      accepted :
          (w : ℤ)
          → pos 0 <ℤ w
          → offset +ℤ w ≤ℤ end
          → (if ltb_ℤ w (pos 0) || ltb_ℤ offset (pos 0)
              then none
              else if eqb_ℤ w (pos 0)
              then some []
              else if leb_ℤ (offset +ℤ w) end
              then some (slices s.spans offset (offset +ℤ w))
              else none)
            ≡ some (slices s.spans offset (offset +ℤ w))
      accepted w p q = ground arith

  limit_pos : 0 < limit_of m s offset end
  limit_pos =
      (adaptive_article_limit_bounds s.spans offset (wanted m offset end) m.article_limit
        (leb_ℤ high_bitrate_file_size_threshold s.meta.file_size_bytes)).0

  pub plan_window_lem :
      plan_window m s offset
      ≡ take (limit_of m s offset end) (slices s.spans offset (offset +ℤ wanted m offset end))
  plan_window_lem = planned (file_end_lem s.spans end lay (omega arith)) ranges
    where
      ranges :
          plan_before m s offset end
          ≡ some (
              take
                (limit_of m s offset end)
                (slices s.spans offset (offset +ℤ wanted m offset end)))
      ranges =
          unfold plan_before in
          ap
            (λ x. resolve_range_max s.spans offset x (
              adaptive_article_limit s.spans offset x m.article_limit
                (leb_ℤ high_bitrate_file_size_threshold s.meta.file_size_bytes)))
            (length_bounds.0)
          ∙ resolve_range_max-take s.spans offset (wanted m offset end) (limit_of m s offset end)
              (slices s.spans offset (offset +ℤ wanted m offset end)) limit_pos whole_range

      planned :
          {rs : List SegmentRange}
          → file_end s.spans ≡ some end
          → plan_before m s offset end ≡ some rs
          → plan_window m s offset ≡ rs
      planned e q = unfold plan_window in ground arith

  -- The window that is planned has a last range, behind the offset and within the file.
  pub planned_end :
      (z : ℤ) × (last_range_end (plan_window m s offset) ≡ some z) × (offset <ℤ z) × (z ≤ℤ end)
  planned_end =
      let (_, p, q, f) = length_bounds in
      let tiles =
        resolve_range-Tiles s.spans offset (wanted m offset end) offset-IsInt64 f whole_range in
      let (z, e, x, y) =
        last_range_end-Tiles (limit_of m s offset end) offset (offset +ℤ wanted m offset end)
          (slices s.spans offset (offset +ℤ wanted m offset end)) tiles (omega (arith, +ℤ_parts))
          limit_pos in
      (z, ap last_range_end plan_window_lem ∙ e, x, omega arith)
