-- ===== src/Stream/RangeMap.antt =====
-- internal/stream/range_map.go: the segments of a virtual file, and how a byte range is split over
-- them. The proofs are in the modules below. A nil error is `some`; the one error of these
-- functions, ErrRangeOutsideFile, is `none`. A limit `max_ranges` of 0 stands for every limit that
-- is not positive.
pub mod Search
pub mod Layout
pub mod Exact
pub mod Tiling
pub mod Limit
use drakkar.Prelude.{
  ℕ, zero, suc, ◌+◌, ◌-◌, ◌/◌, ◌≤◌, ◌<◌, ◌≡◌, refl, Bool, true, false, ◌&&◌, ◌||◌, not, Option,
  none, some, List, [], ◌∷◌, ◌++◌, arith, ltb, leb, ◌==◌, if◌then◌else◌, length, get_elem?, drop,
}
use drakkar.Prelude.Bytes.{Bytes}
use drakkar.Prelude.Int.{ℤ, pos, ltb_ℤ, leb_ℤ, eqb_ℤ, min_ℤ, add64}

pub record SegmentRange : Type 0 where
  pub segment_id : ℤ
  pub message_id : Bytes
  pub range_start : ℤ
  pub range_end : ℤ
  pub segment_start : ℤ
  pub segment_end : ℤ
  pub decoded_start : ℤ
  pub segment_byte_start : ℤ

pub record SegmentSpan : Type 0 where
  pub segment_id : ℤ
  pub message_id : Bytes
  pub start : ℤ
  pub end : ℤ
  pub decoded_start : ℤ
  pub segment_byte_start : ℤ
  pub entry_truncated : Bool

-- sort.Search(n, f): the loop keeps f(i-1) == false and f(j) == true.
unfoldable pub search_loop : ℕ → (ℕ → Bool) → ℕ → ℕ → ℕ
search_loop zero f i j = i
search_loop (suc fuel) f i j =
    let h = (i + j) / 2 in
    elim (ltb i j) [
      | false ↦ i
      | true ↦ elim (f h) [ false ↦ search_loop fuel f (h + 1) j | true ↦ search_loop fuel f i h ]
    ]

-- Each round halves the interval, so `n` rounds are enough.
unfoldable pub search : ℕ → (ℕ → Bool) → ℕ
unfolding search_loop
search n f = search_loop (n + 1) f 0 n

-- A test on spans[i]; `search` asks it only below len(spans).
unfoldable pub span_at : (SegmentSpan → Bool) → List SegmentSpan → ℕ → Bool
span_at p [] i = false
span_at p (s ∷ spans) zero = p s
span_at p (s ∷ spans) (suc i) = span_at p spans i

unfoldable pub range_of : SegmentSpan → ℤ → ℤ → SegmentRange
range_of span cursor end = record {
  segment_id = span.segment_id;
  message_id = span.message_id;
  range_start = cursor;
  range_end = end;
  segment_start = span.start;
  segment_end = span.end;
  decoded_start = span.decoded_start;
  segment_byte_start = span.segment_byte_start;
}

-- The body's tests on one span; the first span may start before the cursor.
unfoldable pub misplaced : Bool → SegmentSpan → ℤ → Bool
misplaced is_first span cursor =
    leb_ℤ span.end span.start
    || ((is_first && ltb_ℤ cursor span.start) || (not is_first && not (eqb_ℤ span.start cursor)))

-- What stands after the loop.
unfoldable pub finish : ℤ → ℕ → ℤ → List SegmentRange → Option (List SegmentRange)
finish request_end max_ranges cursor out =
    if not (eqb_ℤ cursor request_end) && not (ltb 0 max_ranges && length out == max_ranges)
    then none
    else some out

-- The loop over spans[first:].
unfoldable pub resolve_loop :
    ℤ → ℕ → List SegmentSpan → Bool → ℤ → List SegmentRange → Option (List SegmentRange)
unfolding range_of misplaced finish
resolve_loop request_end max_ranges [] is_first cursor out =
    finish request_end max_ranges cursor out
resolve_loop request_end max_ranges (span ∷ spans) is_first cursor out =
    let end = min_ℤ request_end span.end in
    let out' = out ++ range_of span cursor end ∷ [] in
    let rest = resolve_loop request_end max_ranges spans false end out' in
    if not (ltb_ℤ cursor request_end)
    then finish request_end max_ranges cursor out
    else if misplaced is_first span cursor
    then none
    else if leb_ℤ end cursor
    then none
    else if ltb 0 max_ranges && length out' == max_ranges
    then finish request_end max_ranges end out'
    else rest

-- The loop's start, once the spans were searched. The capacity of `out` is only tested here.
unfoldable pub resolve_from : List SegmentSpan → ℤ → ℤ → ℕ → ℕ → ℕ → Option (List SegmentRange)
unfolding resolve_loop span_at
resolve_from spans offset request_end max_ranges first last =
    if (first == length spans) || span_at (λ s. ltb_ℤ offset s.start) spans first
    then none
    else if leb
        (if leb first last && ltb last (length spans)
          then last - first + 1
          else length spans - first)
        0
    then none
    else resolve_loop request_end max_ranges (drop first spans) true offset []

unfoldable pub resolve_range_max : List SegmentSpan → ℤ → ℤ → ℕ → Option (List SegmentRange)
unfolding resolve_from search span_at add64
resolve_range_max spans offset len max_ranges =
    if ltb_ℤ len (pos 0) || ltb_ℤ offset (pos 0)
    then none
    else if eqb_ℤ len (pos 0)
    then some []
    else let request_end = add64 offset len in
      if ltb_ℤ request_end offset
      then none
      else resolve_from spans offset request_end max_ranges
          (search (length spans) (span_at (λ s. ltb_ℤ offset s.end) spans))
          (search (length spans) (span_at (λ s. leb_ℤ request_end s.end) spans))

unfoldable pub resolve_range : List SegmentSpan → ℤ → ℤ → Option (List SegmentRange)
unfolding resolve_range_max
resolve_range spans offset len = resolve_range_max spans offset len 0
