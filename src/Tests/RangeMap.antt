-- ===== src/Tests/RangeMap.antt =====
-- Byte ranges over a table of three segments (internal/stream/range_map.go).
use drakkar.Prelude.{some, none, List, [], ◌∷◌, false, ◌≡◌, refl, arith, take}
use drakkar.Prelude.Int.{ℤ, pos, ◌+ℤ◌}
use drakkar.Stream.RangeMap.{SegmentSpan, SegmentRange, range_of, resolve_range, resolve_range_max}
use drakkar.Stream.RangeMap.Exact.{expected, resolve_range-expected}
use drakkar.Stream.RangeMap.Tiling.{Tiles, resolve_range-Tiles}
use drakkar.Stream.RangeMap.Limit.{resolve_range_max-take}

abbrev span : ℤ → ℤ → ℤ → SegmentSpan
span id start end = record {
  segment_id = id;
  message_id = [];
  start = start;
  end = end;
  decoded_start = pos 0;
  segment_byte_start = pos 0;
  entry_truncated = false;
}

abbrev three : List SegmentSpan
three =
    span (pos 1) (pos 0) (pos 10)
    ∷ span (pos 2) (pos 10) (pos 15)
    ∷ span (pos 3) (pos 15) (pos 30)
    ∷ []

abbrev parts : List SegmentRange
parts =
    unfold range_of in
    range_of (span (pos 1) (pos 0) (pos 10)) (pos 8) (pos 10)
    ∷ range_of (span (pos 2) (pos 10) (pos 15)) (pos 10) (pos 15)
    ∷ range_of (span (pos 3) (pos 15) (pos 30)) (pos 15) (pos 18)
    ∷ []

three_parts : resolve_range three (pos 8) (pos 10) ≡ some parts
unfolding resolve_range range_of
three_parts = refl

beyond_the_end : resolve_range three (pos 28) (pos 3) ≡ none
unfolding resolve_range
beyond_the_end = refl

resolve_range-expected_example :
    resolve_range three (pos 8) (pos 10) ≡ expected three (pos 30) (pos 8) (pos 10)
resolve_range-expected_example =
    resolve_range-expected three (pos 30) (pos 8) (pos 10)
      (refl, omega arith, (refl, omega arith, (refl, omega arith, refl))) (omega arith)
      (omega arith) (omega arith)

resolve_range-Tiles_example : Tiles (pos 8) parts (pos 8 +ℤ pos 10)
resolve_range-Tiles_example =
    resolve_range-Tiles three (pos 8) (pos 10) (omega arith) (omega arith) three_parts

resolve_range_max-take_example : resolve_range_max three (pos 8) (pos 10) 2 ≡ some (take 2 parts)
resolve_range_max-take_example =
    resolve_range_max-take three (pos 8) (pos 10) 2 parts (omega arith) three_parts
