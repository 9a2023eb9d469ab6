-- ===== src/Database/Spans.antt =====
-- internal/database/content_repository.go: the spans of a virtual file, from the message ids of the
-- segments and their decoded sizes. Sizes and offsets are int64 and wrap around. An index is not
-- negative, since an offset before the file is not used; the size of a segment is positive where it
-- is multiplied.
pub mod Ends
pub mod Layout
use drakkar.Prelude.{
  ℕ, zero, suc, ◌+◌, ◌-◌, ◌*◌, ◌/◌, Bool, true, false, ◌&&◌, ◌||◌, Option, none, some, List, [],
  ◌∷◌, ◌++◌, ltb, leb, ◌==◌, if◌then◌else◌, length, drop,
}
use drakkar.Prelude.Int.{ℤ, pos, pos_part, ltb_ℤ, leb_ℤ, add64, sub64, times64}
use drakkar.Prelude.Bytes.{Bytes}
use drakkar.Stream.RangeMap.{SegmentSpan}

-- The span of one segment: the part of it from `data_start` to `data_end`, at `vf_pos` of the file.
unfoldable pub span_from : ℕ → Bytes → ℤ → ℤ → ℤ → ℤ → ℤ → SegmentSpan
unfolding add64 sub64
span_from i id seg_start seg_end data_start data_end vf_pos = record {
  segment_id = pos i;
  message_id = id;
  start = vf_pos;
  end = add64 vf_pos (sub64 data_end data_start);
  decoded_start = seg_start;
  segment_byte_start = sub64 data_start seg_start;
  entry_truncated = ltb_ℤ data_end seg_end;
}

module _ (count size : ℕ) (last_size offset entry_end : ℤ) where
  -- segEnd, for the segment `i` of `count`.
  unfoldable pub segment_end : ℕ → ℤ
  unfolding add64 times64
  segment_end i =
      add64 (times64 i size)
        (if (i + 1 == count) && ltb_ℤ (pos 0) last_size then last_size else pos size)

  unfoldable pub segment_span : ℕ → Bytes → ℤ → SegmentSpan
  unfolding span_from segment_end times64
  segment_span i id vf_pos =
      let seg_start = times64 i size in
      let seg_end = segment_end i in
      span_from i id seg_start seg_end (if ltb_ℤ offset seg_start then seg_start else offset)
        (if ltb_ℤ seg_end entry_end then seg_end else entry_end) vf_pos

  -- The loop over the segments, from `i` on.
  unfoldable pub spans_loop : List Bytes → ℕ → ℤ → List SegmentSpan
  unfolding segment_span times64
  spans_loop [] i vf_pos = []
  spans_loop (id ∷ ids) i vf_pos = elim (leb_ℤ entry_end (times64 i size)) [
    | true ↦ []
    | false ↦ let s = segment_span i id vf_pos in s ∷ spans_loop ids (i + 1) s.end
  ]

unfoldable pub compute_spans : List Bytes → ℤ → ℤ → ℤ → ℤ → List SegmentSpan
unfolding spans_loop add64
compute_spans ids size last_size offset entry_size =
    if (length ids == 0) || leb_ℤ size (pos 0)
    then []
    else let first = pos_part offset / pos_part size in
      spans_loop (length ids) (pos_part size) last_size offset (add64 offset entry_size)
        (drop first ids) first (pos 0)

unfoldable pub span_file_size : List SegmentSpan → ℤ → ℤ
span_file_size [] end = end
span_file_size (s ∷ ss) end = span_file_size ss (if ltb_ℤ end s.end then s.end else end)

unfoldable pub truncate_spans : List SegmentSpan → ℤ → List SegmentSpan
truncate_spans [] size = []
truncate_spans (s ∷ ss) size =
    let rest = truncate_spans ss size in
    if leb_ℤ size s.start
    then []
    else (if ltb_ℤ size s.end then record s { end = size } else s) ∷ rest
