-- ===== src/Tests/Spans.antt =====
-- The spans of a file inside of an archive of three segments (internal/database/content_repository.go).
use drakkar.Prelude.{◌+◌, ◌-◌, ◌≡◌, refl, [], ◌∷◌, arith, min}
use drakkar.Prelude.Int.{pos, add64, sub64, times64}
use drakkar.Prelude.Bytes.{codes}
use drakkar.Stream.RangeMap.Layout.{Layout}
use drakkar.Database.Spans.{
  compute_spans, spans_loop, segment_span, segment_end, span_from, span_file_size,
}
use drakkar.Database.Spans.Ends.{total_size}
use drakkar.Database.Spans.Layout.{compute_spans-Layout}

-- Segments of 10, 10 and 4 bytes; the file begins at 13 and has 9 bytes.
compute_spans-Layout_example :
    Layout
      (pos 0)
      (compute_spans (codes "a" ∷ codes "b" ∷ codes "c" ∷ []) (pos 10) (pos 4) (pos 13) (pos 9))
      (pos (min (13 + 9) (total_size 3 10 (pos 4)) - 13))
compute_spans-Layout_example =
    compute_spans-Layout (codes "a" ∷ codes "b" ∷ codes "c" ∷ []) 10 (pos 4) 13 9 (omega arith)
      (omega arith) (omega arith) (omega arith) (omega arith) (omega arith) (omega arith)

size_of_spans :
    span_file_size
      (compute_spans (codes "a" ∷ codes "b" ∷ codes "c" ∷ []) (pos 10) (pos 4) (pos 13) (pos 9))
      (pos 0)
    ≡ pos 9
unfolding span_file_size compute_spans spans_loop segment_span segment_end span_from add64 sub64
    times64
size_of_spans = refl
