-- ===== src/Stream/StoredRar/Valid.antt =====
-- What a valid layout is, and what a correction keeps of it.
use drakkar.Prelude.{◌≡◌, true, false, List, [], ◌∷◌, ◌↔◌, arith, ◌==◌, length}
use drakkar.Prelude.Int.{ℤ, pos, ltb_ℤ, eqb_ℤ, ◌<ℤ◌}
use drakkar.Stream.RangeMap.{SegmentSpan}
use drakkar.Stream.RangeMap.Layout.{Layout}
use drakkar.Stream.StoredRar.{validate_loop, validate_stored_rar_spans}

validate_loop-Layout :
    (spans : List SegmentSpan) (a size : ℤ)
    → validate_loop spans a size ≡ true
    → Layout a spans size
unfolding validate_loop
validate_loop-Layout [] a size h = ground arith
validate_loop-Layout (s ∷ spans) a size h =
    let r = validate_loop-Layout spans s.end size in ground arith

Layout-validate_loop :
    (spans : List SegmentSpan) (a size : ℤ)
    → Layout a spans size
    → validate_loop spans a size ≡ true
unfolding validate_loop
Layout-validate_loop [] a size h = ground arith
Layout-validate_loop (s ∷ spans) a size (e, l, h) =
    let r = Layout-validate_loop spans s.end size h in ground arith

-- The spans of a file of positive size are taken as valid exactly if they lie one behind the other from
-- 0 to the size and none is empty.
pub validate_stored_rar_spans_lem :
    (spans : List SegmentSpan) (size : ℤ)
    → pos 0 <ℤ size
    → (validate_stored_rar_spans spans size ≡ true) ↔ Layout (pos 0) spans size
unfolding validate_stored_rar_spans
validate_stored_rar_spans_lem [] size h = (λ e. ground arith, λ e. ground arith)
validate_stored_rar_spans_lem (s ∷ spans) size h =
    let a : ltb_ℤ size (pos 0) ≡ false = ground arith in
    let b : eqb_ℤ size (pos 0) ≡ false = ground arith in
    let c : (length (s ∷ spans) == 0) ≡ false = ground arith in
    rw (validate_stored_rar_spans, a, b, c)
      (validate_loop-Layout (s ∷ spans) (pos 0) size, Layout-validate_loop (s ∷ spans) (pos 0) size)
