-- ===== src/Stream/RangeMap/Exact.antt =====
-- ResolveRange on a sorted, contiguous span table, on every branch: the binary search enters the
-- table at the right span, and the answer is that of the plain scan.
use drakkar.Prelude.{
  ℕ, zero, suc, ◌+◌, ◌-◌, ◌<◌, ◌≡◌, refl, Bool, true, false, ◌&&◌, ◌||◌, Option, none, some, List,
  [], ◌∷◌, inl, inr, arith, ltb, leb, ◌==◌, if◌then◌else◌, length, ◌^◌, Bool-cases,
}
use drakkar.Prelude.Int.{
  ℤ, pos, ◌+ℤ◌, ◌≤ℤ◌, ◌<ℤ◌, ltb_ℤ, leb_ℤ, eqb_ℤ, add64, IsInt64, +ℤ_parts, add64_fits, add64_wraps,
}
use drakkar.Stream.RangeMap.{
  SegmentRange, SegmentSpan, span_at, resolve_loop, resolve_from, resolve_range, search,
}
use drakkar.Stream.RangeMap.Search.{
  Monotone, first_index, drop_until, search-first_index, drop-first_index,
}
use drakkar.Stream.RangeMap.Layout.{
  Layout, Layout-le, slices, slices_drop, loop_first, loop_first_past,
}

abbrev ends_after : ℤ → SegmentSpan → Bool
ends_after lo s = ltb_ℤ lo s.end

-- In a layout the ends grow.
ends_after_all :
    (spans : List SegmentSpan) (a b lo : ℤ) (k : ℕ)
    → Layout a spans b
    → lo ≤ℤ a
    → k < length spans
    → span_at (ends_after lo) spans k ≡ true
unfolding span_at
ends_after_all [] a b lo k lay h l = absurd (omega arith)
ends_after_all (s ∷ spans) a b lo zero (e, p, lay) h l = ground arith
ends_after_all (s ∷ spans) a b lo (suc k) (e, p, lay) h l =
    ends_after_all spans s.end b lo k lay (omega arith) (omega arith)

ends_after_mono :
    (spans : List SegmentSpan) (a b lo : ℤ) → Layout a spans b → Monotone (ends_after lo) spans
unfolding span_at
ends_after_mono [] a b lo lay i k h l t = absurd (omega arith)
ends_after_mono (s ∷ spans) a b lo (e, p, lay) zero zero h l t = t
ends_after_mono (s ∷ spans) a b lo (e, p, lay) zero (suc k) h l t =
    ends_after_all spans s.end b lo k lay (ground arith) (omega arith)
ends_after_mono (s ∷ spans) a b lo (e, p, lay) (suc i) zero h l t = absurd (omega arith)
ends_after_mono (s ∷ spans) a b lo (e, p, lay) (suc i) (suc k) h l t =
    ends_after_mono spans s.end b lo lay i k (omega arith) (omega arith) t

-- The span that holds the offset.
record Entry (spans : List SegmentSpan) (b lo : ℤ) : Type 0 where
  span : SegmentSpan
  rest : List SegmentSpan
  dropped : drop_until (ends_after lo) spans ≡ span ∷ rest
  laid : Layout span.start (span ∷ rest) b
  starts : span.start ≤ℤ lo
  holds : lo <ℤ span.end
  inside : first_index (ends_after lo) spans < length spans
  at_first : (q : SegmentSpan → Bool) → span_at q spans (first_index (ends_after lo) spans) ≡ q span

entry :
    (spans : List SegmentSpan) (a b lo : ℤ)
    → Layout a spans b
    → a ≤ℤ lo
    → lo <ℤ b
    → Entry spans b lo
unfolding span_at
entry [] a b lo lay h l = absurd (let l' : lo <ℤ a = rw lay l in omega arith)
entry (s ∷ spans) a b lo (e, p, lay) h l = elim (Bool-cases (ends_after lo s)) [
  | inl t ↦ record {
    span = s;
    rest = spans;
    dropped = rw (t, drop_until);
    laid = (refl, rw e p, lay);
    starts = rw e h;
    holds = ground arith;
    inside = rw (t, first_index) (omega arith);
    at_first = λ q. rw (t, first_index) refl;
  }
  | inr t ↦
      let r = entry spans s.end b lo lay (ground arith) l in
      record {
        span = r.span;
        rest = r.rest;
        dropped = rw (t, drop_until) r.dropped;
        laid = r.laid;
        starts = r.starts;
        holds = r.holds;
        inside = rw (t, first_index) (omega (arith, r.inside));
        at_first = λ q. rw (t, first_index) (r.at_first q);
      }
]

past_all :
    (spans : List SegmentSpan) (a b lo : ℤ)
    → Layout a spans b
    → b ≤ℤ lo
    → first_index (ends_after lo) spans ≡ length spans
past_all [] a b lo lay h = refl
past_all (s ∷ spans) a b lo (e, p, lay) h =
    ground (arith, Layout-le s.end spans b lay, past_all spans s.end b lo lay h)

capacity_positive :
    (first last n : ℕ)
    → first < n
    → leb (if leb first last && ltb last n then last - first + 1 else n - first) 0 ≡ false
capacity_positive first last n h = ground arith

-- The loop starts at the span that holds the offset, wherever the second search ended.
resolve_from-Entry :
    (spans : List SegmentSpan) (b lo hi : ℤ) (last : ℕ) (r : Entry spans b lo)
    → resolve_from spans lo hi 0 (first_index (ends_after lo) spans) last
      ≡ resolve_loop hi 0 (r.span ∷ r.rest) true lo []
resolve_from-Entry spans b lo hi last r =
    let first = first_index (ends_after lo) spans in
    let below : (first == length spans) ≡ false = ground (arith, r.inside) in
    let not_before : span_at (λ s. ltb_ℤ lo s.start) spans first ≡ false =
      rw (r.at_first (λ s. ltb_ℤ lo s.start)) (ground (arith, r.starts)) in
    unfold resolve_from in
    rw (
      below,
      not_before,
      capacity_positive first last (length spans) r.inside,
      drop-first_index (ends_after lo) spans,
      r.dropped,
    )

resolve_from_past :
    (spans : List SegmentSpan) (lo hi : ℤ) (first last : ℕ)
    → first ≡ length spans
    → resolve_from spans lo hi 0 first last ≡ none
unfolding resolve_from
resolve_from_past spans lo hi first last h = ground arith

-- The answer on every branch.
abbrev pub expected : List SegmentSpan → ℤ → ℤ → ℤ → Option (List SegmentRange)
expected spans b offset len =
    if ltb_ℤ len (pos 0) || ltb_ℤ offset (pos 0)
    then none
    else if eqb_ℤ len (pos 0)
    then some []
    else if leb_ℤ (offset +ℤ len) b
    then some (slices spans offset (offset +ℤ len))
    else none

-- The work behind the argument checks, with the end of the range as a value.
search_and_loop :
    (spans : List SegmentSpan) (a b lo hi : ℤ) (last : ℕ)
    → Layout a spans b
    → a ≤ℤ lo
    → lo <ℤ hi
    → resolve_from spans lo hi 0 (search (length spans) (span_at (ends_after lo) spans)) last
      ≡ (if leb_ℤ hi b then some (slices spans lo hi) else none)
search_and_loop spans a b lo hi last lay h k =
    rw (search-first_index (ends_after lo) spans (ends_after_mono spans a b lo lay))
      (elim (Bool-cases (ltb_ℤ lo b)) [
        | inr t ↦
            let out : leb_ℤ hi b ≡ false = ground arith in
            rw (out)
              (resolve_from_past spans lo hi _ last (past_all spans a b lo lay (ground arith)))
        | inl t ↦ held (entry spans a b lo lay h (ground arith))
      ])
  where
    held :
        Entry spans b lo
        → resolve_from spans lo hi 0 (first_index (ends_after lo) spans) last
          ≡ (if leb_ℤ hi b then some (slices spans lo hi) else none)
    held r = rw (resolve_from-Entry spans b lo hi last r) (elim (Bool-cases (leb_ℤ hi b)) [
      | inl t ↦
          rw (t, ← slices_drop spans lo hi, r.dropped)
            (loop_first r.span r.rest r.span.start b lo hi r.laid r.starts r.holds k (ground arith))
      | inr t ↦ rw t (
          loop_first_past r.span r.rest r.span.start b lo hi r.laid r.starts r.holds (ground arith))
    ])

-- The branch of a positive length, where the end of the range may overflow.
positive_length :
    (spans : List SegmentSpan) (b offset len : ℤ)
    → Layout (pos 0) spans b
    → IsInt64 b
    → IsInt64 offset
    → IsInt64 len
    → pos 0 ≤ℤ offset
    → pos 0 <ℤ len
    → (if ltb_ℤ (add64 offset len) offset
        then none
        else resolve_from spans offset
            (add64 offset len)
            0
            (search (length spans) (span_at (ends_after offset) spans))
            (search (length spans) (span_at (λ s. leb_ℤ (add64 offset len) s.end) spans)))
      ≡ (if leb_ℤ (offset +ℤ len) b then some (slices spans offset (offset +ℤ len)) else none)
positive_length spans b offset len lay fb fo fl ho hl =
    elim (Bool-cases (leb_ℤ (pos (2 ^ 63)) (offset +ℤ len))) [
      | inl t ↦
          let wraps =
            add64_wraps offset len ho (omega arith) fo fl
              (λ f. absurd (ground (arith, +ℤ_parts offset len))) in
          let past : leb_ℤ (offset +ℤ len) b ≡ false = ground (arith, +ℤ_parts offset len) in
          let neg : ltb_ℤ (add64 offset len) offset ≡ true = ground arith in rw (neg, past)
      | inr t ↦
          let fits =
            add64_fits offset len ho (omega arith) fo fl
              (ground (arith, +ℤ_parts offset len), ground (arith, +ℤ_parts offset len)) in
          let grows : ltb_ℤ (offset +ℤ len) offset ≡ false = ground (arith, +ℤ_parts offset len) in
          rw (fits, grows)
            (search_and_loop spans (pos 0) b offset (offset +ℤ len) _ lay ho
              (omega (arith, +ℤ_parts offset len)))
    ]

-- On a contiguous table from 0 to `b`, ResolveRange refuses a negative offset or length, answers a
-- range of no bytes by no segments, answers a range within the table by the spans that it overlaps,
-- each cut to it, in order, and refuses every other range, one whose end overflows int64 included.
pub resolve_range-expected :
    (spans : List SegmentSpan) (b offset len : ℤ)
    → Layout (pos 0) spans b
    → IsInt64 b
    → IsInt64 offset
    → IsInt64 len
    → resolve_range spans offset len ≡ expected spans b offset len
unfolding resolve_range
resolve_range-expected spans b offset len lay fb fo fl =
    elim (Bool-cases (ltb_ℤ len (pos 0) || ltb_ℤ offset (pos 0))) [
      | inl t ↦ rw t
      | inr t ↦ rw t (elim (Bool-cases (eqb_ℤ len (pos 0))) [
        | inl z ↦ rw z
        | inr z ↦
            rw z (positive_length spans b offset len lay fb fo fl (ground arith) (ground arith))
      ])
    ]
