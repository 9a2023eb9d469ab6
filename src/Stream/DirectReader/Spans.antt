-- ===== src/Stream/DirectReader/Spans.antt =====
-- The span that a read position falls into.
use drakkar.Prelude.{
  ℕ, zero, suc, ◌+◌, ◌/◌, ◌≤◌, ◌<◌, ◌≡◌, Bool, true, some, List, [], ◌∷◌, inl, inr, arith, ltb,
  length, get_elem?, Bool-cases, Option-cases,
}
use drakkar.Prelude.Int.{ℤ, ltb_ℤ, ◌≤ℤ◌, ◌<ℤ◌}
use drakkar.Stream.RangeMap.{SegmentSpan, search_loop, search, span_at}
use drakkar.Stream.DirectReader.{DirectNzbReader, starts_before, find_span}

-- Where the answer of sort.Search is below the length, the test holds there, whatever the test is.
pub search_loop_found :
    (f : ℕ → Bool) (n fuel i j : ℕ)
    → i ≤ j
    → j < i + fuel
    → (j < n → f j ≡ true)
    → search_loop fuel f i j < n
    → f (search_loop fuel f i j) ≡ true
unfolding search_loop
search_loop_found f n zero i j p q h = absurd (omega arith)
search_loop_found f n (suc fuel) i j p q h = elim (Bool-cases (ltb i j)) [
  | inr e ↦ let z : i ≡ j = ground arith in rw (search_loop, e) (rw (← z) at h)
  | inl e ↦ elim (Bool-cases (f ((i + j) / 2))) [
    | inr g ↦
        rw (search_loop, e, g)
          (search_loop_found f n fuel ((i + j) / 2 + 1) j (ground arith) (ground arith) h)
    | inl g ↦
        rw (search_loop, e, g)
          (search_loop_found f n fuel i ((i + j) / 2) (ground arith) (ground arith) (λ _. g))
  ]
]

pub span_at-get_elem? :
    (p : SegmentSpan → Bool) (spans : List SegmentSpan) (i : ℕ) (s : SegmentSpan)
    → get_elem? spans i ≡ some s
    → (i < length spans) × (span_at p spans i ≡ p s)
unfolding span_at
span_at-get_elem? p [] i s h = ground arith
span_at-get_elem? p (x ∷ spans) zero s h = ground arith
span_at-get_elem? p (x ∷ spans) (suc i) s h = ground (arith, span_at-get_elem? p spans i s)

-- The span that findSpan gives is the one at the index it gives, and the offset lies in it, whatever
-- the table is, also after spans were shifted.
pub find_span_lem :
    (r : DirectNzbReader) (offset : ℤ) (s : SegmentSpan) (i : ℕ)
    → find_span r offset ≡ some (s, i)
    → (get_elem? r.spans i ≡ some s) × (s.start ≤ℤ offset) × (offset <ℤ s.end)
unfolding find_span starts_before
find_span_lem r offset s i h =
    let p : SegmentSpan → Bool = λ x. ltb_ℤ offset x.end in
    let k = search (length r.spans) (span_at p r.spans) in
    elim (Option-cases (get_elem? r.spans k)) [
      | inl n ↦ absurd (let h' = rw n at h in cc)
      | inr (x, e) ↦
          let h' = rw e at h in
          let (l, q) = span_at-get_elem? p r.spans k x e in
          let t : span_at p r.spans k ≡ true =
            unfold search in
            search_loop_found (span_at p r.spans) (length r.spans) (length r.spans + 1) 0
              (length r.spans) (omega arith) (omega arith) (λ z. absurd (omega arith)) l in
          ground arith
    ]
