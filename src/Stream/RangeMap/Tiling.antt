-- ===== src/Stream/RangeMap/Tiling.antt =====
-- What ResolveRange promises for every span table, also one that is not sorted or has gaps, and what
-- the limit on the number of segments does.
use drakkar.Prelude.{
  ℕ, ◌≡◌, refl, sym, subst, ◌∙◌, Bool, true, false, some, List, [], ◌∷◌, ◌++◌, ◌⊎◌, inl, inr, arith,
  length, drop, Bool-cases,
}
use drakkar.Prelude.Int.{
  ℤ, pos, pos_part, neg_part, ◌+ℤ◌, ◌≤ℤ◌, ◌<ℤ◌, ltb_ℤ, leb_ℤ, eqb_ℤ, min_ℤ, add64, IsInt64,
  eq_of_parts, +ℤ_parts, add64_grows,
}
use drakkar.Stream.RangeMap.{
  SegmentRange, SegmentSpan, range_of, misplaced, finish, span_at, resolve_loop, resolve_from,
  resolve_range_max, resolve_range, search,
}

-- The ranges lie one behind the other from `a` to `b`, each is not empty and lies in its segment.
abbrev pub Tiles : ℤ → List SegmentRange → ℤ → Type 0
Tiles a [] b = a ≡ b
Tiles a (r ∷ rs) b =
    (r.range_start ≡ a)
    × (a <ℤ r.range_end)
    × (r.segment_start ≤ℤ a)
    × (r.range_end ≤ℤ r.segment_end)
    × Tiles r.range_end rs b

Tiles-snoc :
    (a c : ℤ) (rs : List SegmentRange) (r : SegmentRange)
    → Tiles a rs c
    → r.range_start ≡ c
    → c <ℤ r.range_end
    → r.segment_start ≤ℤ c
    → r.range_end ≤ℤ r.segment_end
    → Tiles a (rs ++ r ∷ []) r.range_end
Tiles-snoc a c [] r t h k l m = (h ∙ sym t, rw t k, rw t l, m, refl)
Tiles-snoc a c (x ∷ rs) r (p, q, u, v, t) h k l m =
    (p, q, u, v, Tiles-snoc x.range_end c rs r t h k l m)

tile_round :
    (hi : ℤ) (s : SegmentSpan) (f : Bool) (a c : ℤ) (out : List SegmentRange)
    → Tiles a out c
    → misplaced f s c ≡ false
    → leb_ℤ (min_ℤ hi s.end) c ≡ false
    → Tiles a (out ++ range_of s c (min_ℤ hi s.end) ∷ []) (min_ℤ hi s.end)
unfolding misplaced range_of
tile_round hi s f a c out t m e =
    Tiles-snoc a c out (range_of s c (min_ℤ hi s.end)) t refl (ground arith) (ground arith)
      (ground arith)

pub finish_inv :
    (hi c : ℤ) (out : List SegmentRange) {rs : List SegmentRange}
    → finish hi 0 c out ≡ some rs
    → (c ≡ hi) × (out ≡ rs)
unfolding finish
finish_inv hi c out h = elim (Bool-cases (eqb_ℤ c hi)) [
  | inl e ↦ (eq_of_parts c hi (ground arith), ground arith)
  | inr e ↦ absurd (ground arith)
]

finish-Tiles :
    (hi a c : ℤ) (out : List SegmentRange) {rs : List SegmentRange}
    → Tiles a out c
    → finish hi 0 c out ≡ some rs
    → Tiles a rs hi
finish-Tiles hi a c out {rs} t h =
    let (e, o) = finish_inv hi c out h in
    subst (λ c'. Tiles a rs c') e (subst (λ o'. Tiles a o' c) o t)

-- One successful round: the loop stops here, or goes on behind the span.
pub loop_inv :
    (spans : List SegmentSpan) (hi c : ℤ) (f : Bool) (s : SegmentSpan) (out : List SegmentRange)
    {rs : List SegmentRange}
    → resolve_loop hi 0 (s ∷ spans) f c out ≡ some rs
    → (finish hi 0 c out ≡ some rs)
      ⊎ (misplaced f s c ≡ false)
        × (leb_ℤ (min_ℤ hi s.end) c ≡ false)
        × (resolve_loop hi 0 spans false
              (min_ℤ hi s.end)
              (out ++ range_of s c (min_ℤ hi s.end) ∷ [])
            ≡ some rs)
unfolding resolve_loop
loop_inv spans hi c f s out h = ground arith

loop-Tiles :
    (spans : List SegmentSpan) (hi a c : ℤ) (f : Bool) (out : List SegmentRange)
    {rs : List SegmentRange}
    → Tiles a out c
    → resolve_loop hi 0 spans f c out ≡ some rs
    → Tiles a rs hi
loop-Tiles [] hi a c f out t h = finish-Tiles hi a c out t (unfold resolve_loop in h)
loop-Tiles (s ∷ spans) hi a c f out t h = elim (loop_inv spans hi c f s out h) [
  | inl e ↦ finish-Tiles hi a c out t e
  | inr (m, e, rest) ↦
      loop-Tiles spans hi a (min_ℤ hi s.end) false _ (tile_round hi s f a c out t m e) rest
]

resolve_from-Tiles :
    (spans : List SegmentSpan) (lo hi : ℤ) (first last : ℕ) {rs : List SegmentRange}
    → resolve_from spans lo hi 0 first last ≡ some rs
    → Tiles lo rs hi
resolve_from-Tiles spans lo hi first last h =
    loop-Tiles (drop first spans) hi lo lo true [] refl (behind h)
  where
    behind :
        {rs : List SegmentRange}
        → resolve_from spans lo hi 0 first last ≡ some rs
        → resolve_loop hi 0 (drop first spans) true lo [] ≡ some rs
    behind h = unfold resolve_from in ground arith

range_inv :
    (spans : List SegmentSpan) (offset len : ℤ) {rs : List SegmentRange}
    → resolve_range spans offset len ≡ some rs
    → (pos 0 ≤ℤ offset)
      × (pos 0 ≤ℤ len)
      × ((pos_part len ≡ neg_part len) × (rs ≡ [])
          ⊎ (ltb_ℤ (add64 offset len) offset ≡ false)
            × (resolve_from spans offset
                  (add64 offset len)
                  0
                  (search (length spans) (span_at (λ s. ltb_ℤ offset s.end) spans))
                  (search (length spans) (span_at (λ s. leb_ℤ (add64 offset len) s.end) spans))
                ≡ some rs))
unfolding resolve_range_max resolve_range
range_inv spans offset len h = ground arith

-- For every table, also one that is not sorted or has gaps: what ResolveRange returns for a
-- range within int64 covers exactly the bytes from the offset to the end of the range, in order and
-- with no gap and no overlap, by parts that are not empty and lie within their segments.
pub resolve_range-Tiles :
    (spans : List SegmentSpan) (offset len : ℤ) {rs : List SegmentRange}
    → IsInt64 offset
    → IsInt64 len
    → resolve_range spans offset len ≡ some rs
    → Tiles offset rs (offset +ℤ len)
resolve_range-Tiles spans offset len {rs} fo fl h =
    let (ho, hl, c) = range_inv spans offset len h in
    elim c [
      | inl (z, e) ↦ rw e (eq_of_parts offset (offset +ℤ len) (omega (arith, +ℤ_parts offset len)))
      | inr (g, r) ↦
          subst (λ b. Tiles offset rs b) (add64_grows offset len ho hl fo fl (ground arith))
            (resolve_from-Tiles spans offset (add64 offset len) _ _ r)
    ]
