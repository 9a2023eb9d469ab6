-- ===== src/Stream/RangeMap/Search.antt =====
-- sort.Search as range_map.go uses it: it finds the threshold of a test on the spans.
use drakkar.Prelude.{
  ℕ, zero, suc, ◌+◌, ◌/◌, ◌≤◌, ◌<◌, ◌≡◌, refl, Bool, true, false, List, [], ◌∷◌, inl, inr, arith,
  ltb, if◌then◌else◌, length, drop, Bool-cases,
}
use drakkar.Stream.RangeMap.{SegmentSpan, search_loop, search, span_at}

module _ (f : ℕ → Bool) (n t : ℕ) (below : (k : ℕ) → k < t → f k ≡ false)
    (above : (k : ℕ) → t ≤ k → k < n → f k ≡ true) where
  search_loop_lem :
      (fuel i j : ℕ) → i ≤ t → t ≤ j → j ≤ n → j < i + fuel → search_loop fuel f i j ≡ t
  unfolding search_loop
  search_loop_lem zero i j p q r s = omega arith
  search_loop_lem (suc fuel) i j p q r s = elim (Bool-cases (ltb i j)) [
    | inr e ↦ rw (e, search_loop) (ground arith)
    | inl e ↦ elim (Bool-cases (f ((i + j) / 2))) [
      | inr g ↦
          rw (e, search_loop, g)
            (search_loop_lem fuel ((i + j) / 2 + 1) j (ground (arith, above ((i + j) / 2))) q r
              (ground arith))
      | inl g ↦
          rw (e, search_loop, g)
            (search_loop_lem fuel i ((i + j) / 2) p (ground (arith, below ((i + j) / 2)))
              (ground arith) (ground arith))
    ]
  ]

  pub search_lem : t ≤ n → search n f ≡ t
  unfolding search
  search_lem h = search_loop_lem (n + 1) 0 n (omega arith) h (omega arith) (omega arith)

-- The first position whose span passes the test, or the length.
abbrev pub first_index : (SegmentSpan → Bool) → List SegmentSpan → ℕ
first_index p [] = 0
first_index p (s ∷ spans) = let rest = suc (first_index p spans) in if p s then 0 else rest

abbrev pub drop_until : (SegmentSpan → Bool) → List SegmentSpan → List SegmentSpan
drop_until p [] = []
drop_until p (s ∷ spans) = let rest = drop_until p spans in if p s then s ∷ spans else rest

-- Every span after one that passes the test passes it too.
abbrev pub Monotone : (SegmentSpan → Bool) → List SegmentSpan → Type 0
Monotone p spans =
    (i k : ℕ) → i ≤ k → k < length spans → span_at p spans i ≡ true → span_at p spans k ≡ true

pub first_index-le :
    (p : SegmentSpan → Bool) (spans : List SegmentSpan) → first_index p spans ≤ length spans
first_index-le p [] = omega arith
first_index-le p (s ∷ spans) = ground (arith, first_index-le p spans)

first_index_below :
    (p : SegmentSpan → Bool) (spans : List SegmentSpan) (k : ℕ)
    → k < first_index p spans
    → span_at p spans k ≡ false
unfolding span_at
first_index_below p [] k h = refl
first_index_below p (s ∷ spans) zero h = ground arith
first_index_below p (s ∷ spans) (suc k) h = ground (arith, first_index_below p spans k)

first_index_at :
    (p : SegmentSpan → Bool) (spans : List SegmentSpan)
    → first_index p spans < length spans
    → span_at p spans (first_index p spans) ≡ true
unfolding span_at
first_index_at p [] h = absurd (omega arith)
first_index_at p (s ∷ spans) h = elim (Bool-cases (p s)) [
  | inl e ↦ rw (e, first_index) e
  | inr e ↦ rw (e, first_index) (first_index_at p spans (ground arith))
]

pub search-first_index :
    (p : SegmentSpan → Bool) (spans : List SegmentSpan)
    → Monotone p spans
    → search (length spans) (span_at p spans) ≡ first_index p spans
search-first_index p spans mono =
    search_lem (span_at p spans) (length spans) (first_index p spans) (first_index_below p spans)
      (λ k q r. mono (first_index p spans) k q r (first_index_at p spans (omega arith)))
      (first_index-le p spans)

pub drop-first_index :
    (p : SegmentSpan → Bool) (spans : List SegmentSpan)
    → drop (first_index p spans) spans ≡ drop_until p spans
drop-first_index p [] = refl
drop-first_index p (s ∷ spans) = ground (arith, drop-first_index p spans)
