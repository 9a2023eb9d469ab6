-- ===== src/Stream/RangeMap/Layout.antt =====
-- What ResolveRange answers on a sorted, contiguous span table.
use drakkar.Prelude.{
  ◌≡◌, refl, Bool, true, false, ◌&&◌, none, some, List, [], ◌∷◌, ◌++◌, append_assoc, append-nil,
  ◌⊎◌, inl, inr, arith, if◌then◌else◌, Bool-cases,
}
use drakkar.Prelude.Int.{ℤ, ◌≤ℤ◌, ◌<ℤ◌, ltb_ℤ, min_ℤ, eq_of_parts}
use drakkar.Stream.RangeMap.{SegmentRange, SegmentSpan, range_of, resolve_loop}
use drakkar.Stream.RangeMap.Search.{drop_until}

-- The spans lie one behind the other from `a` to `b`, and none is empty.
abbrev pub Layout : ℤ → List SegmentSpan → ℤ → Type 0
Layout a [] b = a ≡ b
Layout a (s ∷ spans) b = (s.start ≡ a) × (a <ℤ s.end) × Layout s.end spans b

abbrev pub max_ℤ : ℤ → ℤ → ℤ
max_ℤ a b = if ltb_ℤ a b then b else a

-- The bytes from `lo` to `hi` of a span, with what identifies the span.
abbrev pub cut_to : SegmentSpan → ℤ → ℤ → SegmentRange
cut_to s lo hi = record {
  segment_id = s.segment_id;
  message_id = s.message_id;
  range_start = lo;
  range_end = hi;
  segment_start = s.start;
  segment_end = s.end;
  decoded_start = s.decoded_start;
  segment_byte_start = s.segment_byte_start;
}

-- The reference: every span that overlaps [lo, hi), cut to it, in the order of the table.
abbrev pub slices : List SegmentSpan → ℤ → ℤ → List SegmentRange
slices [] lo hi = []
slices (s ∷ spans) lo hi =
    let rest = slices spans lo hi in
    if ltb_ℤ lo s.end && ltb_ℤ s.start hi
    then cut_to s (max_ℤ lo s.start) (min_ℤ hi s.end) ∷ rest
    else rest

pub Layout-le : (a : ℤ) (spans : List SegmentSpan) (b : ℤ) → Layout a spans b → a ≤ℤ b
Layout-le a [] b h = rw h (omega arith)
Layout-le a (s ∷ spans) b (e, l, h) = omega (arith, Layout-le s.end spans b h)

-- Spans behind the range give nothing.
slices_behind :
    (a : ℤ) (spans : List SegmentSpan) (b lo hi : ℤ)
    → Layout a spans b
    → hi ≤ℤ a
    → slices spans lo hi ≡ []
slices_behind a [] b lo hi h l = refl
slices_behind a (s ∷ spans) b lo hi (e, p, h) l =
    let le : hi ≤ℤ s.start = rw e l in
    ground (arith, slices_behind s.end spans b lo hi h (omega arith))

-- Spans before the range give nothing.
pub slices_drop :
    (spans : List SegmentSpan) (lo hi : ℤ)
    → slices (drop_until (λ s. ltb_ℤ lo s.end) spans) lo hi ≡ slices spans lo hi
slices_drop [] lo hi = refl
slices_drop (s ∷ spans) lo hi = ground (arith, slices_drop spans lo hi)

max_eq_right : (a b : ℤ) → a ≤ℤ b → max_ℤ a b ≡ b
max_eq_right a b h = elim (Bool-cases (ltb_ℤ a b)) [
  | inl e ↦ rw e refl
  | inr e ↦ rw e (eq_of_parts a b (ground arith))
]

max_eq_left : (a b : ℤ) → b ≤ℤ a → max_ℤ a b ≡ a
max_eq_left a b h = ground arith

-- At the end of the range the loop stops.
loop_done :
    (hi : ℤ) (spans : List SegmentSpan) (out : List SegmentRange)
    → resolve_loop hi 0 spans false hi out ≡ some out
unfolding resolve_loop
loop_done hi [] out = ground arith
loop_done hi (s ∷ spans) out = ground arith

-- One round on the span that holds the cursor.
loop_step :
    (hi : ℤ) (s : SegmentSpan) (spans : List SegmentSpan) (is_first : Bool) (c : ℤ)
    (out : List SegmentRange)
    → c <ℤ hi
    → s.start ≤ℤ c
    → c <ℤ s.end
    → (is_first ≡ true) ⊎ (s.start ≡ c)
    → resolve_loop hi 0 (s ∷ spans) is_first c out
      ≡ resolve_loop hi 0 spans false (min_ℤ hi s.end) (out ++ range_of s c (min_ℤ hi s.end) ∷ [])
unfolding resolve_loop
loop_step hi s spans is_first c out h k l m = ground arith

-- A span that overlaps the range, when the range is first met at `c`.
slices_here :
    (s : SegmentSpan) (spans : List SegmentSpan) (c lo hi : ℤ)
    → lo <ℤ s.end
    → s.start <ℤ hi
    → max_ℤ lo s.start ≡ c
    → slices (s ∷ spans) lo hi ≡ range_of s c (min_ℤ hi s.end) ∷ slices spans lo hi
unfolding range_of
slices_here s spans c lo hi h k e = rw (← e) (ground arith)

-- What is left after a round, given the claim for the rest of the table.
loop_rest :
    (spans : List SegmentSpan) (c b lo hi : ℤ) (out : List SegmentRange)
    → (c <ℤ hi → resolve_loop hi 0 spans false c out ≡ some (out ++ slices spans lo hi))
    → Layout c spans b
    → resolve_loop hi 0 spans false (min_ℤ hi c) out ≡ some (out ++ slices spans lo hi)
loop_rest spans c b lo hi out rec lay = elim (Bool-cases (ltb_ℤ c hi)) [
  | inl e ↦ rw e (rec (ground arith))
  | inr e ↦
      rw (e, slices_behind c spans b lo hi lay (ground arith), append-nil) (loop_done hi spans out)
]

loop_slices :
    (spans : List SegmentSpan) (c b lo hi : ℤ) (out : List SegmentRange)
    → Layout c spans b
    → lo ≤ℤ c
    → c <ℤ hi
    → hi ≤ℤ b
    → resolve_loop hi 0 spans false c out ≡ some (out ++ slices spans lo hi)
loop_slices [] c b lo hi out lay h k l = absurd (let k' : b <ℤ hi = rw (← lay) k in omega arith)
loop_slices (s ∷ spans) c b lo hi out (e, p, lay) h k l =
    let p' : s.start <ℤ s.end = rw e p in
    let h' : lo ≤ℤ s.start = rw e h in
    let k' : s.start <ℤ hi = rw e k in
    rw (← e) (
      rw (loop_step hi s spans false s.start out k' (omega arith) p' (inr refl)) (
        rw
          (loop_rest spans s.end b lo hi (out ++ range_of s s.start (min_ℤ hi s.end) ∷ [])
            (λ q. loop_slices spans s.end b lo hi _ lay (omega arith) q l) lay)
          (rw (
            slices_here s spans s.start lo hi (omega arith) k' (max_eq_right lo s.start h'),
            append_assoc,
          ))))

pub loop_first :
    (s : SegmentSpan) (spans : List SegmentSpan) (a b lo hi : ℤ)
    → Layout a (s ∷ spans) b
    → a ≤ℤ lo
    → lo <ℤ s.end
    → lo <ℤ hi
    → hi ≤ℤ b
    → resolve_loop hi 0 (s ∷ spans) true lo [] ≡ some (slices (s ∷ spans) lo hi)
loop_first s spans a b lo hi (e, p, lay) h k l m =
    let h' : s.start ≤ℤ lo = rw e h in
    rw (loop_step hi s spans true lo [] l h' k (inl refl)) (
      rw
        (loop_rest spans s.end b lo hi (range_of s lo (min_ℤ hi s.end) ∷ [])
          (λ q. loop_slices spans s.end b lo hi _ lay (omega arith) q m) lay)
        (rw (slices_here s spans lo lo hi k (omega arith) (max_eq_left lo s.start h'))))

-- A range that ends behind the table is refused.
loop_past :
    (spans : List SegmentSpan) (c b hi : ℤ) (out : List SegmentRange)
    → Layout c spans b
    → b <ℤ hi
    → resolve_loop hi 0 spans false c out ≡ none
loop_past [] c b hi out lay h = let h' : c <ℤ hi = rw lay h in unfold resolve_loop in ground arith
loop_past (s ∷ spans) c b hi out (e, p, lay) h =
    let p' : s.start <ℤ s.end = rw e p in
    let l : s.end <ℤ hi = omega (arith, Layout-le s.end spans b lay) in
    let m : min_ℤ hi s.end ≡ s.end = ground arith in
    rw (← e) (
      rw (loop_step hi s spans false s.start out (omega arith) (omega arith) p' (inr refl), m)
        (loop_past spans s.end b hi _ lay h))

pub loop_first_past :
    (s : SegmentSpan) (spans : List SegmentSpan) (a b lo hi : ℤ)
    → Layout a (s ∷ spans) b
    → a ≤ℤ lo
    → lo <ℤ s.end
    → b <ℤ hi
    → resolve_loop hi 0 (s ∷ spans) true lo [] ≡ none
loop_first_past s spans a b lo hi (e, p, lay) h k l =
    let h' : s.start ≤ℤ lo = rw e h in
    let q : s.end <ℤ hi = omega (arith, Layout-le s.end spans b lay) in
    let m : min_ℤ hi s.end ≡ s.end = ground arith in
    rw (loop_step hi s spans true lo [] (omega arith) h' k (inl refl), m)
      (loop_past spans s.end b hi _ lay l)
