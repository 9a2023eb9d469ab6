-- ===== src/Stream/StoredRar/Realign.antt =====
-- A correction keeps the layout valid: realignSpan of internal/stream/stored_rar_reader.go.
use drakkar.Prelude.{
  ℕ, ◌+◌, ◌-◌, ◌^◌, ◌≤◌, ◌<◌, ◌≡◌, sym, ap, ◌∙◌, subst, true, ◌&&◌, some, List, [], ◌∷◌, inl, inr,
  arith, if◌then◌else◌, length, Bool-cases, Option-cases, All,
}
use mathlib.Core.Option.{some-injective}
use drakkar.Prelude.Int.{ℤ, pos, pos_part, add64, sub64, eqb_ℤ, ◌<ℤ◌, ◌≤ℤ◌, add64_pos}
use drakkar.Stream.RangeMap.{SegmentSpan}
use drakkar.Stream.RangeMap.Layout.{Layout, Layout-le}
use drakkar.Stream.DirectReader.{shift_spans, last_end}
use drakkar.Stream.StoredRar.{
  SpanState, validate_stored_rar_spans, corrected_length, corrected_spans, publish, realign_span,
}
use drakkar.Stream.StoredRar.Valid.{validate_stored_rar_spans_lem}

same_width :
    (s : SegmentSpan) (e : ℕ)
    → pos e <ℤ s.end
    → (s.end ≡ pos (pos_part s.end)) × (e < pos_part s.end)
same_width s e h = ground arith

delta_same :
    (e f x : ℕ)
    → e ≤ f
    → f < 2 ^ 63
    → f - e + x < 2 ^ 63
    → sub64 (pos (f - e + x)) (pos f) ≡ sub64 (pos x) (pos e)
unfolding sub64
delta_same e f x h k l = ground arith

add_delta :
    (e f x : ℕ)
    → e ≤ f
    → f < 2 ^ 63
    → f - e + x < 2 ^ 63
    → add64 (pos f) (sub64 (pos x) (pos e)) ≡ pos (f - e + x)
unfolding add64 sub64
add_delta e f x h k l = ground arith

-- Spans that lie one behind the other do so after a shift.
shift_spans-Layout :
    (spans : List SegmentSpan) (e b x : ℕ)
    → Layout (pos e) spans (pos b)
    → b < 2 ^ 63
    → b - e + x < 2 ^ 63
    → Layout (pos x) (shift_spans (sub64 (pos x) (pos e)) spans) (pos (b - e + x))
unfolding shift_spans
shift_spans-Layout [] e b x h c k = ap pos (let z : e ≡ b = ground arith in omega arith)
shift_spans-Layout (s ∷ spans) e b x (start, wide, rest) c k =
    let f = pos_part s.end in
    let (q, l) = same_width s e wide in
    let D = sub64 (pos x) (pos e) in
    let r : Layout (pos f) spans (pos b) = subst (λ w. Layout w spans (pos b)) q rest in
    let o = Layout-le (pos f) spans (pos b) r in
    let d = delta_same e f x (omega arith) (omega arith) (omega arith) in
    let i = shift_spans-Layout spans f b (f - e + x) r c (omega arith) in
    let first : add64 s.start D ≡ pos x =
      ap (λ w. add64 w D) start
      ∙ add_delta e e x (omega arith) (omega arith) (omega arith)
      ∙ ap pos (omega arith) in
    let last : add64 s.end D ≡ pos (f - e + x) =
      ap (λ w. add64 w D) q ∙ add_delta e f x (omega arith) (omega arith) (omega arith) in
    let total : b - f + (f - e + x) ≡ b - e + x = omega arith in
    let i' : Layout (pos (f - e + x)) (shift_spans D spans) (pos (b - e + x)) =
      subst (λ t. Layout (pos (f - e + x)) (shift_spans D spans) (pos t)) total
        (subst (λ w. Layout (pos (f - e + x)) (shift_spans w spans) (pos (b - f + (f - e + x)))) d
          i) in
    (
      first,
      subst (λ w. pos x <ℤ w) (sym last) (omega arith),
      subst (λ w. Layout w (shift_spans D spans) (pos (b - e + x))) (sym last) i',
    )

no_delta :
    (u f : ℕ) → u < 2 ^ 63 → f < 2 ^ 63 → eqb_ℤ (sub64 (pos u) (pos f)) (pos 0) ≡ true → u ≡ f
unfolding sub64
no_delta u f h k e = ground arith

-- The spans behind one that ended at `f` and ends at `u` now.
moved : ℤ → ℤ → List SegmentSpan → List SegmentSpan
moved u f spans = if eqb_ℤ (sub64 u f) (pos 0) then spans else shift_spans (sub64 u f) spans

moved-Layout :
    (spans : List SegmentSpan) (f b u : ℕ)
    → Layout (pos f) spans (pos b)
    → b < 2 ^ 63
    → u < 2 ^ 63
    → b - f + u < 2 ^ 63
    → Layout (pos u) (moved (pos u) (pos f) spans) (pos (b - f + u))
unfolding moved
moved-Layout spans f b u h k m l =
    let o = Layout-le (pos f) spans (pos b) h in
    elim (Bool-cases (eqb_ℤ (sub64 (pos u) (pos f)) (pos 0))) [
      | inr e ↦ rw (moved, e) (shift_spans-Layout spans f b u h k l)
      | inl e ↦
          let z = no_delta u f m (omega arith) e in
          let t : b ≡ b - f + u = omega arith in
          rw (moved, e)
            (subst (λ w. Layout (pos w) spans (pos (b - f + u))) (sym z)
              (subst (λ w. Layout (pos f) spans (pos w)) t h))
    ]

-- The correction of a span that begins at `a` and ends at `f` to the length `n`.
corrected-Layout :
    (old actual : SegmentSpan) (spans : List SegmentSpan) (a f b n : ℕ)
    → old.start ≡ pos a
    → old.end ≡ pos f
    → a < f
    → corrected_length old actual ≡ pos n
    → 0 < n
    → Layout (pos f) spans (pos b)
    → b + n < 2 ^ 63
    → let new_end = add64 old.start (corrected_length old actual) in
      Layout
        (pos a)
        (record old { decoded_start = actual.start; end = new_end } ∷ moved new_end old.end spans)
        (pos (b - f + (a + n)))
corrected-Layout old actual spans a f b n hs he l hn p h k =
    let o = Layout-le (pos f) spans (pos b) h in
    let end = b - f + (a + n) in
    let e : add64 old.start (corrected_length old actual) ≡ pos (a + n) =
      ap (λ w. add64 w (corrected_length old actual)) hs
      ∙ ap (λ w. add64 (pos a) w) hn
      ∙ add64_pos a n (omega arith) in
    let i = moved-Layout spans f b (a + n) h (omega arith) (omega arith) (omega arith) in
    (
      hs,
      subst (λ w. pos a <ℤ w) (sym e) (omega arith),
      subst (λ w. Layout w (moved w old.end spans) (pos end)) (sym e)
          (subst (λ v. Layout (pos (a + n)) (moved (pos (a + n)) v spans) (pos end)) (sym he) i),
    )

-- The length of every span of the segment after the correction is positive, and at most `m`.
abbrev pub IsCorrectable : ℤ → SegmentSpan → ℕ → SegmentSpan → Type 0
IsCorrectable segment_id actual m s =
    s.segment_id ≡ segment_id
    → (pos 0 <ℤ corrected_length s actual) × (corrected_length s actual ≤ℤ pos m)

positive :
    (a : ℤ) (m : ℕ)
    → pos 0 <ℤ a
    → a ≤ℤ pos m
    → (a ≡ pos (pos_part a)) × (0 < pos_part a) × (pos_part a ≤ m)
positive a m h k = ground arith

same_number : (a b : ℤ) → eqb_ℤ a b ≡ true → a ≡ b
same_number a b h = ground arith

corrected_spans-Layout :
    (spans : List SegmentSpan) (a b m : ℕ) (id : ℤ) (actual : SegmentSpan) (new : List SegmentSpan)
    → Layout (pos a) spans (pos b)
    → b + m < 2 ^ 63
    → All (IsCorrectable id actual m) spans
    → corrected_spans spans id actual ≡ some (some new)
    → (c : ℕ) × Layout (pos a) new (pos c) × (0 < length new)
unfolding corrected_spans moved
corrected_spans-Layout [] a b m id actual new h k c e = absurd cc
corrected_spans-Layout (old ∷ spans) a b m id actual new (start, wide, rest) k (c, cs) e =
    let f = pos_part old.end in
    let (q, l) = same_width old a wide in
    let r : Layout (pos f) spans (pos b) = subst (λ w. Layout w spans (pos b)) q rest in
    let len = corrected_length old actual in
    elim (Bool-cases (eqb_ℤ old.segment_id id)) [
      | inl t ↦
          elim (Bool-cases
            (eqb_ℤ old.decoded_start actual.start && eqb_ℤ (sub64 old.end old.start) len)) [
              | inl u ↦ absurd (let e' = rw (corrected_spans, t, u) at e in cc)
              | inr u ↦
                  let (x, y) = c (same_number old.segment_id id t) in
                  let (n, p, o) = positive len m x y in
                  let w : record old { decoded_start = actual.start; end = add64 old.start len }
                        ∷ moved (add64 old.start len) old.end spans
                      ≡ new =
                    some-injective _ _ (some-injective _ _ (rw (corrected_spans, t, u) at e)) in
                  (
                    b - f + (a + pos_part len),
                    subst (λ l. Layout (pos a) l (pos (b - f + (a + pos_part len)))) w
                        (corrected-Layout old actual spans a f b (pos_part len) start q l n p r
                          (omega arith)),
                    (let z = ap length w in omega arith),
                  )
            ]
      | inr t ↦ elim (Option-cases (corrected_spans spans id actual)) [
        | inl u ↦ absurd (let e' = rw (corrected_spans, t, u) at e in cc)
        | inr (x, u) ↦ elim (Option-cases x) [
          | inl v ↦ absurd (let e' = rw (corrected_spans, t, u, v) at e in cc)
          | inr (ss, v) ↦
              let w : old ∷ ss ≡ new =
                some-injective _ _ (some-injective _ _ (rw (corrected_spans, t, u, v) at e)) in
              let (d, h, _) =
                corrected_spans-Layout spans f b m id actual ss r k cs (u ∙ ap some v) in
              (
                d,
                subst (λ l. Layout (pos a) l (pos d)) w
                    (start, wide, subst (λ z. Layout z ss (pos d)) (sym q) h),
                (let z = ap length w in omega arith),
              )
        ]
      ]
    ]

last_end-Layout :
    (spans : List SegmentSpan) (a b z : ℤ)
    → Layout a spans b
    → 0 < length spans
    → last_end z spans ≡ b
unfolding last_end
last_end-Layout [] a b z h l = absurd (omega arith)
last_end-Layout (s ∷ []) a b z (_, _, h) l = h
last_end-Layout (s ∷ s' ∷ spans) a b z (_, _, h) l =
    last_end-Layout (s' ∷ spans) s.end b s.end h (omega arith)

Layout-lt : (spans : List SegmentSpan) (a b : ℤ) → Layout a spans b → 0 < length spans → a <ℤ b
Layout-lt [] a b h l = absurd (omega arith)
Layout-lt (s ∷ spans) a b (e, w, h) l = omega (arith, Layout-le s.end spans b h)

-- A correction of a valid layout gives a valid one, and marks it so, whether the segment is longer or
-- shorter than estimated: where the length of its span after the correction is positive, and the
-- sizes fit int64.
pub realign_span-Layout :
    (state : SpanState) (id : ℤ) (actual : SegmentSpan) (size m : ℕ)
    → state.layout_valid ≡ true
    → state.size ≡ pos size
    → 0 < size
    → Layout (pos 0) state.spans state.size
    → size + m < 2 ^ 63
    → All (IsCorrectable id actual m) state.spans
    → ((realign_span state id actual).0.layout_valid ≡ true)
      × Layout (pos 0) (realign_span state id actual).0.spans (realign_span state id actual).0.size
unfolding realign_span publish
realign_span-Layout state id actual size m v z p h k c =
    elim (Option-cases (corrected_spans state.spans id actual)) [
      | inl u ↦ rw (realign_span, u) (v, h)
      | inr (x, u) ↦ elim (Option-cases x) [
        | inl w ↦ rw (realign_span, u, w) (v, h)
        | inr (ss, w) ↦
            let (d, y, n) =
              corrected_spans-Layout state.spans 0 size m id actual ss
                (subst (λ t. Layout (pos 0) state.spans t) z h) k c (u ∙ ap some w) in
            let l = last_end-Layout ss (pos 0) (pos d) (pos 0) y n in
            let valid =
              (validate_stored_rar_spans_lem ss (pos d) (Layout-lt ss (pos 0) (pos d) y n)).1 y in
            rw (realign_span, u, w)
              (
                ap (λ t. validate_stored_rar_spans ss t) l ∙ valid,
                subst (λ t. Layout (pos 0) ss t) (sym l) y,
              )
      ]
    ]
