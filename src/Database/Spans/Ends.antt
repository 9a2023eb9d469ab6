-- ===== src/Database/Spans/Ends.antt =====
-- Where the segments begin and end, and the span of one of them (computeSpans of
-- internal/database/content_repository.go).
use drakkar.Prelude.{
  ℕ, suc, ◌+◌, ◌-◌, ◌*◌, ◌^◌, ◌≤◌, ◌<◌, ◌≡◌, refl, ap, ◌∙◌, true, false, arith, ltb, ◌==◌, min,
  if◌then◌else◌, Bool-cases, ◌⊎◌, inl, inr,
}
use native.Mathlib.Numerals.{unary_clauses}
use drakkar.Prelude.Int.{
  ℤ, pos, pos_part, ltb_ℤ, leb_ℤ, add64, times64, times64_fits, add64_pos, sub64_pos_pos, ◌<ℤ◌,
}
use drakkar.Prelude.Bytes.{Bytes}
use drakkar.Database.Spans.{span_from, segment_end, segment_span}

abbrev pub max : ℕ → ℕ → ℕ
max a b = if ltb a b then b else a

-- The bytes of all segments: the last one has a size of its own, if that is positive.
abbrev pub total_size : ℕ → ℕ → ℤ → ℕ
total_size count size last_size =
    (count - 1) * size + (if ltb_ℤ (pos 0) last_size then pos_part last_size else size)

pub next_segment : (i d : ℕ) → (i + 1) * d ≡ i * d + d
next_segment i d = simp unary_clauses (omega arith)

min_pos : (q z : ℕ) → (if ltb_ℤ (pos q) (pos z) then pos q else pos z) ≡ pos (min z q)
min_pos q z = ground arith

max_pos : (p o : ℕ) → (if ltb_ℤ (pos o) (pos p) then pos p else pos o) ≡ pos (max p o)
max_pos p o = ground arith

pub start_first : (p o : ℕ) → p ≤ o → max p o - o ≡ 0
start_first p o h = ground arith

between : (p o z q : ℕ) → o < q → o < z → p < z → p < q → max p o < min z q
between p o z q a b c d = ground arith

first_byte : (p o z : ℕ) → o < z → p < z → min z (max p o) ≡ max p o
first_byte p o z a b = ground arith

offset-max : (p o : ℕ) → o ≤ max p o
offset-max p o = ground arith

pub next_rest : (n d : ℕ) → suc n * d ≡ d + n * d
next_rest n d = grind arith

pub order : (a b : ℕ) → (a < b) ⊎ (b ≤ a)
order a b = ground arith

pub max-min : (q o z : ℕ) → o < q → q < z → max q o ≡ min z q
max-min q o z h k = ground arith

pub at_end : (z q : ℕ) → z ≤ q → leb_ℤ (pos z) (pos q) ≡ true
at_end z q h = ground arith

pub min-min : (q o z t : ℕ) → z ≤ q → q ≤ t → min z q - o ≡ min z t - o
min-min q o z t h k = ground arith

pub below_end : (x y : ℕ) (a : ℤ) → a ≡ pos y → x < y → pos x <ℤ a
below_end x y a e h = rw e (omega arith)

-- The bytes of the last segment.
pub last_bytes : ℕ → ℤ → ℕ
last_bytes size last_size = if ltb_ℤ (pos 0) last_size then pos_part last_size else size

module _ (count size : ℕ) (last_size : ℤ) (offset entry_end : ℕ) where
  -- The span of a segment that begins at `p` and ends at `q`.
  pub segment_span-ends :
      (i p q : ℕ) (id : Bytes)
      → i * size ≡ p
      → p < 2 ^ 62
      → segment_end count size last_size (pos offset) (pos entry_end) i ≡ pos q
      → offset < q
      → offset < entry_end
      → p < entry_end
      → p < q
      → entry_end < 2 ^ 63
      → let s =
          segment_span count size last_size
            (pos offset)
            (pos entry_end)
            i
            id
            (pos (max p offset - offset)) in
        (s.end ≡ pos (min entry_end q - offset))
        × (max p offset - offset < min entry_end q - offset)
  unfolding segment_span span_from
  segment_span-ends i p q id e f h a b c l d =
      let t : times64 i size ≡ pos p = times64_fits i size (rw e (omega arith)) ∙ ap pos e in
      let w = between p offset entry_end q a b c l in
      let o = offset-max p offset in
      let bound : min entry_end q ≤ entry_end = omega arith in
      (
        rw
            (
              h,
              t,
              min_pos q entry_end,
              max_pos p offset,
              sub64_pos_pos (min entry_end q) (max p offset) (omega arith) (omega arith),
              add64_pos (max p offset - offset) (min entry_end q - max p offset) (omega arith),
            )
            (ap pos (omega arith)),
        omega arith,
      )

  pub segment_end-inner :
      (i p : ℕ)
      → i * size ≡ p
      → i + 1 < count
      → p + size < 2 ^ 62
      → segment_end count size last_size (pos offset) (pos entry_end) i ≡ pos (p + size)
  unfolding segment_end
  segment_end-inner i p e h f =
      let t : times64 i size ≡ pos p = times64_fits i size (rw e (omega arith)) ∙ ap pos e in
      let b : (i + 1 == count) ≡ false = ground arith in rw (t, b) (add64_pos p size (omega arith))

  pub last_bytes-pos : 0 < size → 0 < last_bytes size last_size
  unfolding last_bytes
  last_bytes-pos h = ground arith

  pub all_bytes :
      (first n : ℕ)
      → first + suc n ≡ count
      → first * size + n * size + last_bytes size last_size ≡ total_size count size last_size
  unfolding last_bytes
  all_bytes first n e =
      let c : count - 1 ≡ first + n = omega arith in
      let w : (first + n) * size ≡ first * size + n * size = grind arith in rw (c, w) refl

  pub segment_end-last :
      (i p : ℕ)
      → i * size ≡ p
      → i + 1 ≡ count
      → p < 2 ^ 62
      → p + last_bytes size last_size < 2 ^ 62
      → segment_end count size last_size (pos offset) (pos entry_end) i
        ≡ pos (p + last_bytes size last_size)
  unfolding segment_end last_bytes
  segment_end-last i p e h f g =
      let t : times64 i size ≡ pos p = times64_fits i size (rw e (omega arith)) ∙ ap pos e in
      let b : (i + 1 == count) ≡ true = ground arith in
      elim (Bool-cases (ltb_ℤ (pos 0) last_size)) [
        | inl u ↦
            let v : last_size ≡ pos (pos_part last_size) = ground arith in
            rw (t, b, u)
              (ap (λ z. add64 (pos p) z) v ∙ add64_pos p (pos_part last_size) (ground arith))
        | inr u ↦ rw (t, b, u) (add64_pos p size (ground arith))
      ]
