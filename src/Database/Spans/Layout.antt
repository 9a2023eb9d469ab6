-- ===== src/Database/Spans/Layout.antt =====
-- The spans lie one behind the other.
use drakkar.Prelude.{
  ℕ, suc, ◌+◌, ◌-◌, ◌*◌, ◌/◌, ◌^◌, ◌≤◌, ◌<◌, ◌≡◌, refl, sym, ap, subst, ◌∙◌, true, false, List, [],
  ◌∷◌, arith, ◌==◌, min, length, drop, length-drop, List-cases, inl, inr,
}
use drakkar.Prelude.Int.{ℤ, pos, leb_ℤ, times64, times64_fits, add64_pos, ◌≤ℤ◌}
use drakkar.Prelude.Bytes.{Bytes}
use drakkar.Stream.RangeMap.Layout.{Layout}
use drakkar.Database.Spans.{spans_loop, compute_spans}
use drakkar.Database.Spans.Ends.{
  max, total_size, next_segment, start_first, next_rest, order, max-min, at_end, min-min, below_end,
  segment_span-ends, segment_end-inner, last_bytes, last_bytes-pos, all_bytes, segment_end-last,
}

module _ (count size : ℕ) (last_size : ℤ) (offset entry_end : ℕ) where
  -- The spans end with the entry or with the last segment, whichever comes first.
  abbrev spans_end : ℕ → ℤ
  spans_end total = pos (min entry_end total - offset)

  -- From segment `i` on, which begins at `p`, the spans go on to the end of the entry or of the last
  -- segment, whichever comes first.
  spans_loop-Layout :
      (id : Bytes) (ids : List Bytes) (i p total : ℕ)
      → i * size ≡ p
      → i + suc (length ids) ≡ count
      → p + length ids * size + last_bytes size last_size ≡ total
      → total < 2 ^ 62
      → 0 < size
      → 0 < last_bytes size last_size
      → offset < p + size
      → offset < total
      → offset < entry_end
      → p < entry_end
      → entry_end < 2 ^ 62
      → Layout
          (pos (max p offset - offset))
          (spans_loop count size last_size
            (pos offset)
            (pos entry_end)
            (id ∷ ids)
            i
            (pos (max p offset - offset)))
          (spans_end total)
  unfolding spans_loop
  spans_loop-Layout id [] i p total e n v f s0 l0 a b c d z =
      let t : times64 i size ≡ pos p = times64_fits i size (rw e (omega arith)) ∙ ap pos e in
      let g : leb_ℤ (pos entry_end) (pos p) ≡ false = ground arith in
      let m : i + 1 ≡ count = omega arith in
      let r : p + last_bytes size last_size ≡ total = omega arith in
      let q =
        segment_end-last count size last_size offset entry_end i p e m (omega arith)
          (omega arith) in
      let se =
        segment_span-ends count size last_size offset entry_end i p (p + last_bytes size last_size)
          id e (omega arith) q (omega arith) c d (omega arith) (omega arith) in
      rw (spans_loop, t, g)
        (refl, below_end _ _ _ se.0 se.1, se.0 ∙ ap (λ w. pos (min entry_end w - offset)) r)
  spans_loop-Layout id (id' ∷ ids) i p total e n v f s0 l0 a b c d z =
      let t : times64 i size ≡ pos p = times64_fits i size (rw e (omega arith)) ∙ ap pos e in
      let g : leb_ℤ (pos entry_end) (pos p) ≡ false = ground arith in
      let m : i + 1 < count = omega arith in
      let w = next_rest (length ids) size in
      let r : p + size + length ids * size + last_bytes size last_size ≡ total = omega arith in
      let q = segment_end-inner count size last_size offset entry_end i p e m (omega arith) in
      let se =
        segment_span-ends count size last_size offset entry_end i p (p + size) id e (omega arith) q
          a c d (omega arith) (omega arith) in
      let e' : (i + 1) * size ≡ p + size = next_segment i size ∙ ap (λ w. w + size) e in
      elim (order (p + size) entry_end) [
        | inl u ↦
            let x = max-min (p + size) offset entry_end a u in
            let rest =
              spans_loop-Layout id' ids (i + 1) (p + size) total e' (omega arith) r f s0 l0
                (omega arith) b c u z in
            rw (spans_loop, t, g)
              (
                refl,
                below_end _ _ _ se.0 se.1,
                subst
                    (λ v.
                      Layout v
                        (spans_loop count size last_size (pos offset) (pos entry_end) (id' ∷ ids)
                          (i + 1) v)
                        (spans_end total))
                    (sym (se.0 ∙ ap (λ w. pos (w - offset)) (sym x))) rest,
              )
        | inr u ↦
            let t' : times64 (i + 1) size ≡ pos (p + size) =
              times64_fits (i + 1) size (rw e' (omega arith)) ∙ ap pos e' in
            let g' : leb_ℤ (pos entry_end) (pos (p + size)) ≡ true =
              at_end entry_end (p + size) u in
            let y = min-min (p + size) offset entry_end total u (omega arith) in
            rw (spans_loop, t, g)
              (
                refl,
                below_end _ _ _ se.0 se.1,
                subst
                    (λ v.
                      Layout v
                        (spans_loop count size last_size (pos offset) (pos entry_end) (id' ∷ ids)
                          (i + 1) v)
                        (spans_end total))
                    (sym se.0) (rw (spans_loop, t', g') (ap pos y)),
              )
      ]

rest_length : (first n r : ℕ) → first < n → n - first ≡ suc r → first + suc r ≡ n
rest_length first n r h e = omega arith

absurd_length : {A : Type 0} (first n d : ℕ) → first < n → d ≡ n - first → d ≡ 0 → A
absurd_length first n d h e k = absurd (omega arith)

from_drop :
    (first : ℕ) (ids : List Bytes)
    → first < length ids
    → (id : Bytes) × (rest : List Bytes) × (drop first ids ≡ id ∷ rest)
      × (first + suc (length rest) ≡ length ids)
from_drop first ids h = elim (List-cases (drop first ids)) [
  | inl e ↦ absurd_length first (length ids) _ h (length-drop first ids) (ap length e)
  | inr (id, rest, e) ↦ (
    id,
    rest,
    e,
    rest_length first (length ids) (length rest) h (sym (length-drop first ids) ∙ ap length e),
  )
]

first_of :
    (offset size : ℕ)
    → 0 < size
    → (offset / size * size ≤ offset) × (offset < offset / size * size + size)
first_of offset size h = (omega arith, omega arith)

inside :
    (first count offset size : ℕ) (last_size : ℤ)
    → last_size ≤ℤ pos size
    → 0 < size
    → offset < total_size count size last_size
    → first * size ≤ offset
    → 0 < count
    → first < count
inside first count offset size last_size h s0 k l c =
    let w = next_segment (count - 1) size in grind arith

-- Where the offset lies in the segments and the last one is not larger than the others, the spans lie
-- one behind the other from 0 to the size of the entry, or to the end of the segments where that
-- comes first, and none is empty.
pub compute_spans-Layout :
    (ids : List Bytes) (size : ℕ) (last_size : ℤ) (offset entry_size : ℕ)
    → 0 < size
    → last_size ≤ℤ pos size
    → 0 < length ids
    → 0 < entry_size
    → offset + entry_size < 2 ^ 62
    → total_size (length ids) size last_size < 2 ^ 62
    → offset < total_size (length ids) size last_size
    → Layout
        (pos 0)
        (compute_spans ids (pos size) last_size (pos offset) (pos entry_size))
        (pos (min (offset + entry_size) (total_size (length ids) size last_size) - offset))
unfolding compute_spans
compute_spans-Layout ids size last_size offset entry_size s0 l n e f t o =
    let b = first_of offset size s0 in
    let c = inside (offset / size) (length ids) offset size last_size l s0 o b.0 n in
    let d = from_drop (offset / size) ids c in
    let a = add64_pos offset entry_size (omega arith) in
    let w : leb_ℤ (pos size) (pos 0) ≡ false = ground arith in
    let v : (length ids == 0) ≡ false = ground arith in
    let p = offset / size * size in
    let E = offset + entry_size in
    let T = total_size (length ids) size last_size in
    let r =
      spans_loop-Layout (length ids) size last_size offset E d.0 d.1 (offset / size) p T refl d.3
        (all_bytes (length ids) size last_size offset E (offset / size) (length d.1) d.3) t s0
        (last_bytes-pos (length ids) size last_size offset E s0) b.1 o (omega arith) (omega arith)
        f in
    rw (compute_spans, v, w, a, d.2)
      (subst
        (λ u.
          Layout u
            (spans_loop (length ids) size last_size (pos offset) (pos E) (d.0 ∷ d.1) (offset / size)
              u)
            (pos (min E T - offset)))
        (ap pos (start_first p offset b.0)) r)
