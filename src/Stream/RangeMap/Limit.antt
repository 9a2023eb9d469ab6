-- ===== src/Stream/RangeMap/Limit.antt =====
-- The limit on the number of segments, which the read-ahead passes to resolveRange.
use drakkar.Prelude.{
  ℕ, zero, suc, ◌≤◌, ◌<◌, ◌≡◌, refl, sym, ap, ◌∙◌, Bool, true, false, some, List, [], ◌∷◌, ◌++◌,
  inl, inr, arith, ◌==◌, if◌then◌else◌, length, drop, take, Bool-cases, length-append,
  take-length-append, append_assoc, append-nil,
}
use drakkar.Prelude.Int.{ℤ, ltb_ℤ, leb_ℤ, min_ℤ, add64}
use drakkar.Stream.RangeMap.{
  SegmentRange, SegmentSpan, range_of, misplaced, finish, search, span_at, resolve_loop,
  resolve_from, resolve_range_max, resolve_range,
}
use drakkar.Stream.RangeMap.Tiling.{loop_inv, finish_inv}

loop_nil :
    (hi c : ℤ) (k : ℕ) (f : Bool) (out : List SegmentRange)
    → resolve_loop hi k [] f c out ≡ finish hi k c out
unfolding resolve_loop
loop_nil hi c k f out = refl

-- What the loop has found stays at the front of its result.
loop_keeps :
    (spans : List SegmentSpan) (hi c : ℤ) (f : Bool) (out : List SegmentRange)
    {rs : List SegmentRange}
    → resolve_loop hi 0 spans f c out ≡ some rs
    → (more : List SegmentRange) × (rs ≡ out ++ more)
loop_keeps [] hi c f out h =
    ([], sym (finish_inv hi c out (rw loop_nil at h)).1 ∙ sym (append-nil out))
loop_keeps (s ∷ spans) hi c f out h = elim (loop_inv spans hi c f s out h) [
  | inl e ↦ ([], sym (finish_inv hi c out e).1 ∙ sym (append-nil out))
  | inr (m, e, rest) ↦
      let (more, q) = loop_keeps spans hi (min_ℤ hi s.end) false _ rest in
      (range_of s c (min_ℤ hi s.end) ∷ more, q ∙ append_assoc out _ more)
]

take-long {ℓ} : {A : Type ℓ} (k : ℕ) (xs : List A) → length xs ≤ k → take k xs ≡ xs
take-long zero [] h = refl
take-long zero (x ∷ xs) h = absurd (omega arith)
take-long (suc k) [] h = refl
take-long (suc k) (x ∷ xs) h = ap (λ l. x ∷ l) (take-long k xs (omega arith))

finish_limit :
    (hi c : ℤ) (k : ℕ) (out : List SegmentRange) {rs : List SegmentRange}
    → length out < k
    → finish hi 0 c out ≡ some rs
    → finish hi k c out ≡ some (take k rs)
finish_limit hi c k out {rs} l h =
    let (e, o) = finish_inv hi c out h in
    rw (← o, take-long k out (omega arith)) (unfold finish in ground arith)

loop_stop :
    (spans : List SegmentSpan) (hi c : ℤ) (f : Bool) (k : ℕ) (s : SegmentSpan)
    (out : List SegmentRange) {rs : List SegmentRange}
    → finish hi 0 c out ≡ some rs
    → resolve_loop hi k (s ∷ spans) f c out ≡ finish hi k c out
unfolding resolve_loop
loop_stop spans hi c f k s out h = let (e, _) = finish_inv hi c out h in rw e (ground arith)

loop_next :
    (spans : List SegmentSpan) (hi c : ℤ) (f : Bool) (k : ℕ) (s : SegmentSpan)
    (out : List SegmentRange)
    → length out < k
    → misplaced f s c ≡ false
    → leb_ℤ (min_ℤ hi s.end) c ≡ false
    → let out' = out ++ range_of s c (min_ℤ hi s.end) ∷ [] in
      resolve_loop hi k (s ∷ spans) f c out ≡ (
        if length out' == k then some out' else resolve_loop hi k spans false (min_ℤ hi s.end) out')
unfolding resolve_loop
loop_next spans hi c f k s out l m e = ground arith

loop_limit :
    (spans : List SegmentSpan) (hi c : ℤ) (f : Bool) (k : ℕ) (out : List SegmentRange)
    {rs : List SegmentRange}
    → length out < k
    → resolve_loop hi 0 spans f c out ≡ some rs
    → resolve_loop hi k spans f c out ≡ some (take k rs)
loop_limit [] hi c f k out l h = rw loop_nil (finish_limit hi c k out l (rw loop_nil at h))
loop_limit (s ∷ spans) hi c f k out {rs} l h = elim (loop_inv spans hi c f s out h) [
  | inl e ↦ loop_stop spans hi c f k s out e ∙ finish_limit hi c k out l e
  | inr (m, e, rest) ↦
      let r = range_of s c (min_ℤ hi s.end) in
      let n = length-append out (r ∷ []) in
      rw (loop_next spans hi c f k s out l m e) (elim (Bool-cases (length (out ++ r ∷ []) == k)) [
        | inl t ↦ rw t (
            full (out ++ r ∷ []) (ground arith) (loop_keeps spans hi (min_ℤ hi s.end) false _ rest))
        | inr t ↦ rw t (loop_limit spans hi (min_ℤ hi s.end) false k _ (ground (arith, n)) rest)
      ])
]
  where
    full :
        (found : List SegmentRange)
        → length found ≡ k
        → (more : List SegmentRange) × (rs ≡ found ++ more)
        → some found ≡ some (take k rs)
    full found q (more, p) = rw (← q, p, take-length-append found more)

resolve_from_limit :
    (spans : List SegmentSpan) (lo hi : ℤ) (k first last : ℕ) (rs : List SegmentRange)
    → 0 < k
    → resolve_from spans lo hi 0 first last ≡ some rs
    → resolve_from spans lo hi k first last ≡ some (take k rs)
unfolding resolve_from
resolve_from_limit spans lo hi k first last rs l h =
    ground (arith, loop_limit (drop first spans) hi lo true k [] {rs = rs})

take-nil {ℓ} : {A : Type ℓ} (k : ℕ) → take k (let n : List A = [] in n) ≡ []
take-nil zero = refl
take-nil (suc k) = refl

-- With a positive limit `k` resolveRange gives the first `k` segments of the unlimited answer.
pub resolve_range_max-take :
    (spans : List SegmentSpan) (offset len : ℤ) (k : ℕ) (rs : List SegmentRange)
    → 0 < k
    → resolve_range spans offset len ≡ some rs
    → resolve_range_max spans offset len k ≡ some (take k rs)
unfolding resolve_range
resolve_range_max-take spans offset len k rs l h = ground (
  arith,
  resolve_from_limit spans offset (add64 offset len) k
      (search (length spans) (span_at (λ s. ltb_ℤ offset s.end) spans))
      (search (length spans) (span_at (λ s. leb_ℤ (add64 offset len) s.end) spans)) rs,
  take-nil {A = SegmentRange} k,
)
