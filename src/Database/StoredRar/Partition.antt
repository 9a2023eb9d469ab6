-- ===== src/Database/StoredRar/Partition.antt =====
-- The ranges that are rebuilt from the volumes: reconstructStoredRarRanges.
use drakkar.Prelude.{
  ℕ, ◌+◌, ◌-◌, ◌^◌, ◌≤◌, ◌<◌, ◌≡◌, refl, sym, ap, ◌∙◌, subst, Bool, true, false, ◌||◌, Option, none,
  some, List, [], ◌∷◌, inl, inr, arith, ◌==◌, min, if◌then◌else◌, length, Bool-cases, Option-cases,
  All,
}
use mathlib.Core.Option.{some-injective}
use drakkar.Prelude.Int.{
  ℤ, pos, negsuc, pos_part, ltb_ℤ, leb_ℤ, add64, sub64, ◌<ℤ◌, IsInt64, add64_pos, sub64_pos_pos,
}
use drakkar.Prelude.Bytes.{Bytes, bytes_eq}
use drakkar.Prelude.Dict.{lookup}
use drakkar.Prelude.Text.{trim_space, to_lower}
use drakkar.Database.StoredRar.{
  StoredRarRangeSource, StoredRarNzbSource, StoredRarVolumeMeta, Sources, volume_source,
  stored_rar_source_size, continuation_offset, volume_range, with_range, reconstruct_loop,
  reconstruct_stored_rar_ranges,
}

-- The ranges lie one behind the other in the file from `a` to `b`, and none is empty.
abbrev pub IsPartition : ℕ → List StoredRarRangeSource → ℕ → Type 0
IsPartition a [] b = a ≡ b
IsPartition a (r ∷ rs) b =
    (r.entry_offset ≡ pos a)
    × (pos 0 <ℤ r.length_bytes)
    × IsPartition (a + pos_part r.length_bytes) rs b

-- The size of the source fits int64.
abbrev pub IsSized : Bytes × StoredRarNzbSource → Type 0
IsSized e = IsInt64 (stored_rar_source_size e.1)

lookup-All :
    (m : Sources) (k : Bytes) (v : StoredRarNzbSource)
    → All IsSized m
    → lookup k m ≡ some v
    → IsInt64 (stored_rar_source_size v)
unfolding lookup
lookup-All [] k v a e = absurd cc
lookup-All ((k', v') ∷ m) k v (p, a) e = elim (Bool-cases (bytes_eq k' k)) [
  | inl t ↦
      let z : v' ≡ v = some-injective _ _ (rw (lookup, t) at e) in
      subst (λ w. IsInt64 (stored_rar_source_size w)) z p
  | inr t ↦ lookup-All m k v a (rw (lookup, t) at e)
]

above : (a : ℤ) (n : ℕ) → leb_ℤ a (pos n) ≡ false → (a ≡ pos (pos_part a)) × (n < pos_part a)
above a n h = ground arith

smaller : (a b : ℕ) → (if ltb_ℤ (pos a) (pos b) then pos a else pos b) ≡ pos (min b a)
smaller a b = ground arith

at_least_one : (a b : ℕ) → 0 < a → 0 < b → (0 < min a b) × (min a b ≤ a)
at_least_one a b h k = ground arith

-- One range takes at least one byte and no more than remain.
volume_range_lem :
    (path : Bytes) (source : StoredRarNzbSource) (e begin r : ℕ) (x : StoredRarRangeSource)
    → IsInt64 (stored_rar_source_size source)
    → 0 < r
    → volume_range path source (pos e) (pos begin) (pos r) ≡ some x
    → (l : ℕ) × (x.length_bytes ≡ pos l) × (0 < l) × (l ≤ r) × (x.entry_offset ≡ pos e)
unfolding volume_range
volume_range_lem path source e begin r x f p h =
    let size = stored_rar_source_size source in
    elim (Bool-cases (leb_ℤ size (pos begin))) [
      | inl t ↦ absurd (let h' = rw (volume_range, t) at h in cc)
      | inr t ↦
          let z = pos_part size in
          let (hz, b) = above size begin t in
          let available : sub64 size (pos begin) ≡ pos (z - begin) =
            ap (λ w. sub64 w (pos begin)) hz ∙ sub64_pos_pos z begin (omega arith) f.0 in
          let u = some-injective _ _ (rw (volume_range, t, available) at h) in
          let len : x.length_bytes
              ≡ (if ltb_ℤ (pos (z - begin)) (pos r) then pos (z - begin) else pos r) =
            sym (ap (λ y. y.length_bytes) u) in
          let m = at_least_one r (z - begin) p (omega arith) in
          (
            min r (z - begin),
            len ∙ smaller (z - begin) r,
            m.0,
            m.1,
            sym (ap (λ y. y.entry_offset) u),
          )
    ]

continuation_offset-pos :
    (offsets : List (Bytes × ℤ)) (path : Bytes)
    → (n : ℕ) × (continuation_offset offsets path (pos 0) ≡ pos n)
unfolding continuation_offset
continuation_offset-pos offsets path =
    elim (Option-cases (lookup (to_lower (trim_space path)) offsets)) [
      | inl u ↦ (0, rw (continuation_offset, u) refl)
      | inr (off, u) ↦ elim (Bool-cases (leb_ℤ (pos 0) off)) [
        | inl t ↦ (pos_part off, rw (continuation_offset, u, t) (ground arith))
        | inr t ↦ (0, rw (continuation_offset, u, t) refl)
      ]
    ]

begin_of :
    (offsets : List (Bytes × ℤ)) (path : Bytes) (is_first : Bool) (start : ℕ)
    → (is_first ≡ false → start ≡ 0)
    → (n : ℕ) × ((if is_first then pos start else continuation_offset offsets path (pos start))
        ≡ pos n)
begin_of offsets path true start z = (start, refl)
begin_of offsets path false start z =
    subst (λ t. (n : ℕ) × (continuation_offset offsets path (pos t) ≡ pos n)) (sym (z refl))
      (continuation_offset-pos offsets path)

nothing_left : (r : ℕ) → ltb_ℤ (pos 0) (pos r) ≡ false → r ≡ 0
nothing_left r h = ground arith

something_left : (r : ℕ) → ltb_ℤ (pos 0) (pos r) ≡ true → 0 < r
something_left r h = ground arith

ended :
    (e r : ℕ) (out : List StoredRarRangeSource)
    → r ≡ 0
    → some [] ≡ some out
    → IsPartition e out (e + r)
ended e r out z h =
    let u = some-injective _ _ h in subst (λ o. IsPartition e o (e + r)) u (omega arith)

joined :
    (x : StoredRarRangeSource) (rest : Option (List StoredRarRangeSource))
    (out : List StoredRarRangeSource)
    → with_range x rest ≡ some out
    → (rs : List StoredRarRangeSource) × (rest ≡ some rs) × (x ∷ rs ≡ out)
joined x none out h = absurd cc
joined x (some rs) out h = (rs, refl, some-injective _ _ h)

reconstruct_loop-IsPartition :
    (sources : Sources) (offsets : List (Bytes × ℤ)) (vs : List StoredRarVolumeMeta)
    (is_first : Bool) (e start r : ℕ) (out : List StoredRarRangeSource)
    → All IsSized sources
    → e + r < 2 ^ 63
    → (is_first ≡ false → start ≡ 0)
    → reconstruct_loop sources offsets vs is_first (pos e) (pos start) (pos r) ≡ some out
    → IsPartition e out (e + r)
unfolding reconstruct_loop volume_source
reconstruct_loop-IsPartition sources offsets [] is_first e start r out a f z h =
    elim (Bool-cases (ltb_ℤ (pos 0) (pos r))) [
      | inl t ↦ absurd (let h' = rw (reconstruct_loop, t) at h in cc)
      | inr t ↦ ended e r out (nothing_left r t) (rw (reconstruct_loop, t) at h)
    ]
reconstruct_loop-IsPartition sources offsets (v ∷ vs) is_first e start r out a f z h =
    elim (Bool-cases (ltb_ℤ (pos 0) (pos r))) [
      | inr t ↦ ended e r out (nothing_left r t) (rw (reconstruct_loop, t) at h)
      | inl t ↦ elim (Option-cases (volume_source sources v.path)) [
        | inl n ↦ absurd (let h' = rw (reconstruct_loop, t, n) at h in cc)
        | inr (source, s) ↦
            let (b, hb) = begin_of offsets v.path is_first start z in
            elim (Option-cases (volume_range v.path source (pos e) (pos b) (pos r))) [
              | inl n ↦ absurd (let h' = rw (reconstruct_loop, t, s, hb, n) at h in cc)
              | inr (x, y) ↦
                  let sized = lookup-All sources _ source a s in
                  let (l, hl, p, q, he) =
                    volume_range_lem v.path source e b r x sized (something_left r t) y in
                  let loop = λ (a b : ℤ). reconstruct_loop sources offsets vs false a (pos 0) b in
                  let (rs, hr, ho) =
                    joined x (loop (add64 (pos e) x.length_bytes) (sub64 (pos r) x.length_bytes))
                      out (rw (reconstruct_loop, t, s, hb, y) at h) in
                  let next : add64 (pos e) x.length_bytes ≡ pos (e + l) =
                    ap (λ w. add64 (pos e) w) hl ∙ add64_pos e l (omega arith) in
                  let left : sub64 (pos r) x.length_bytes ≡ pos (r - l) =
                    ap (λ w. sub64 (pos r) w) hl ∙ sub64_pos_pos r l q (omega arith) in
                  let hr' =
                    sym (
                      ap (λ w. loop w (sub64 (pos r) x.length_bytes)) next
                      ∙ ap (λ w. loop (pos (e + l)) w) left)
                    ∙ hr in
                  let i =
                    reconstruct_loop-IsPartition sources offsets vs false (e + l) 0 (r - l) rs a
                      (omega arith) (λ _. refl) hr' in
                  let w : e + l + (r - l) ≡ e + r = omega arith in
                  subst (λ o. IsPartition e o (e + r)) ho
                    (
                      he,
                      subst (λ w. pos 0 <ℤ w) (sym hl) (omega arith),
                      subst (λ w. IsPartition (e + pos_part w) rs (e + r)) (sym hl)
                          (subst (λ w. IsPartition (e + l) rs w) w i),
                    )
            ]
      ]
    ]

coerced : (a : ℤ) → (n : ℕ) × ((if ltb_ℤ a (pos 0) then pos 0 else a) ≡ pos n)
coerced (pos n) = (n, ground arith)
coerced (negsuc n) = (0, ground arith)

-- Where reconstructStoredRarRanges gives ranges, they lie one behind the other in the file from 0 to
-- the size of the entry, and none is empty, whatever the start and the continuation offsets are: where
-- the sizes of the sources and of the entry fit int64.
pub reconstruct_stored_rar_ranges-IsPartition :
    (sources : Sources) (volumes : List StoredRarVolumeMeta) (start_path : Bytes) (start_offset : ℤ)
    (offsets : List (Bytes × ℤ)) (entry_size : ℕ) (out : List StoredRarRangeSource)
    → All IsSized sources
    → entry_size < 2 ^ 63
    → reconstruct_stored_rar_ranges sources volumes start_path start_offset offsets (pos entry_size)
      ≡ some out
    → IsPartition 0 out entry_size
unfolding reconstruct_stored_rar_ranges
reconstruct_stored_rar_ranges-IsPartition sources volumes start_path start_offset offsets entry_size
      out a f h =
    let (n, hs) = coerced start_offset in
    elim (Bool-cases
      ((length sources == 0) || ((length volumes == 0) || leb_ℤ (pos entry_size) (pos 0)))) [
        | inl g ↦ absurd (let h' = rw (reconstruct_stored_rar_ranges, g) at h in cc)
        | inr g ↦
            let i =
              reconstruct_loop-IsPartition sources offsets _ true 0 n entry_size out a (omega arith)
                (λ e. absurd cc) (rw (reconstruct_stored_rar_ranges, g, hs) at h) in
            let z : 0 + entry_size ≡ entry_size = omega arith in
            subst (λ w. IsPartition 0 out w) z i
      ]
