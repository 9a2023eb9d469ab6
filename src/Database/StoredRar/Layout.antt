-- ===== src/Database/StoredRar/Layout.antt =====
-- The spans of all volumes lie one behind the other: buildStoredRarSpans.
use drakkar.Prelude.{
  ℕ, ◌+◌, ◌-◌, ◌^◌, ◌≤◌, ◌<◌, ◌≡◌, refl, sym, ap, ◌∙◌, subst, Bool, true, false, ◌||◌, some, List,
  [], ◌∷◌, ◌++◌, inl, inr, arith, ◌==◌, min, length, Bool-cases, Option-cases, All,
}
use drakkar.Prelude.Int.{ℤ, pos, pos_part, ltb_ℤ, add64, ◌<ℤ◌, ◌≤ℤ◌, add64_pos}
use drakkar.Stream.RangeMap.{SegmentSpan}
use drakkar.Stream.RangeMap.Layout.{Layout, Layout-le}
use drakkar.Database.Spans.{compute_spans, span_file_size}
use drakkar.Database.Spans.Ends.{total_size}
use drakkar.Database.Spans.Layout.{compute_spans-Layout}
use drakkar.Database.StoredRar.{
  StoredRarRangeSource, StoredRarNzbSource, Sources, span_less, range_less, volume_source,
  placed_spans, next_after, range_spans, build_loop, build_stored_rar_spans,
}

-- What has to hold of a range and the source of its volume: sizes that are positive and fit int64, a
-- last segment that is not larger than the others, and a beginning inside of the segments.
pub record IsReadable (source : StoredRarNzbSource) (item : StoredRarRangeSource) : Type 0 where
  pub size : ℕ
  pub offset : ℕ
  pub width : ℕ
  pub sized : source.decoded_segment_size ≡ pos size
  pub begins : item.archive_offset ≡ pos offset
  pub wide : item.length_bytes ≡ pos width
  pub size_positive : 0 < size
  pub width_positive : 0 < width
  pub last : source.last_decoded_size ≤ℤ pos size
  pub ids : 0 < length source.message_ids
  pub fits : offset + width < 2 ^ 62
  pub fits_total : total_size (length source.message_ids) size source.last_decoded_size < 2 ^ 62
  pub inside : offset < total_size (length source.message_ids) size source.last_decoded_size

-- Where the volume is known, the range is readable.
abbrev pub IsItem : Sources → StoredRarRangeSource → Type 0
IsItem sources item =
    (source : StoredRarNzbSource)
    → volume_source sources item.volume_path ≡ some source
    → IsReadable source item

abbrev pub lengths : List StoredRarRangeSource → ℕ
lengths [] = 0
lengths (item ∷ items) = pos_part item.length_bytes + lengths items

-- No element stands before a smaller one.
abbrev pub IsOrdered : (SegmentSpan → SegmentSpan → Bool) → List SegmentSpan → Type 0
IsOrdered less [] = Unit
IsOrdered less (s ∷ []) = Unit
IsOrdered less (s ∷ s' ∷ ss) = (less s' s ≡ false) × IsOrdered less (s' ∷ ss)

same_width :
    (s : SegmentSpan) (e : ℕ)
    → pos e <ℤ s.end
    → (s.end ≡ pos (pos_part s.end)) × (e < pos_part s.end)
same_width s e h = ground arith

Layout-append :
    (xs ys : List SegmentSpan) (a b c : ℤ) → Layout a xs b → Layout b ys c → Layout a (xs ++ ys) c
Layout-append [] ys a b c e h = subst (λ w. Layout w ys c) (sym e) h
Layout-append (x ∷ xs) ys a b c (e, l, r) h = (e, l, Layout-append xs ys x.end b c r h)

placed_spans-Layout :
    (ss : List SegmentSpan) (a b v : ℕ) (next : ℤ)
    → Layout (pos a) ss (pos b)
    → b + v < 2 ^ 63
    → Layout (pos (a + v)) (placed_spans (pos v) next ss) (pos (b + v))
unfolding placed_spans
placed_spans-Layout [] a b v next h f = ap pos (let z : a ≡ b = ground arith in omega arith)
placed_spans-Layout (s ∷ ss) a b v next (start, wide, rest) f =
    let e = pos_part s.end in
    let (q, l) = same_width s a wide in
    let r : Layout (pos e) ss (pos b) = subst (λ w. Layout w ss (pos b)) q rest in
    let o = Layout-le (pos e) ss (pos b) r in
    let first : add64 s.start (pos v) ≡ pos (a + v) =
      ap (λ w. add64 w (pos v)) start ∙ add64_pos a v (omega arith) in
    let last : add64 s.end (pos v) ≡ pos (e + v) =
      ap (λ w. add64 w (pos v)) q ∙ add64_pos e v (omega arith) in
    let i = placed_spans-Layout ss e b v (add64 next (pos 1)) r f in
    (
      first,
      subst (λ w. pos (a + v) <ℤ w) (sym last) (omega arith),
      subst (λ w. Layout w (placed_spans (pos v) (add64 next (pos 1)) ss) (pos (b + v))) (sym last)
          i,
    )

span_file_size-Layout : (ss : List SegmentSpan) (a b : ℤ) → Layout a ss b → span_file_size ss a ≡ b
unfolding span_file_size
span_file_size-Layout [] a b h = h
span_file_size-Layout (s ∷ ss) a b (start, wide, rest) =
    let t : ltb_ℤ a s.end ≡ true = ground arith in
    rw (span_file_size, t) (span_file_size-Layout ss s.end b rest)

not_less : (s s' : SegmentSpan) → s.start <ℤ s'.start → span_less s' s ≡ false
unfolding span_less
not_less s s' h = ground arith

Layout-IsOrdered : (ss : List SegmentSpan) (a b : ℤ) → Layout a ss b → IsOrdered span_less ss
Layout-IsOrdered [] a b h = tt
Layout-IsOrdered (s ∷ []) a b h = tt
Layout-IsOrdered (s ∷ s' ∷ ss) a b (e, l, (e', l', h)) =
    (not_less s s' (rw (e, e') l), Layout-IsOrdered (s' ∷ ss) s.end b (e', l', h))

cut : (o w t : ℕ) → min (o + w) t - o ≤ w
cut o w t = ground arith

range_spans-Layout :
    (source : StoredRarNzbSource) (item : StoredRarRangeSource)
    → IsReadable source item
    → (n : ℕ) × Layout (pos 0) (range_spans source item) (pos n) × (n ≤ pos_part item.length_bytes)
unfolding range_spans
range_spans-Layout source item r =
    let ids = source.message_ids in
    let last = source.last_decoded_size in
    let total = total_size (length ids) r.size last in
    let c =
      compute_spans-Layout ids r.size last r.offset r.width r.size_positive r.last r.ids
        r.width_positive r.fits r.fits_total r.inside in
    let e : range_spans source item
        ≡ compute_spans ids (pos r.size) last (pos r.offset) (pos r.width) =
      ap (λ z. compute_spans ids z last item.archive_offset item.length_bytes) r.sized
      ∙ ap (λ z. compute_spans ids (pos r.size) last z item.length_bytes) r.begins
      ∙ ap (λ z. compute_spans ids (pos r.size) last (pos r.offset) z) r.wide in
    (
      min (r.offset + r.width) total - r.offset,
      subst (λ l. Layout (pos 0) l (pos (min (r.offset + r.width) total - r.offset))) (sym e) c,
      subst (λ w. min (r.offset + r.width) total - r.offset ≤ pos_part w) (sym r.wide)
          (cut r.offset r.width total),
    )

placed_first :
    (ss : List SegmentSpan) (k v : ℕ) (next : ℤ)
    → Layout (pos 0) ss (pos k)
    → k + v < 2 ^ 63
    → Layout (pos v) (placed_spans (pos v) next ss) (pos (v + k))
placed_first ss k v next h f =
    let a : 0 + v ≡ v = omega arith in
    let b : k + v ≡ v + k = omega arith in
    subst (λ w. Layout (pos w) (placed_spans (pos v) next ss) (pos (v + k))) a
      (subst (λ w. Layout (pos (0 + v)) (placed_spans (pos v) next ss) (pos w)) b
        (placed_spans-Layout ss 0 k v next h f))

build_loop-Layout :
    (sources : Sources) (items : List StoredRarRangeSource) (next : ℤ) (v : ℕ)
    → All (IsItem sources) items
    → v + lengths items < 2 ^ 63
    → (n : ℕ) × Layout (pos v) (build_loop sources items next (pos v)) (pos n)
      × (n ≤ v + lengths items)
unfolding build_loop
build_loop-Layout sources [] next v a f = (v, refl, omega arith)
build_loop-Layout sources (item ∷ items) next v (p, a) f =
    elim (Option-cases (volume_source sources item.volume_path)) [
      | inl u ↦
          let (n, h, l) = build_loop-Layout sources items next v a (omega arith) in
          (n, rw (build_loop, u) h, omega arith)
      | inr (source, u) ↦
          let ss = range_spans source item in
          let (k, h, l) = range_spans-Layout source item (p source u) in
          let z : add64 (pos v) (span_file_size ss (pos 0)) ≡ pos (v + k) =
            ap (λ w. add64 (pos v) w) (span_file_size-Layout ss (pos 0) (pos k) h)
            ∙ add64_pos v k (omega arith) in
          let (n, h', l') =
            build_loop-Layout sources items (next_after next ss) (v + k) a (omega arith) in
          let first : Layout (pos v) (placed_spans (pos v) next ss) (pos (v + k)) =
            placed_first ss k v next h (omega arith) in
          let rest = λ (w : ℤ). build_loop sources items (next_after next ss) w in
          let whole : Layout (pos v)
              (placed_spans (pos v) next ss ++ rest (add64 (pos v) (span_file_size ss (pos 0))))
              (pos n) =
            Layout-append (placed_spans (pos v) next ss) _ (pos v) (pos (v + k)) (pos n) first
              (subst (λ w. Layout (pos (v + k)) (rest w) (pos n)) (sym z) h') in
          (n, rw (build_loop, u) whole, omega arith)
    ]

-- The spans that buildStoredRarSpans gives lie one behind the other from 0 on, across the boundaries of
-- the volumes, none is empty, and they are no longer than the ranges together, whatever the offsets
-- that are stored with the ranges: where every range of a known volume is readable, the ranges
-- together fit int64, and a sort leaves an ordered list as it is.
pub build_stored_rar_spans-Layout :
    (sort_ranges : (StoredRarRangeSource → StoredRarRangeSource → Bool)
      → List StoredRarRangeSource
      → List StoredRarRangeSource)
    (sort_spans : (SegmentSpan → SegmentSpan → Bool) → List SegmentSpan → List SegmentSpan)
    (sources : Sources) (ranges : List StoredRarRangeSource)
    → ((less : SegmentSpan → SegmentSpan → Bool) (ss : List SegmentSpan)
        → IsOrdered less ss
        → sort_spans less ss ≡ ss)
    → All (IsItem sources) (sort_ranges range_less ranges)
    → lengths (sort_ranges range_less ranges) < 2 ^ 63
    → (n : ℕ) × Layout
        (pos 0)
        (build_stored_rar_spans sort_ranges sort_spans sources ranges)
        (pos n)
      × (n ≤ lengths (sort_ranges range_less ranges))
unfolding build_stored_rar_spans
build_stored_rar_spans-Layout sort_ranges sort_spans sources ranges keeps a f =
    elim (Bool-cases ((length ranges == 0) || (length sources == 0))) [
      | inl g ↦ (0, rw (build_stored_rar_spans, g) refl, omega arith)
      | inr g ↦
          let items = sort_ranges range_less ranges in
          let (n, h, l) = build_loop-Layout sources items (pos 0) 0 a (omega arith) in
          let out = build_loop sources items (pos 0) (pos 0) in
          let same = keeps span_less out (Layout-IsOrdered out (pos 0) (pos n) h) in
          (
            n,
            rw (build_stored_rar_spans, g) (subst (λ w. Layout (pos 0) w (pos n)) (sym same) h),
            omega arith,
          )
    ]
