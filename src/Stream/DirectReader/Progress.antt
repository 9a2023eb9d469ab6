-- ===== src/Stream/DirectReader/Progress.antt =====
-- When a read comes to an end.
use drakkar.Prelude.{
  ℕ, zero, suc, ◌+◌, ◌-◌, ◌^◌, ◌≤◌, ◌<◌, ◌≡◌, refl, true, Option, none, some, List, All, min, arith,
  ltb, ◌==◌, ◌||◌, [], length, ap, Bool-cases, Option-cases, inl, inr,
}
use drakkar.Prelude.Int.{
  add64_pos, sub64_pos, ℤ, pos, pos_part, add64, sub64, min_ℤ, ltb_ℤ, leb_ℤ, ◌<ℤ◌, IsInt64,
}
use drakkar.Prelude.Bytes.{Bytes}
use drakkar.Stream.RangeMap.{SegmentRange, SegmentSpan}
use drakkar.Stream.DirectReader.{
  DirectNzbReader, find_span, span_unchanged, realign_spans, request, ReadResult, ReadState,
  FetchReply, fetched, refused, actual_span, take_block, take_reply, read_span, read_round,
  read_loop, read_at,
}
use drakkar.Stream.DirectReader.Spans.{find_span_lem}
use drakkar.Stream.DirectReader.Places.{Key, keys, IsTrue, IsFaithful, IsUseful, IsGiving}
use drakkar.Stream.DirectReader.Content.{IsRight, asked, read_round-IsRight}
use drakkar.Stream.DirectReader.Reads.{
  expected_bytes, written, shorter, not_before, IsReading, read_round-IsRound,
}

module _ {ℓ} {W : Type ℓ} {E : Type 0} (fetch : SegmentRange → W → FetchReply E × W) where
  -- A round that does not end the read has written something.
  abbrev IsGrownOf : ℕ → ReadState W → Option (ReadResult E) → Type 0
  IsGrownOf n st none = n < length st.out
  IsGrownOf n st (some res) = Unit

  abbrev IsGrown : ℕ → ReadState W × Option (ReadResult E) → Type 0
  IsGrown n r = IsGrownOf n r.0 r.1

  module _ (o limit : ℕ) (fits : o + limit < 2 ^ 63) where
    take_block-IsGrown :
        (st : ReadState W) (end : ℤ)
        → st.current ≡ pos (o + length st.out)
        → length st.out < limit
        → pos (o + length st.out) <ℤ end
        → (block : Bytes) → 0 < length block
        → IsGrown
            (length st.out)
            (take_block fetch (λ w r. r) st (min_ℤ end (pos (o + limit))) block)
    unfolding take_block
    take_block-IsGrown st end g l p block u =
        let (a, b) = expected_bytes o (length st.out) limit end l fits p in
        let n = pos_part (sub64 (min_ℤ end (pos (o + limit))) (pos (o + length st.out))) in
        elim (Bool-cases (length block == 0)) [
          | inl z ↦ absurd (ground arith)
          | inr z ↦
              rw (take_block, g, z)
                (elim (Bool-cases (ltb (length block) n)) [
                  | inl y ↦ rw y tt
                  | inr y ↦ rw y (let e = written st.out block n (ground arith) in omega arith)
                ])
        ]

    take_reply-IsGrown :
        (st : ReadState W) (span : SegmentSpan) (index : ℕ) (r : FetchReply E × W)
        → st.current ≡ pos (o + length st.out)
        → length st.out < limit
        → pos (o + length st.out) <ℤ span.end
        → span_unchanged st.reader index span ≡ true
        → IsUseful r.0
        → IsGrown
            (length st.out)
            (take_reply fetch (λ w r. r) st span index (min_ℤ span.end (pos (o + limit))) r)
    unfolding take_reply
    take_reply-IsGrown st span index (refused e, w) g l p s u = tt
    take_reply-IsGrown st span index (fetched block info, w) g l p s u =
        rw (take_reply, s)
          (take_block-IsGrown
            (record st {
              world = w;
              reader = realign_spans st.reader index (actual_span span info);
            })
            span.end g l p block u)

    module _ (part_of : Bytes → Option (ℕ × ℕ)) (content : Bytes) (known : List Key)
        (true_spans : All (IsTrue part_of content) known) (giving : IsGiving part_of content fetch)
        (wanted : ℕ) where
      abbrev IsUnderWay : ReadState W → Type 0
      IsUnderWay st =
          IsReading fetch (λ w r. r) wanted o limit st
          × IsRight fetch (λ w r. r) part_of content known wanted o limit st

      read_round-IsGrown :
          (st : ReadState W)
          → IsUnderWay st
          → IsGrown
              (length st.out)
              (read_round fetch (λ w r. r) wanted (pos limit) (pos (o + limit)) st)
      unfolding read_round read_span
      read_round-IsGrown st (g, c) =
          elim (Bool-cases
            (leb_ℤ (pos limit) (pos (length st.out)) || leb_ℤ st.reader.size st.current)) [
              | inl t ↦ rw (read_round, t) tt
              | inr t ↦ elim (Option-cases (find_span st.reader st.current)) [
                | inl n ↦ rw (read_round, t, n) tt
                | inr ((s, i), e) ↦
                    let (x, y, z) = find_span_lem st.reader st.current s i e in
                    let same : span_unchanged st.reader i s ≡ true =
                      rw (span_unchanged, x) (ground arith) in
                    let more : length st.out < limit = ground arith in
                    let rq = request s st.current (min_ℤ s.end (pos (o + limit))) in
                    let (a, n, h, b, d, l, m, u, v, q) =
                      asked fetch (λ w r. r) part_of content known wanted o limit true_spans st s i
                        c g e more in
                    rw (read_round, t, e)
                      (take_reply-IsGrown st s i (fetch rq st.world) g.at more (rw g.at at z) same (
                        giving rq st.world a n (o + length st.out) (min (a + n) (o + limit)) h b d l
                          g.at m u v q))
              ]
            ]

      read_loop-some :
          IsFaithful part_of content fetch
          → (fuel : ℕ) (st : ReadState W) → IsUnderWay st
          → limit ≤ wanted
          → limit < fuel + length st.out
          → (res : ReadResult E) × (read_loop fetch
                (λ w r. r)
                fuel
                wanted
                (pos limit)
                (pos (o + limit))
                st
              ≡ some res)
      unfolding read_loop
      read_loop-some faithful zero st (g, c) q h = absurd (let z = g.within in omega arith)
      read_loop-some faithful (suc fuel) st (g, c) q h =
          let r = read_round fetch (λ w r. r) wanted (pos limit) (pos (o + limit)) st in
          let i = read_round-IsRound fetch (λ w r. r) wanted o limit st g q fits in
          let j =
            read_round-IsRight fetch (λ w r. r) part_of content known wanted o limit (λ w r. refl)
              faithful true_spans st c g in
          let k = read_round-IsGrown st (g, c) in
          elim (Option-cases r.1) [
            | inl n ↦
                let k' = rw n at k in
                rw (read_loop, n)
                  (read_loop-some faithful fuel r.0 (rw n at i, rw n at j) q (omega arith))
            | inr (x, e) ↦ rw (read_loop, e) (x, refl)
          ]

  module _ (part_of : Bytes → Option (ℕ × ℕ)) (content : Bytes)
      (faithful : IsFaithful part_of content fetch) (giving : IsGiving part_of content fetch) where
    started-some :
        (fuel : ℕ) (r : DirectNzbReader) (wanted o limit : ℕ) (w : W)
        → All (IsTrue part_of content) (keys r.spans)
        → limit ≤ wanted
        → o + limit < 2 ^ 63
        → wanted < fuel
        → (res : ReadResult E) × (read_loop fetch
              (λ w r. r)
              fuel
              wanted
              (pos limit)
              (add64 (pos o) (pos limit))
              (record { reader = r; out = []; current = pos o; empty_count = 0; world = w })
            ≡ some res)
    started-some fuel r wanted o limit w t l k h = rw (add64_pos o limit k) (
        read_loop-some o limit k part_of content (keys r.spans) t giving wanted faithful fuel _
          (
            record { at = ap pos (omega arith); within = omega arith },
            record { spans = refl; part = refl },
          )
          l (omega arith))

    -- A read ends, in at most one round more than the buffer has bytes, where the spans are the places of
    -- their articles, no other call changes them, and every fetch gives an error or, asked for a part
    -- of a segment, at least one byte of it; the offset is not negative, and the offset and the
    -- buffer's length fit int64.
    pub read_at-some :
        (fuel : ℕ) (r : DirectNzbReader) (wanted o : ℕ) (w : W)
        → All (IsTrue part_of content) (keys r.spans)
        → IsInt64 r.size
        → o + wanted < 2 ^ 63
        → wanted < fuel
        → (res : ReadResult E) × (read_at fetch (λ w r. r) fuel r wanted (pos o) w ≡ some res)
    unfolding read_at
    read_at-some fuel r wanted o w t f k h = elim (Bool-cases (leb_ℤ r.size (pos o))) [
      | inl u ↦ rw (read_at, u) (_, refl)
      | inr u ↦ elim (Bool-cases (ltb_ℤ r.size (add64 (pos o) (pos wanted)))) [
        | inl v ↦
            let n = pos_part r.size - o in
            let l : n ≤ wanted = shorter r.size o wanted (rw (add64_pos o wanted k) at v) in
            rw (read_at, u, v, sub64_pos r.size o (not_before r.size o u) f)
              (started-some fuel r wanted o n w t l (omega arith) h)
        | inr v ↦ rw (read_at, u, v) (started-some fuel r wanted o wanted w t (omega arith) k h)
      ]
    ]
