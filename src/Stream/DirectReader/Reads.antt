-- ===== src/Stream/DirectReader/Reads.antt =====
-- How many bytes a read gives.
use drakkar.Prelude.{
  ℕ, zero, suc, ◌+◌, ◌-◌, ◌^◌, ◌≤◌, ◌<◌, ◌≡◌, refl, ◌∙◌, true, false, Option, none, some, [], ◌∷◌,
  ◌++◌, inl, inr, arith, ltb, ◌==◌, ◌||◌, length, take, ap, length-append, length-take, Bool-cases,
  Option-cases,
}
use drakkar.Prelude.Int.{
  add64_pos, sub64_pos, ℤ, pos, pos_part, add64, sub64, min_ℤ, ltb_ℤ, leb_ℤ, ◌≤ℤ◌, ◌<ℤ◌, IsInt64,
}
use drakkar.Prelude.Bytes.{Bytes}
use drakkar.Stream.RangeMap.{SegmentRange, SegmentSpan}
use drakkar.Stream.DirectReader.{
  DirectNzbReader, eof, find_span, span_unchanged, realign_spans, request, ReadResult, outside,
  ended, ReadState, FetchReply, fetched, refused, actual_span, take_block, take_reply, read_span,
  read_round, read_loop, read_at,
}
use drakkar.Stream.DirectReader.Spans.{find_span_lem}

-- A result of a read of `wanted` bytes: at most so many, and exactly so many where there is no error.
abbrev pub IsRead : {E : Type 0} → ℕ → ReadResult E → Type 0
IsRead wanted res = (length res.bytes ≤ wanted) × (res.error ≡ none → length res.bytes ≡ wanted)

pub expected_bytes :
    (o n limit : ℕ) (end : ℤ)
    → n < limit
    → o + limit < 2 ^ 63
    → pos (o + n) <ℤ end
    → (pos_part (sub64 (min_ℤ end (pos (o + limit))) (pos (o + n))) + n ≤ limit)
      × (0 < pos_part (sub64 (min_ℤ end (pos (o + limit))) (pos (o + n))))
unfolding sub64
expected_bytes o n limit end h k l = ground arith

outside-IsRead :
    {E : Type 0} {wanted : ℕ} (out : Bytes)
    → length out ≤ wanted
    → IsRead wanted (outside {E = E} out)
unfolding outside
outside-IsRead [] h = (h, λ e. absurd cc)
outside-IsRead (b ∷ out) h = (h, λ e. absurd cc)

pub not_before : (a : ℤ) (o : ℕ) → leb_ℤ a (pos o) ≡ false → pos o ≤ℤ a
not_before a o h = ground arith

pub shorter : (a : ℤ) (o wanted : ℕ) → ltb_ℤ a (pos (o + wanted)) ≡ true → pos_part a - o ≤ wanted
shorter a o wanted h = ground arith

pub written :
    (out block : Bytes) (n : ℕ) → n ≤ length block → length (out ++ take n block) ≡ length out + n
written out block n h =
    let a = length-append out (take n block) in let t = length-take n block in omega arith

module _ {ℓ} {W : Type ℓ} {E : Type 0} (fetch : SegmentRange → W → FetchReply E × W)
    (others : W → DirectNzbReader → DirectNzbReader) (wanted o limit : ℕ) where
  -- The position is behind what was written, which is not more than the request.
  pub record IsReading (st : ReadState W) : Type 0 where
    pub at : st.current ≡ pos (o + length st.out)
    pub within : length st.out ≤ limit

  abbrev pub IsRoundOf : ReadState W → Option (ReadResult E) → Type 0
  IsRoundOf st none = IsReading st
  IsRoundOf st (some res) = IsRead wanted res

  abbrev pub IsRound : ReadState W × Option (ReadResult E) → Type 0
  IsRound r = IsRoundOf r.0 r.1

  take_block-IsRound :
      (st : ReadState W) (end : ℤ)
      → IsReading st
      → limit ≤ wanted
      → o + limit < 2 ^ 63
      → length st.out < limit
      → pos (o + length st.out) <ℤ end
      → (block : Bytes) → IsRound (take_block fetch others st (min_ℤ end (pos (o + limit))) block)
  unfolding take_block
  take_block-IsRound st end g q k l p block =
      let (a, b) = expected_bytes o (length st.out) limit end l k p in
      let n = pos_part (sub64 (min_ℤ end (pos (o + limit))) (pos (o + length st.out))) in
      rw (take_block, g.at)
        (elim (Bool-cases (length block == 0)) [
          | inl z ↦
              rw z
                (elim (Bool-cases
                  (ltb 5 (st.empty_count + 1) || leb_ℤ st.reader.size (pos (o + length st.out)))) [
                    | inl y ↦ rw y (omega arith, λ h. absurd cc)
                    | inr y ↦ rw y (record { at = refl; within = g.within })
                  ])
          | inr z ↦ rw z (elim (Bool-cases (ltb (length block) n)) [
            | inl y ↦ rw y (omega arith, λ h. absurd cc)
            | inr y ↦
                let e = written st.out block n (ground arith) in
                rw y (record {
                  at = add64_pos (o + length st.out) n (omega arith) ∙ ap pos (omega arith);
                  within = omega arith;
                })
          ])
        ])

  take_reply-IsRound :
      (st : ReadState W) (span : SegmentSpan) (index : ℕ) (r : FetchReply E × W)
      → IsReading st
      → limit ≤ wanted
      → o + limit < 2 ^ 63
      → length st.out < limit
      → pos (o + length st.out) <ℤ span.end
      → IsRound (take_reply fetch others st span index (min_ℤ span.end (pos (o + limit))) r)
  unfolding take_reply
  take_reply-IsRound st span index (refused e, w) g q k l p =
      (let z = g.within in omega arith, λ h. absurd cc)
  take_reply-IsRound st span index (fetched block info, w) g q k l p =
      let shared = others w st.reader in
      let st' : ReadState W = record st {
        world = w;
        reader = realign_spans shared index (actual_span span info);
      } in
      let g' : IsReading st' = record { at = g.at; within = g.within } in
      elim (Bool-cases (span_unchanged shared index span)) [
        | inl u ↦ rw (take_reply, u) (take_block-IsRound st' span.end g' q k l p block)
        | inr u ↦ rw (take_reply, u) g'
      ]

  pub read_round-IsRound :
      (st : ReadState W)
      → IsReading st
      → limit ≤ wanted
      → o + limit < 2 ^ 63
      → IsRound (read_round fetch others wanted (pos limit) (pos (o + limit)) st)
  unfolding read_round read_span
  read_round-IsRound st g q k =
      elim (Bool-cases
        (leb_ℤ (pos limit) (pos (length st.out)) || leb_ℤ st.reader.size st.current)) [
          | inl t ↦ rw (read_round, t) (unfold ended in ground (arith, g.within))
          | inr t ↦ elim (Option-cases (find_span st.reader st.current)) [
            | inl n ↦
                rw (read_round, t, n) (outside-IsRead st.out (let z = g.within in omega arith))
            | inr ((s, i), e) ↦
                let (x, y, z) = find_span_lem st.reader st.current s i e in
                let z' = rw g.at at z in
                rw (read_round, t, e)
                  (take_reply-IsRound st s i
                    (fetch (request s st.current (min_ℤ s.end (pos (o + limit)))) st.world) g q k
                    (ground arith) z')
          ]
        ]

  read_loop-IsRead :
      (fuel : ℕ) (st : ReadState W) (res : ReadResult E)
      → IsReading st
      → limit ≤ wanted
      → o + limit < 2 ^ 63
      → read_loop fetch others fuel wanted (pos limit) (pos (o + limit)) st ≡ some res
      → IsRead wanted res
  unfolding read_loop
  read_loop-IsRead zero st res g q k h = absurd cc
  read_loop-IsRead (suc fuel) st res g q k h =
      let r = read_round fetch others wanted (pos limit) (pos (o + limit)) st in
      let i = read_round-IsRound st g q k in
      elim (Option-cases r.1) [
        | inl n ↦ read_loop-IsRead fuel r.0 res (rw n at i) q k (rw (read_loop, n) at h)
        | inr (x, e) ↦
            let z : x ≡ res = (let h' = rw (read_loop, e) at h in ground arith) in
            rw (← z) (rw e at i)
      ]

module _ {ℓ} {W : Type ℓ} {E : Type 0} (fetch : SegmentRange → W → FetchReply E × W)
    (others : W → DirectNzbReader → DirectNzbReader) where
  started :
      (fuel : ℕ) (r : DirectNzbReader) (wanted o limit : ℕ) (w : W) (res : ReadResult E)
      → limit ≤ wanted
      → o + limit < 2 ^ 63
      → read_loop fetch others fuel wanted
          (pos limit)
          (add64 (pos o) (pos limit))
          (record { reader = r; out = []; current = pos o; empty_count = 0; world = w })
        ≡ some res
      → IsRead wanted res
  started fuel r wanted o limit w res l k h =
      read_loop-IsRead fetch others wanted o limit fuel _ res
        (record { at = ap pos (omega arith); within = omega arith }) l k
        (rw (add64_pos o limit k) at h)

  -- A read at an offset that is not negative, where the offset and the buffer's length fit int64, writes
  -- no more than the buffer holds, and gives no error only if it filled the buffer, whatever the
  -- fetcher returns and whatever other calls do to the spans in the meantime.
  pub read_at-IsRead :
      (fuel : ℕ) (r : DirectNzbReader) (wanted o : ℕ) (w : W) (res : ReadResult E)
      → IsInt64 r.size
      → o + wanted < 2 ^ 63
      → read_at fetch others fuel r wanted (pos o) w ≡ some res
      → IsRead wanted res
  unfolding read_at
  read_at-IsRead fuel r wanted o w res f k h = elim (Bool-cases (leb_ℤ r.size (pos o))) [
    | inl t ↦
        let h' = rw (read_at, t) at h in
        let z : record { bytes = []; error = some eof } ≡ res = ground arith in
        rw (← z) (omega arith, λ e. absurd cc)
    | inr t ↦
        let from_start =
          λ (n : ℕ) (l : n ≤ wanted)
              (h' : read_loop fetch others fuel wanted (pos n) (add64 (pos o) (pos n))
                  (record { reader = r; out = []; current = pos o; empty_count = 0; world = w })
                ≡ some res).
            started fuel r wanted o n w res l (omega arith) h' in
        elim (Bool-cases (ltb_ℤ r.size (add64 (pos o) (pos wanted)))) [
          | inl u ↦
              let n = pos_part r.size - o in
              let e : sub64 r.size (pos o) ≡ pos n = sub64_pos r.size o (not_before r.size o t) f in
              let l : n ≤ wanted = shorter r.size o wanted (rw (add64_pos o wanted k) at u) in
              from_start n l (rw (read_at, t, u, e) at h)
          | inr u ↦ from_start wanted (omega arith) (rw (read_at, t, u) at h)
        ]
  ]
