-- ===== src/Stream/DirectReader/Content.antt =====
-- A read gives the bytes of the file, where the spans are those of its segments and the fetcher gives
-- parts of the segments.
use drakkar.Prelude.{
  ℕ, zero, suc, ◌+◌, ◌-◌, ◌^◌, ◌≤◌, ◌<◌, ◌≡◌, refl, sym, ap, ◌∙◌, Option, none, some, List, [], ◌∷◌,
  ◌++◌, inl, inr, arith, ltb, min, ◌==◌, ◌||◌, if◌then◌else◌, length, get_elem?, take, drop,
  Bool-cases, Option-cases, All, All-get_elem?,
}
use drakkar.Prelude.Int.{
  add64_pos, sub64_pos, ℤ, pos, pos_part, add64, sub64, min_ℤ, ltb_ℤ, leb_ℤ, IsInt64,
}
use drakkar.Prelude.Bytes.{Bytes}
use drakkar.Prelude.Slices.{slice, take-take, slice-append}
use drakkar.Stream.RangeMap.{SegmentRange, SegmentSpan}
use drakkar.Stream.DirectReader.{
  DirectNzbReader, eof, find_span, span_unchanged, realign_spans, request, outside, ended,
  ReadResult, ReadState, FetchReply, fetched, refused, actual_span, take_block, take_reply,
  read_span, read_round, read_loop, read_at,
}
use drakkar.Stream.DirectReader.Spans.{find_span_lem}
use drakkar.Stream.DirectReader.Reads.{written, shorter, not_before, IsReading, read_round-IsRound}
use drakkar.Stream.DirectReader.Places.{
  Key, key, keys, IsTrue, IsPart, IsFaithful, get_elem?-keys, realign_spans-keys,
}

outside_part :
    (E : Type 0) (content : Bytes) (o : ℕ) (out : Bytes)
    → out ≡ slice o (length out) content
    → (outside {E = E} out).bytes ≡ slice o (length (outside {E = E} out).bytes) content
unfolding outside
outside_part E content o [] h = h
outside_part E content o (b ∷ out) h = h

module _ {ℓ} {W : Type ℓ} {E : Type 0} (fetch : SegmentRange → W → FetchReply E × W)
    (others : W → DirectNzbReader → DirectNzbReader) (part_of : Bytes → Option (ℕ × ℕ))
    (content : Bytes) (known : List Key) (wanted o limit : ℕ) where
  -- The spans are those of the segments, and what was written are the bytes from the offset on.
  pub record IsRight (st : ReadState W) : Type 0 where
    pub spans : keys st.reader.spans ≡ known
    pub part : st.out ≡ slice o (length st.out) content

  abbrev pub IsRightAfter : ReadState W → Option (ReadResult E) → Type 0
  IsRightAfter st none = IsRight st
  IsRightAfter st (some res) = res.bytes ≡ slice o (length res.bytes) content

  abbrev pub IsRightRound : ReadState W × Option (ReadResult E) → Type 0
  IsRightRound r = IsRightAfter r.0 r.1

  take_block-IsRight :
      (st : ReadState W) (request_end : ℤ) (block : Bytes)
      → IsRight st
      → block ≡ slice (o + length st.out) (length block) content
      → IsRightRound (take_block fetch others st request_end block)
  unfolding take_block
  take_block-IsRight st request_end block g b =
      let n = pos_part (sub64 request_end st.current) in
      elim (Bool-cases (length block == 0)) [
        | inl z ↦
            rw (take_block, z)
              (elim (Bool-cases (ltb 5 (st.empty_count + 1) || leb_ℤ st.reader.size st.current)) [
                | inl y ↦ rw y g.part
                | inr y ↦ rw y (record { spans = g.spans; part = g.part })
              ])
        | inr z ↦
            rw (take_block, z)
              (elim (Bool-cases (ltb (length block) n)) [
                | inl y ↦ rw y g.part
                | inr y ↦ rw y (record {
                  spans = g.spans;
                  part = longer st.out block n g.part b (ground arith);
                })
              ])
      ]
    where
      longer :
          (out block : Bytes) (n : ℕ)
          → out ≡ slice o (length out) content
          → block ≡ slice (o + length out) (length block) content
          → n ≤ length block
          → out ++ take n block ≡ slice o (length (out ++ take n block)) content
      longer out block n p b h =
          let t : take n block ≡ slice (o + length out) n content =
            ap (λ l. take n l) b ∙ take-take n (length block) (drop (o + length out) content) h in
          rw (written out block n h) (
            ap (λ l. l ++ take n block) p
            ∙ ap (λ l. slice o (length out) content ++ l) t
            ∙ slice-append o (length out) n content)

  realigned_block-IsRight :
      (calm : (w : W) (r : DirectNzbReader) → keys (others w r).spans ≡ keys r.spans)
      (st : ReadState W) (span : SegmentSpan) (i : ℕ) (request_end : ℤ) (block : Bytes) (w : W)
      (s : SegmentSpan)
      → IsRight st
      → get_elem? known i ≡ some (key span)
      → key s ≡ key span
      → block ≡ slice (o + length st.out) (length block) content
      → IsRightRound (
          let shared = others w st.reader in
          let st' = record st { world = w; reader = realign_spans shared i s } in
          if span_unchanged shared i span
          then take_block fetch others st' request_end block
          else (st', none))
  realigned_block-IsRight calm st span i request_end block w s g h k p =
      let shared = others w st.reader in
      let same : keys shared.spans ≡ known = calm w st.reader ∙ g.spans in
      let at : get_elem? (keys shared.spans) i ≡ some (key s) = rw (same, k) h in
      let st' : ReadState W = record st { world = w; reader = realign_spans shared i s } in
      let g' : IsRight st' = record {
        spans = realign_spans-keys shared i s at ∙ same;
        part = g.part;
      } in
      elim (Bool-cases (span_unchanged shared i span)) [
        | inl u ↦ rw u (take_block-IsRight st' request_end block g' p)
        | inr u ↦ rw u g'
      ]

  take_reply-IsRight :
      (calm : (w : W) (r : DirectNzbReader) → keys (others w r).spans ≡ keys r.spans)
      (st : ReadState W) (span : SegmentSpan) (i : ℕ) (request_end : ℤ) (rq : SegmentRange)
      (r : FetchReply E × W)
      → IsRight st
      → key span ≡ (rq.message_id, rq.segment_start, rq.segment_end)
      → get_elem? known i ≡ some (key span)
      → IsPart content rq (o + length st.out) r.0
      → IsRightRound (take_reply fetch others st span i request_end r)
  unfolding take_reply actual_span
  take_reply-IsRight calm st span i request_end rq (refused e, w) g k h p = g.part
  take_reply-IsRight calm st span i request_end rq (fetched block none, w) g k h p =
      realigned_block-IsRight calm st span i request_end block w span g h refl p
  take_reply-IsRight calm st span i request_end rq (fetched block (some s), w) g k h p =
      realigned_block-IsRight calm st span i request_end block w s g h (p.1 ∙ sym k) p.0

  -- What is asked for is a part of a segment, and it is not empty.
  pub asked :
      All (IsTrue part_of content) known
      → (st : ReadState W) (s : SegmentSpan) (i : ℕ) → IsRight st
      → IsReading fetch others wanted o limit st
      → find_span st.reader st.current ≡ some (s, i)
      → length st.out < limit
      → (a : ℕ) × (n : ℕ) × (part_of s.message_id ≡ some (a, n))
        × (s.start ≡ pos a)
        × (s.end ≡ pos (a + n))
        × (a + n ≤ length content)
        × (min_ℤ s.end (pos (o + limit)) ≡ pos (min (a + n) (o + limit)))
        × (a ≤ o + length st.out)
        × (o + length st.out < min (a + n) (o + limit))
        × (min (a + n) (o + limit) ≤ a + n)
  asked true_spans st s i g reading e more =
      let (x, y, z) = find_span_lem st.reader st.current s i e in
      let k : get_elem? known i ≡ some (key s) =
        (let q = get_elem?-keys st.reader.spans i s x in rw g.spans at q) in
      let (a, n, h, b, d, l) = All-get_elem? (IsTrue part_of content) known i true_spans k in
      let y' = rw (b, reading.at) at y in
      let z' = rw (d, reading.at) at z in
      let m : min_ℤ s.end (pos (o + limit)) ≡ pos (min (a + n) (o + limit)) = rw d (ground arith) in
      (a, n, h, b, d, l, m, omega arith, omega arith, omega arith)

  pub read_round-IsRight :
      (calm : (w : W) (r : DirectNzbReader) → keys (others w r).spans ≡ keys r.spans)
      → IsFaithful part_of content fetch
      → All (IsTrue part_of content) known
      → (st : ReadState W) → IsRight st
      → IsReading fetch others wanted o limit st
      → IsRightRound (read_round fetch others wanted (pos limit) (pos (o + limit)) st)
  unfolding read_round read_span ended
  read_round-IsRight calm faithful true_spans st g reading =
      elim (Bool-cases
        (leb_ℤ (pos limit) (pos (length st.out)) || leb_ℤ st.reader.size st.current)) [
          | inl t ↦ rw (read_round, t) g.part
          | inr t ↦ elim (Option-cases (find_span st.reader st.current)) [
            | inl n ↦ rw (read_round, t, n) (outside_part E content o st.out g.part)
            | inr ((s, i), e) ↦
                let (x, y, z) = find_span_lem st.reader st.current s i e in
                let k : get_elem? known i ≡ some (key s) =
                  (let q = get_elem?-keys st.reader.spans i s x in rw g.spans at q) in
                let rq = request s st.current (min_ℤ s.end (pos (o + limit))) in
                let more : length st.out < limit = ground arith in
                let (a, n, h, b, d, l, m, u, v, z') = asked true_spans st s i g reading e more in
                rw (read_round, t, e)
                  (take_reply-IsRight calm st s i (min_ℤ s.end (pos (o + limit))) rq
                    (fetch rq st.world) g refl k
                    (faithful rq st.world a n (o + length st.out) (min (a + n) (o + limit)) h b d l
                      reading.at m u v z'))
          ]
        ]

  read_loop-part :
      (calm : (w : W) (r : DirectNzbReader) → keys (others w r).spans ≡ keys r.spans)
      → IsFaithful part_of content fetch
      → All (IsTrue part_of content) known
      → limit ≤ wanted
      → o + limit < 2 ^ 63
      → (fuel : ℕ) (st : ReadState W) (res : ReadResult E) → IsRight st
      → IsReading fetch others wanted o limit st
      → read_loop fetch others fuel wanted (pos limit) (pos (o + limit)) st ≡ some res
      → res.bytes ≡ slice o (length res.bytes) content
  unfolding read_loop
  read_loop-part calm faithful t q k zero st res g i h = absurd cc
  read_loop-part calm faithful t q k (suc fuel) st res g i h =
      let r = read_round fetch others wanted (pos limit) (pos (o + limit)) st in
      let a = read_round-IsRight calm faithful t st g i in
      let b = read_round-IsRound fetch others wanted o limit st i q k in
      elim (Option-cases r.1) [
        | inl n ↦
            read_loop-part calm faithful t q k fuel r.0 res (rw n at a) (rw n at b)
              (rw (read_loop, n) at h)
        | inr (x, e) ↦
            let z : x ≡ res = (let h' = rw (read_loop, e) at h in ground arith) in
            rw (← z) (rw e at a)
      ]

module _ {ℓ} {W : Type ℓ} {E : Type 0} (fetch : SegmentRange → W → FetchReply E × W)
    (others : W → DirectNzbReader → DirectNzbReader) (part_of : Bytes → Option (ℕ × ℕ))
    (content : Bytes) where
  started :
      (fuel : ℕ) (r : DirectNzbReader) (wanted o limit : ℕ) (w : W) (res : ReadResult E)
      → ((w : W) (r : DirectNzbReader) → keys (others w r).spans ≡ keys r.spans)
      → IsFaithful part_of content fetch
      → All (IsTrue part_of content) (keys r.spans)
      → limit ≤ wanted
      → o + limit < 2 ^ 63
      → read_loop fetch others fuel wanted
          (pos limit)
          (add64 (pos o) (pos limit))
          (record { reader = r; out = []; current = pos o; empty_count = 0; world = w })
        ≡ some res
      → res.bytes ≡ slice o (length res.bytes) content
  started fuel r wanted o limit w res calm faithful t l k h =
      read_loop-part fetch others part_of content (keys r.spans) wanted o limit calm faithful t l k
        fuel _ res (record { spans = refl; part = refl })
        (record { at = ap pos (omega arith); within = omega arith }) (rw (add64_pos o limit k) at h)

  -- What is read are the bytes of the file from the offset on, whatever the number of bytes and the
  -- error: where each span of the table is the place of its article in the file, the fetcher gives
  -- bytes of the file from the requested position on or an error, and what other calls do in the
  -- meantime leaves the places of the spans as they are. The offset is not negative, and the offset
  -- and the buffer's length fit int64.
  pub read_at-content :
      (fuel : ℕ) (r : DirectNzbReader) (wanted o : ℕ) (w : W) (res : ReadResult E)
      → ((w : W) (r : DirectNzbReader) → keys (others w r).spans ≡ keys r.spans)
      → IsFaithful part_of content fetch
      → All (IsTrue part_of content) (keys r.spans)
      → IsInt64 r.size
      → o + wanted < 2 ^ 63
      → read_at fetch others fuel r wanted (pos o) w ≡ some res
      → res.bytes ≡ slice o (length res.bytes) content
  unfolding read_at
  read_at-content fuel r wanted o w res calm faithful true_spans f k h =
      elim (Bool-cases (leb_ℤ r.size (pos o))) [
        | inl t ↦
            let h' = rw (read_at, t) at h in
            let z : record { bytes = []; error = some eof } ≡ res = ground arith in rw (← z) refl
        | inr t ↦
            let from_start =
              λ (n : ℕ) (l : n ≤ wanted)
                  (h' : read_loop fetch others fuel wanted (pos n) (add64 (pos o) (pos n))
                      (record { reader = r; out = []; current = pos o; empty_count = 0; world = w })
                    ≡ some res).
                started fuel r wanted o n w res calm faithful true_spans l (omega arith) h' in
            elim (Bool-cases (ltb_ℤ r.size (add64 (pos o) (pos wanted)))) [
              | inl u ↦
                  let n = pos_part r.size - o in
                  let e : sub64 r.size (pos o) ≡ pos n =
                    sub64_pos r.size o (not_before r.size o t) f in
                  let l : n ≤ wanted = shorter r.size o wanted (rw (add64_pos o wanted k) at u) in
                  from_start n l (rw (read_at, t, u, e) at h)
              | inr u ↦ from_start wanted (omega arith) (rw (read_at, t, u) at h)
            ]
      ]
