-- ===== src/Stream/StoredRar/Blocks.antt =====
-- What a round of ReadAt does with a block of a true span: Stream.StoredRar.ReadAt.
use drakkar.Prelude.{
  ℕ, ◌+◌, ◌-◌, ◌^◌, ◌≤◌, ◌<◌, ◌≡◌, refl, sym, ap, ◌∙◌, subst, Bool, true, false, not, Option, none,
  some, [], ◌++◌, inl, inr, arith, ltb, ◌==◌, length, take, drop, Bool-cases,
}
use drakkar.Prelude.Int.{ℤ, pos, pos_part, add64, sub64, add64_pos, sub64_pos_pos}
use drakkar.Prelude.Bytes.{Bytes}
use drakkar.Prelude.Slices.{slice, length-slice, take-take, slice-append}
use drakkar.Stream.RangeMap.{SegmentRange, SegmentSpan}
use drakkar.Stream.DirectReader.{FetchReply, fetched, refused}
use drakkar.Stream.DirectReader.Reads.{written}
use drakkar.Stream.StoredRar.{SpanState, RarReadResult, RarReadState, reported, RarReadError}
use drakkar.Stream.StoredRar.ReadAt.{take_rar_block, use_rar_block, take_rar_reply}
use drakkar.Stream.StoredRar.Places.{
  IsTrueSpan, IsTrueState, IsBounds, IsRarPart, part_of_file, too_short-true,
}

module _ {ℓ} {W : Type ℓ} {E : Type 0} (fetch : SegmentRange → W → FetchReply E × W)
    (others : W → SpanState → SpanState) (article : Bytes → Option (ℕ × Bytes)) (content : Bytes)
    (wanted o limit : ℕ) (quiet : Bool) where
  -- What was written are the bytes from the offset on, and the spans are true.
  pub record IsReading (st : RarReadState W) : Type 0 where
    pub true_state : IsTrueState article content st.shared
    pub at : st.current ≡ pos (o + length st.out)
    pub within : length st.out ≤ limit
    pub part : st.out ≡ slice o (length st.out) content

  abbrev pub IsRight : RarReadResult E → Type 0
  IsRight res =
      (res.bytes ≡ slice o (length res.bytes) content)
      × (length res.bytes ≤ wanted)
      × (res.error ≡ none → length res.bytes ≡ wanted)

  -- After a round that began with `n` bytes: if other calls are quiet, it wrote something, or it ended.
  abbrev pub IsRightAfter : ℕ → RarReadState W → Option (RarReadResult E) → Type 0
  IsRightAfter n st none = IsReading st × (quiet ≡ true → n < length st.out)
  IsRightAfter n st (some res) = IsRight res

  abbrev pub IsRightRound : ℕ → RarReadState W × Option (RarReadResult E) → Type 0
  IsRightRound n r = IsRightAfter n r.0 r.1

  -- A block of the length that was expected is written.
  take_rar_block-IsRight :
      (st : RarReadState W) (k : ℕ) (block : Bytes)
      → IsReading st
      → limit ≤ wanted
      → o + limit < 2 ^ 63
      → length st.out + k ≤ limit
      → 0 < k
      → length block ≡ k
      → block ≡ slice (o + length st.out) k content
      → IsRightRound (length st.out) (take_rar_block {E = E} st k block)
  unfolding take_rar_block
  take_rar_block-IsRight st k block g q f l pk n p =
      let a : ltb (length block) k ≡ false = ground arith in
      let b = written st.out block k (omega arith) in
      let c : take k block ≡ slice (o + length st.out) k content =
        ap (λ l. take k l) p ∙ take-take k k (drop (o + length st.out) content) (omega arith) in
      let at : add64 st.current (pos k) ≡ pos (o + length (st.out ++ take k block)) = rw g.at (
        add64_pos (o + length st.out) k (omega arith)
        ∙ ap {B = ℤ} pos {x = o + length st.out + k} (omega arith)) in
      let part : st.out ++ take k block ≡ slice o (length (st.out ++ take k block)) content = rw b (
        ap (λ l. l ++ take k block) g.part
        ∙ ap (λ l. slice o (length st.out) content ++ l) c
        ∙ slice-append o (length st.out) k content) in
      rw (take_rar_block, a)
        (
          record { true_state = g.true_state; at = at; within = omega arith; part = part },
          λ w. omega arith,
        )

  expected :
      (st : RarReadState W) (y k : ℕ)
      → IsReading st
      → o + limit < 2 ^ 63
      → y ≡ o + length st.out + k
      → length st.out + k ≤ limit
      → pos_part (sub64 (pos y) st.current) ≡ k
  expected st y k g f e l =
      let m = sub64_pos_pos y (o + length st.out) (omega arith) (omega arith) in
      rw (g.at, m) (omega arith)

  use_rar_block-IsRight :
      (st : RarReadState W) (span : SegmentSpan) (t : IsTrueSpan article content span) (y k : ℕ)
      (block : Bytes) (actual : Option SegmentSpan)
      → IsReading st
      → limit ≤ wanted
      → o + limit < 2 ^ 63
      → y ≡ o + length st.out + k
      → length st.out + k ≤ limit
      → 0 < k
      → length block ≡ k
      → block ≡ slice (o + length st.out) k content
      → IsBounds (length t.body) (t.skip + t.width) actual
      → IsRightRound (length st.out) (use_rar_block {E = E} st span (pos y) block actual)
  unfolding use_rar_block
  use_rar_block-IsRight st span t y k block none g q f e l pk n p b =
      subst (λ j. IsRightRound (length st.out) (take_rar_block {E = E} st j block))
        (sym (expected st y k g f e l)) (take_rar_block-IsRight st k block g q f l pk n p)
  use_rar_block-IsRight st span t y k block (some actual) g q f e l pk n p b =
      let m = expected st y k g f e l in
      let c : ltb (length block) (pos_part (sub64 (pos y) st.current)) ≡ false =
        rw (m, n) (ground arith) in
      let d : (length block == pos_part (sub64 (pos y) st.current)) ≡ true =
        rw (m, n) (ground arith) in
      let z = too_short-true article content span t (pos y) actual b in
      let u : use_rar_block {E = E} st span (pos y) block (some actual)
          ≡ take_rar_block st (pos_part (sub64 (pos y) st.current)) block =
        rw (use_rar_block, c, d, z) refl in
      subst (IsRightRound (length st.out)) (sym (u ∙ ap (λ j. take_rar_block {E = E} st j block) m))
        (take_rar_block-IsRight st k block g q f l pk n p)

  reported-IsBounds :
      (n m : ℕ) (info : Option SegmentSpan) → IsBounds n m info → IsBounds n m (reported info)
  unfolding reported
  reported-IsBounds n m none b = tt
  reported-IsBounds n m (some actual) b = elim (Bool-cases (length actual.message_id == 0)) [
    | inl e ↦ rw e tt
    | inr e ↦ rw e b
  ]

  pub take_rar_reply-IsRight :
      (st : RarReadState W) (span : SegmentSpan) (t : IsTrueSpan article content span) (y k : ℕ)
      (reply : FetchReply E)
      → IsReading st
      → limit ≤ wanted
      → o + limit < 2 ^ 63
      → y ≡ o + length st.out + k
      → length st.out + k ≤ limit
      → 0 < k
      → t.at ≤ o + length st.out
      → y ≤ t.at + t.width
      → IsRarPart t.body (t.skip + (o + length st.out - t.at)) k (t.skip + t.width) reply
      → IsRightRound (length st.out) (take_rar_reply st span (pos y) reply)
  unfolding take_rar_reply
  take_rar_reply-IsRight st span t y k (refused x) g q f e l pk h u p =
      (g.part, omega (arith, g.within), λ w. absurd cc)
  take_rar_reply-IsRight st span t y k (fetched block info) g q f e l pk h u (p, b) =
      let i = t.inside in
      let n : length block ≡ k =
        ap length p ∙ length-slice (t.skip + (o + length st.out - t.at)) k t.body (omega arith) in
      use_rar_block-IsRight st span t y k block (reported info) g q f e l pk n
        (p ∙ part_of_file article content span t (o + length st.out) k h (omega arith))
        (reported-IsBounds (length t.body) (t.skip + t.width) info b)

  pub still_version :
      (w : W) (s : SpanState)
      → ((w : W) (s : SpanState) → (others w s).version ≡ s.version)
      → not ((others w s).version == s.version) ≡ true
      → ⊥
  still_version w s still h =
      let e = still w s in
      let t : ((others w s).version == s.version) ≡ true = ground arith in
      absurd (let h' = rw t at h in cc)

  pub early-IsRight :
      (e : RarReadError E) (res : RarReadResult E)
      → some (record { bytes = []; error = some e }) ≡ some res
      → IsRight res
  early-IsRight e res h =
      let z : record { bytes = []; error = some e } ≡ res = ground arith in
      rw (← z) (refl, omega arith, λ e. absurd cc)
