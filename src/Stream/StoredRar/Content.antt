-- ===== src/Stream/StoredRar/Content.antt =====
-- A read gives the bytes of the file, where the spans are true to it: Stream.StoredRar.ReadAt.
use drakkar.Prelude.{
  ℕ, ◌+◌, ◌-◌, ◌^◌, ◌≤◌, ◌<◌, ◌≡◌, refl, sym, ap, ◌∙◌, true, false, Option, none, some, [], ◌⊎◌,
  inl, inr, arith, min, length, Bool-cases,
}
use drakkar.Prelude.Int.{pos, pos_part, sub64, min_ℤ, ltb_ℤ, leb_ℤ, IsInt64, sub64_pos_pos}
use drakkar.Prelude.Bytes.{Bytes}
use drakkar.Prelude.Slices.{slice}
use drakkar.Stream.RangeMap.{SegmentRange}
use drakkar.Stream.DirectReader.{FetchReply}
use drakkar.Stream.StoredRar.{
  SpanState, RarReadResult, RarReadState, layout_invalid, eof, RarReadError,
}
use drakkar.Stream.StoredRar.ReadAt.{rar_loop, read_stored_rar_at}
use drakkar.Stream.StoredRar.Places.{IsTrueState, IsRarFaithful, min_ℤ-pos}
use drakkar.Stream.StoredRar.Blocks.{early-IsRight}
use drakkar.Stream.StoredRar.Rounds.{rar_loop-IsRight, rar_loop-some}

module _ {ℓ} {W : Type ℓ} {E : Type 0} (fetch : SegmentRange → W → FetchReply E × W)
    (others : W → SpanState → SpanState) (article : Bytes → Option (ℕ × Bytes))
    (content : Bytes) where
  -- ReadAt ends before its loop, or goes into it.
  read_stored_rar_at-cases :
      (fuel : ℕ) (state : SpanState) (wanted o : ℕ) (w : W)
      → IsInt64 state.size
      → ((e : RarReadError E) × (read_stored_rar_at fetch others fuel state wanted (pos o) w
            ≡ some (record { bytes = []; error = some e })))
        ⊎ ((limit : ℕ) × (limit ≤ wanted)
            × (read_stored_rar_at fetch others fuel state wanted (pos o) w
                ≡ rar_loop fetch others fuel wanted (pos limit) (record {
                  shared = state;
                  out = [];
                  current = pos o;
                  empty_count = 0;
                  world = w;
                })))
  unfolding read_stored_rar_at
  read_stored_rar_at-cases fuel state wanted o w f =
      let start : RarReadState W = record {
        shared = state;
        out = [];
        current = pos o;
        empty_count = 0;
        world = w;
      } in
      let n : ltb_ℤ (pos o) (pos 0) ≡ false = ground arith in
      elim (Bool-cases state.layout_valid) [
        | inr v ↦ inl (layout_invalid, rw (read_stored_rar_at, v) refl)
        | inl v ↦ elim (Bool-cases (leb_ℤ state.size (pos o))) [
          | inl b ↦ inl (eof, rw (read_stored_rar_at, v, n, b) refl)
          | inr b ↦
              let z = pos_part state.size in
              let hz : state.size ≡ pos z = ground arith in
              let l : o < z = ground arith in
              let m : min_ℤ (pos wanted) (sub64 state.size (pos o)) ≡ pos (min wanted (z - o)) =
                ap (λ x. min_ℤ (pos wanted) (sub64 x (pos o))) hz
                ∙ ap (λ x. min_ℤ (pos wanted) x) (sub64_pos_pos z o (omega arith) f.0)
                ∙ min_ℤ-pos wanted (z - o) in
              let u : read_stored_rar_at fetch others fuel state wanted (pos o) w
                  ≡ rar_loop fetch others fuel wanted
                      (min_ℤ (pos wanted) (sub64 state.size (pos o))) start =
                rw (read_stored_rar_at, v, n, b) refl in
              inr (
                min wanted (z - o),
                omega arith,
                u ∙ ap (λ x. rar_loop fetch others fuel wanted x start) m,
              )
        ]
      ]

  -- What ReadAt writes are the bytes of the file from the offset on, no more than the buffer holds, and
  -- all of them where it gives no error: where the spans are true to the file and stay so when other
  -- calls correct them, and the fetcher, asked for a part of an article by the place where this begins,
  -- gives these bytes or an error, and reports, if any, bounds of the article's length or of the
  -- length that was named in the request. The offset is not negative, and the offset
  -- and the buffer's length fit int64.
  pub read_stored_rar_at-content :
      (fuel : ℕ) (state : SpanState) (wanted o : ℕ) (w : W) (res : RarReadResult E)
      → ((w : W) (s : SpanState)
          → IsTrueState article content s
          → IsTrueState article content (others w s))
      → IsRarFaithful article fetch
      → IsTrueState article content state
      → o + wanted < 2 ^ 63
      → read_stored_rar_at fetch others fuel state wanted (pos o) w ≡ some res
      → (res.bytes ≡ slice o (length res.bytes) content)
        × (length res.bytes ≤ wanted)
        × (res.error ≡ none → length res.bytes ≡ wanted)
  read_stored_rar_at-content fuel state wanted o w res calm faithful t k h =
      elim (read_stored_rar_at-cases fuel state wanted o w t.size) [
        | inl (e, u) ↦ early-IsRight fetch others article content wanted o 0 false e res (sym u ∙ h)
        | inr (limit, l, u) ↦
            rar_loop-IsRight fetch others article content wanted o limit false calm (λ e. absurd cc)
              faithful l (omega arith) fuel
              (record { shared = state; out = []; current = pos o; empty_count = 0; world = w }) res
              (record {
                true_state = t;
                at = ap pos (omega arith);
                within = omega arith;
                part = refl;
              })
              (sym u ∙ h)
      ]

  -- Under the same conditions, and where no other call corrects the spans, one round more than the
  -- buffer has bytes is enough for ReadAt to return.
  pub read_stored_rar_at-some :
      (fuel : ℕ) (state : SpanState) (wanted o : ℕ) (w : W)
      → ((w : W) (s : SpanState)
          → IsTrueState article content s
          → IsTrueState article content (others w s))
      → ((w : W) (s : SpanState) → (others w s).version ≡ s.version)
      → IsRarFaithful article fetch
      → IsTrueState article content state
      → o + wanted < 2 ^ 63
      → wanted < fuel
      → (res : RarReadResult E) × (read_stored_rar_at fetch others fuel state wanted (pos o) w
          ≡ some res)
  read_stored_rar_at-some fuel state wanted o w calm still faithful t k h =
      elim (read_stored_rar_at-cases fuel state wanted o w t.size) [
        | inl (e, u) ↦ (record { bytes = []; error = some e }, u)
        | inr (limit, l, u) ↦
            let (res, e) =
              rar_loop-some fetch others article content wanted o limit true calm (λ _. still)
                faithful l (omega arith) refl fuel
                (record { shared = state; out = []; current = pos o; empty_count = 0; world = w })
                (record {
                  true_state = t;
                  at = ap pos (omega arith);
                  within = omega arith;
                  part = refl;
                })
                (omega arith) in
            (res, u ∙ e)
      ]
