-- ===== src/Stream/StoredRar/Rounds.antt =====
-- The rounds of ReadAt over true spans: Stream.StoredRar.ReadAt.
use drakkar.Prelude.{
  ℕ, zero, suc, ◌+◌, ◌-◌, ◌^◌, ◌≤◌, ◌<◌, ◌≡◌, refl, sym, ap, ◌∙◌, subst, Bool, true, not, Option,
  some, [], ◌∷◌, inl, inr, arith, min, ◌==◌, length, Bool-cases, Option-cases, All-get_elem?,
}
use drakkar.Prelude.Int.{pos, pos_part, leb_ℤ, ◌<ℤ◌}
use drakkar.Prelude.Bytes.{Bytes}
use drakkar.Prelude.Slices.{slice}
use drakkar.Stream.RangeMap.{SegmentRange, SegmentSpan}
use drakkar.Stream.DirectReader.{FetchReply}
use drakkar.Stream.StoredRar.{
  SpanState, find_stored_rar_span, RarReadResult, RarReadState, request_end_of, rar_request,
}
use drakkar.Stream.StoredRar.ReadAt.{
  rar_outside, rar_ended, fetch_rar_span, read_rar_span, rar_round, rar_loop,
}
use drakkar.Stream.StoredRar.Places.{
  IsTrueSpan, IsTrueState, IsRarFaithful, request_width, find_stored_rar_span_lem,
  request_end_of_lem, rar_request-true,
}
use drakkar.Stream.StoredRar.Blocks.{
  IsReading, IsRight, IsRightRound, take_rar_reply-IsRight, still_version,
}

module _ {ℓ} {W : Type ℓ} {E : Type 0} (fetch : SegmentRange → W → FetchReply E × W)
    (others : W → SpanState → SpanState) (article : Bytes → Option (ℕ × Bytes)) (content : Bytes)
    (wanted o limit : ℕ) (quiet : Bool) where
  abbrev IsUnderWay : RarReadState W → Type 0
  IsUnderWay st = IsReading fetch others article content wanted o limit quiet st

  abbrev IsFine : RarReadResult E → Type 0
  IsFine res = IsRight fetch others article content wanted o limit quiet res

  abbrev IsFineRound : ℕ → RarReadState W × Option (RarReadResult E) → Type 0
  IsFineRound n r = IsRightRound fetch others article content wanted o limit quiet n r

  fetch_rar_span-IsRight :
      ((w : W) (s : SpanState)
        → IsTrueState article content s
        → IsTrueState article content (others w s))
      → (quiet ≡ true → (w : W) (s : SpanState) → (others w s).version ≡ s.version)
      → IsRarFaithful article fetch
      → (st : RarReadState W) (span : SegmentSpan) (t : IsTrueSpan article content span) (y k : ℕ)
      → IsUnderWay st
      → limit ≤ wanted
      → o + limit < 2 ^ 63
      → y ≡ o + length st.out + k
      → length st.out + k ≤ limit
      → 0 < k
      → t.at ≤ o + length st.out
      → y ≤ t.at + t.width
      → IsFineRound (length st.out) (fetch_rar_span fetch others st span (pos y))
  unfolding fetch_rar_span rar_request
  fetch_rar_span-IsRight calm still faithful st span t y k g q f e l z h u =
      let p = o + length st.out in
      let rq = rar_request span st.current (pos y) in
      let width : y - p ≡ k = omega arith in
      let r = rar_request-true article content span t p y h (omega arith) u in
      let i = t.inside in
      let reply =
        faithful rq st.world t.body t.from (t.skip + (p - t.at)) k (t.skip + t.width) t.known
          t.begins r.2 (rw g.at r.0)
          (rw g.at (r.1 ∙ ap (λ n. pos (t.from + (t.skip + (p - t.at)) + n)) width)) z (omega arith)
          i t.fits in
      let w = (fetch rq st.world).1 in
      let shared = others w st.shared in
      let st' : RarReadState W = record st { world = w; shared = shared } in
      let g' : IsUnderWay st' = record {
        true_state = calm w st.shared g.true_state;
        at = g.at;
        within = g.within;
        part = g.part;
      } in
      elim (Bool-cases (not (shared.version == st.shared.version))) [
        | inl v ↦
            rw (fetch_rar_span, v)
              (
                g',
                λ e. absurd (
                    still_version fetch others article content wanted o limit quiet w st.shared
                      (still e) v),
              )
        | inr v ↦
            rw (fetch_rar_span, v)
              (take_rar_reply-IsRight fetch others article content wanted o limit quiet st' span t y
                k (fetch rq st.world).0 g' q f e l z h u reply)
      ]

  rar_outside-IsRight :
      (out : Bytes)
      → out ≡ slice o (length out) content
      → length out ≤ wanted
      → IsFine (rar_outside {E = E} out)
  unfolding rar_outside
  rar_outside-IsRight [] p h = (p, h, λ e. absurd cc)
  rar_outside-IsRight (b ∷ out) p h = (p, h, λ e. absurd cc)

  read_rar_span-IsRight :
      ((w : W) (s : SpanState)
        → IsTrueState article content s
        → IsTrueState article content (others w s))
      → (quiet ≡ true → (w : W) (s : SpanState) → (others w s).version ≡ s.version)
      → IsRarFaithful article fetch
      → (st : RarReadState W) → IsUnderWay st
      → limit ≤ wanted
      → o + limit < 2 ^ 63
      → length st.out < limit
      → pos (o + length st.out) <ℤ st.shared.size
      → IsFineRound (length st.out) (
          read_rar_span fetch others st
            (pos limit)
            (find_stored_rar_span st.shared.spans st.current))
  unfolding read_rar_span
  read_rar_span-IsRight calm still faithful st g q f l b =
      elim (Option-cases (find_stored_rar_span st.shared.spans st.current)) [
        | inl n ↦
            subst (λ m. IsFineRound (length st.out) (read_rar_span fetch others st (pos limit) m))
              (sym n) (rar_outside-IsRight st.out g.part (omega arith))
        | inr (span, e) ↦
            let (i, x, y, z) = find_stored_rar_span_lem st.shared.spans st.current span e in
            let t =
              All-get_elem? (IsTrueSpan article content) st.shared.spans i g.true_state.spans x in
            let p = o + length st.out in
            let sz = pos_part st.shared.size in
            let hz : st.shared.size ≡ pos sz = ground arith in
            let y' : t.at ≤ p = (let h = rw (t.starts, g.at) at y in omega arith) in
            let z' : p < t.at + t.width = (let h = rw (t.ends, g.at) at z in omega arith) in
            let v = request_width limit (length st.out) p (t.at + t.width) sz l z' (omega arith) in
            let stop = min (t.at + t.width) (p + min (limit - length st.out) (sz - p)) in
            let r : request_end_of st.shared span (pos limit) st.current (length st.out)
                ≡ pos stop =
              ap (λ c. request_end_of st.shared span (pos limit) c (length st.out)) g.at
              ∙ request_end_of_lem st.shared span limit (length st.out) p (t.at + t.width) sz t.ends
                  hz (omega arith) (omega arith) g.true_state.size.0 (omega arith) in
            subst (λ m. IsFineRound (length st.out) (read_rar_span fetch others st (pos limit) m))
              (sym e)
              (subst (λ m. IsFineRound (length st.out) (fetch_rar_span fetch others st span m))
                (sym r)
                (fetch_rar_span-IsRight calm still faithful st span t stop (stop - p) g q f
                  (omega (arith, v.0)) v.1 (omega (arith, v.0)) y' v.2))
      ]

  rar_round-IsRight :
      ((w : W) (s : SpanState)
        → IsTrueState article content s
        → IsTrueState article content (others w s))
      → (quiet ≡ true → (w : W) (s : SpanState) → (others w s).version ≡ s.version)
      → IsRarFaithful article fetch
      → (st : RarReadState W) → IsUnderWay st
      → limit ≤ wanted
      → o + limit < 2 ^ 63
      → IsFineRound (length st.out) (rar_round fetch others wanted (pos limit) st)
  unfolding rar_round rar_ended
  rar_round-IsRight calm still faithful st g q f =
      let n : length st.out ≤ wanted = omega (arith, g.within) in
      elim (Bool-cases (leb_ℤ (pos limit) (pos (length st.out)))) [
        | inl a ↦ rw (rar_round, a) (g.part, n, ground arith)
        | inr a ↦ elim (Bool-cases st.shared.layout_valid) [
          | inr v ↦ rw (rar_round, a, v) (g.part, n, λ e. absurd cc)
          | inl v ↦ elim (Bool-cases (leb_ℤ st.shared.size st.current)) [
            | inl b ↦ rw (rar_round, a, v, b) (g.part, n, ground arith)
            | inr b ↦
                let b' = rw g.at at b in
                let u : rar_round fetch others wanted (pos limit) st
                    ≡ read_rar_span fetch others st (pos limit)
                        (find_stored_rar_span st.shared.spans st.current) =
                  rw (rar_round, a, v, b) refl in
                subst (IsFineRound (length st.out)) (sym u)
                  (read_rar_span-IsRight calm still faithful st g q f (ground arith) (ground arith))
          ]
        ]
      ]

  pub rar_loop-IsRight :
      ((w : W) (s : SpanState)
        → IsTrueState article content s
        → IsTrueState article content (others w s))
      → (quiet ≡ true → (w : W) (s : SpanState) → (others w s).version ≡ s.version)
      → IsRarFaithful article fetch
      → limit ≤ wanted
      → o + limit < 2 ^ 63
      → (fuel : ℕ) (st : RarReadState W) (res : RarReadResult E) → IsUnderWay st
      → rar_loop fetch others fuel wanted (pos limit) st ≡ some res
      → IsFine res
  unfolding rar_loop
  rar_loop-IsRight calm still faithful q f zero st res g h = absurd cc
  rar_loop-IsRight calm still faithful q f (suc fuel) st res g h =
      let r = rar_round fetch others wanted (pos limit) st in
      let a = rar_round-IsRight calm still faithful st g q f in
      elim (Option-cases r.1) [
        | inl n ↦
            rar_loop-IsRight calm still faithful q f fuel r.0 res (let c = rw n at a in c.0)
              (rw (rar_loop, n) at h)
        | inr (x, e) ↦
            let z : x ≡ res = (let h' = rw (rar_loop, e) at h in ground arith) in
            rw (← z) (rw e at a)
      ]

  -- Without other calls every round that does not end the read writes something.
  pub rar_loop-some :
      ((w : W) (s : SpanState)
        → IsTrueState article content s
        → IsTrueState article content (others w s))
      → (quiet ≡ true → (w : W) (s : SpanState) → (others w s).version ≡ s.version)
      → IsRarFaithful article fetch
      → limit ≤ wanted
      → o + limit < 2 ^ 63
      → quiet ≡ true
      → (fuel : ℕ) (st : RarReadState W) → IsUnderWay st
      → limit < fuel + length st.out
      → (res : RarReadResult E) × (rar_loop fetch others fuel wanted (pos limit) st ≡ some res)
  unfolding rar_loop
  rar_loop-some calm still faithful q f t zero st g h = absurd (omega (arith, g.within))
  rar_loop-some calm still faithful q f t (suc fuel) st g h =
      let r = rar_round fetch others wanted (pos limit) st in
      let a = rar_round-IsRight calm still faithful st g q f in
      elim (Option-cases r.1) [
        | inl n ↦
            let b = rw n at a in
            let c = b.1 t in
            rw (rar_loop, n) (rar_loop-some calm still faithful q f t fuel r.0 b.0 (omega arith))
        | inr (x, e) ↦ (x, rw (rar_loop, e) refl)
      ]
