-- ===== src/Stream/StoredRar/Places.antt =====
-- Spans that are true to the file, and what a request for one of them asks for: the request of ReadAt in
-- internal/stream/stored_rar_reader.go.
use drakkar.Prelude.{
  ℕ, ◌+◌, ◌-◌, ◌^◌, ◌≤◌, ◌<◌, ◌≡◌, refl, sym, ap, ◌∙◌, Bool, true, false, ◌&&◌, Option, none, some,
  List, ◌⊎◌, inl, inr, arith, min, length, get_elem?, Bool-cases, Option-cases, All,
}
use drakkar.Prelude.Int.{
  ℤ, pos, sub64, min_ℤ, ltb_ℤ, eqb_ℤ, ◌<ℤ◌, ◌≤ℤ◌, IsInt64, add64_pos, sub64_pos_pos,
}
use drakkar.Prelude.Bytes.{Bytes}
use drakkar.Prelude.Slices.{slice, slice-slice}
use drakkar.Stream.RangeMap.{SegmentRange, SegmentSpan, search, span_at}
use drakkar.Stream.DirectReader.{FetchReply, fetched, refused}
use drakkar.Stream.DirectReader.Spans.{search_loop_found, span_at-get_elem?}
use drakkar.Stream.StoredRar.{
  SpanState, find_stored_rar_span, starts_at_or_before, request_end_of, rar_request, too_short,
  available_bytes,
}

-- A span that is true to the file: its article's bytes, from `skip` on, are those of the file from
-- `at` on, `width` of them, and all that the article has, unless the entry ends inside of it. The
-- article begins at `from` of what is decoded. `article` tells where the article of a message id begins,
-- and its bytes.
pub record IsTrueSpan (article : Bytes → Option (ℕ × Bytes)) (content : Bytes) (s : SegmentSpan)
    : Type 0 where
  pub body : Bytes
  pub at : ℕ
  pub width : ℕ
  pub skip : ℕ
  pub from : ℕ
  pub known : article s.message_id ≡ some (from, body)
  pub starts : s.start ≡ pos at
  pub ends : s.end ≡ pos (at + width)
  pub skips : s.segment_byte_start ≡ pos skip
  pub begins : s.decoded_start ≡ pos from
  pub inside : skip + width ≤ length body
  pub same : slice at width content ≡ slice skip width body
  pub whole : s.entry_truncated ≡ false → skip + width ≡ length body
  pub fits : from + length body < 2 ^ 63
  pub fits_file : at + width < 2 ^ 63

pub record IsTrueState (article : Bytes → Option (ℕ × Bytes)) (content : Bytes) (s : SpanState)
    : Type 0 where
  pub spans : All (IsTrueSpan article content) s.spans
  pub size : IsInt64 s.size

-- The bounds that a fetcher reports have the length of the article, or of the request's segment.
abbrev pub IsBounds : ℕ → ℕ → Option SegmentSpan → Type 0
IsBounds n m none = Unit
IsBounds n m (some actual) =
    (sub64 actual.end actual.start ≡ pos n) ⊎ (sub64 actual.end actual.start ≡ pos m)

-- The reply to a request for the `k` bytes of the article from `x` on, in a segment of length `m`.
abbrev pub IsRarPart {ℓ} : {E : Type ℓ} → Bytes → ℕ → ℕ → ℕ → FetchReply E → Type 0
IsRarPart body x k m (refused e) = Unit
IsRarPart body x k m (fetched block info) = (block ≡ slice x k body) × IsBounds (length body) m info

-- Asked for a part of the first `m` bytes of an article, by the place where it begins, the fetcher gives
-- this part or an error.
abbrev pub IsRarFaithful {ℓ ℓ'} :
    {W : Type ℓ} {E : Type ℓ'}
    → (Bytes → Option (ℕ × Bytes))
    → (SegmentRange → W → FetchReply E × W)
    → Type ℓ
IsRarFaithful {W = W} article fetch =
    (rq : SegmentRange) (w : W) (body : Bytes) (d x k m : ℕ)
    → article rq.message_id ≡ some (d, body)
    → rq.segment_start ≡ pos d
    → rq.segment_end ≡ pos (d + m)
    → rq.range_start ≡ pos (d + x)
    → rq.range_end ≡ pos (d + x + k)
    → 0 < k
    → x + k ≤ m
    → m ≤ length body
    → d + length body < 2 ^ 63
    → IsRarPart body x k m (fetch rq w).0

pub min_ℤ-pos : (a b : ℕ) → min_ℤ (pos a) (pos b) ≡ pos (min a b)
min_ℤ-pos a b = ground arith

-- How much is asked for, at the position `p`, `c` bytes behind the offset.
pub request_width :
    (limit c p e z : ℕ)
    → c < limit
    → p < e
    → p < z
    → (p < min e (p + min (limit - c) (z - p)))
      × (c + (min e (p + min (limit - c) (z - p)) - p) ≤ limit)
      × (min e (p + min (limit - c) (z - p)) ≤ e)
request_width limit c p e z h k l = ground arith

pub find_stored_rar_span_lem :
    (spans : List SegmentSpan) (offset : ℤ) (s : SegmentSpan)
    → find_stored_rar_span spans offset ≡ some s
    → (i : ℕ) × (get_elem? spans i ≡ some s) × (s.start ≤ℤ offset) × (offset <ℤ s.end)
unfolding find_stored_rar_span starts_at_or_before
find_stored_rar_span_lem spans offset s h =
    let p : SegmentSpan → Bool = λ x. ltb_ℤ offset x.end in
    let k = search (length spans) (span_at p spans) in
    elim (Option-cases (get_elem? spans k)) [
      | inl n ↦ absurd (let h' = rw n at h in cc)
      | inr (x, e) ↦
          let h' = rw e at h in
          let (l, q) = span_at-get_elem? p spans k x e in
          let t : span_at p spans k ≡ true =
            unfold search in
            search_loop_found (span_at p spans) (length spans) (length spans + 1) 0 (length spans)
              (omega arith) (omega arith) (λ z. absurd (omega arith)) l in
          let r : (x ≡ s) × (s.start ≤ℤ offset) × (offset <ℤ s.end) = ground arith in
          (k, e ∙ ap some r.0, r.1, r.2)
    ]

-- The end of the request as a number.
pub request_end_of_lem :
    (state : SpanState) (span : SegmentSpan) (limit c p e z : ℕ)
    → span.end ≡ pos e
    → state.size ≡ pos z
    → c ≤ limit
    → p ≤ z
    → z < 2 ^ 63
    → limit < 2 ^ 63
    → request_end_of state span (pos limit) (pos p) c ≡ pos (min e (p + min (limit - c) (z - p)))
unfolding request_end_of
request_end_of_lem state span limit c p e z he hz l m f g =
    let r = sub64_pos_pos limit c l g in
    let s = sub64_pos_pos z p m f in
    let t = min_ℤ-pos (limit - c) (z - p) in
    let u = add64_pos p (min (limit - c) (z - p)) (omega arith) in
    let v = min_ℤ-pos e (p + min (limit - c) (z - p)) in rw (request_end_of, hz, he, r, s, t, u) v

-- The request as numbers, for a true span.
pub rar_request-true :
    (article : Bytes → Option (ℕ × Bytes)) (content : Bytes) (span : SegmentSpan)
    (t : IsTrueSpan article content span) (p y : ℕ)
    → t.at ≤ p
    → p < y
    → y ≤ t.at + t.width
    → ((rar_request span (pos p) (pos y)).range_start ≡ pos (t.from + (t.skip + (p - t.at))))
      × ((rar_request span (pos p) (pos y)).range_end
          ≡ pos (t.from + (t.skip + (p - t.at)) + (y - p)))
      × ((rar_request span (pos p) (pos y)).segment_end ≡ pos (t.from + (t.skip + t.width)))
unfolding rar_request
rar_request-true article content span t p y h k l =
    let i = t.inside in
    let f = t.fits in
    let g = t.fits_file in
    let a = sub64_pos_pos p t.at h (omega arith) in
    let b = add64_pos t.skip (p - t.at) (omega arith) in
    let c = add64_pos t.from (t.skip + (p - t.at)) (omega arith) in
    let d = sub64_pos_pos y p (omega arith) (omega arith) in
    let e = add64_pos (t.from + (t.skip + (p - t.at))) (y - p) (omega arith) in
    let m = sub64_pos_pos (t.at + t.width) t.at (omega arith) (omega arith) in
    let n = add64_pos t.from (t.at + t.width - t.at) (omega arith) in
    let o = add64_pos (t.from + (t.at + t.width - t.at)) t.skip (omega arith) in
    (
      rw (t.starts, t.skips, t.begins, a, b) c,
      rw (t.starts, t.skips, t.begins, a, b, c, d) e,
      rw (t.starts, t.ends, t.skips, t.begins, m, n, o) (ap {B = ℤ} pos (omega arith)),
    )

-- A part of the article is a part of the file.
pub part_of_file :
    (article : Bytes → Option (ℕ × Bytes)) (content : Bytes) (span : SegmentSpan)
    (t : IsTrueSpan article content span) (p k : ℕ)
    → t.at ≤ p
    → p + k ≤ t.at + t.width
    → slice (t.skip + (p - t.at)) k t.body ≡ slice p k content
part_of_file article content span t p k h l =
    let a = slice-slice t.skip t.width (p - t.at) k t.body (omega arith) in
    let b = slice-slice t.at t.width (p - t.at) k content (omega arith) in
    let c : t.at + (p - t.at) ≡ p = omega arith in
    sym a ∙ ap (λ l. slice (p - t.at) k l) (sym t.same) ∙ b ∙ ap (λ n. slice n k content) c

and-false : (b : Bool) → (b && false) ≡ false
and-false true = refl
and-false false = refl

-- A true span is not too short.
pub too_short-true :
    (article : Bytes → Option (ℕ × Bytes)) (content : Bytes) (span : SegmentSpan)
    (t : IsTrueSpan article content span) (request_end : ℤ) (actual : SegmentSpan)
    → IsBounds (length t.body) (t.skip + t.width) (some actual)
    → too_short span request_end actual ≡ false
unfolding too_short available_bytes
too_short-true article content span t request_end actual h =
    let i = t.inside in
    let f = t.fits in
    let g = t.fits_file in
    let b = sub64_pos_pos (t.at + t.width) t.at (omega arith) (omega arith) in
    elim (Bool-cases span.entry_truncated) [
      | inl e ↦ rw (too_short, e) (and-false (eqb_ℤ request_end span.end))
      | inr e ↦
          let w = t.whole e in
          let h' : sub64 actual.end actual.start ≡ pos (length t.body) = elim h [
            | inl z ↦ z
            | inr z ↦ z ∙ ap {B = ℤ} pos w
          ] in
          let a = sub64_pos_pos (length t.body) t.skip (omega arith) (omega arith) in
          let z : ltb_ℤ (pos (t.at + t.width - t.at)) (pos (length t.body - t.skip)) ≡ false =
            ground arith in
          rw (too_short, e, h', t.skips, t.ends, t.starts, a, b, z)
            (and-false (eqb_ℤ request_end (pos (t.at + t.width))))
    ]
