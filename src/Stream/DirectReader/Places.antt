-- ===== src/Stream/DirectReader/Places.antt =====
-- What the spans of a reader say of the places of the segments in the file, and what a fetcher has to
-- give for them (internal/stream/direct_reader.go).
use drakkar.Prelude.{
  ℕ, zero, suc, ◌+◌, ◌≤◌, ◌<◌, ◌≡◌, refl, sym, ap, Option, none, some, List, [], ◌∷◌, inl, inr,
  arith, length, get_elem?, Option-cases,
}
use drakkar.Prelude.Int.{ℤ, pos, sub64}
use drakkar.Prelude.Bytes.{Bytes}
use drakkar.Prelude.Slices.{slice}
use drakkar.Stream.RangeMap.{SegmentRange, SegmentSpan}
use drakkar.Stream.DirectReader.{
  DirectNzbReader, realigned, realign_spans, FetchReply, fetched, refused,
}

-- What a span says of its segment.
abbrev pub Key : Type 0
Key = Bytes × ℤ × ℤ

abbrev pub key : SegmentSpan → Key
key s = (s.message_id, s.start, s.end)

abbrev pub keys : List SegmentSpan → List Key
keys [] = []
keys (s ∷ ss) = key s ∷ keys ss

-- The segment holds the bytes of the content from one offset to another; `part_of` tells where the
-- article of a message id begins and how long it is.
abbrev pub IsTrue : (Bytes → Option (ℕ × ℕ)) → Bytes → Key → Type 0
IsTrue part_of content (id, start, end) =
    (a : ℕ) × (n : ℕ) × (part_of id ≡ some (a, n))
    × (start ≡ pos a)
    × (end ≡ pos (a + n))
    × (a + n ≤ length content)

-- The reply to a request for bytes from `x` on: bytes of the content from there on, and the segment
-- as it is known.
abbrev pub IsPart {ℓ} : {E : Type ℓ} → Bytes → SegmentRange → ℕ → FetchReply E → Type 0
IsPart content rq x (refused e) = Unit
IsPart content rq x (fetched block none) = block ≡ slice x (length block) content
IsPart content rq x (fetched block (some s)) =
    (block ≡ slice x (length block) content)
    × (key s ≡ (rq.message_id, rq.segment_start, rq.segment_end))

abbrev pub IsFaithful {ℓ ℓ'} :
    {W : Type ℓ} {E : Type ℓ'}
    → (Bytes → Option (ℕ × ℕ))
    → Bytes
    → (SegmentRange → W → FetchReply E × W)
    → Type ℓ
IsFaithful {W = W} part_of content fetch =
    (rq : SegmentRange) (w : W) (a n x y : ℕ)
    → part_of rq.message_id ≡ some (a, n)
    → rq.segment_start ≡ pos a
    → rq.segment_end ≡ pos (a + n)
    → a + n ≤ length content
    → rq.range_start ≡ pos x
    → rq.range_end ≡ pos y
    → a ≤ x
    → x < y
    → y ≤ a + n
    → IsPart content rq x (fetch rq w).0

-- The reply is an error, or a block that is not empty.
abbrev pub IsUseful {ℓ} : {E : Type ℓ} → FetchReply E → Type 0
IsUseful (refused e) = Unit
IsUseful (fetched block info) = 0 < length block

-- The fetcher gives such a reply wherever a part of a segment is asked for that is not empty.
abbrev pub IsGiving {ℓ ℓ'} :
    {W : Type ℓ} {E : Type ℓ'}
    → (Bytes → Option (ℕ × ℕ))
    → Bytes
    → (SegmentRange → W → FetchReply E × W)
    → Type ℓ
IsGiving {W = W} part_of content fetch =
    (rq : SegmentRange) (w : W) (a n x y : ℕ)
    → part_of rq.message_id ≡ some (a, n)
    → rq.segment_start ≡ pos a
    → rq.segment_end ≡ pos (a + n)
    → a + n ≤ length content
    → rq.range_start ≡ pos x
    → rq.range_end ≡ pos y
    → a ≤ x
    → x < y
    → y ≤ a + n
    → IsUseful (fetch rq w).0

pub get_elem?-keys :
    (spans : List SegmentSpan) (i : ℕ) (s : SegmentSpan)
    → get_elem? spans i ≡ some s
    → get_elem? (keys spans) i ≡ some (key s)
get_elem?-keys [] i s h = absurd cc
get_elem?-keys (x ∷ spans) zero s h = ground arith
get_elem?-keys (x ∷ spans) (suc i) s h = get_elem?-keys spans i s h

sub64_self : (a : ℤ) → sub64 a a ≡ pos 0
unfolding sub64
sub64_self a = ground arith

realigned-keys :
    (spans : List SegmentSpan) (i : ℕ) (actual : SegmentSpan)
    → get_elem? (keys spans) i ≡ some (key actual)
    → keys (realigned spans i actual) ≡ keys spans
unfolding realigned
realigned-keys [] i actual h = refl
realigned-keys (s ∷ spans) zero actual h =
    let e : key s ≡ key actual = ground arith in
    let e' : s.end ≡ actual.end = ap (λ k. k.2) e in
    let d : sub64 actual.end s.end ≡ pos 0 = rw e' (sub64_self actual.end) in
    rw d (ap (λ k. k ∷ keys spans) (sym e))
realigned-keys (s ∷ spans) (suc i) actual h = ap (λ l. key s ∷ l) (realigned-keys spans i actual h)

pub realign_spans-keys :
    (r : DirectNzbReader) (i : ℕ) (actual : SegmentSpan)
    → get_elem? (keys r.spans) i ≡ some (key actual)
    → keys (realign_spans r i actual).spans ≡ keys r.spans
unfolding realign_spans
realign_spans-keys r i actual h = elim (Option-cases (get_elem? r.spans i)) [
  | inl n ↦ rw (realign_spans, n) refl
  | inr (x, e) ↦ rw (realign_spans, e) (realigned-keys r.spans i actual h)
]
