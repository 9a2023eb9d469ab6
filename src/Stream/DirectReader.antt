-- ===== src/Stream/DirectReader.antt =====
-- internal/stream/direct_reader.go: reading a file that is spread over the segments of an NZB. `W` is
-- the world of the fetcher, and `others` is what other calls do to the shared reader while a fetch
-- runs. One round of the loop of ReadAt is `read_round`. The loop is on fuel and gives `none` where
-- the fuel is used up; what other calls do may keep it going for ever, in the source as well.
pub mod Spans
pub mod Reads
pub mod Progress
pub mod Places
pub mod Content
use drakkar.Prelude.{
  ℕ, zero, suc, ◌+◌, ◌-◌, Bool, true, false, ◌&&◌, ◌||◌, not, Option, none, some, List, [], ◌∷◌,
  ◌++◌, length, get_elem?, take, ltb, leb, ◌==◌, if◌then◌else◌,
}
use drakkar.Prelude.Int.{ℤ, pos, pos_part, ltb_ℤ, leb_ℤ, eqb_ℤ, add64, sub64, min_ℤ}
use drakkar.Prelude.Bytes.{Bytes}
use drakkar.Stream.RangeMap.{SegmentRange, SegmentSpan, search, span_at}

pub record DirectNzbReader : Type 0 where
  pub size : ℤ
  pub spans : List SegmentSpan

unfoldable pub new_direct_nzb_reader : ℤ → List SegmentSpan → DirectNzbReader
new_direct_nzb_reader size spans = record { size = size; spans = spans }

-- spans[i], where it starts at or before the offset.
unfoldable pub starts_before : ℤ → ℕ → Option SegmentSpan → Option (SegmentSpan × ℕ)
starts_before offset i none = none
starts_before offset i (some s) = if leb_ℤ s.start offset then some (s, i) else none

unfoldable pub find_span : DirectNzbReader → ℤ → Option (SegmentSpan × ℕ)
unfolding search span_at starts_before
find_span r offset =
    let i = search (length r.spans) (span_at (λ s. ltb_ℤ offset s.end) r.spans) in
    starts_before offset i (get_elem? r.spans i)

unfoldable pub span_unchanged : DirectNzbReader → ℕ → SegmentSpan → Bool
span_unchanged r index expected = elim (get_elem? r.spans index) [
  | none ↦ false
  | some s ↦ eqb_ℤ s.start expected.start && eqb_ℤ s.end expected.end
]

-- `r.spans[i].Start += delta; r.spans[i].End += delta` for all spans of the list.
unfoldable pub shift_spans : ℤ → List SegmentSpan → List SegmentSpan
unfolding add64
shift_spans delta [] = []
shift_spans delta (s ∷ ss) =
    record s { start = add64 s.start delta; end = add64 s.end delta } ∷ shift_spans delta ss

-- The spans with the one at the index replaced and those behind it shifted; where the shift is by 0
-- they stay.
unfoldable pub realigned : List SegmentSpan → ℕ → SegmentSpan → List SegmentSpan
unfolding shift_spans sub64
realigned [] index actual = []
realigned (old ∷ ss) zero actual =
    let delta = sub64 actual.end old.end in
    if eqb_ℤ delta (pos 0) then actual ∷ ss else actual ∷ shift_spans delta ss
realigned (s ∷ ss) (suc index) actual = s ∷ realigned ss index actual

-- The end of the last span.
unfoldable pub last_end : ℤ → List SegmentSpan → ℤ
last_end size [] = size
last_end size (s ∷ ss) = last_end s.end ss

-- The size stays where the shift is by 0.
unfoldable pub realign_spans : DirectNzbReader → ℕ → SegmentSpan → DirectNzbReader
unfolding realigned last_end sub64
realign_spans r index actual = elim (get_elem? r.spans index) [
  | none ↦ r
  | some old ↦ record {
    spans = realigned r.spans index actual;
    size =
        if eqb_ℤ (sub64 actual.end old.end) (pos 0)
        then r.size
        else last_end r.size (realigned r.spans index actual);
  }
]

-- The error of a read: the end of the file, a range outside of it, a short fetch, or the fetcher's.
pub data ReadError {ℓ} (E : Type ℓ) : Type ℓ where
  eof range_outside_file short_fetch : ReadError E
  fetch_error : E → ReadError E

-- What ReadAt gives: the bytes written to the buffer, and the error; `none` is nil.
pub record ReadResult {ℓ} (E : Type ℓ) : Type ℓ where
  pub bytes : Bytes
  pub error : Option (ReadError E)

unfoldable pub request : SegmentSpan → ℤ → ℤ → SegmentRange
request span current request_end = record {
  segment_id = span.segment_id;
  message_id = span.message_id;
  range_start = current;
  range_end = request_end;
  segment_start = span.start;
  segment_end = span.end;
  decoded_start = pos 0;
  segment_byte_start = pos 0;
}

-- The error where no span holds the position.
unfoldable pub outside {ℓ} : {E : Type ℓ} → Bytes → ReadResult E
outside [] = record { bytes = []; error = some range_outside_file }
outside (b ∷ bs) = record { bytes = b ∷ bs; error = some eof }

-- The end of ReadAt.
unfoldable pub ended {ℓ} : {E : Type ℓ} → ℕ → Bytes → ReadResult E
ended wanted out = record {
  bytes = out;
  error = if ltb (length out) wanted then some eof else none;
}

-- The variables of the loop.
pub record ReadState {ℓ} (W : Type ℓ) : Type ℓ where
  pub reader : DirectNzbReader
  pub out : Bytes
  pub current : ℤ
  pub empty_count : ℕ
  pub world : W

-- What the fetcher answers: the bytes with the bounds that it found, where it reports them
-- (FetchRangeInfo), or an error.
pub data FetchReply {ℓ} (E : Type ℓ) : Type ℓ where
  fetched : Bytes → Option SegmentSpan → FetchReply E
  refused : E → FetchReply E

unfoldable pub actual_span : SegmentSpan → Option SegmentSpan → SegmentSpan
actual_span span none = span
actual_span span (some actual) = actual

module _ {ℓ ℓ'} {W : Type ℓ} {E : Type ℓ'} (fetch : SegmentRange → W → FetchReply E × W)
    (others : W → DirectNzbReader → DirectNzbReader) where
  -- What follows the fetch once the spans are realigned.
  unfoldable pub take_block : ReadState W → ℤ → Bytes → ReadState W × Option (ReadResult E)
  take_block st request_end block =
      let expected = pos_part (sub64 request_end st.current) in
      let waiting = record st { empty_count = st.empty_count + 1 } in
      if length block == 0
      then if ltb 5 waiting.empty_count || leb_ℤ st.reader.size st.current
        then (waiting, some (record { bytes = st.out; error = some eof }))
        else (waiting, none)
      else if ltb (length block) expected
      then (st, some (record { bytes = st.out; error = some short_fetch }))
      else (
        record st {
          empty_count = 0;
          out = st.out ++ take expected block;
          current = add64 st.current (pos expected);
        },
        none,
      )

  unfoldable pub take_reply :
      ReadState W → SegmentSpan → ℕ → ℤ → FetchReply E × W → ReadState W × Option (ReadResult E)
  unfolding take_block span_unchanged realign_spans actual_span
  take_reply st span index request_end (refused e, w) =
      (record st { world = w }, some (record { bytes = st.out; error = some (fetch_error e) }))
  take_reply st span index request_end (fetched block info, w) =
      let shared = others w st.reader in
      let st' = record st {
        world = w;
        reader = realign_spans shared index (actual_span span info);
      } in
      if span_unchanged shared index span then take_block st' request_end block else (st', none)

  -- One round, after the tests of the loop; the end of the request is `offset + length`.
  unfoldable pub read_span :
      ReadState W → ℤ → Option (SegmentSpan × ℕ) → ReadState W × Option (ReadResult E)
  unfolding take_reply request outside
  read_span st final_end none = (st, some (outside st.out))
  read_span st final_end (some (span, index)) =
      let request_end = min_ℤ span.end final_end in
      take_reply st span index request_end (fetch (request span st.current request_end) st.world)

  unfoldable pub read_round : ℕ → ℤ → ℤ → ReadState W → ReadState W × Option (ReadResult E)
  unfolding read_span find_span ended
  read_round wanted len final_end st =
      if leb_ℤ len (pos (length st.out)) || leb_ℤ st.reader.size st.current
      then (st, some (ended wanted st.out))
      else read_span st final_end (find_span st.reader st.current)

  unfoldable pub read_loop : ℕ → ℕ → ℤ → ℤ → ReadState W → Option (ReadResult E)
  unfolding read_round
  read_loop zero wanted len final_end st = none
  read_loop (suc fuel) wanted len final_end st =
      let (st', o) = read_round wanted len final_end st in
      elim o [ some r ↦ some r | none ↦ read_loop fuel wanted len final_end st' ]

  -- ReadAt with a buffer of `wanted` bytes.
  unfoldable pub read_at : ℕ → DirectNzbReader → ℕ → ℤ → W → Option (ReadResult E)
  unfolding read_loop
  read_at fuel r wanted offset w =
      let len =
        if ltb_ℤ r.size (add64 offset (pos wanted)) then sub64 r.size offset else pos wanted in
      if leb_ℤ r.size offset
      then some (record { bytes = []; error = some eof })
      else read_loop fuel wanted len (add64 offset len)
          (record { reader = r; out = []; current = offset; empty_count = 0; world = w })
