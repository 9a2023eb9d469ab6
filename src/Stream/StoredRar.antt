-- ===== src/Stream/StoredRar.antt =====
-- internal/stream/stored_rar_reader.go: reading a file that is stored without compression inside of the
-- volumes of an archive. `W` is the world of the fetcher, and `others` is what other calls do to the
-- published state while a fetch runs; what follows the fetch in the round is one step. The loop is on
-- fuel and gives `none` where the fuel is used up. The sessions, which forward to the read-ahead
-- manager, are left out.
pub mod Valid
pub mod Realign
pub mod ReadAt
pub mod Places
pub mod Blocks
pub mod Rounds
pub mod Content
use drakkar.Prelude.{
  ℕ, zero, suc, ◌+◌, ◌-◌, ◌^◌, ◌%◌, Bool, true, false, ◌&&◌, ◌||◌, not, Option, none, some, List,
  [], ◌∷◌, ◌++◌, length, get_elem?, take, ltb, leb, ◌==◌, if◌then◌else◌,
}
use drakkar.Prelude.Int.{ℤ, pos, pos_part, ltb_ℤ, leb_ℤ, eqb_ℤ, add64, sub64, min_ℤ}
use drakkar.Prelude.Bytes.{Bytes}
use drakkar.Stream.RangeMap.{SegmentRange, SegmentSpan, search, span_at}
use drakkar.Stream.DirectReader.{FetchReply, fetched, refused, shift_spans, last_end}

-- storedRarSpanState; the version is a uint64.
pub record SpanState : Type 0 where
  pub spans : List SegmentSpan
  pub size : ℤ
  pub version : ℕ
  pub layout_valid : Bool

-- The loop of validateStoredRarSpans; the two results are a nil error and ErrStoredRarLayoutInvalid.
unfoldable pub validate_loop : List SegmentSpan → ℤ → ℤ → Bool
validate_loop [] expected_start size = eqb_ℤ expected_start size
validate_loop (s ∷ ss) expected_start size =
    let rest = validate_loop ss s.end size in
    if not (eqb_ℤ s.start expected_start) || leb_ℤ s.end s.start then false else rest

unfoldable pub validate_stored_rar_spans : List SegmentSpan → ℤ → Bool
unfolding validate_loop
validate_stored_rar_spans spans size =
    if ltb_ℤ size (pos 0)
    then false
    else if eqb_ℤ size (pos 0)
    then true
    else if length spans == 0
    then false
    else validate_loop spans (pos 0) size

-- The state that NewStoredRarReader publishes.
unfoldable pub new_stored_rar_reader : ℤ → List SegmentSpan → SpanState
unfolding validate_stored_rar_spans
new_stored_rar_reader size spans = record {
  spans = spans;
  size = size;
  version = 0;
  layout_valid = validate_stored_rar_spans spans size;
}

-- The bytes of the segment behind the header of the volume.
unfoldable pub available_bytes : SegmentSpan → SegmentSpan → ℤ
unfolding sub64
available_bytes old actual = sub64 (sub64 actual.end actual.start) old.segment_byte_start

unfoldable pub corrected_length : SegmentSpan → SegmentSpan → ℤ
unfolding available_bytes
corrected_length old actual =
    let n = available_bytes old actual in if ltb_ℤ n (pos 0) then pos 0 else n

-- The first span of the segment and those behind it: `none` where there is no such span, and
-- `some none` where there is nothing to correct.
unfoldable pub corrected_spans :
    List SegmentSpan → ℤ → SegmentSpan → Option (Option (List SegmentSpan))
unfolding corrected_length shift_spans add64 sub64
corrected_spans [] segment_id actual = none
corrected_spans (old ∷ ss) segment_id actual =
    let rest = corrected_spans ss segment_id actual in
    let len = corrected_length old actual in
    let new_end = add64 old.start len in
    let delta = sub64 new_end old.end in
    let new = record old { decoded_start = actual.start; end = new_end } in
    if eqb_ℤ old.segment_id segment_id
    then if eqb_ℤ old.decoded_start actual.start && eqb_ℤ (sub64 old.end old.start) len
      then some none
      else some (some (new ∷ (if eqb_ℤ delta (pos 0) then ss else shift_spans delta ss)))
    else elim rest [
      | none ↦ none
      | some none ↦ some none
      | some (some ss') ↦ some (some (old ∷ ss'))
    ]

unfoldable pub publish : SpanState → List SegmentSpan → SpanState
unfolding validate_stored_rar_spans last_end
publish state spans =
    let size = last_end (pos 0) spans in
    record {
      spans = spans;
      size = size;
      version = (state.version + 1) % 2 ^ 64;
      layout_valid = validate_stored_rar_spans spans size;
    }

unfoldable pub realign_span : SpanState → ℤ → SegmentSpan → SpanState × Bool
unfolding corrected_spans publish
realign_span state segment_id actual = elim (corrected_spans state.spans segment_id actual) [
  | none ↦ (state, false)
  | some none ↦ (state, false)
  | some (some spans) ↦ (publish state spans, true)
]

-- spans[i], where it starts at or before the offset.
unfoldable pub starts_at_or_before : ℤ → Option SegmentSpan → Option SegmentSpan
starts_at_or_before offset none = none
starts_at_or_before offset (some s) = if leb_ℤ s.start offset then some s else none

unfoldable pub find_stored_rar_span : List SegmentSpan → ℤ → Option SegmentSpan
unfolding search span_at starts_at_or_before
find_stored_rar_span spans offset =
    starts_at_or_before offset
      (get_elem? spans (search (length spans) (span_at (λ s. ltb_ℤ offset s.end) spans)))

pub data RarReadError {ℓ} (E : Type ℓ) : Type ℓ where
  layout_invalid range_outside_file eof short_fetch : RarReadError E
  fetch_error : E → RarReadError E

-- What ReadAt gives: the bytes written to the buffer, and the error; `none` is nil.
pub record RarReadResult {ℓ} (E : Type ℓ) : Type ℓ where
  pub bytes : Bytes
  pub error : Option (RarReadError E)

-- The variables of the loop.
pub record RarReadState {ℓ} (W : Type ℓ) : Type ℓ where
  pub shared : SpanState
  pub out : Bytes
  pub current : ℤ
  pub empty_count : ℕ
  pub world : W

-- requestEnd, for `len` bytes in all of which `out` are written.
unfoldable pub request_end_of : SpanState → SegmentSpan → ℤ → ℤ → ℕ → ℤ
unfolding add64 sub64
request_end_of state span len current written =
    let remaining = min_ℤ (sub64 len (pos written)) (sub64 state.size current) in
    min_ℤ span.end (add64 current remaining)

-- The request, in the positions of the decoded segment.
unfoldable pub rar_request : SegmentSpan → ℤ → ℤ → SegmentRange
unfolding add64 sub64
rar_request span current request_end =
    let segment_offset = add64 span.segment_byte_start (sub64 current span.start) in
    record {
      segment_id = span.segment_id;
      message_id = span.message_id;
      range_start = add64 span.decoded_start segment_offset;
      range_end = add64 (add64 span.decoded_start segment_offset) (sub64 request_end current);
      segment_start = span.decoded_start;
      segment_end =
          add64 (add64 span.decoded_start (sub64 span.end span.start)) span.segment_byte_start;
      decoded_start = pos 0;
      segment_byte_start = pos 0;
    }

-- The bounds that a fetcher reports, unless they carry no message id.
unfoldable pub reported : Option SegmentSpan → Option SegmentSpan
reported none = none
reported (some actual) = if length actual.message_id == 0 then none else some actual

-- The segment has more bytes than the span has, which is not because the entry ends there.
unfoldable pub too_short : SegmentSpan → ℤ → SegmentSpan → Bool
unfolding available_bytes sub64
too_short span request_end actual =
    eqb_ℤ request_end span.end
    && (not span.entry_truncated && ltb_ℤ (sub64 span.end span.start) (available_bytes span actual))
