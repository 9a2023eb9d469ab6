-- ===== src/Stream/StoredRar/ReadAt.antt =====
-- ReadAt of internal/stream/stored_rar_reader.go, one round of its loop at a time.
use drakkar.Prelude.{
  ℕ, zero, suc, ◌+◌, ◌&&◌, ◌||◌, not, Option, none, some, [], ◌∷◌, ◌++◌, length, take, ltb, ◌==◌,
  if◌then◌else◌,
}
use drakkar.Prelude.Int.{ℤ, pos, pos_part, ltb_ℤ, leb_ℤ, add64, sub64, min_ℤ}
use drakkar.Prelude.Bytes.{Bytes}
use drakkar.Stream.RangeMap.{SegmentRange, SegmentSpan}
use drakkar.Stream.DirectReader.{FetchReply, fetched, refused}
use drakkar.Stream.StoredRar.{
  SpanState, realign_span, find_stored_rar_span, layout_invalid, range_outside_file, eof,
  short_fetch, fetch_error, RarReadResult, RarReadState, request_end_of, rar_request, reported,
  too_short,
}

-- The error where no span holds the position.
unfoldable pub rar_outside {ℓ} : {E : Type ℓ} → Bytes → RarReadResult E
rar_outside [] = record { bytes = []; error = some range_outside_file }
rar_outside (b ∷ bs) = record { bytes = b ∷ bs; error = some eof }

-- What stands behind the loop.
unfoldable pub rar_ended {ℓ} : {E : Type ℓ} → ℕ → Bytes → RarReadResult E
rar_ended wanted out = record {
  bytes = out;
  error = if ltb (length out) wanted then some eof else none;
}

module _ {ℓ ℓ'} {W : Type ℓ} {E : Type ℓ'} where
  -- What follows the corrections: the block is used up to the expected length.
  unfoldable pub take_rar_block :
      RarReadState W → ℕ → Bytes → RarReadState W × Option (RarReadResult E)
  take_rar_block st expected block =
      let waiting = record st { empty_count = st.empty_count + 1 } in
      if ltb (length block) expected
      then if length block == 0
        then if ltb 5 waiting.empty_count || leb_ℤ st.shared.size st.current
          then (waiting, some (record { bytes = st.out; error = some eof }))
          else (waiting, none)
        else (st, some (record { bytes = st.out; error = some short_fetch }))
      else (
        record st {
          empty_count = 0;
          out = st.out ++ take expected block;
          current = add64 st.current (pos expected);
        },
        none,
      )

  -- A block that is too short starts a new round where the span was corrected; one that is as long as
  -- expected may show that the span is too short.
  unfoldable pub use_rar_block :
      RarReadState W
      → SegmentSpan
      → ℤ
      → Bytes
      → Option SegmentSpan
      → RarReadState W × Option (RarReadResult E)
  unfolding take_rar_block realign_span too_short sub64
  use_rar_block st span request_end block none =
      take_rar_block st (pos_part (sub64 request_end st.current)) block
  use_rar_block st span request_end block (some actual) =
      let expected = pos_part (sub64 request_end st.current) in
      let (corrected, changed) = realign_span st.shared span.segment_id actual in
      let st' = record st { shared = corrected } in
      if ltb (length block) expected
      then if changed || not (corrected.version == st.shared.version)
        then (st', none)
        else take_rar_block st' expected block
      else if (length block == expected) && too_short span request_end actual
      then take_rar_block st' expected block
      else take_rar_block st expected block

  -- Another version of the state starts a new round.
  unfoldable pub take_rar_reply :
      RarReadState W → SegmentSpan → ℤ → FetchReply E → RarReadState W × Option (RarReadResult E)
  unfolding use_rar_block reported
  take_rar_reply st span request_end (refused e) =
      (st, some (record { bytes = st.out; error = some (fetch_error e) }))
  take_rar_reply st span request_end (fetched block info) =
      use_rar_block st span request_end block (reported info)

module _ {ℓ ℓ'} {W : Type ℓ} {E : Type ℓ'} (fetch : SegmentRange → W → FetchReply E × W)
    (others : W → SpanState → SpanState) where
  unfoldable pub fetch_rar_span :
      RarReadState W → SegmentSpan → ℤ → RarReadState W × Option (RarReadResult E)
  unfolding take_rar_reply rar_request
  fetch_rar_span st span request_end =
      let (reply, w) = fetch (rar_request span st.current request_end) st.world in
      let st' = record st { world = w; shared = others w st.shared } in
      if not (st'.shared.version == st.shared.version)
      then (st', none)
      else take_rar_reply st' span request_end reply

  unfoldable pub read_rar_span :
      RarReadState W → ℤ → Option SegmentSpan → RarReadState W × Option (RarReadResult E)
  unfolding fetch_rar_span request_end_of rar_outside
  read_rar_span st len none = (st, some (rar_outside st.out))
  read_rar_span st len (some span) =
      fetch_rar_span st span (request_end_of st.shared span len st.current (length st.out))

  unfoldable pub rar_round : ℕ → ℤ → RarReadState W → RarReadState W × Option (RarReadResult E)
  unfolding read_rar_span find_stored_rar_span rar_ended
  rar_round wanted len st =
      if leb_ℤ len (pos (length st.out))
      then (st, some (rar_ended wanted st.out))
      else if not st.shared.layout_valid
      then (st, some (record { bytes = st.out; error = some layout_invalid }))
      else if leb_ℤ st.shared.size st.current
      then (st, some (rar_ended wanted st.out))
      else read_rar_span st len (find_stored_rar_span st.shared.spans st.current)

  unfoldable pub rar_loop : ℕ → ℕ → ℤ → RarReadState W → Option (RarReadResult E)
  unfolding rar_round
  rar_loop zero wanted len st = none
  rar_loop (suc fuel) wanted len st =
      let (st', o) = rar_round wanted len st in
      elim o [ some r ↦ some r | none ↦ rar_loop fuel wanted len st' ]

  -- ReadAt with a buffer of `wanted` bytes.
  unfoldable pub read_stored_rar_at : ℕ → SpanState → ℕ → ℤ → W → Option (RarReadResult E)
  unfolding rar_loop sub64
  read_stored_rar_at fuel state wanted offset w =
      if not state.layout_valid
      then some (record { bytes = []; error = some layout_invalid })
      else if ltb_ℤ offset (pos 0)
      then some (record { bytes = []; error = some range_outside_file })
      else if leb_ℤ state.size offset
      then some (record { bytes = []; error = some eof })
      else rar_loop fuel wanted (min_ℤ (pos wanted) (sub64 state.size offset))
          (record { shared = state; out = []; current = offset; empty_count = 0; world = w })
