-- ===== src/Tests/StoredRar.antt =====
-- A file of nine bytes in two volumes of an archive (internal/stream/stored_rar_reader.go).
use drakkar.Prelude.{
  ℕ, ◌+◌, ◌≤◌, ◌≡◌, refl, ap, true, false, Option, none, some, [], ◌∷◌, if◌then◌else◌, arith,
  length,
}
use drakkar.Prelude.Int.{pos, pos_part, ◌-ℤ◌, add64, sub64}
use drakkar.Prelude.Bytes.{Bytes, codes, bytes_eq}
use drakkar.Prelude.Slices.{slice}
use drakkar.Yenc.Header.{PartInfo, valid, decoded_start}
use drakkar.Stream.RangeMap.{SegmentSpan, search_loop, search, span_at}
use drakkar.Stream.RangeMap.Layout.{Layout}
use drakkar.Stream.StoredRar.{
  SpanState, realign_span, corrected_spans, corrected_length, available_bytes, find_stored_rar_span,
  starts_at_or_before, RarReadResult, request_end_of, rar_request, reported, too_short,
}
use drakkar.Stream.StoredRar.ReadAt.{
  rar_outside, rar_ended, take_rar_block, use_rar_block, take_rar_reply, fetch_rar_span,
  read_rar_span, rar_round, rar_loop, read_stored_rar_at,
}
use drakkar.Stream.StoredRar.Places.{IsTrueState}
use drakkar.Stream.StoredRar.Realign.{IsCorrectable, realign_span-Layout}
use drakkar.Nntp.ArticleSource.{priority_interactive}
use drakkar.Nntp.Fetcher.{
  DecodedReply, decoded, not_decoded, DecodedArticleSource, FetchError, ask_source, span_of,
  wildly_off, clip, use_article, forget, fetch_range_info_priority,
}
use drakkar.Nntp.Fetcher.Clip.{IsAnswer}
use drakkar.Nntp.Fetcher.Volumes.{read_stored_rar_at-fetched, read_stored_rar_at-ends}

abbrev content : Bytes
content = codes "hello wor"

-- The first article begins with a header of three bytes, the second one with two, and ends with data of
-- the archive.
abbrev article : Bytes → Option (ℕ × Bytes)
article id =
    if bytes_eq id (codes "a")
    then some (0, codes "RARhello")
    else if bytes_eq id (codes "b")
    then some (8, codes "XX wor!!")
    else none

abbrev first_volume : SegmentSpan
first_volume = record {
  segment_id = pos 0;
  message_id = codes "a";
  start = pos 0;
  end = pos 5;
  decoded_start = pos 0;
  segment_byte_start = pos 3;
  entry_truncated = false;
}

abbrev second_volume : SegmentSpan
second_volume = record {
  segment_id = pos 1;
  message_id = codes "b";
  start = pos 5;
  end = pos 9;
  decoded_start = pos 8;
  segment_byte_start = pos 2;
  entry_truncated = true;
}

abbrev state : SpanState
state = record {
  spans = first_volume ∷ second_volume ∷ [];
  size = pos 9;
  version = 0;
  layout_valid = true;
}

state-Layout : Layout (pos 0) state.spans (pos 9)
state-Layout = (refl, omega arith, (refl, omega arith, refl))

-- The first article turns out to have seven bytes.
abbrev shorter : SegmentSpan
shorter = record first_volume { start = pos 0; end = pos 7 }

first_volume-IsCorrectable : IsCorrectable (pos 0) shorter 9 first_volume
unfolding corrected_length available_bytes sub64
first_volume-IsCorrectable e = (omega arith, omega arith)

second_volume-IsCorrectable : IsCorrectable (pos 0) shorter 9 second_volume
second_volume-IsCorrectable e = absurd (let z = ap pos_part e in omega arith)

realign_span-Layout_example :
    ((realign_span state (pos 0) shorter).0.layout_valid ≡ true)
    × Layout
        (pos 0)
        (realign_span state (pos 0) shorter).0.spans
        (realign_span state (pos 0) shorter).0.size
realign_span-Layout_example =
    realign_span-Layout state (pos 0) shorter 9 9 refl refl (omega arith) state-Layout (omega arith)
      (first_volume-IsCorrectable, (second_volume-IsCorrectable, tt))

abbrev info : ℕ → ℕ → PartInfo
info d n = record { total_size = pos 16; begin = pos (d + 1); end = pos (d + n) }

abbrev answer : Option (ℕ × Bytes) → DecodedReply ℕ
answer none = not_decoded 430
answer (some (d, body)) = decoded body (info d (length body))

-- A server that counts the requests.
abbrev server : DecodedArticleSource ℕ ℕ
server = record {
  decoded_body = λ id w. (answer (article id), w + 1);
  decoded_body_priority = none;
  decoded_body_info = some (λ id w. (answer (article id), w + 1));
  decoded_body_info_priority = none;
  invalidate_cached = none;
}

info-decoded_start : (d n : ℕ) → valid (info d n) ≡ true → decoded_start (info d n) ≡ pos d
unfolding decoded_start valid ◌-ℤ◌
info-decoded_start d n h = ground arith

server-IsAnswer :
    (id : Bytes) (w d : ℕ) (body : Bytes)
    → article id ≡ some (d, body)
    → IsAnswer body d (ask_source server id priority_interactive w).0
unfolding ask_source
server-IsAnswer id w d body h = rw h (refl, info-decoded_start d (length body))

state-IsTrueState : IsTrueState article content state
unfolding bytes_eq
state-IsTrueState = record {
  spans = (
    record {
      body = codes "RARhello";
      at = 0;
      width = 5;
      skip = 3;
      from = 0;
      known = refl;
      starts = refl;
      ends = refl;
      skips = refl;
      begins = refl;
      inside = omega arith;
      same = refl;
      whole = λ e. refl;
      fits = omega arith;
      fits_file = omega arith;
    },
    (
      record {
        body = codes "XX wor!!";
        at = 5;
        width = 4;
        skip = 2;
        from = 8;
        known = refl;
        starts = refl;
        ends = refl;
        skips = refl;
        begins = refl;
        inside = omega arith;
        same = refl;
        whole = λ e. absurd cc;
        fits = omega arith;
        fits_file = omega arith;
      },
      tt,
    ),
  );
  size = omega arith;
}

-- The last bytes of the first volume and the first ones of the second.
abbrev result : RarReadResult (FetchError ℕ)
result = record { bytes = codes "llo w"; error = none }

reads :
    read_stored_rar_at
      (fetch_range_info_priority server priority_interactive)
      (λ w s. s)
      3
      state
      5
      (pos 2)
      0
    ≡ some result
unfolding read_stored_rar_at rar_loop rar_round read_rar_span fetch_rar_span take_rar_reply
    use_rar_block take_rar_block realign_span corrected_spans corrected_length too_short
    available_bytes reported find_stored_rar_span starts_at_or_before search search_loop span_at
    request_end_of rar_request rar_ended rar_outside add64 sub64 ◌-ℤ◌ bytes_eq
    fetch_range_info_priority forget use_article clip wildly_off span_of ask_source valid
    decoded_start
reads = refl

read_stored_rar_at-fetched_example :
    (result.bytes ≡ slice 2 (length result.bytes) content)
    × (length result.bytes ≤ 5)
    × (result.error ≡ none → length result.bytes ≡ 5)
read_stored_rar_at-fetched_example =
    read_stored_rar_at-fetched article content server priority_interactive server-IsAnswer
      (λ w s. s) 3 state 5 2 0 result (λ w s t. t) state-IsTrueState (omega arith) reads

read_stored_rar_at-ends_example :
    (res : RarReadResult (FetchError ℕ)) × (read_stored_rar_at
        (fetch_range_info_priority server priority_interactive)
        (λ w s. s)
        6
        state
        5
        (pos 2)
        0
      ≡ some res)
    × (res.bytes ≡ slice 2 (length res.bytes) content)
    × (res.error ≡ none → length res.bytes ≡ 5)
read_stored_rar_at-ends_example =
    read_stored_rar_at-ends article content server priority_interactive server-IsAnswer (λ w s. s) 6
      state 5 2 0 (λ w s t. t) (λ w s. refl) state-IsTrueState (omega arith) (omega arith)
