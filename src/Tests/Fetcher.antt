-- ===== src/Tests/Fetcher.antt =====
-- A read of a file of two articles through the fetcher (internal/nntp/fetcher.go,
-- internal/stream/direct_reader.go).
use drakkar.Prelude.{
  ℕ, ◌+◌, ◌≡◌, refl, true, false, Option, none, some, [], ◌∷◌, if◌then◌else◌, arith, All, length,
}
use drakkar.Prelude.Int.{pos, ◌-ℤ◌, add64, sub64}
use drakkar.Prelude.Bytes.{Bytes, codes, bytes_eq}
use drakkar.Prelude.Slices.{slice}
use drakkar.Yenc.Header.{PartInfo, valid, decoded_start}
use drakkar.Stream.RangeMap.{SegmentRange, SegmentSpan, search_loop, search, span_at}
use drakkar.Stream.DirectReader.{
  DirectNzbReader, starts_before, find_span, span_unchanged, shift_spans, realigned, last_end,
  realign_spans, ReadResult, request, outside, ended, actual_span, take_block, take_reply,
  read_span, read_round, read_loop, read_at,
}
use drakkar.Stream.DirectReader.Places.{keys, IsTrue, IsPart}
use drakkar.Stream.DirectReader.Content.{read_at-content}
use drakkar.Nntp.ArticleSource.{priority_interactive}
use drakkar.Nntp.Fetcher.{
  DecodedReply, decoded, not_decoded, DecodedArticleSource, FetchError, ask_source, span_of,
  wildly_off, clip, use_article, forget, fetch_range_info_priority,
}
use drakkar.Nntp.Fetcher.Clip.{IsArticleOf, fetch_range_info_priority-IsPart}
use drakkar.Nntp.Fetcher.Reads.{read_at-fetched, read_at-ends}

abbrev content : Bytes
content = codes "hello wor"

-- Two articles, of four and of five bytes.
abbrev part_of : Bytes → Option (ℕ × ℕ)
part_of id =
    if bytes_eq id (codes "a")
    then some (0, 4)
    else if bytes_eq id (codes "b")
    then some (4, 5)
    else none

abbrev first_half : SegmentSpan
first_half = record {
  segment_id = pos 1;
  message_id = codes "a";
  start = pos 0;
  end = pos 4;
  decoded_start = pos 0;
  segment_byte_start = pos 0;
  entry_truncated = false;
}

abbrev second_half : SegmentSpan
second_half = record first_half {
  segment_id = pos 2;
  message_id = codes "b";
  start = pos 4;
  end = pos 9;
}

abbrev reader : DirectNzbReader
reader = record { size = pos 9; spans = first_half ∷ second_half ∷ [] }

abbrev info : ℕ → ℕ → PartInfo
info a n = record { total_size = pos 9; begin = pos (a + 1); end = pos (a + n) }

abbrev article : Option (ℕ × ℕ) → DecodedReply ℕ
article none = not_decoded 430
article (some (a, n)) = decoded (slice a n content) (info a n)

-- A server that counts the requests.
abbrev server : DecodedArticleSource ℕ ℕ
server = record {
  decoded_body = λ id w. (article (part_of id), w + 1);
  decoded_body_priority = none;
  decoded_body_info = some (λ id w. (article (part_of id), w + 1));
  decoded_body_info_priority = none;
  invalidate_cached = none;
}

info-decoded_start : (a n : ℕ) → valid (info a n) ≡ true → decoded_start (info a n) ≡ pos a
unfolding decoded_start valid ◌-ℤ◌
info-decoded_start a n h = ground arith

server-IsArticleOf :
    (id : Bytes) (w a n : ℕ)
    → part_of id ≡ some (a, n)
    → IsArticleOf content a n (ask_source server id priority_interactive w).0
unfolding ask_source
server-IsArticleOf id w a n h = rw h (refl, info-decoded_start a n)

reader_spans-IsTrue : All (IsTrue part_of content) (keys reader.spans)
unfolding bytes_eq
reader_spans-IsTrue =
    ((0, 4, refl, refl, refl, omega arith), ((4, 5, refl, refl, refl, omega arith), tt))

-- The last bytes of the first article and the first ones of the second.
abbrev result : ReadResult (FetchError ℕ)
result = record { bytes = codes "llo"; error = none }

reads :
    read_at (fetch_range_info_priority server priority_interactive) (λ w r. r) 3 reader 3 (pos 2) 0
    ≡ some result
unfolding read_at read_loop read_round read_span take_reply take_block find_span search search_loop
    span_at starts_before span_unchanged realign_spans realigned shift_spans last_end request
    outside ended actual_span add64 sub64 ◌-ℤ◌ fetch_range_info_priority forget use_article clip
    wildly_off span_of ask_source valid decoded_start bytes_eq
reads = refl

read_at-fetched_example :
    (result.bytes ≡ slice 2 (length result.bytes) content)
    × (result.error ≡ none → result.bytes ≡ slice 2 3 content)
read_at-fetched_example =
    read_at-fetched part_of content server priority_interactive (λ w r. r) 3 reader 3 2 0 result
      (omega arith) server-IsArticleOf (λ w r. refl) reader_spans-IsTrue (omega arith) (omega arith)
      reads

read_at-ends_example :
    (res : ReadResult (FetchError ℕ)) × (read_at
        (fetch_range_info_priority server priority_interactive)
        (λ w r. r)
        4
        reader
        3
        (pos 2)
        0
      ≡ some res)
    × (res.bytes ≡ slice 2 (length res.bytes) content)
    × (res.error ≡ none → res.bytes ≡ slice 2 3 content)
read_at-ends_example =
    read_at-ends part_of content server priority_interactive 4 reader 3 2 0 (omega arith)
      server-IsArticleOf reader_spans-IsTrue (omega arith) (omega arith) (omega arith)

abbrev tail_request : SegmentRange
tail_request = record {
  segment_id = pos 2;
  message_id = codes "b";
  range_start = pos 5;
  range_end = pos 7;
  segment_start = pos 4;
  segment_end = pos 9;
  decoded_start = pos 0;
  segment_byte_start = pos 0;
}

fetch_range_info_priority-IsPart_example :
    IsPart content tail_request 5
      (fetch_range_info_priority server priority_interactive tail_request 0).0
unfolding bytes_eq
fetch_range_info_priority-IsPart_example =
    fetch_range_info_priority-IsPart content server priority_interactive tail_request 0 4 5 5 7
      (omega arith) (server-IsArticleOf (codes "b") 0 4 5 refl) refl refl (omega arith) refl refl
      (omega arith) (omega arith) (omega arith)

read_at-content_example : result.bytes ≡ slice 2 (length result.bytes) content
read_at-content_example =
    read_at-content (fetch_range_info_priority server priority_interactive) (λ w r. r) part_of
      content 3 reader 3 2 0 result (λ w r. refl)
      (λ rq w a n x y k.
        fetch_range_info_priority-IsPart content server priority_interactive rq w a n x y
          (omega arith) (server-IsArticleOf rq.message_id w a n k))
      reader_spans-IsTrue (omega arith) (omega arith) reads
