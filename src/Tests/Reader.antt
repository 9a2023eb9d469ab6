-- ===== src/Tests/Reader.antt =====
-- The reader of a file of two segments (internal/stream/direct_reader.go).
use drakkar.Prelude.{ℕ, ◌+◌, ◌≡◌, refl, false, none, some, [], ◌∷◌, arith, replicate}
use drakkar.Prelude.Int.{pos, pos_part, ◌+ℤ◌, ◌-ℤ◌, add64, sub64}
use drakkar.Prelude.Bytes.{codes}
use drakkar.Stream.RangeMap.{SegmentRange, SegmentSpan, search_loop, search, span_at}
use drakkar.Stream.DirectReader.{
  DirectNzbReader, starts_before, find_span, span_unchanged, shift_spans, realigned, last_end,
  realign_spans, ReadResult, request, outside, ended, FetchReply, fetched, actual_span, take_block,
  take_reply, read_span, read_round, read_loop, read_at,
}
use drakkar.Stream.DirectReader.Reads.{IsRead, read_at-IsRead}

abbrev first_half : SegmentSpan
first_half = record {
  segment_id = pos 1;
  message_id = codes "a";
  start = pos 0;
  end = pos 4;
  decoded_start = pos 0;
  segment_byte_start = pos 0;
  entry_truncated = false;
}

abbrev second_half : SegmentSpan
second_half = record first_half { segment_id = pos 2; start = pos 4; end = pos 9 }

abbrev reader : DirectNzbReader
reader = record { size = pos 9; spans = first_half ∷ second_half ∷ [] }

-- A fetcher that gives as many bytes as are asked for.
abbrev give : SegmentRange → ℕ → FetchReply ℕ × ℕ
give r w = (fetched (replicate (pos_part (r.range_end -ℤ r.range_start)) w) none, w + 1)

-- The last bytes of the first half and the first ones of the second.
abbrev result : ReadResult ℕ
result = record { bytes = 1 ∷ 1 ∷ 2 ∷ []; error = none }

reads : read_at give (λ w r. r) 3 reader 3 (pos 2) 1 ≡ some result
unfolding read_at read_loop read_round read_span take_reply take_block find_span search search_loop
    span_at starts_before span_unchanged realign_spans realigned shift_spans last_end request
    outside ended actual_span add64 sub64 ◌+ℤ◌ ◌-ℤ◌
reads = refl

read_at-IsRead_example : IsRead 3 result
read_at-IsRead_example =
    read_at-IsRead give (λ w r. r) 3 reader 3 2 1 result (omega arith) (omega arith) reads
