-- ===== src/Nntp/Fetcher/Reads.antt =====
-- A read through the fetcher: internal/stream/direct_reader.go on internal/nntp/fetcher.go.
use drakkar.Prelude.{ℕ, ◌+◌, ◌^◌, ◌<◌, ◌≡◌, refl, ◌∙◌, ap, Option, none, some, length, All}
use drakkar.Prelude.Int.{pos, IsInt64}
use drakkar.Prelude.Bytes.{Bytes}
use drakkar.Prelude.Slices.{slice}
use drakkar.Stream.DirectReader.{DirectNzbReader, ReadResult, read_at}
use drakkar.Stream.DirectReader.Reads.{read_at-IsRead}
use drakkar.Stream.DirectReader.Places.{keys, IsTrue}
use drakkar.Stream.DirectReader.Progress.{read_at-some}
use drakkar.Stream.DirectReader.Content.{read_at-content}
use drakkar.Nntp.ArticleSource.{FetchPriority}
use drakkar.Nntp.Fetcher.{DecodedArticleSource, FetchError, ask_source, fetch_range_info_priority}
use drakkar.Nntp.Fetcher.Clip.{
  IsArticleOf, fetch_range_info_priority-IsPart, fetch_range_info_priority-IsUseful,
}

-- A read through the fetcher that gives no error gives exactly the bytes of the file that were asked
-- for, and one that gives an error gives a first part of them: where the spans of the reader are the
-- places of their articles in the file, the source answers with the article or an error, and other
-- calls leave the places as they are. The file and the reader's size fit int64, as does the end of the
-- read, whose offset is not negative.
pub read_at-fetched {ℓ} :
    {W : Type ℓ} {E : Type 0} (part_of : Bytes → Option (ℕ × ℕ)) (content : Bytes)
    (s : DecodedArticleSource W E) (priority : FetchPriority)
    (others : W → DirectNzbReader → DirectNzbReader) (fuel : ℕ) (r : DirectNzbReader) (wanted o : ℕ)
    (w : W) (res : ReadResult (FetchError E))
    → length content < 2 ^ 63
    → ((id : Bytes) (w : W) (a n : ℕ)
        → part_of id ≡ some (a, n)
        → IsArticleOf content a n (ask_source s id priority w).0)
    → ((w : W) (r : DirectNzbReader) → keys (others w r).spans ≡ keys r.spans)
    → All (IsTrue part_of content) (keys r.spans)
    → IsInt64 r.size
    → o + wanted < 2 ^ 63
    → read_at (fetch_range_info_priority s priority) others fuel r wanted (pos o) w ≡ some res
    → (res.bytes ≡ slice o (length res.bytes) content)
      × (res.error ≡ none → res.bytes ≡ slice o wanted content)
read_at-fetched part_of content s priority others fuel r wanted o w res fits honest calm true_spans
      f k h =
    let fetch = fetch_range_info_priority s priority in
    let part =
      read_at-content fetch others part_of content fuel r wanted o w res calm
        (λ rq w a n x y k.
          fetch_range_info_priority-IsPart content s priority rq w a n x y fits
            (honest rq.message_id w a n k))
        true_spans f k h in
    let (_, full) = read_at-IsRead fetch others fuel r wanted o w res f k h in
    (part, λ e. part ∙ ap (λ n. slice o n content) (full e))

-- A read through the fetcher comes to its end: one round more than the buffer has bytes is enough, under
-- the same conditions and where no other call changes the spans. What it then gives are the bytes of
-- the file from the offset on, all that were asked for where there is no error.
pub read_at-ends {ℓ} :
    {W : Type ℓ} {E : Type 0} (part_of : Bytes → Option (ℕ × ℕ)) (content : Bytes)
    (s : DecodedArticleSource W E) (priority : FetchPriority) (fuel : ℕ) (r : DirectNzbReader)
    (wanted o : ℕ) (w : W)
    → length content < 2 ^ 63
    → ((id : Bytes) (w : W) (a n : ℕ)
        → part_of id ≡ some (a, n)
        → IsArticleOf content a n (ask_source s id priority w).0)
    → All (IsTrue part_of content) (keys r.spans)
    → IsInt64 r.size
    → o + wanted < 2 ^ 63
    → wanted < fuel
    → (res : ReadResult (FetchError E)) × (read_at
          (fetch_range_info_priority s priority)
          (λ w r. r)
          fuel
          r
          wanted
          (pos o)
          w
        ≡ some res)
      × (res.bytes ≡ slice o (length res.bytes) content)
      × (res.error ≡ none → res.bytes ≡ slice o wanted content)
read_at-ends part_of content s priority fuel r wanted o w fits honest true_spans f k h =
    let (res, e) =
      read_at-some (fetch_range_info_priority s priority) part_of content
        (λ rq w a n x y k.
          fetch_range_info_priority-IsPart content s priority rq w a n x y fits
            (honest rq.message_id w a n k))
        (λ rq w a n x y k.
          fetch_range_info_priority-IsUseful content s priority rq w a n x y fits
            (honest rq.message_id w a n k))
        fuel r wanted o w true_spans f k h in
    let (part, full) =
      read_at-fetched part_of content s priority (λ w r. r) fuel r wanted o w res fits honest
        (λ w r. refl) true_spans f k e in
    (res, e, part, full)
