-- ===== src/Stream/ReadAhead/Schedule.antt =====
-- internal/stream/session_manager.go: schedule and adaptiveArticleLimit, the start of a window.
use drakkar.Prelude.{
  ℕ, zero, suc, ◌+◌, ◌/◌, Bool, true, false, ◌&&◌, ◌||◌, not, Option, none, some, List, [], ◌∷◌,
  ◌++◌, ltb, leb, ◌==◌, if◌then◌else◌, length,
}
use drakkar.Prelude.Int.{ℤ, pos, negsuc, ltb_ℤ, leb_ℤ, eqb_ℤ, add64, sub64}
use drakkar.Prelude.Bytes.{Bytes, bytes_eq}
use drakkar.Prelude.Dict.{lookup}
use drakkar.Stream.RangeMap.{SegmentRange, SegmentSpan, resolve_range_max}
use drakkar.Stream.ReadAhead.{
  default_article_buffer_size, high_bitrate_file_size_threshold, high_bitrate_min_read_ahead_bytes,
  high_bitrate_max_article_buffer_size, min_read_ahead_parallelism, ReadAheadSession, fetching,
  Window, ReadAheadManager, cancel_window, store, sought, next_generation, note_offset,
  active_count,
}

-- The loop over the spans: how many of them lead from the cursor to the end, at most 256.
unfoldable pub count_spans : ℤ → ℤ → ℕ → List SegmentSpan → ℕ
count_spans request_end cursor count [] = count
count_spans request_end cursor count (span ∷ spans) =
    let skipped = count_spans request_end cursor count spans in
    let next = count_spans request_end span.end (count + 1) spans in
    if leb_ℤ span.end cursor
    then skipped
    else if ltb_ℤ cursor span.start
    then count
    else if leb_ℤ request_end span.end || leb high_bitrate_max_article_buffer_size (count + 1)
    then count + 1
    else next

unfoldable pub coerce_limit : ℕ → ℕ
coerce_limit configured = if configured == 0 then default_article_buffer_size else configured

abbrev pub ahead_target : ℤ → ℤ
ahead_target window =
    if ltb_ℤ window high_bitrate_min_read_ahead_bytes
    then window
    else high_bitrate_min_read_ahead_bytes

-- The last two tests on the count.
abbrev pub counted_limit : ℕ → ℕ → ℕ
counted_limit limit count =
    if ltb count limit
    then limit
    else if ltb high_bitrate_max_article_buffer_size count
    then high_bitrate_max_article_buffer_size
    else count

unfoldable pub adaptive_article_limit : List SegmentSpan → ℤ → ℤ → ℕ → Bool → ℕ
unfolding count_spans coerce_limit
adaptive_article_limit spans offset window configured high_bitrate =
    let limit = coerce_limit configured in
    let request_end = add64 offset (ahead_target window) in
    if not high_bitrate || leb_ℤ window (pos 0) || leb high_bitrate_max_article_buffer_size limit
    then limit
    else if ltb_ℤ request_end offset
    then limit
    else counted_limit limit (count_spans request_end offset 0 spans)

-- spans[len(spans)-1].End, where there is a span.
unfoldable pub file_end : List SegmentSpan → Option ℤ
file_end [] = none
file_end (s ∷ []) = some s.end
file_end (s ∷ t ∷ spans) = file_end (t ∷ spans)

unfoldable pub last_range_end : List SegmentRange → Option ℤ
last_range_end [] = none
last_range_end (r ∷ []) = some r.range_end
last_range_end (r ∷ q ∷ ranges) = last_range_end (q ∷ ranges)

-- x / 2 on an int64, rounded towards 0.
abbrev half : ℤ → ℤ
half (pos n) = pos (n / 2)
half (negsuc zero) = pos 0
half (negsuc (suc n)) = negsuc (n / 2)

-- The offset from which a read replaces a window that ends at `window_end`.
unfoldable pub midpoint : ℤ → ℤ → ℤ
midpoint offset window_end =
    let at = add64 offset (half (sub64 window_end offset)) in
    if leb_ℤ at offset then window_end else at

-- The bytes that are wanted: the window, or what remains of the file.
unfoldable pub window_length : ℤ → ℤ → ℤ → ℤ
window_length window_bytes offset end =
    let remaining = sub64 end offset in
    if ltb_ℤ remaining window_bytes then remaining else window_bytes

-- The ranges of the window from this offset up to the end of the file, `none` where resolveRange fails.
unfoldable pub plan_before :
    ReadAheadManager → ReadAheadSession → ℤ → ℤ → Option (List SegmentRange)
unfolding window_length adaptive_article_limit
plan_before m s offset end =
    let window = window_length m.window_bytes offset end in
    resolve_range_max s.spans offset window (
      adaptive_article_limit s.spans offset window m.article_limit
        (leb_ℤ high_bitrate_file_size_threshold s.meta.file_size_bytes))

-- The ranges to be fetched; none at the end of the file or after an error.
unfoldable pub plan_window : ReadAheadManager → ReadAheadSession → ℤ → List SegmentRange
unfolding file_end plan_before
plan_window m s offset = elim (file_end s.spans) [
  | none ↦ []
  | some end ↦
      if leb_ℤ end offset
      then []
      else elim (plan_before m s offset end) [ none ↦ [] | some ranges ↦ ranges ]
]

-- The share of one of the active streams.
unfoldable pub share_of : ℕ → ℕ → ℕ
share_of max_parallelism active =
    let streams = if ltb active 1 then 1 else active in
    let share = max_parallelism / streams in
    if ltb share min_read_ahead_parallelism then min_read_ahead_parallelism else share

unfoldable pub new_window : Bytes → ReadAheadSession → List SegmentRange → ℕ → Window
new_window id s ranges parallelism = record {
  session_id = id;
  ident = s.ident;
  generation = s.generation;
  fetcher = s.fetcher;
  ranges = ranges;
  parallelism = parallelism;
  cancelled = false;
  fetch_failed = false;
  stage = fetching;
}

-- The session once its new window runs in the context `k`.
unfoldable pub started : ReadAheadSession → ℕ → ℤ → ℤ → ReadAheadSession
unfolding midpoint
started s k offset window_end = record s {
  cancel = some k;
  window_start = offset;
  reschedule_at = midpoint offset window_end;
  window_valid = true;
}

-- The goroutine starts, with what it reads under the lock.
unfoldable pub start_window :
    Bytes → ReadAheadSession → ℤ → List SegmentRange → ReadAheadManager → ReadAheadManager
unfolding last_range_end new_window started share_of active_count store
start_window id s offset ranges m = elim (last_range_end ranges) [
  | none ↦ store id s m
  | some window_end ↦
      let m' = store id (started s (length m.windows) offset window_end) m in
      record m' {
        windows =
            m.windows ++ new_window id s ranges (share_of m.max_parallelism (active_count m)) ∷ [];
      }
]

-- Behind the test for a window that still serves this offset.
unfoldable pub replace_window : Bytes → ReadAheadSession → ℤ → ReadAheadManager → ReadAheadManager
unfolding start_window plan_window next_generation
replace_window id s offset m =
    start_window id (sought s) offset (plan_window m s offset) (cancel_window s m)

-- The offset lies in the first half of a valid window.
unfoldable pub coalesced : ReadAheadSession → ℤ → Bool
coalesced s offset = s.window_valid && (leb_ℤ s.window_start offset && ltb_ℤ offset s.reschedule_at)

unfoldable pub schedule : Bytes → ℤ → ReadAheadManager → ReadAheadManager
unfolding replace_window coalesced
schedule id offset m =
    if bytes_eq id [] || (eqb_ℤ m.window_bytes (pos 0) || ltb_ℤ offset (pos 0))
    then m
    else elim (lookup id m.sessions) [
      | none ↦ m
      | some s ↦ if coalesced s offset then m else replace_window id s offset m
    ]

-- NotifyRead, where no other call comes between its two locked parts.
unfoldable pub notify_read : Bytes → ℤ → ReadAheadManager → ReadAheadManager
unfolding schedule note_offset
notify_read id offset m = schedule id offset (note_offset id offset m)
