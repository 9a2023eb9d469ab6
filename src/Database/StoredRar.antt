-- ===== src/Database/StoredRar.antt =====
-- internal/database/content_repository.go: the spans of a file that is stored in the volumes of an
-- archive. The two sorts (sort.SliceStable) are parameters, which take the order that the source
-- gives. Paths are ASCII. Sizes and offsets are int64 and wrap around; the number of segments is one.
pub mod Layout
pub mod Partition
use drakkar.Prelude.{
  ℕ, zero, suc, ◌+◌, ◌-◌, Bool, true, false, ◌&&◌, ◌||◌, not, Option, none, some, List, [], ◌∷◌,
  ◌++◌, ltb, leb, ◌==◌, if◌then◌else◌, length, drop,
}
use drakkar.Prelude.Int.{ℤ, pos, pos_part, ltb_ℤ, leb_ℤ, eqb_ℤ, add64, sub64, times64}
use drakkar.Prelude.Bytes.{Bytes, bytes_eq}
use drakkar.Prelude.Dict.{lookup}
use drakkar.Prelude.Text.{trim_space, to_lower}
use drakkar.Stream.RangeMap.{SegmentSpan}
use drakkar.Database.Spans.{compute_spans, span_file_size}

pub record StoredRarRangeSource : Type 0 where
  pub volume_path : Bytes
  pub entry_offset : ℤ
  pub archive_offset : ℤ
  pub length_bytes : ℤ

pub record StoredRarNzbSource : Type 0 where
  pub message_ids : List Bytes
  pub decoded_segment_size : ℤ
  pub last_decoded_size : ℤ
  pub file_size_bytes : ℤ

pub record StoredRarVolumeMeta : Type 0 where
  pub path : Bytes
  pub volume_index : ℤ

abbrev pub Sources : Type 0
Sources = List (Bytes × StoredRarNzbSource)

-- The order of strings.
unfoldable pub bytes_ltb : Bytes → Bytes → Bool
bytes_ltb s [] = false
bytes_ltb [] (c ∷ t) = true
bytes_ltb (b ∷ s) (c ∷ t) = let rest = bytes_ltb s t in if b == c then rest else ltb b c

-- The orders of the two sorts.
unfoldable pub range_less : StoredRarRangeSource → StoredRarRangeSource → Bool
unfolding bytes_ltb bytes_eq
range_less r r' =
    if not (eqb_ℤ r.entry_offset r'.entry_offset)
    then ltb_ℤ r.entry_offset r'.entry_offset
    else if not (bytes_eq r.volume_path r'.volume_path)
    then bytes_ltb r.volume_path r'.volume_path
    else ltb_ℤ r.archive_offset r'.archive_offset

unfoldable pub span_less : SegmentSpan → SegmentSpan → Bool
span_less s s' = if not (eqb_ℤ s.start s'.start) then ltb_ℤ s.start s'.start else ltb_ℤ s.end s'.end

unfoldable pub volume_source : Sources → Bytes → Option StoredRarNzbSource
unfolding lookup trim_space to_lower
volume_source sources path = lookup (to_lower (trim_space path)) sources

-- The spans of one volume at their place in the file, numbered from `next` on.
unfoldable pub placed_spans : ℤ → ℤ → List SegmentSpan → List SegmentSpan
unfolding add64
placed_spans volume_start next [] = []
placed_spans volume_start next (s ∷ ss) =
    record s {
      start = add64 s.start volume_start;
      end = add64 s.end volume_start;
      segment_id = next;
    }
    ∷ placed_spans volume_start (add64 next (pos 1)) ss

unfoldable pub next_after : ℤ → List SegmentSpan → ℤ
unfolding add64
next_after next [] = next
next_after next (s ∷ ss) = next_after (add64 next (pos 1)) ss

unfoldable pub range_spans : StoredRarNzbSource → StoredRarRangeSource → List SegmentSpan
unfolding compute_spans
range_spans source item =
    compute_spans source.message_ids source.decoded_segment_size source.last_decoded_size
      item.archive_offset item.length_bytes

-- The loop over the ranges; a range whose volume is not known is skipped.
unfoldable pub build_loop : Sources → List StoredRarRangeSource → ℤ → ℤ → List SegmentSpan
unfolding volume_source range_spans placed_spans next_after span_file_size add64
build_loop sources [] next cumulative = []
build_loop sources (item ∷ items) next cumulative = elim (volume_source sources item.volume_path) [
  | none ↦ build_loop sources items next cumulative
  | some source ↦
      let spans = range_spans source item in
      placed_spans cumulative next spans
      ++ build_loop sources items (next_after next spans)
          (add64 cumulative (span_file_size spans (pos 0)))
]

module _
    (sort_ranges : (StoredRarRangeSource → StoredRarRangeSource → Bool)
      → List StoredRarRangeSource
      → List StoredRarRangeSource)
    (sort_spans : (SegmentSpan → SegmentSpan → Bool) → List SegmentSpan → List SegmentSpan) where
  unfoldable pub build_stored_rar_spans : Sources → List StoredRarRangeSource → List SegmentSpan
  unfolding build_loop range_less span_less
  build_stored_rar_spans sources ranges =
      if (length ranges == 0) || (length sources == 0)
      then []
      else sort_spans span_less (build_loop sources (sort_ranges range_less ranges) (pos 0) (pos 0))

unfoldable pub stored_rar_source_size : StoredRarNzbSource → ℤ
unfolding add64 times64
stored_rar_source_size source =
    let count = length source.message_ids in
    let no_segments = (count == 0) || leb_ℤ source.decoded_segment_size (pos 0) in
    let total = times64 (count - 1) (pos_part source.decoded_segment_size) in
    let has_last = ltb_ℤ (pos 0) source.last_decoded_size in
    if ltb_ℤ (pos 0) source.file_size_bytes && no_segments
    then source.file_size_bytes
    else if no_segments
    then pos 0
    else if count == 1
    then if has_last then source.last_decoded_size else source.decoded_segment_size
    else if has_last
    then add64 total source.last_decoded_size
    else add64 total source.decoded_segment_size

-- strings.EqualFold on the trimmed paths.
unfoldable pub same_path : Bytes → Bytes → Bool
unfolding trim_space to_lower bytes_eq
same_path p q = bytes_eq (to_lower (trim_space p)) (to_lower (trim_space q))

-- The volumes from the first one with the path on, or all of them.
unfoldable pub volumes_from : List StoredRarVolumeMeta → Bytes → Option (List StoredRarVolumeMeta)
unfolding same_path
volumes_from [] start = none
volumes_from (v ∷ vs) start =
    let rest = volumes_from vs start in if same_path v.path start then some (v ∷ vs) else rest

-- Where the data begins in a volume behind the first one.
unfoldable pub continuation_offset : List (Bytes × ℤ) → Bytes → ℤ → ℤ
unfolding lookup trim_space to_lower
continuation_offset offsets path archive_offset =
    elim (lookup (to_lower (trim_space path)) offsets) [
      | none ↦ archive_offset
      | some off ↦ if leb_ℤ (pos 0) off then off else archive_offset
    ]

-- One range, in the source of its volume: as much as remains and the volume has. `none` is the early
-- return of nil.
unfoldable pub volume_range : Bytes → StoredRarNzbSource → ℤ → ℤ → ℤ → Option StoredRarRangeSource
unfolding stored_rar_source_size sub64
volume_range path source entry_offset archive_offset remaining =
    let size = stored_rar_source_size source in
    let available = sub64 size archive_offset in
    if leb_ℤ size archive_offset
    then none
    else some (record {
      volume_path = path;
      entry_offset = entry_offset;
      archive_offset = archive_offset;
      length_bytes = if ltb_ℤ available remaining then available else remaining;
    })

abbrev pub with_range :
    StoredRarRangeSource → Option (List StoredRarRangeSource) → Option (List StoredRarRangeSource)
with_range r none = none
with_range r (some rs) = some (r ∷ rs)

-- The loop over the volumes from the start on.
unfoldable pub reconstruct_loop :
    Sources
    → List (Bytes × ℤ)
    → List StoredRarVolumeMeta
    → Bool
    → ℤ
    → ℤ
    → ℤ
    → Option (List StoredRarRangeSource)
unfolding volume_source continuation_offset volume_range add64 sub64
reconstruct_loop sources offsets [] is_first entry_offset archive_offset remaining =
    if ltb_ℤ (pos 0) remaining then none else some []
reconstruct_loop sources offsets (v ∷ vs) is_first entry_offset archive_offset remaining =
    let begin =
      if is_first then archive_offset else continuation_offset offsets v.path archive_offset in
    elim (ltb_ℤ (pos 0) remaining) [
      | false ↦ some []
      | true ↦ elim (volume_source sources v.path) [
        | none ↦ none
        | some source ↦ elim (volume_range v.path source entry_offset begin remaining) [
          | none ↦ none
          | some r ↦ with_range r (
              reconstruct_loop sources offsets vs false (add64 entry_offset r.length_bytes) (pos 0)
                (sub64 remaining r.length_bytes))
        ]
      ]
    ]

unfoldable pub reconstruct_stored_rar_ranges :
    Sources
    → List StoredRarVolumeMeta
    → Bytes
    → ℤ
    → List (Bytes × ℤ)
    → ℤ
    → Option (List StoredRarRangeSource)
unfolding reconstruct_loop volumes_from
reconstruct_stored_rar_ranges sources volumes start_path start_offset offsets entry_size =
    let from_start : List StoredRarVolumeMeta = elim (volumes_from volumes start_path) [
      | none ↦ volumes
      | some vs ↦ vs
    ] in
    let start = if ltb_ℤ start_offset (pos 0) then pos 0 else start_offset in
    if (length sources == 0) || ((length volumes == 0) || leb_ℤ entry_size (pos 0))
    then none
    else reconstruct_loop sources offsets from_start true (pos 0) start entry_size
