-- ===== src/Nntp/Fetcher.antt =====
-- internal/nntp/fetcher.go: from a byte range of a segment to the bytes of its decoded article. `W` is
-- the world of the source, `E` its errors. A nil source is left out, as are the counters.
pub mod Clip
pub mod Reads
pub mod Volumes
use drakkar.Prelude.{
  ℕ, ◌*◌, ◌+◌, ◌-◌, Bool, true, false, ◌&&◌, ◌||◌, Option, none, some, List, [], ◌∷◌, if◌then◌else◌,
  length, take, drop,
}
use drakkar.Prelude.Int.{ℤ, pos, pos_part, ltb_ℤ, leb_ℤ, add64, sub64, min_ℤ}
use drakkar.Prelude.Bytes.{Bytes}
use drakkar.Yenc.Header.{PartInfo, valid, decoded_start}
use drakkar.Stream.RangeMap.{SegmentRange, SegmentSpan}
use drakkar.Stream.DirectReader.{FetchReply, fetched, refused}
use drakkar.Nntp.ArticleSource.{FetchPriority, priority_interactive}

-- What a source of decoded articles answers.
pub data DecodedReply {ℓ} (E : Type ℓ) : Type ℓ where
  decoded : Bytes → PartInfo → DecodedReply E
  not_decoded : E → DecodedReply E

-- The zero value of PartInfo, for a source that gives none.
abbrev pub no_part_info : PartInfo
no_part_info = record { total_size = pos 0; begin = pos 0; end = pos 0 }

-- DecodedArticleSource with the further interfaces that its type may implement; an answer without a
-- header carries the zero value.
pub record DecodedArticleSource {ℓ ℓ'} (W : Type ℓ) (E : Type ℓ') : Type (ℓ ⊔ ℓ') where
  pub decoded_body : Bytes → W → DecodedReply E × W
  pub decoded_body_priority : Option (Bytes → FetchPriority → W → DecodedReply E × W)
  pub decoded_body_info : Option (Bytes → W → DecodedReply E × W)
  pub decoded_body_info_priority : Option (Bytes → FetchPriority → W → DecodedReply E × W)
  pub invalidate_cached : Option (Bytes → W → W)

pub data FetchError {ℓ} (E : Type ℓ) : Type ℓ where
  source_error : E → FetchError E
  inconsistent_position invalid_segment_range : FetchError E

abbrev pub min_realign_sanity_bound : ℤ
min_realign_sanity_bound = pos (64 * 1024)

module _ {ℓ ℓ'} {W : Type ℓ} {E : Type ℓ'} where
  unfoldable pub ask_source :
      DecodedArticleSource W E → Bytes → FetchPriority → W → DecodedReply E × W
  ask_source s id priority w = elim s.decoded_body_info_priority [
    | some f ↦ f id priority w
    | none ↦ elim s.decoded_body_info [
      | some f ↦ f id w
      | none ↦ elim s.decoded_body_priority [
        | some f ↦ f id priority w
        | none ↦ s.decoded_body id w
      ]
    ]
  ]

unfoldable pub span_of : SegmentRange → ℤ → ℤ → SegmentSpan
span_of segment actual_start actual_end = record {
  segment_id = segment.segment_id;
  message_id = segment.message_id;
  start = actual_start;
  end = actual_end;
  decoded_start = pos 0;
  segment_byte_start = pos 0;
  entry_truncated = false;
}

-- The article does not belong at this position: its header is off by more than the segment is wide.
unfoldable pub wildly_off : SegmentRange → ℤ → Bool
unfolding sub64
wildly_off segment actual_start =
    let width = sub64 segment.segment_end segment.segment_start in
    let threshold =
      if ltb_ℤ width min_realign_sanity_bound then min_realign_sanity_bound else width in
    let delta = sub64 actual_start segment.segment_start in
    ltb_ℤ threshold delta || ltb_ℤ delta (sub64 (pos 0) threshold)

-- The end of FetchRangeInfoPriority: the range relative to the article, clipped to what there is.
unfoldable pub clip {ℓ} : {E : Type ℓ} → SegmentRange → ℤ → ℤ → Bytes → FetchReply (FetchError E)
unfolding span_of sub64
clip segment actual_start actual_end body =
    let start = sub64 segment.range_start actual_start in
    let end = min_ℤ (sub64 segment.range_end actual_start) (pos (length body)) in
    let actual = some (span_of segment actual_start actual_end) in
    if ltb_ℤ (sub64 segment.range_end actual_start) start
    then refused invalid_segment_range
    else if ltb_ℤ start (pos 0)
    then fetched [] actual
    else if leb_ℤ end start
    then fetched [] actual
    else fetched (take (pos_part end - pos_part start) (drop (pos_part start) body)) actual

unfoldable pub use_article {ℓ} :
    {E : Type ℓ} → SegmentRange → DecodedReply E → FetchReply (FetchError E)
unfolding clip wildly_off add64
use_article segment (not_decoded e) = refused (source_error e)
use_article segment (decoded body info) =
    if valid info
    then if wildly_off segment (decoded_start info)
      then refused inconsistent_position
      else clip segment (decoded_start info) (add64 (decoded_start info) (pos (length body))) body
    else clip segment segment.segment_start segment.segment_end body

module _ {ℓ ℓ'} {W : Type ℓ} {E : Type ℓ'} where
  -- A source that caches forgets an article that does not belong at this position.
  unfoldable pub forget : DecodedArticleSource W E → SegmentRange → DecodedReply E → W → W
  unfolding wildly_off
  forget s segment (not_decoded e) w = w
  forget s segment (decoded body info) w =
      if valid info && wildly_off segment (decoded_start info)
      then elim s.invalidate_cached [ none ↦ w | some f ↦ f segment.message_id w ]
      else w

  unfoldable pub fetch_range_info_priority :
      DecodedArticleSource W E → FetchPriority → SegmentRange → W → FetchReply (FetchError E) × W
  unfolding use_article ask_source forget
  fetch_range_info_priority s priority segment w =
      let (reply, w') = ask_source s segment.message_id priority w in
      (use_article segment reply, forget s segment reply w')

  unfoldable pub fetch_range_info :
      DecodedArticleSource W E → SegmentRange → W → FetchReply (FetchError E) × W
  unfolding fetch_range_info_priority
  fetch_range_info s segment w = fetch_range_info_priority s priority_interactive segment w
