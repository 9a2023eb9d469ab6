-- ===== src/Nntp/Fetcher/Volumes.antt =====
-- A read of a stored file through the fetcher: internal/stream/stored_rar_reader.go on
-- internal/nntp/fetcher.go.
use drakkar.Prelude.{
  ℕ, ◌+◌, ◌-◌, ◌^◌, ◌≤◌, ◌<◌, ◌≡◌, refl, sym, ◌∙◌, ap, subst, Option, none, some, ◌⊎◌, arith,
  length, inl, inr,
}
use drakkar.Prelude.Int.{ℤ, pos, add64, sub64, add64_pos, sub64_pos_pos}
use drakkar.Prelude.Bytes.{Bytes}
use drakkar.Prelude.Slices.{slice}
use drakkar.Stream.RangeMap.{SegmentRange}
use drakkar.Stream.StoredRar.{SpanState, RarReadResult}
use drakkar.Stream.StoredRar.ReadAt.{read_stored_rar_at}
use drakkar.Stream.StoredRar.Places.{IsTrueState, IsRarPart, IsRarFaithful}
use drakkar.Stream.StoredRar.Content.{read_stored_rar_at-content, read_stored_rar_at-some}
use drakkar.Nntp.ArticleSource.{FetchPriority}
use drakkar.Nntp.Fetcher.{
  DecodedReply, DecodedArticleSource, FetchError, ask_source, span_of, clip, use_article,
  fetch_range_info_priority,
}
use drakkar.Nntp.Fetcher.Clip.{IsAnswer, clip_lem, use_article_cases}

module _ (E : Type 0) (rq : SegmentRange) (body : Bytes) (d x k m : ℕ)
    (hs : rq.segment_start ≡ pos d) (he : rq.segment_end ≡ pos (d + m))
    (hx : rq.range_start ≡ pos (d + x)) (hy : rq.range_end ≡ pos (d + x + k)) (positive : 0 < k)
    (l : x + k ≤ m) (n : m ≤ length body) (fits : d + length body < 2 ^ 63) where
  clip-IsRarPart :
      (end : ℤ)
      → ((sub64 end (pos d) ≡ pos (length body)) ⊎ (sub64 end (pos d) ≡ pos m))
      → IsRarPart body x k m (clip {E = E} rq (pos d) end body)
  unfolding span_of
  clip-IsRarPart end h =
      let a : d + x - d ≡ x = omega arith in
      let b : d + x + k - (d + x) ≡ k = omega arith in
      let c =
        clip_lem E rq d end body (d + x) (d + x + k) hx hy (omega arith) (omega arith) (omega arith)
          (omega arith) in
      subst (IsRarPart body x k m) (sym c) (rw (a, b) refl, h)

  use_article-IsRarPart :
      (reply : DecodedReply E) → IsAnswer body d reply → IsRarPart body x k m (use_article rq reply)
  use_article-IsRarPart reply g =
      let whole : sub64 (add64 (pos d) (pos (length body))) (pos d) ≡ pos (length body) =
        ap (λ z. sub64 z (pos d)) (add64_pos d (length body) fits)
        ∙ sub64_pos_pos (d + length body) d (omega arith) fits
        ∙ ap {B = ℤ} pos (omega arith) in
      let named : sub64 rq.segment_end (pos d) ≡ pos m =
        ap (λ z. sub64 z (pos d)) he
        ∙ sub64_pos_pos (d + m) d (omega arith) (omega arith)
        ∙ ap {B = ℤ} pos (omega arith) in
      use_article_cases E (IsRarPart body x k m) rq reply d body (λ e. tt)
        (clip-IsRarPart (add64 (pos d) (pos (length body))) (inl whole))
        (clip-IsRarPart rq.segment_end (inr named)) hs g

module _ {ℓ} {W : Type ℓ} {E : Type 0} (article : Bytes → Option (ℕ × Bytes)) (content : Bytes)
    (s : DecodedArticleSource W E) (priority : FetchPriority)
    (honest : (id : Bytes) (w : W) (d : ℕ) (body : Bytes)
      → article id ≡ some (d, body)
      → IsAnswer body d (ask_source s id priority w).0) where
  -- What a stored read asks of a fetcher, FetchRangeInfoPriority gives.
  pub fetch_range_info_priority-IsRarFaithful :
      IsRarFaithful article (fetch_range_info_priority s priority)
  unfolding fetch_range_info_priority
  fetch_range_info_priority-IsRarFaithful rq w body d x k m known hs he hx hy p l n f =
      use_article-IsRarPart E rq body d x k m hs he hx hy p l n f
        (ask_source s rq.message_id priority w).0 (honest rq.message_id w d body known)

  -- A stored read through the fetcher gives bytes of the file from the offset on, no more than the buffer
  -- holds, and all of them where it gives no error: where the spans are true to the file and stay so
  -- when other calls correct them, and the source answers a message id with an error or the bytes of
  -- its article, under a header that is not valid or states where the article begins. The offset is
  -- not negative, and the end of the read fits int64.
  pub read_stored_rar_at-fetched :
      (others : W → SpanState → SpanState) (fuel : ℕ) (state : SpanState) (wanted o : ℕ) (w : W)
      (res : RarReadResult (FetchError E))
      → ((w : W) (s : SpanState)
          → IsTrueState article content s
          → IsTrueState article content (others w s))
      → IsTrueState article content state
      → o + wanted < 2 ^ 63
      → read_stored_rar_at (fetch_range_info_priority s priority) others fuel state wanted (pos o) w
        ≡ some res
      → (res.bytes ≡ slice o (length res.bytes) content)
        × (length res.bytes ≤ wanted)
        × (res.error ≡ none → length res.bytes ≡ wanted)
  read_stored_rar_at-fetched others fuel state wanted o w res calm t k h =
      read_stored_rar_at-content (fetch_range_info_priority s priority) others article content fuel
        state wanted o w res calm fetch_range_info_priority-IsRarFaithful t k h

  -- A stored read through the fetcher comes to its end: one round more than the buffer has bytes is
  -- enough, under the same conditions and where no other call corrects the spans. What it then gives
  -- are the bytes of the file from the offset on, as many as the buffer holds where there is no error.
  pub read_stored_rar_at-ends :
      (others : W → SpanState → SpanState) (fuel : ℕ) (state : SpanState) (wanted o : ℕ) (w : W)
      → ((w : W) (s : SpanState)
          → IsTrueState article content s
          → IsTrueState article content (others w s))
      → ((w : W) (s : SpanState) → (others w s).version ≡ s.version)
      → IsTrueState article content state
      → o + wanted < 2 ^ 63
      → wanted < fuel
      → (res : RarReadResult (FetchError E)) × (read_stored_rar_at
            (fetch_range_info_priority s priority)
            others
            fuel
            state
            wanted
            (pos o)
            w
          ≡ some res)
        × (res.bytes ≡ slice o (length res.bytes) content)
        × (res.error ≡ none → length res.bytes ≡ wanted)
  read_stored_rar_at-ends others fuel state wanted o w calm still t k h =
      let (res, e) =
        read_stored_rar_at-some (fetch_range_info_priority s priority) others article content fuel
          state wanted o w calm still fetch_range_info_priority-IsRarFaithful t k h in
      let (part, _, full) =
        read_stored_rar_at-fetched others fuel state wanted o w res calm t k e in
      (res, e, part, full)
