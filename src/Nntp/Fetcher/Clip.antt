-- ===== src/Nntp/Fetcher/Clip.antt =====
-- The fetcher gives the bytes that were asked for.
use drakkar.Prelude.{
  ℕ, ◌+◌, ◌-◌, ◌^◌, ◌≤◌, ◌<◌, ◌≡◌, refl, sym, ◌∙◌, subst, true, false, some, arith, length,
  Bool-cases, inl, inr,
}
use drakkar.Prelude.Int.{add64_pos, sub64_pos_pos, ℤ, pos, add64, sub64, min_ℤ, ltb_ℤ, leb_ℤ}
use drakkar.Prelude.Bytes.{Bytes}
use drakkar.Prelude.Slices.{slice, length-slice, slice-slice}
use drakkar.Yenc.Header.{valid, decoded_start}
use drakkar.Stream.RangeMap.{SegmentRange}
use drakkar.Stream.DirectReader.{FetchReply, fetched, refused}
use drakkar.Stream.DirectReader.Places.{IsPart, IsUseful}
use drakkar.Nntp.ArticleSource.{FetchPriority}
use drakkar.Nntp.Fetcher.{
  DecodedReply, decoded, not_decoded, DecodedArticleSource, FetchError, source_error,
  inconsistent_position, ask_source, span_of, wildly_off, clip, use_article,
  fetch_range_info_priority,
}

-- What an article's answer has to be: its bytes, and where it begins, if its header is valid.
abbrev pub IsAnswer {ℓ} : {E : Type ℓ} → Bytes → ℕ → DecodedReply E → Type 0
IsAnswer body a (not_decoded e) = Unit
IsAnswer body a (decoded given info) =
    (given ≡ body) × (valid info ≡ true → decoded_start info ≡ pos a)

-- The article is a part of the content.
abbrev pub IsArticleOf {ℓ} : {E : Type ℓ} → Bytes → ℕ → ℕ → DecodedReply E → Type 0
IsArticleOf content a n reply = IsAnswer (slice a n content) a reply

module _ (E : Type 0) where
  -- What is requested of an article that begins at `a` is what the fetcher gives.
  pub clip_lem :
      (rq : SegmentRange) (a : ℕ) (end : ℤ) (body : Bytes) (x y : ℕ)
      → rq.range_start ≡ pos x
      → rq.range_end ≡ pos y
      → a ≤ x
      → x < y
      → y ≤ a + length body
      → y < 2 ^ 63
      → clip {E = E} rq (pos a) end body
        ≡ fetched (slice (x - a) (y - x) body) (some (span_of rq (pos a) end))
  unfolding clip
  clip_lem rq a end body x y hx hy p q r f =
      let s : sub64 rq.range_start (pos a) ≡ pos (x - a) =
        rw hx (sub64_pos_pos x a p (omega arith)) in
      let e : sub64 rq.range_end (pos a) ≡ pos (y - a) =
        rw hy (sub64_pos_pos y a (omega arith) (omega arith)) in
      let m : min_ℤ (pos (y - a)) (pos (length body)) ≡ pos (y - a) = ground arith in
      let b1 : ltb_ℤ (pos (y - a)) (pos (x - a)) ≡ false = ground arith in
      let b2 : ltb_ℤ (pos (x - a)) (pos 0) ≡ false = ground arith in
      let b3 : leb_ℤ (pos (y - a)) (pos (x - a)) ≡ false = ground arith in
      let c : y - a - (x - a) ≡ y - x = omega arith in rw (clip, s, e, m, b1, b2, b3, c) refl

  -- The fetcher gives an error, or cuts the article at its place, with the end by its length or the one
  -- that the request has.
  pub use_article_cases {κ} :
      (P : FetchReply (FetchError E) → Type κ) (rq : SegmentRange) (reply : DecodedReply E) (a : ℕ)
      (body : Bytes)
      → ((e : FetchError E) → P (refused e))
      → P (clip rq (pos a) (add64 (pos a) (pos (length body))) body)
      → P (clip rq (pos a) rq.segment_end body)
      → rq.segment_start ≡ pos a
      → IsAnswer body a reply
      → P (use_article rq reply)
  unfolding use_article
  use_article_cases P rq (not_decoded e) a body r p q h g = r (source_error e)
  use_article_cases P rq (decoded given info) a body r p q h (b, i) =
      elim (Bool-cases (valid info)) [
        | inl v ↦ elim (Bool-cases (wildly_off rq (decoded_start info))) [
          | inl w ↦ rw (use_article, v, w) (r inconsistent_position)
          | inr w ↦ rw (use_article, v, w, i v, b) p
        ]
        | inr v ↦ rw (use_article, v, h, b) q
      ]

module _ (E : Type 0) (content : Bytes) (fits : length content < 2 ^ 63) (rq : SegmentRange)
    (a n x y : ℕ) (hs : rq.segment_start ≡ pos a) (he : rq.segment_end ≡ pos (a + n))
    (l : a + n ≤ length content) (hx : rq.range_start ≡ pos x) (hy : rq.range_end ≡ pos y)
    (p : a ≤ x) (q : x < y) (r : y ≤ a + n) where
  cut : FetchReply (FetchError E)
  cut = fetched (slice x (y - x) content) (some (span_of rq (pos a) (pos (a + n))))

  clipped : (end : ℤ) → end ≡ pos (a + n) → clip {E = E} rq (pos a) end (slice a n content) ≡ cut
  unfolding cut
  clipped end h =
      let len = length-slice a n content l in
      let c : slice (x - a) (y - x) (slice a n content) ≡ slice (a + (x - a)) (y - x) content =
        slice-slice a n (x - a) (y - x) content (omega arith) in
      let d : a + (x - a) ≡ x = omega arith in
      let c' = rw d at c in
      clip_lem E rq a end (slice a n content) x y hx hy p q (rw len r) (omega arith)
      ∙ (rw (c', h) refl)

  -- What holds of the errors and of the requested part of the content.
  part_cases {κ} :
      (P : FetchReply (FetchError E) → Type κ) (reply : DecodedReply E)
      → IsArticleOf content a n reply
      → ((e : FetchError E) → P (refused e))
      → P cut
      → P (use_article rq reply)
  part_cases P reply g z c =
      let len = length-slice a n content l in
      use_article_cases E P rq reply a (slice a n content) z
        (subst P
          (sym (
            clipped (add64 (pos a) (pos (length (slice a n content))))
              (rw len (add64_pos a n (omega arith)))))
          c)
        (subst P (sym (clipped rq.segment_end he)) c) hs g

  pub use_article-IsPart :
      (reply : DecodedReply E)
      → IsArticleOf content a n reply
      → IsPart content rq x (use_article rq reply)
  unfolding cut span_of
  use_article-IsPart reply g =
      let long : length (slice x (y - x) content) ≡ y - x =
        length-slice x (y - x) content (omega arith) in
      part_cases (IsPart content rq x) reply g (λ e. tt) (rw long refl, rw (hs, he) refl)

  pub use_article-IsUseful :
      (reply : DecodedReply E) → IsArticleOf content a n reply → IsUseful (use_article rq reply)
  unfolding cut
  use_article-IsUseful reply g =
      let long : length (slice x (y - x) content) ≡ y - x =
        length-slice x (y - x) content (omega arith) in
      part_cases IsUseful reply g (λ e. tt) (omega arith)

-- The segment's article is the part of the file from `a` on, of length `n`, as the table has it, and
-- the requested bytes from `x` to `y` lie in it. Where the source answers with an error or with the
-- bytes of that article, under a header that is not valid or states the right place,
-- FetchRangeInfoPriority gives bytes of the file from `x` on and the segment's place as it is known,
-- or an error.
pub fetch_range_info_priority-IsPart {ℓ} :
    {W : Type ℓ} {E : Type 0} (content : Bytes) (s : DecodedArticleSource W E)
    (priority : FetchPriority) (rq : SegmentRange) (w : W) (a n x y : ℕ)
    → length content < 2 ^ 63
    → IsArticleOf content a n (ask_source s rq.message_id priority w).0
    → rq.segment_start ≡ pos a
    → rq.segment_end ≡ pos (a + n)
    → a + n ≤ length content
    → rq.range_start ≡ pos x
    → rq.range_end ≡ pos y
    → a ≤ x
    → x < y
    → y ≤ a + n
    → IsPart content rq x (fetch_range_info_priority s priority rq w).0
unfolding fetch_range_info_priority
fetch_range_info_priority-IsPart {E = E} content s priority rq w a n x y fits g hs he l hx hy p q
      r =
    use_article-IsPart E content fits rq a n x y hs he l hx hy p q r
      (ask_source s rq.message_id priority w).0 g

-- Under the same conditions it gives an error or at least one byte.
pub fetch_range_info_priority-IsUseful {ℓ} :
    {W : Type ℓ} {E : Type 0} (content : Bytes) (s : DecodedArticleSource W E)
    (priority : FetchPriority) (rq : SegmentRange) (w : W) (a n x y : ℕ)
    → length content < 2 ^ 63
    → IsArticleOf content a n (ask_source s rq.message_id priority w).0
    → rq.segment_start ≡ pos a
    → rq.segment_end ≡ pos (a + n)
    → a + n ≤ length content
    → rq.range_start ≡ pos x
    → rq.range_end ≡ pos y
    → a ≤ x
    → x < y
    → y ≤ a + n
    → IsUseful (fetch_range_info_priority s priority rq w).0
unfolding fetch_range_info_priority
fetch_range_info_priority-IsUseful {E = E} content s priority rq w a n x y fits g hs he l hx hy p q
      r =
    use_article-IsUseful E content fits rq a n x y hs he l hx hy p q r
      (ask_source s rq.message_id priority w).0 g
