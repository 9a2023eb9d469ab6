-- ===== src/Yenc/Decoder/Article.antt =====
-- Whole articles: a header line, lines with the part's range, the encoded data, and a footer.
use drakkar.Prelude.{
  ℕ, ◌+◌, ◌-◌, ◌≡◌, refl, ap, ◌∙◌, Bool, true, false, ◌||◌, none, some, List, [], ◌∷◌, ◌++◌, arith,
  if◌then◌else◌, All, length, take, drop, take-length-append, All-append,
}
use mathlib.Core.List.{reverse-append}
use drakkar.Prelude.Bytes.{Bytes, codes, has_prefix}
use drakkar.Yenc.Lines.Join.{IsLine, join_crlf, split_lines-join_crlf}
use drakkar.Yenc.Header.{parse_hex_uint32}
use drakkar.Yenc.Decoder.{
  ok, err, crc_mismatch, find_section, decode_lines, differs, verify_from_last,
  verify_expected_crc_lines, conclude, decode_section, checked_section, decode_article_lines,
  decode_article,
}
use drakkar.Yenc.Decoder.RoundTrip.{
  EncodesAll, none_left, line_of, IsInner, find_section_skip, find_section_end, find_section_begin,
  decode_lines-control, decode_lines-EncodesAll, part_IsInner, prefix_of_control,
  Encodes-no_control, Encodes-IsLine,
}

-- A posted article: what its lines are, and the data that they stand for.
pub record Article : Type 0 where
  pub header : Bytes
  pub parts : List Bytes
  pub lines : List Bytes
  pub footer : Bytes
  pub payload : Bytes

pub record IsArticle (a : Article) : Type 0 where
  pub header_begins : has_prefix a.header (codes "=ybegin ") ≡ true
  pub parts_begin : All (λ l. has_prefix l (codes "=ypart ") ≡ true) a.parts
  pub encoded : EncodesAll a.lines a.payload
  pub footer_ends : has_prefix a.footer (codes "=yend ") ≡ true
  pub header_line : IsLine a.header
  pub part_lines : All IsLine a.parts
  pub footer_line : IsLine a.footer

abbrev pub inner : Article → List Bytes
inner a = a.parts ++ a.lines

abbrev pub all_lines : Article → List Bytes
all_lines a = a.header ∷ inner a ++ a.footer ∷ []

-- The body on the wire.
abbrev pub body_of : Article → Bytes
body_of a = join_crlf (all_lines a)

data-IsInner : {lines : List Bytes} {out : Bytes} → EncodesAll lines out → All IsInner lines
data-IsInner none_left = tt
data-IsInner (line_of {line} e r) = (prefix_of_control line (Encodes-no_control e), data-IsInner r)

data_lines : {lines : List Bytes} {out : Bytes} → EncodesAll lines out → All IsLine lines
data_lines none_left = tt
data_lines (line_of e r) = (Encodes-IsLine e, data_lines r)

parts-IsInner :
    (ls : List Bytes) → All (λ l. has_prefix l (codes "=ypart ") ≡ true) ls → All IsInner ls
parts-IsInner [] h = tt
parts-IsInner (l ∷ ls) (p, h) = (part_IsInner l p, parts-IsInner ls h)

module _ (a : Article) (w : IsArticle a) where
  all_lines-IsLine : All IsLine (all_lines a)
  all_lines-IsLine = (
    w.header_line,
    All-append IsLine (inner a) (a.footer ∷ [])
        (All-append IsLine a.parts a.lines w.part_lines (data_lines w.encoded)) (w.footer_line, tt),
  )

  section-found : find_section (all_lines a) 0 none ≡ (some 1, some (1 + length (inner a)))
  section-found =
      find_section_begin a.header (inner a ++ a.footer ∷ []) 0 none w.header_begins
      ∙ (find_section_skip (inner a) (a.footer ∷ []) 1 (some 1) (
            All-append IsInner a.parts a.lines (parts-IsInner a.parts w.parts_begin)
              (data-IsInner w.encoded))
          ∙ find_section_end a.footer [] (1 + length (inner a)) (some 1) w.footer_ends)

  payload-decoded : decode_lines (inner a) ≡ a.payload
  payload-decoded =
      decode_lines-control a.parts a.lines w.parts_begin ∙ decode_lines-EncodesAll w.encoded

  footer-last :
      (crc32 : Bytes → ℕ) (out : Bytes)
      → verify_expected_crc_lines crc32 (all_lines a) out ≡ (
          if differs (crc32 out) (parse_hex_uint32 a.footer (codes "pcrc32"))
            || differs (crc32 out) (parse_hex_uint32 a.footer (codes "crc32"))
          then some crc_mismatch
          else none)
  unfolding verify_expected_crc_lines verify_from_last
  footer-last crc32 out = rw (reverse-append (a.header ∷ inner a) (a.footer ∷ []), w.footer_ends)

  checked-section :
      (crc32 : Bytes → ℕ)
      → checked_section crc32 (all_lines a) (some 1) (some (1 + length (inner a)))
        ≡ decode_section crc32 (all_lines a) 1 (1 + length (inner a))
  unfolding checked_section
  checked-section crc32 = ground arith

  cut-inner : take (1 + length (inner a) - 1) (drop 1 (all_lines a)) ≡ inner a
  cut-inner =
      ap (λ k. take k (inner a ++ a.footer ∷ [])) (omega arith)
      ∙ take-length-append (inner a) (a.footer ∷ [])

  section-decoded :
      (crc32 : Bytes → ℕ)
      → decode_section crc32 (all_lines a) 1 (1 + length (inner a)) ≡ (
          if differs (crc32 a.payload) (parse_hex_uint32 a.footer (codes "pcrc32"))
            || differs (crc32 a.payload) (parse_hex_uint32 a.footer (codes "crc32"))
          then err crc_mismatch
          else ok a.payload)
  unfolding decode_section
  section-decoded crc32 =
      ap
        (λ ls.
          conclude (decode_lines ls)
            (verify_expected_crc_lines crc32 (all_lines a) (decode_lines ls)))
        cut-inner
      ∙ (ap (λ out. conclude out (verify_expected_crc_lines crc32 (all_lines a) out))
            payload-decoded
          ∙ (ap (conclude a.payload) (footer-last crc32 a.payload) ∙ concluded (mismatch crc32)))
    where
      mismatch : (Bytes → ℕ) → Bool
      mismatch crc =
          differs (crc a.payload) (parse_hex_uint32 a.footer (codes "pcrc32"))
          || differs (crc a.payload) (parse_hex_uint32 a.footer (codes "crc32"))

      concluded :
          (b : Bool)
          → conclude a.payload (if b then some crc_mismatch else none)
            ≡ (if b then err crc_mismatch else ok a.payload)
      concluded true = unfold conclude in refl
      concluded false = unfold conclude in refl

-- An article of a header, lines with the part's range, data lines of any yEnc encoder and a footer,
-- joined by CRLF, decodes to its payload, unless the footer states a checksum that is not that of
-- the payload: then the answer is the checksum error.
pub decode_article-body_of :
    (crc32 : Bytes → ℕ) (a : Article)
    → IsArticle a
    → decode_article crc32 (body_of a) ≡ (
        if differs (crc32 a.payload) (parse_hex_uint32 a.footer (codes "pcrc32"))
          || differs (crc32 a.payload) (parse_hex_uint32 a.footer (codes "crc32"))
        then err crc_mismatch
        else ok a.payload)
unfolding decode_article decode_article_lines
decode_article-body_of crc32 a w =
    rw
      (
        split_lines-join_crlf a.header (inner a ++ a.footer ∷ []) (all_lines-IsLine a w),
        section-found a w,
      )
      (checked-section a w crc32 ∙ section-decoded a w crc32)
