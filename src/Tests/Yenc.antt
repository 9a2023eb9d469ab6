-- ===== src/Tests/Yenc.antt =====
-- A small article, decoded (internal/yenc).
use drakkar.Prelude.{ℕ, [], ◌∷◌, ◌++◌, ◌≡◌, refl, arith, if◌then◌else◌, ◌||◌, true}
use drakkar.Prelude.Bytes.{Bytes, codes, has_prefix}
use drakkar.Prelude.Int.{pos}
use drakkar.Yenc.Lines.{split_lines}
use drakkar.Yenc.Lines.Join.{join_crlf, split_lines-join_crlf}
use drakkar.Yenc.Header.{parse_hex_uint32, parse_part_info_lines}
use drakkar.Yenc.Decoder.{
  ok, err, crc_mismatch, missing_begin, differs, decode_article, decode_article_lines,
}
use drakkar.Yenc.Decoder.RoundTrip.{done, plain, escaped, none_left, line_of}
use drakkar.Yenc.Decoder.Article.{Article, IsArticle, body_of, decode_article-body_of}
use drakkar.Yenc.Decoder.Errors.{decode_article_lines-sections}

-- A checksum for the tests.
abbrev seven : Bytes → ℕ
seven _ = 7

-- The data is `a`, a byte that must be escaped, and `b`.
abbrev small : Article
small = record {
  header = codes "=ybegin part=1 size=3 name=x";
  parts = codes "=ypart begin=1 end=3" ∷ [];
  lines = (139 ∷ b'=' ∷ 125 ∷ 140 ∷ []) ∷ [];
  footer = codes "=yend size=3 pcrc32=00000007";
  payload = (97 ∷ 19 ∷ 98 ∷ []) ++ [];
}

small-IsArticle : IsArticle small
unfolding has_prefix
small-IsArticle = record {
  header_begins = refl;
  parts_begin = (refl, tt);
  encoded =
      line_of
        (plain 97 (omega arith) refl
          (escaped 19 (omega arith) refl (plain 98 (omega arith) refl done)))
        none_left;
  footer_ends = refl;
  header_line = omega arith;
  part_lines = omega arith;
  footer_line = omega arith;
}

decode_article-body_of_example : decode_article seven (body_of small) ≡ (
    if differs (seven small.payload) (parse_hex_uint32 small.footer (codes "pcrc32"))
      || differs (seven small.payload) (parse_hex_uint32 small.footer (codes "crc32"))
    then err crc_mismatch
    else ok small.payload)
decode_article-body_of_example = decode_article-body_of seven small small-IsArticle

small_runs : decode_article seven (body_of small) ≡ ok (97 ∷ 19 ∷ 98 ∷ [])
unfolding decode_article parse_hex_uint32
small_runs = refl

footer_first :
    decode_article seven (codes "=yend size=0\r\n=ybegin size=0\r\n=yend size=0")
    ≡ err missing_begin
unfolding decode_article parse_hex_uint32
footer_first = refl

small_range :
    parse_part_info_lines (codes "=ybegin part=2 size=30" ∷ codes "=ypart begin=11 end=20" ∷ [])
    ≡ (record { total_size = pos 30; begin = pos 11; end = pos 20 }, true)
unfolding parse_part_info_lines
small_range = refl

split_lines-join_crlf_example :
    split_lines (join_crlf (codes "ab" ∷ codes "c" ∷ [])) ≡ codes "ab" ∷ codes "c" ∷ []
split_lines-join_crlf_example = split_lines-join_crlf (codes "ab") (codes "c" ∷ []) (omega arith)

decode_article_lines-sections_example :
    decode_article_lines seven (codes "=yend x" ∷ []) ≡ err missing_begin
decode_article_lines-sections_example =
    unfold has_prefix in decode_article_lines-sections seven (codes "=yend x" ∷ [])
