-- ===== src/Yenc/Decoder.antt =====
-- internal/yenc/decoder_purego.go and the check of helpers.go: the payload of an article, by the
-- yEnc escape rule, checked against the footer. The checksum (hash/crc32) is a parameter.
pub mod RoundTrip
pub mod Errors
pub mod Article
use drakkar.Prelude.{
  ℕ, zero, suc, ◌+◌, ◌-◌, ◌%◌, Bool, true, false, ◌&&◌, ◌||◌, not, Option, none, some, List, [],
  ◌∷◌, ◌++◌, ltb, ◌==◌, if◌then◌else◌, length, drop, take,
}
use mathlib.Core.List.{reverse}
use drakkar.Prelude.Bytes.{Bytes, codes, has_prefix}
use drakkar.Yenc.Lines.{split_lines}
use drakkar.Yenc.Header.{PartInfo, parse_hex_uint32, parse_part_info_lines}

pub data DecodeError : Type 0 where
  missing_begin missing_end crc_mismatch : DecodeError

pub data Result {ℓ} (A : Type ℓ) : Type ℓ where
  ok : A → Result A
  err : DecodeError → Result A

-- The first loop of decodeArticleLines, at index `i`, with the indices found so far; -1 is `none`.
unfoldable pub find_section : List Bytes → ℕ → Option ℕ → Option ℕ × Option ℕ
unfolding has_prefix
find_section [] i start = (start, none)
find_section (line ∷ lines) i start =
    let begun = find_section lines (i + 1) (some (i + 1)) in
    let next = find_section lines (i + 1) start in
    if has_prefix line (codes "=ybegin ")
    then begun
    else if has_prefix line (codes "=yend ")
    then (start, some i)
    else next

-- b - k on bytes, which wraps around.
abbrev pub sub_byte : ℕ → ℕ → ℕ
sub_byte b k = (b + 256 - k) % 256

-- The loop over one line; an escape at the end of the line gives nothing.
unfoldable pub decode_line : Bytes → Bytes
decode_line [] = []
decode_line (b ∷ []) = if b == b'=' then [] else sub_byte b 42 ∷ []
decode_line (b ∷ c ∷ line) =
    let escaped = sub_byte (sub_byte c 64) 42 ∷ decode_line line in
    let plain = sub_byte b 42 ∷ decode_line (c ∷ line) in if b == b'=' then escaped else plain

unfoldable pub decode_lines : List Bytes → Bytes
unfolding decode_line has_prefix
decode_lines [] = []
decode_lines (line ∷ lines) =
    let rest = decode_lines lines in
    if has_prefix line (codes "=y") then rest else decode_line line ++ rest

-- `expected, ok := parseHexUint32(line, key); ok && actual != expected`
unfoldable pub differs : ℕ → Option ℕ → Bool
differs actual none = false
differs actual (some expected) = not (actual == expected)

-- `if err := verifyExpectedCRCLines(lines, out); err != nil { return nil, err }; return out, nil`
unfoldable pub conclude : Bytes → Option DecodeError → Result Bytes
conclude out none = ok out
conclude out (some e) = err e

module _ (crc32 : Bytes → ℕ) where
  -- The loop over the lines from the last to the first.
  unfoldable pub verify_from_last : List Bytes → Bytes → Option DecodeError
  unfolding differs has_prefix
  verify_from_last [] decoded = none
  verify_from_last (line ∷ before) decoded =
      let next = verify_from_last before decoded in
      if not (has_prefix line (codes "=yend "))
      then next
      else if differs (crc32 decoded) (parse_hex_uint32 line (codes "pcrc32"))
          || differs (crc32 decoded) (parse_hex_uint32 line (codes "crc32"))
      then some crc_mismatch
      else none

  unfoldable pub verify_expected_crc_lines : List Bytes → Bytes → Option DecodeError
  unfolding verify_from_last
  verify_expected_crc_lines lines decoded = verify_from_last (reverse lines) decoded

  -- The loop over `lines[start:end]`, and the check.
  unfoldable pub decode_section : List Bytes → ℕ → ℕ → Result Bytes
  unfolding decode_lines verify_expected_crc_lines conclude
  decode_section lines start end =
      let out = decode_lines (take (end - start) (drop start lines)) in
      conclude out (verify_expected_crc_lines lines out)

  -- `start == -1`, then `end == -1 || end < start`.
  unfoldable pub checked_section : List Bytes → Option ℕ → Option ℕ → Result Bytes
  unfolding decode_section
  checked_section lines none end = err missing_begin
  checked_section lines (some start) none = err missing_end
  checked_section lines (some start) (some end) =
      if ltb end start then err missing_end else decode_section lines start end

  unfoldable pub decode_article_lines : List Bytes → Result Bytes
  unfolding checked_section find_section
  decode_article_lines lines =
      let (start, end) = find_section lines 0 none in checked_section lines start end

  unfoldable pub decode_article : Bytes → Result Bytes
  unfolding decode_article_lines split_lines
  decode_article body = decode_article_lines (split_lines body)

  -- The header is read first, and dropped with an error.
  unfoldable pub decode_article_with_info : Bytes → Result (Bytes × PartInfo)
  unfolding decode_article_lines split_lines parse_part_info_lines
  decode_article_with_info body = elim (decode_article_lines (split_lines body)) [
    | ok decoded ↦ ok (decoded, (parse_part_info_lines (split_lines body)).0)
    | err e ↦ err e
  ]
