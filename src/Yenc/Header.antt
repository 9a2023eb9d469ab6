-- ===== src/Yenc/Header.antt =====
-- internal/yenc/header.go: the fields of a yEnc header line, and the byte range of a part.
pub mod Range
use drakkar.Prelude.{
  ℕ, zero, suc, ◌+◌, ◌-◌, ◌*◌, ◌/◌, ◌^◌, Bool, true, false, ◌&&◌, ◌||◌, not, Option, none, some,
  List, [], ◌∷◌, ◌++◌, ltb, leb, ◌==◌, if◌then◌else◌, length, drop,
}
use drakkar.Prelude.Bytes.{Bytes, codes, has_prefix, index}
use drakkar.Prelude.Int.{ℤ, pos, negsuc, sub_ℕ, ltb_ℤ, leb_ℤ, add64, ◌-ℤ◌}

pub record PartInfo : Type 0 where
  pub total_size : ℤ
  pub begin : ℤ
  pub end : ℤ

unfoldable pub valid : PartInfo → Bool
valid p = ltb_ℤ p.begin p.end && leb_ℤ (pos 1) p.begin

-- The differences are of int64 values in order, so they do not wrap around; the sum may.
unfoldable pub decoded_size : PartInfo → ℤ
unfolding valid add64 ◌-ℤ◌
decoded_size p = if not (valid p) then pos 0 else add64 (p.end -ℤ p.begin) (pos 1)

unfoldable pub decoded_start : PartInfo → ℤ
unfolding valid ◌-ℤ◌
decoded_start p = if not (valid p) then pos 0 else p.begin -ℤ pos 1

-- The end of a value: a space, a tab, or a line end.
abbrev pub is_blank : ℕ → Bool
is_blank c = (c == b' ') || (c == b'\t') || (c == b'\r') || (c == b'\n')

-- The loop over `end`: the bytes up to the first blank.
unfoldable pub until_blank : Bytes → Bytes
until_blank [] = []
until_blank (c ∷ s) = let rest = c ∷ until_blank s in if is_blank c then [] else rest

unfoldable pub parse_key_value : Bytes → Bytes → Option Bytes
unfolding index until_blank
parse_key_value line key =
    let needle = key ++ codes "=" in
    elim (index line needle) [
      | none ↦ none
      | some idx ↦ some (until_blank (drop (idx + length needle) line))
    ]

abbrev pub is_digit : ℕ → Bool
is_digit c = leb b'0' c && leb c b'9'

-- The digits of strconv.ParseUint(s, 10, 64): `none` is a syntax error, and a number beyond 64 bits
-- ends the scan with the largest one.
unfoldable pub parse_digits : Bytes → ℕ → Option ℕ
parse_digits [] n = some n
parse_digits (c ∷ s) n =
    let n' = n * 10 + (c - b'0') in
    let rest = parse_digits s n' in
    if not (is_digit c) then none else if ltb (2 ^ 64 - 1) n' then some (2 ^ 64 - 1) else rest

-- The value that strconv.ParseInt(s, 10, 64) returns beside its error, which the callers drop: 0 on a
-- syntax error, the nearest int64 where the number is out of range.
unfoldable pub signed : Bool → Option ℕ → ℤ
signed negative none = pos 0
signed false (some n) = if leb (2 ^ 63) n then pos (2 ^ 63 - 1) else pos n
signed true (some n) = if ltb (2 ^ 63) n then sub_ℕ 0 (2 ^ 63) else sub_ℕ 0 n

unfoldable pub parse_unsigned : Bytes → Option ℕ
unfolding parse_digits
parse_unsigned [] = none
parse_unsigned (c ∷ s) = parse_digits (c ∷ s) 0

unfoldable pub parse_int : Bytes → ℤ
unfolding signed parse_unsigned
parse_int [] = pos 0
parse_int (c ∷ s) =
    if c == b'+'
    then signed false (parse_unsigned s)
    else if c == b'-'
    then signed true (parse_unsigned s)
    else signed false (parse_unsigned (c ∷ s))

-- `if v, ok := parseKeyValue(line, key); ok { field, _ = ParseInt(v) }`
unfoldable pub field_or : Bytes → Bytes → ℤ → ℤ
unfolding parse_key_value parse_int
field_or line key old = elim (parse_key_value line key) [ none ↦ old | some v ↦ parse_int v ]

unfoldable pub part_info_loop : List Bytes → PartInfo → Bool → Bool → PartInfo × Bool
unfolding field_or has_prefix
part_info_loop [] info has_begin has_part = (info, has_begin)
part_info_loop (line ∷ lines) info has_begin has_part =
    let at_begin =
      part_info_loop lines
        (record info { total_size = field_or line (codes "size") info.total_size }) true has_part in
    let at_part =
      part_info_loop lines
        (record info {
          begin = field_or line (codes "begin") info.begin;
          end = field_or line (codes "end") info.end;
        })
        has_begin true in
    let next = part_info_loop lines info has_begin has_part in
    if has_prefix line (codes "=ybegin ")
    then at_begin
    else if has_prefix line (codes "=ypart ")
    then at_part
    else if has_begin && has_part
    then (info, has_begin)
    else if has_begin && ltb 0 (length line) && not (has_prefix line (codes "=y"))
    then (info, has_begin)
    else next

unfoldable pub parse_part_info_lines : List Bytes → PartInfo × Bool
unfolding part_info_loop
parse_part_info_lines lines =
    part_info_loop lines (record { total_size = pos 0; begin = pos 0; end = pos 0 }) false false

-- One hexadecimal digit of encoding/hex.
unfoldable pub hex_digit : ℕ → Option ℕ
hex_digit c =
    if leb b'0' c && leb c b'9'
    then some (c - b'0')
    else if leb b'a' c && leb c b'f'
    then some (c - b'a' + 10)
    else if leb b'A' c && leb c b'F'
    then some (c - b'A' + 10)
    else none

-- The big-endian value of the bytes that hex.DecodeString gives, for the eight digits of a uint32:
-- reading the four bytes is reading the eight digits.
unfoldable pub hex_value : Bytes → ℕ → Option ℕ
unfolding hex_digit
hex_value [] n = some n
hex_value (c ∷ s) n = elim (hex_digit c) [ none ↦ none | some d ↦ hex_value s (n * 16 + d) ]

unfoldable pub parse_hex_uint32 : Bytes → Bytes → Option ℕ
unfolding parse_key_value hex_value
parse_hex_uint32 line key = elim (parse_key_value line key) [
  | none ↦ none
  | some value ↦ let v = hex_value value 0 in if length value == 8 then v else none
]
