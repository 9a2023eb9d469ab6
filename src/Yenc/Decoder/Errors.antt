-- ===== src/Yenc/Decoder/Errors.antt =====
-- Which part of any list of lines the decoder takes for the data, and when it answers an error.
use drakkar.Prelude.{
  ℕ, suc, ◌+◌, ◌<◌, ◌≡◌, refl, ap, Bool, true, false, ◌||◌, Option, none, some, List, [], ◌∷◌,
  arith, ltb, if◌then◌else◌, length, Bool-cases, Option-cases, inl, inr,
}
use drakkar.Prelude.Bytes.{Bytes, codes, has_prefix}
use drakkar.Yenc.Decoder.{
  err, missing_begin, missing_end, find_section, decode_section, checked_section,
  decode_article_lines,
}
use drakkar.Yenc.Decoder.RoundTrip.{end_not_begin}

abbrev pub begins : Bytes → Bool
begins l = has_prefix l (codes "=ybegin ")

abbrev pub ends : Bytes → Bool
ends l = has_prefix l (codes "=yend ")

-- The lines before the first footer, or all.
abbrev pub before_end : List Bytes → List Bytes
before_end [] = []
before_end (l ∷ ls) = let rest = l ∷ before_end ls in if ends l then [] else rest

abbrev pub has_end : List Bytes → Bool
has_end [] = false
has_end (l ∷ ls) = ends l || has_end ls

-- The position of the last header line.
abbrev pub last_begin : List Bytes → Option ℕ
last_begin [] = none
last_begin (l ∷ ls) = elim (last_begin ls) [
  | some k ↦ some (suc k)
  | none ↦ if begins l then some 0 else none
]

last_begin_lt : (ls : List Bytes) (k : ℕ) → last_begin ls ≡ some k → k < length ls
last_begin_lt [] k h = cc
last_begin_lt (l ∷ ls) k h = elim (Option-cases (last_begin ls)) [
  | inl n ↦ ground arith
  | inr (j, e) ↦ ground (arith, last_begin_lt ls j e)
]

abbrev start_after : ℕ → Option ℕ → Option ℕ → Option ℕ
start_after i start none = start
start_after i start (some k) = some (i + k + 1)

find_section_lem :
    (ls : List Bytes) (i : ℕ) (start : Option ℕ)
    → find_section ls i start ≡ (
      start_after i start (last_begin (before_end ls)),
      if has_end ls then some (i + length (before_end ls)) else none,
    )
unfolding find_section
find_section_lem [] i start = refl
find_section_lem (l ∷ ls) i start = elim (Bool-cases (ends l)) [
  | inl e ↦ rw (end_not_begin l e, e) (ap (λ n. (start, some n)) (omega arith))
  | inr e ↦ elim (Bool-cases (begins l)) [
    | inl b ↦ rw (b, e) (rw (find_section_lem ls (i + 1) (some (i + 1))) (ground arith))
    | inr b ↦ rw (b, e) (rw (find_section_lem ls (i + 1) start) (ground arith))
  ]
]

checked_section_lem :
    (crc32 : Bytes → ℕ) (lines : List Bytes) (begin : Option ℕ) (ended : Bool) (n : ℕ)
    → ((k : ℕ) → begin ≡ some k → k < n)
    → checked_section crc32 lines (start_after 0 none begin) (if ended then some (0 + n) else none)
      ≡ elim begin [
        | none ↦ err missing_begin
        | some k ↦ if ended then decode_section crc32 lines (k + 1) n else err missing_end
      ]
unfolding checked_section
checked_section_lem crc32 lines none ended n lt = refl
checked_section_lem crc32 lines (some k) false n lt = refl
checked_section_lem crc32 lines (some k) true n lt =
    let reached : ltb (0 + n) (0 + k + 1) ≡ false = ground (arith, lt k refl) in
    let p : 0 + k + 1 ≡ k + 1 = omega arith in let q : 0 + n ≡ n = omega arith in rw (reached, p, q)

-- What the decoder does with any list of lines: only the lines before the first footer count; the
-- data begins behind the last header among them. With no such header the answer is ErrMissingBegin,
-- also where a header follows the footer; with a header and no footer it is ErrMissingEnd.
pub decode_article_lines-sections :
    (crc32 : Bytes → ℕ) (lines : List Bytes)
    → decode_article_lines crc32 lines ≡ elim (last_begin (before_end lines)) [
      | none ↦ err missing_begin
      | some k ↦
          if has_end lines
          then decode_section crc32 lines (k + 1) (length (before_end lines))
          else err missing_end
    ]
unfolding decode_article_lines
decode_article_lines-sections crc32 lines = rw (find_section_lem lines 0 none) (
    checked_section_lem crc32 lines (last_begin (before_end lines)) (has_end lines)
      (length (before_end lines)) (last_begin_lt (before_end lines)))
