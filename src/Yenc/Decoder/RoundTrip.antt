-- ===== src/Yenc/Decoder/RoundTrip.antt =====
-- A decoder undoes every encoder of the yEnc format: the format as a relation between a data line and
-- the bytes that it stands for, and the articles built of such lines.
use drakkar.Prelude.{
  ℕ, ◌+◌, ◌%◌, ◌<◌, ◌≡◌, refl, ap, ◌∙◌, Bool, true, false, ◌||◌, Option, some, List, [], ◌∷◌, ◌++◌,
  arith, ◌==◌, All, length,
}
use drakkar.Prelude.Bytes.{Bytes, codes, has_prefix}
use drakkar.Yenc.Lines.Join.{IsLine}
use drakkar.Yenc.Decoder.{find_section, sub_byte, decode_line, decode_lines}

-- The bytes that an encoder may escape: NUL, TAB, LF, CR, space, `.` and `=`.
abbrev pub is_critical : ℕ → Bool
is_critical c =
    (c == 0) || (c == 9) || (c == 10) || (c == 13) || (c == 32) || (c == 46) || (c == b'=')

-- The bytes that it must escape in every line.
abbrev pub is_forbidden : ℕ → Bool
is_forbidden c = (c == 10) || (c == 13) || (c == b'=')

-- yEnc: each byte is moved by 42; a byte that is escaped is moved by 64 more, behind a `=`.
pub data Encodes : Bytes → Bytes → Type 0 where
  done : Encodes [] []
  plain :
      {line out : Bytes} (b : ℕ)
      → b < 256
      → is_forbidden ((b + 42) % 256) ≡ false
      → Encodes line out
      → Encodes ((b + 42) % 256 ∷ line) (b ∷ out)
  escaped :
      {line out : Bytes} (b : ℕ)
      → b < 256
      → is_critical ((b + 42) % 256) ≡ true
      → Encodes line out
      → Encodes (b'=' ∷ ((b + 42) % 256 + 64) % 256 ∷ line) (b ∷ out)

-- Lines that encode pieces of the data.
pub data EncodesAll : List Bytes → Bytes → Type 0 where
  none_left : EncodesAll [] []
  line_of :
      {line out : Bytes} {lines : List Bytes} {rest : Bytes}
      → Encodes line out
      → EncodesAll lines rest
      → EncodesAll (line ∷ lines) (out ++ rest)

decode_plain :
    (c : ℕ) (line : Bytes)
    → (c == b'=') ≡ false
    → decode_line (c ∷ line) ≡ sub_byte c 42 ∷ decode_line line
unfolding decode_line
decode_plain c [] h = ground arith
decode_plain c (d ∷ line) h = ground arith

decode_escape :
    (c : ℕ) (line : Bytes)
    → decode_line (b'=' ∷ c ∷ line) ≡ sub_byte (sub_byte c 64) 42 ∷ decode_line line
unfolding decode_line
decode_escape c line = refl

decode_line-Encodes : {line out : Bytes} → Encodes line out → decode_line line ≡ out
decode_line-Encodes done = unfold decode_line in refl
decode_line-Encodes (plain {line} {out} b h p e) =
    decode_plain ((b + 42) % 256) line (ground arith)
    ∙ (rw (decode_line-Encodes e) (ap (λ x. x ∷ out) (omega arith)))
decode_line-Encodes (escaped {line} {out} b h p e) =
    decode_escape (((b + 42) % 256 + 64) % 256) line
    ∙ (rw (decode_line-Encodes e) (ap (λ x. x ∷ out) (omega arith)))

-- A data line is no control line: it does not begin with `=y`.
pub Encodes-no_control :
    {line out : Bytes} → Encodes line out → has_prefix line (codes "=y") ≡ false
unfolding has_prefix
Encodes-no_control done = refl
Encodes-no_control (plain b h p e) = ground arith
Encodes-no_control (escaped b h p e) = ground arith

pub Encodes-IsLine : {line out : Bytes} → Encodes line out → IsLine line
Encodes-IsLine done = tt
Encodes-IsLine (plain b h p e) = ((λ q. ground arith, λ q. ground arith), Encodes-IsLine e)
Encodes-IsLine (escaped b h p e) = (
  (λ q. ground arith, λ q. ground arith),
  ((λ q. ground arith, λ q. ground arith), Encodes-IsLine e),
)

-- A line that the search for the data section passes over.
abbrev pub IsInner : Bytes → Type 0
IsInner l = (has_prefix l (codes "=ybegin ") ≡ false) × (has_prefix l (codes "=yend ") ≡ false)

pub prefix_of_control : (l : Bytes) → has_prefix l (codes "=y") ≡ false → IsInner l
unfolding has_prefix
prefix_of_control [] h = ground arith
prefix_of_control (a ∷ []) h = ground arith
prefix_of_control (a ∷ b ∷ l) h = ground arith

pub part_IsInner : (l : Bytes) → has_prefix l (codes "=ypart ") ≡ true → IsInner l
unfolding has_prefix
part_IsInner (a ∷ b ∷ c ∷ l) h = ground arith
part_IsInner [] h = ground arith
part_IsInner (a ∷ []) h = ground arith
part_IsInner (a ∷ b ∷ []) h = ground arith

control_of_part :
    (l : Bytes) → has_prefix l (codes "=ypart ") ≡ true → has_prefix l (codes "=y") ≡ true
unfolding has_prefix
control_of_part (a ∷ b ∷ c ∷ l) h = ground arith
control_of_part [] h = ground arith
control_of_part (a ∷ []) h = ground arith
control_of_part (a ∷ b ∷ []) h = ground arith

pub end_not_begin :
    (l : Bytes) → has_prefix l (codes "=yend ") ≡ true → has_prefix l (codes "=ybegin ") ≡ false
unfolding has_prefix
end_not_begin (a ∷ b ∷ c ∷ l) h = ground arith
end_not_begin [] h = ground arith
end_not_begin (a ∷ []) h = ground arith
end_not_begin (a ∷ b ∷ []) h = ground arith

pub find_section_skip :
    (ls rest : List Bytes) (i : ℕ) (start : Option ℕ)
    → All IsInner ls
    → find_section (ls ++ rest) i start ≡ find_section rest (i + length ls) start
unfolding find_section
find_section_skip [] rest i start h = ap (λ n. find_section rest n start) (omega arith)
find_section_skip (l ∷ ls) rest i start ((p, q), h) =
    rw (p, q)
      (find_section_skip ls rest (i + 1) start h
        ∙ ap (λ n. find_section rest n start) (omega arith))

pub find_section_end :
    (f : Bytes) (rest : List Bytes) (i : ℕ) (start : Option ℕ)
    → has_prefix f (codes "=yend ") ≡ true
    → find_section (f ∷ rest) i start ≡ (start, some i)
unfolding find_section
find_section_end f rest i start h = rw (end_not_begin f h, h)

pub find_section_begin :
    (b : Bytes) (rest : List Bytes) (i : ℕ) (start : Option ℕ)
    → has_prefix b (codes "=ybegin ") ≡ true
    → find_section (b ∷ rest) i start ≡ find_section rest (i + 1) (some (i + 1))
unfolding find_section
find_section_begin b rest i start h = rw h

pub decode_lines-control :
    (ctl rest : List Bytes)
    → All (λ l. has_prefix l (codes "=ypart ") ≡ true) ctl
    → decode_lines (ctl ++ rest) ≡ decode_lines rest
unfolding decode_lines
decode_lines-control [] rest h = refl
decode_lines-control (l ∷ ctl) rest (p, h) =
    rw (control_of_part l p) (decode_lines-control ctl rest h)

pub decode_lines-EncodesAll :
    {lines : List Bytes} {out : Bytes} → EncodesAll lines out → decode_lines lines ≡ out
unfolding decode_lines
decode_lines-EncodesAll none_left = refl
decode_lines-EncodesAll (line_of e r) =
    rw (Encodes-no_control e, decode_line-Encodes e, decode_lines-EncodesAll r)
