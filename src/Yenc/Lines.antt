-- ===== src/Yenc/Lines.antt =====
-- internal/yenc/helpers.go, splitLines: line ends are made uniform, and the body is cut at them.
pub mod Join
use drakkar.Prelude.{
  ℕ, zero, suc, ◌≡◌, ◌≢◌, refl, Bool, true, false, ◌&&◌, ◌||◌, List, [], ◌∷◌, ◌++◌, arith, ◌==◌,
  if◌then◌else◌, All,
}
use drakkar.Prelude.Bytes.{Bytes}

abbrev pub cr : ℕ
cr = b'\r'

abbrev pub lf : ℕ
lf = b'\n'

-- strings.ReplaceAll(s, "\r\n", "\n")
unfoldable pub crlf_to_lf : Bytes → Bytes
crlf_to_lf [] = []
crlf_to_lf (a ∷ []) = a ∷ []
crlf_to_lf (a ∷ b ∷ s) =
    let short = lf ∷ crlf_to_lf s in
    let rest = a ∷ crlf_to_lf (b ∷ s) in if (a == cr) && (b == lf) then short else rest

-- strings.ReplaceAll(s, "\r", "\n")
unfoldable pub cr_to_lf : Bytes → Bytes
cr_to_lf [] = []
cr_to_lf (a ∷ s) = (if a == cr then lf else a) ∷ cr_to_lf s

-- strings.Split(s, "\n"), with the current piece as an accumulator.
unfoldable pub split_from : Bytes → Bytes → List Bytes
split_from cur [] = cur ∷ []
split_from cur (a ∷ s) =
    let cut = cur ∷ split_from [] s in
    let more = split_from (cur ++ a ∷ []) s in if a == lf then cut else more

unfoldable pub split_lines : Bytes → List Bytes
unfolding crlf_to_lf cr_to_lf split_from
split_lines body = split_from [] (cr_to_lf (crlf_to_lf body))
