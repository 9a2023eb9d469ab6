-- ===== src/Yenc/Lines/Join.antt =====
-- Splitting a body gives back the lines that were joined to it.
use drakkar.Prelude.{
  ◌≡◌, ◌≢◌, refl, sym, ap, ◌∙◌, List, [], ◌∷◌, ◌++◌, arith, All, append_assoc, append-nil,
}
use drakkar.Prelude.Bytes.{Bytes}
use drakkar.Yenc.Lines.{cr, lf, crlf_to_lf, cr_to_lf, split_from, split_lines}

-- The bytes of a line: neither line end.
abbrev pub IsLine : Bytes → Type 0
IsLine = All (λ c. (c ≢ cr) × (c ≢ lf))

-- The lines with a CRLF between each two, as NNTP sends them.
abbrev pub join_crlf : List Bytes → Bytes
join_crlf [] = []
join_crlf (l ∷ []) = l
join_crlf (l ∷ l' ∷ ls) = l ++ cr ∷ lf ∷ join_crlf (l' ∷ ls)

-- The same with a single LF.
abbrev join_lf : List Bytes → Bytes
join_lf [] = []
join_lf (l ∷ []) = l
join_lf (l ∷ l' ∷ ls) = l ++ lf ∷ join_lf (l' ∷ ls)

crlf_to_lf-line : (l : Bytes) → IsLine l → crlf_to_lf l ≡ l
unfolding crlf_to_lf
crlf_to_lf-line [] h = refl
crlf_to_lf-line (a ∷ []) h = refl
crlf_to_lf-line (a ∷ b ∷ l) (p, h) = ground (arith, crlf_to_lf-line (b ∷ l) h)

crlf_to_lf-append :
    (l s : Bytes) → IsLine l → crlf_to_lf (l ++ cr ∷ lf ∷ s) ≡ l ++ lf ∷ crlf_to_lf s
unfolding crlf_to_lf
crlf_to_lf-append [] s h = refl
crlf_to_lf-append (a ∷ []) s (p, h) = ground arith
crlf_to_lf-append (a ∷ b ∷ l) s (p, h) = ground (arith, crlf_to_lf-append (b ∷ l) s h)

crlf_to_lf-join : (ls : List Bytes) → All IsLine ls → crlf_to_lf (join_crlf ls) ≡ join_lf ls
crlf_to_lf-join [] h = unfold crlf_to_lf in refl
crlf_to_lf-join (l ∷ []) (p, h) = crlf_to_lf-line l p
crlf_to_lf-join (l ∷ l' ∷ ls) (p, h) =
    crlf_to_lf-append l (join_crlf (l' ∷ ls)) p
    ∙ ap (λ s. l ++ lf ∷ s) (crlf_to_lf-join (l' ∷ ls) h)

cr_to_lf-append : (l s : Bytes) → IsLine l → cr_to_lf (l ++ s) ≡ l ++ cr_to_lf s
unfolding cr_to_lf
cr_to_lf-append [] s h = refl
cr_to_lf-append (a ∷ l) s ((p, q), h) = ground (arith, cr_to_lf-append l s h)

cr_to_lf-join : (ls : List Bytes) → All IsLine ls → cr_to_lf (join_lf ls) ≡ join_lf ls
cr_to_lf-join [] h = unfold cr_to_lf in refl
cr_to_lf-join (l ∷ []) (p, h) =
    ap cr_to_lf (sym (append-nil l)) ∙ (cr_to_lf-append l [] p ∙ unfold cr_to_lf in append-nil l)
cr_to_lf-join (l ∷ l' ∷ ls) (p, h) =
    cr_to_lf-append l (lf ∷ join_lf (l' ∷ ls)) p
    ∙ ap (λ s. l ++ s) (kept_lf (join_lf (l' ∷ ls)) (cr_to_lf-join (l' ∷ ls) h))
  where
    kept_lf : (s : Bytes) → cr_to_lf s ≡ s → cr_to_lf (lf ∷ s) ≡ lf ∷ s
    kept_lf s e = unfold cr_to_lf in ap (λ t. lf ∷ t) e

split_from-line : (l cur : Bytes) → IsLine l → split_from cur l ≡ (cur ++ l) ∷ []
unfolding split_from
split_from-line [] cur h = rw append-nil
split_from-line (a ∷ l) cur ((p, q), h) =
    ground (arith, split_from-line l (cur ++ a ∷ []) h, append_assoc cur (a ∷ []) l)

split_from-append :
    (l s cur : Bytes) → IsLine l → split_from cur (l ++ lf ∷ s) ≡ (cur ++ l) ∷ split_from [] s
unfolding split_from
split_from-append [] s cur h = rw append-nil refl
split_from-append (a ∷ l) s cur ((p, q), h) =
    ground (arith, split_from-append l s (cur ++ a ∷ []) h, append_assoc cur (a ∷ []) l)

split_from-join :
    (l : Bytes) (ls : List Bytes) → All IsLine (l ∷ ls) → split_from [] (join_lf (l ∷ ls)) ≡ l ∷ ls
split_from-join l [] (p, h) = split_from-line l [] p
split_from-join l (l' ∷ ls) (p, h) =
    split_from-append l (join_lf (l' ∷ ls)) [] p ∙ ap (λ s. l ∷ s) (split_from-join l' ls h)

-- Lines without line ends in them, joined by CRLF, are what splitLines gives back.
pub split_lines-join_crlf :
    (l : Bytes) (ls : List Bytes) → All IsLine (l ∷ ls) → split_lines (join_crlf (l ∷ ls)) ≡ l ∷ ls
unfolding split_lines
split_lines-join_crlf l ls h =
    rw (crlf_to_lf-join (l ∷ ls) h, cr_to_lf-join (l ∷ ls) h) (split_from-join l ls h)
