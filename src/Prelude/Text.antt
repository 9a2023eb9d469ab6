-- ===== src/Prelude/Text.antt =====
-- strings.TrimSpace and strings.ToLower, on ASCII strings: other white space and other capitals are
-- left as they are.
use drakkar.Prelude.Tests.{leb, ◌==◌, if◌then◌else◌, Bool-cases}
use Prim.Native.Nat.{ℕ, ◌+◌}
use mathlib.Core.Path.{◌≡◌}
use mathlib.Core.Logic.{inl, inr}
use mathlib.Core.Bool.{Bool, true, false, ◌&&◌, ◌||◌, not}
use mathlib.Core.List.{[], ◌∷◌}
use native.Mathlib.Omega.{arith}
use drakkar.Prelude.Bytes.{Bytes, has_prefix, contains}

abbrev pub is_space : ℕ → Bool
is_space b = (b == 32) || (leb 9 b && leb b 13)

unfoldable pub trim_left : Bytes → Bytes
trim_left [] = []
trim_left (b ∷ s) = let rest = trim_left s in if is_space b then rest else b ∷ s

-- `b ∷ s` where only the white space at the end of `s` is gone.
unfoldable pub keep_left : ℕ → Bytes → Bytes
keep_left b [] = if is_space b then [] else b ∷ []
keep_left b (c ∷ s) = b ∷ c ∷ s

unfoldable pub trim_right : Bytes → Bytes
unfolding keep_left
trim_right [] = []
trim_right (b ∷ s) = keep_left b (trim_right s)

unfoldable pub trim_space : Bytes → Bytes
unfolding trim_left trim_right
trim_space s = trim_right (trim_left s)

abbrev pub lower : ℕ → ℕ
lower b = if leb 65 b && leb b 90 then b + 32 else b

unfoldable pub to_lower : Bytes → Bytes
to_lower [] = []
to_lower (b ∷ s) = lower b ∷ to_lower s

-- A text in lower case that neither begins nor ends with white space.
abbrev pub plain_from : ℕ → Bytes → Bool
plain_from b [] = not (is_space b) && (lower b == b)
plain_from b (c ∷ s) = (lower b == b) && plain_from c s

abbrev pub plain : Bytes → Bool
plain [] = false
plain (b ∷ s) = not (is_space b) && plain_from b s

has_prefix-trim_right :
    (s : Bytes) (b : ℕ) (p : Bytes)
    → plain_from b p ≡ true
    → has_prefix s (b ∷ p) ≡ true
    → has_prefix (trim_right s) (b ∷ p) ≡ true
unfolding has_prefix trim_right keep_left
has_prefix-trim_right [] b p h k = ground arith
has_prefix-trim_right (a ∷ s) b [] h k = ground arith
has_prefix-trim_right (a ∷ s) b (c ∷ p) h k = ground (arith, has_prefix-trim_right s c p)

contains-of_prefix : (s p : Bytes) → has_prefix s p ≡ true → contains s p ≡ true
unfolding contains
contains-of_prefix [] p h = h
contains-of_prefix (a ∷ s) p h = rw h

contains-keep_left :
    (a b : ℕ) (s p : Bytes) → contains s (b ∷ p) ≡ true → contains (keep_left a s) (b ∷ p) ≡ true
unfolding contains has_prefix keep_left
contains-keep_left a b [] p h = ground arith
contains-keep_left a b (c ∷ s) p h = ground arith

contains-trim_right :
    (s : Bytes) (b : ℕ) (p : Bytes)
    → plain_from b p ≡ true
    → contains s (b ∷ p) ≡ true
    → contains (trim_right s) (b ∷ p) ≡ true
unfolding contains trim_right
contains-trim_right [] b p h k = k
contains-trim_right (a ∷ s) b p h k = elim (Bool-cases (has_prefix (a ∷ s) (b ∷ p))) [
  | inl t ↦ contains-of_prefix (trim_right (a ∷ s)) (b ∷ p) (has_prefix-trim_right (a ∷ s) b p h t)
  | inr t ↦
      contains-keep_left a b (trim_right s) p
        (contains-trim_right s b p h (let k' : contains s (b ∷ p) ≡ true = ground arith in k'))
]

contains-trim_left :
    (s : Bytes) (b : ℕ) (p : Bytes)
    → is_space b ≡ false
    → contains s (b ∷ p) ≡ true
    → contains (trim_left s) (b ∷ p) ≡ true
unfolding contains has_prefix trim_left
contains-trim_left [] b p h k = k
contains-trim_left (a ∷ s) b p h k = ground (arith, contains-trim_left s b p)

has_prefix-to_lower :
    (s : Bytes) (b : ℕ) (p : Bytes)
    → plain_from b p ≡ true
    → has_prefix s (b ∷ p) ≡ true
    → has_prefix (to_lower s) (b ∷ p) ≡ true
unfolding has_prefix to_lower
has_prefix-to_lower [] b p h k = ground arith
has_prefix-to_lower (a ∷ s) b [] h k = ground arith
has_prefix-to_lower (a ∷ s) b (c ∷ p) h k = ground (arith, has_prefix-to_lower s c p)

contains-to_lower :
    (s : Bytes) (b : ℕ) (p : Bytes)
    → plain_from b p ≡ true
    → contains s (b ∷ p) ≡ true
    → contains (to_lower s) (b ∷ p) ≡ true
unfolding contains to_lower
contains-to_lower [] b p h k = k
contains-to_lower (a ∷ s) b p h k =
    ground (arith, contains-to_lower s b p, has_prefix-to_lower (a ∷ s) b p)

-- Normalizing a text keeps what it contains in lower case.
pub contains-normalized :
    (s p : Bytes)
    → plain p ≡ true
    → contains s p ≡ true
    → contains (to_lower (trim_space s)) p ≡ true
unfolding trim_space
contains-normalized s [] h k = ground arith
contains-normalized s (b ∷ p) h k =
    contains-to_lower (trim_right (trim_left s)) b p (ground arith) (
      contains-trim_right (trim_left s) b p (ground arith)
        (contains-trim_left s b p (ground arith) k))
