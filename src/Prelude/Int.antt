-- ===== src/Prelude/Int.antt =====
-- Signed integers over the native numbers, for Go's int and int64: sums and orders go through the
-- two parts of an integer, which are numbers that `omega` reads.
use Prim.Native.Nat.{ℕ, suc, ◌+◌, ◌-◌, ◌*◌, ◌%◌, ◌^◌, ◌≤◌, ◌<◌}
use mathlib.Core.Path.{◌≡◌}
use mathlib.Core.Bool.{Bool}
use native.Mathlib.Omega.{arith}
use drakkar.Prelude.Tests.{ltb, leb, ◌==◌, if◌then◌else◌}

-- `negsuc n` is -(n + 1).
pub data ℤ : Type 0 where
  pos : ℕ → ℤ
  negsuc : ℕ → ℤ

abbrev pub pos_part : ℤ → ℕ
pos_part (pos n) = n
pos_part (negsuc n) = 0

abbrev pub neg_part : ℤ → ℕ
neg_part (pos n) = 0
neg_part (negsuc n) = suc n

-- a - b, as an integer.
abbrev pub sub_ℕ : ℕ → ℕ → ℤ
sub_ℕ a b = if leb b a then pos (a - b) else negsuc (b - a - 1)

infixl 65 ◌+ℤ◌ ◌-ℤ◌
infix 50 ◌≤ℤ◌ ◌<ℤ◌
unfoldable pub ◌+ℤ◌ : ℤ → ℤ → ℤ
a +ℤ b = sub_ℕ (pos_part a + pos_part b) (neg_part a + neg_part b)

unfoldable pub ◌-ℤ◌ : ℤ → ℤ → ℤ
a -ℤ b = sub_ℕ (pos_part a + neg_part b) (neg_part a + pos_part b)

abbrev pub ◌≤ℤ◌ : ℤ → ℤ → Type 0
a ≤ℤ b = pos_part a + neg_part b ≤ pos_part b + neg_part a

abbrev pub ◌<ℤ◌ : ℤ → ℤ → Type 0
a <ℤ b = pos_part a + neg_part b < pos_part b + neg_part a

abbrev pub ltb_ℤ : ℤ → ℤ → Bool
ltb_ℤ a b = ltb (pos_part a + neg_part b) (pos_part b + neg_part a)

abbrev pub leb_ℤ : ℤ → ℤ → Bool
leb_ℤ a b = leb (pos_part a + neg_part b) (pos_part b + neg_part a)

abbrev pub eqb_ℤ : ℤ → ℤ → Bool
eqb_ℤ a b = (pos_part a + neg_part b) == (pos_part b + neg_part a)

abbrev pub min_ℤ : ℤ → ℤ → ℤ
min_ℤ a b = if ltb_ℤ b a then b else a

pub +ℤ_parts :
    (a b : ℤ)
    → pos_part (a +ℤ b) + neg_part a + neg_part b ≡ neg_part (a +ℤ b) + pos_part a + pos_part b
unfolding ◌+ℤ◌
+ℤ_parts a b = ground arith

pub -ℤ_parts :
    (a b : ℤ)
    → pos_part (a -ℤ b) + neg_part a + pos_part b ≡ neg_part (a -ℤ b) + pos_part a + neg_part b
unfolding ◌-ℤ◌
-ℤ_parts a b = ground arith

pub eq_of_parts : (a b : ℤ) → pos_part a + neg_part b ≡ pos_part b + neg_part a → a ≡ b
eq_of_parts a b h = ground arith

pub ruleset int_laws = (arith, +ℤ_parts, -ℤ_parts, eq_of_parts)

-- The sum of two int64 values, which wraps around at both ends of the range.
unfoldable pub add64 : ℤ → ℤ → ℤ
unfolding ◌+ℤ◌ ◌-ℤ◌
add64 a b =
    let s = a +ℤ b in
    if leb_ℤ (pos (2 ^ 63)) s
    then s -ℤ pos (2 ^ 64)
    else if ltb_ℤ (s +ℤ pos (2 ^ 63)) (pos 0)
    then s +ℤ pos (2 ^ 64)
    else s

-- The difference of two int64 values, which wraps around likewise.
unfoldable pub sub64 : ℤ → ℤ → ℤ
unfolding ◌+ℤ◌ ◌-ℤ◌
sub64 a b =
    let s = a -ℤ b in
    if leb_ℤ (pos (2 ^ 63)) s
    then s -ℤ pos (2 ^ 64)
    else if ltb_ℤ (s +ℤ pos (2 ^ 63)) (pos 0)
    then s +ℤ pos (2 ^ 64)
    else s

-- The value lies in the range of int64.
abbrev pub IsInt64 : ℤ → Type 0
IsInt64 a = (pos_part a < 2 ^ 63) × (neg_part a ≤ 2 ^ 63)

-- A sum that fits is exact; one of numbers that are not negative and that does not fit turns negative.
pub add64_fits :
    (a b : ℤ)
    → pos 0 ≤ℤ a
    → pos 0 ≤ℤ b
    → IsInt64 a
    → IsInt64 b
    → IsInt64 (a +ℤ b)
    → add64 a b ≡ a +ℤ b
unfolding add64
add64_fits a b h k p q r = ground arith

pub add64_wraps :
    (a b : ℤ)
    → pos 0 ≤ℤ a
    → pos 0 ≤ℤ b
    → IsInt64 a
    → IsInt64 b
    → ¬ IsInt64 (a +ℤ b)
    → add64 a b <ℤ a
unfolding add64
add64_wraps a b h k p q r = ground arith

pub add64_grows :
    (a b : ℤ)
    → pos 0 ≤ℤ a
    → pos 0 ≤ℤ b
    → IsInt64 a
    → IsInt64 b
    → a ≤ℤ add64 a b
    → add64 a b ≡ a +ℤ b
unfolding add64 ◌+ℤ◌
add64_grows a b h k p q r = ground arith

pub sub64_pos : (a : ℤ) (o : ℕ) → pos o ≤ℤ a → IsInt64 a → sub64 a (pos o) ≡ pos (pos_part a - o)
unfolding sub64
sub64_pos a o h f = ground arith

pub add64_pos : (a b : ℕ) → a + b < 2 ^ 63 → add64 (pos a) (pos b) ≡ pos (a + b)
unfolding add64
add64_pos a b h = ground arith

pub sub64_pos_pos : (x a : ℕ) → a ≤ x → x < 2 ^ 63 → sub64 (pos x) (pos a) ≡ pos (x - a)
unfolding sub64
sub64_pos_pos x a h k = ground arith

-- The product of two int64 values that are not negative, which wraps around.
unfoldable pub times64 : ℕ → ℕ → ℤ
times64 i d = let m = i * d % 2 ^ 64 in if ltb m (2 ^ 63) then pos m else negsuc (2 ^ 64 - m - 1)

pub times64_fits : (i d : ℕ) → i * d < 2 ^ 63 → times64 i d ≡ pos (i * d)
unfolding times64
times64_fits i d h = let e : i * d % 2 ^ 64 ≡ i * d = omega arith in rw e (ground arith)
