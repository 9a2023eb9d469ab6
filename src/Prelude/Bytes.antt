-- ===== src/Prelude/Bytes.antt =====
-- Go strings and byte slices as lists of byte values, with the operations of the packages `strings`
-- and `bytes` that the program calls.
use Prim.Native.Nat.{ℕ, suc}
use Prim.Native.Char.{code}
use Prim.Native.String.{String}
use mathlib.Core.Path.{◌≡◌, refl}
use mathlib.Core.Logic.{◌↔◌}
use mathlib.Core.Bool.{Bool, true, false, ◌&&◌, ◌||◌}
use mathlib.Core.List.{List, [], ◌∷◌, ◌++◌}
use mathlib.Core.Option
use mathlib.Core.Option.{Option, none, some}
use native.Mathlib.Omega.{arith}
use drakkar.Prelude.Tests.{◌==◌, if◌then◌else◌}

abbrev pub Bytes : Type 0
Bytes = List ℕ

-- The code points of a literal: its bytes, since the literals of the program are ASCII.
abbrev pub codes : String → Bytes
codes String.[] = []
codes (String.◌∷◌ c s) = code c ∷ codes s

unfoldable pub bytes_eq : Bytes → Bytes → Bool
bytes_eq [] [] = true
bytes_eq [] (_ ∷ _) = false
bytes_eq (_ ∷ _) [] = false
bytes_eq (a ∷ s) (b ∷ t) = (a == b) && bytes_eq s t

pub bytes_eq_refl : (s : Bytes) → bytes_eq s s ≡ true
unfolding bytes_eq
bytes_eq_refl [] = refl
bytes_eq_refl (a ∷ s) = ground (arith, bytes_eq_refl s)

pub eq_of_bytes_eq : (s t : Bytes) → bytes_eq s t ≡ true → s ≡ t
unfolding bytes_eq
eq_of_bytes_eq [] [] h = refl
eq_of_bytes_eq [] (b ∷ t) h = cc
eq_of_bytes_eq (a ∷ s) [] h = cc
eq_of_bytes_eq (a ∷ s) (b ∷ t) h = ground (arith, eq_of_bytes_eq s t)

pub bytes_eq_iff : (s t : Bytes) → (bytes_eq s t ≡ true) ↔ (s ≡ t)
bytes_eq_iff s t = (eq_of_bytes_eq s t, λ e. rw e (bytes_eq_refl t))

-- strings.HasPrefix, bytes.HasPrefix.
unfoldable pub has_prefix : Bytes → Bytes → Bool
has_prefix s [] = true
has_prefix [] (_ ∷ _) = false
has_prefix (a ∷ s) (b ∷ p) = (a == b) && has_prefix s p

-- strings.Index, bytes.Index: `none` stands for -1.
unfoldable pub index : Bytes → Bytes → Option ℕ
unfolding has_prefix
index [] p = if has_prefix [] p then some 0 else none
index (a ∷ s) p =
    let rest = index s p in if has_prefix (a ∷ s) p then some 0 else Option.map suc rest

-- strings.Contains.
unfoldable pub contains : Bytes → Bytes → Bool
unfolding has_prefix
contains [] p = has_prefix [] p
contains (a ∷ s) p = has_prefix (a ∷ s) p || contains s p

pub has_prefix-append : (p s : Bytes) → has_prefix (p ++ s) p ≡ true
unfolding has_prefix
has_prefix-append [] s = refl
has_prefix-append (a ∷ p) s = ground (arith, has_prefix-append p s)

pub contains-append : (a p b : Bytes) → contains (a ++ (p ++ b)) p ≡ true
unfolding contains
contains-append [] p b = at_front (p ++ b) p (has_prefix-append p b)
  where
    at_front : (s q : Bytes) → has_prefix s q ≡ true → contains s q ≡ true
    at_front [] q h = h
    at_front (x ∷ s) q h = ground arith
contains-append (x ∷ a) p b = ground (arith, contains-append a p b)
