-- ===== src/Prelude/Slices.antt =====
-- Parts of lists: `slice a n xs` are the `n` elements from position `a` on.
use Prim.Native.Nat.{ℕ, zero, suc, ◌+◌, ◌-◌, ◌≤◌}
use mathlib.Core.Path.{◌≡◌, refl, ap, sym}
use mathlib.Core.List.{List, [], ◌∷◌, ◌++◌}
use native.Mathlib.Omega.{arith}
use drakkar.Prelude.Lists.{take, drop, length, length-take, length-drop}

module _ {ℓ} {A : Type ℓ} where
  abbrev pub slice : ℕ → ℕ → List A → List A
  slice a n xs = take n (drop a xs)

  pub take_none : (n : ℕ) → take n (let xs : List A = [] in xs) ≡ []
  take_none zero = refl
  take_none (suc n) = refl

  pub drop_none : (n : ℕ) → drop n (let xs : List A = [] in xs) ≡ []
  drop_none zero = refl
  drop_none (suc n) = refl

  -- A part that is cut once more at its end.
  pub take-take : (m n : ℕ) (xs : List A) → m ≤ n → take m (take n xs) ≡ take m xs
  take-take zero n xs h = refl
  take-take (suc m) zero xs h = absurd (omega arith)
  take-take (suc m) (suc n) [] h = refl
  take-take (suc m) (suc n) (x ∷ xs) h = ap (λ l. x ∷ l) (take-take m n xs (omega arith))

  pub take-add : (m n : ℕ) (xs : List A) → take (m + n) xs ≡ take m xs ++ take n (drop m xs)
  take-add zero n xs = let e : 0 + n ≡ n = omega arith in rw e refl
  take-add (suc m) n [] = let e : suc m + n ≡ suc (m + n) = omega arith in rw (e, take_none n) refl
  take-add (suc m) n (x ∷ xs) =
      let e : suc m + n ≡ suc (m + n) = omega arith in rw e (ap (λ l. x ∷ l) (take-add m n xs))

  pub drop-drop : (m n : ℕ) (xs : List A) → drop n (drop m xs) ≡ drop (m + n) xs
  drop-drop zero n xs = let e : 0 + n ≡ n = omega arith in rw e refl
  drop-drop (suc m) n [] = let e : suc m + n ≡ suc (m + n) = omega arith in rw (e, drop_none n) refl
  drop-drop (suc m) n (x ∷ xs) =
      let e : suc m + n ≡ suc (m + n) = omega arith in rw e (drop-drop m n xs)

  pub drop-take : (m n : ℕ) (xs : List A) → drop m (take n xs) ≡ take (n - m) (drop m xs)
  drop-take zero n xs = let e : n - 0 ≡ n = omega arith in rw e refl
  drop-take (suc m) zero xs = let e : 0 - suc m ≡ 0 = omega arith in rw e refl
  drop-take (suc m) (suc n) [] = sym (take_none (suc n - suc m))
  drop-take (suc m) (suc n) (x ∷ xs) =
      let e : suc n - suc m ≡ n - m = omega arith in rw e (drop-take m n xs)

  -- Two parts, the second of which begins where the first ends.
  pub slice-append :
      (a m n : ℕ) (xs : List A) → slice a m xs ++ slice (a + m) n xs ≡ slice a (m + n) xs
  slice-append a m n xs = rw (take-add m n (drop a xs), drop-drop a m xs) refl

  -- A part of a part.
  pub slice-slice :
      (a n b k : ℕ) (xs : List A) → b + k ≤ n → slice b k (slice a n xs) ≡ slice (a + b) k xs
  slice-slice a n b k xs h =
      rw
        (
          drop-take b n (drop a xs),
          drop-drop a b xs,
          take-take k (n - b) (drop (a + b) xs) (omega arith),
        )
        refl

  pub length-slice : (a n : ℕ) (xs : List A) → a + n ≤ length xs → length (slice a n xs) ≡ n
  length-slice a n xs h =
      let t = length-take n (drop a xs) in let d = length-drop a xs in omega arith
