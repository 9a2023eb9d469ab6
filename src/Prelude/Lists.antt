-- ===== src/Prelude/Lists.antt =====
-- Lists measured and indexed by the native numbers, with predicates that compute.
use Prim.Native.Nat.{ℕ, zero, suc, ◌+◌, ◌-◌, ◌<◌, min}
use mathlib.Core.Path.{◌≡◌, refl, ap, subst}
use mathlib.Core.Logic.{◌≢◌, ◌⊎◌, inl, inr}
use mathlib.Core.List.{List, [], ◌∷◌, ◌++◌}
use mathlib.Core.Option.{Option, none, some, some-injective}
use native.Mathlib.Omega.{arith}

module _ {ℓ} {A : Type ℓ} where
  abbrev pub length : List A → ℕ
  length [] = 0
  length (x ∷ xs) = suc (length xs)

  abbrev pub get_elem? : List A → ℕ → Option A
  get_elem? [] i = none
  get_elem? (x ∷ xs) zero = some x
  get_elem? (x ∷ xs) (suc i) = get_elem? xs i

  -- A write out of bounds changes nothing.
  abbrev pub set : List A → ℕ → A → List A
  set [] i v = []
  set (x ∷ xs) zero v = v ∷ xs
  set (x ∷ xs) (suc i) v = x ∷ set xs i v

  abbrev pub take : ℕ → List A → List A
  take zero xs = []
  take (suc n) [] = []
  take (suc n) (x ∷ xs) = x ∷ take n xs

  abbrev pub drop : ℕ → List A → List A
  drop zero xs = xs
  drop (suc n) [] = []
  drop (suc n) (x ∷ xs) = drop n xs

  abbrev pub replicate : ℕ → A → List A
  replicate zero a = []
  replicate (suc n) a = a ∷ replicate n a

  abbrev pub All {κ} : (A → Type κ) → List A → Type κ
  All P [] = Unit
  All P (x ∷ xs) = P x × All P xs

module _ {ℓ} {A : Type ℓ} where
  pub length-append : (xs ys : List A) → length (xs ++ ys) ≡ length xs + length ys
  length-append [] ys = omega arith
  length-append (x ∷ xs) ys = omega (arith, length-append xs ys)

  pub length-drop : (n : ℕ) (xs : List A) → length (drop n xs) ≡ length xs - n
  length-drop zero xs = omega arith
  length-drop (suc n) [] = omega arith
  length-drop (suc n) (x ∷ xs) = omega (arith, length-drop n xs)

  pub length-take : (n : ℕ) (xs : List A) → length (take n xs) ≡ min n (length xs)
  length-take zero xs = omega arith
  length-take (suc n) [] = omega arith
  length-take (suc n) (x ∷ xs) = omega (arith, length-take n xs)

  pub take-length-append : (xs ys : List A) → take (length xs) (xs ++ ys) ≡ xs
  take-length-append [] ys = refl
  take-length-append (x ∷ xs) ys = ap (λ l. x ∷ l) (take-length-append xs ys)

  pub drop-length-append : (xs ys : List A) → drop (length xs) (xs ++ ys) ≡ ys
  drop-length-append [] ys = refl
  drop-length-append (x ∷ xs) ys = drop-length-append xs ys

  pub All-append {κ} : (P : A → Type κ) (xs ys : List A) → All P xs → All P ys → All P (xs ++ ys)
  All-append P [] ys _ hy = hy
  All-append P (x ∷ xs) ys (px, hx) hy = (px, All-append P xs ys hx hy)

module _ {ℓ} {A : Type ℓ} where
  pub length-set : (xs : List A) (i : ℕ) (v : A) → length (set xs i v) ≡ length xs
  length-set [] i v = refl
  length-set (x ∷ xs) zero v = refl
  length-set (x ∷ xs) (suc i) v = ap suc (length-set xs i v)

  pub get_elem?-set_self :
      (xs : List A) (i : ℕ) (v : A) {x : A}
      → get_elem? xs i ≡ some x
      → get_elem? (set xs i v) i ≡ some v
  get_elem?-set_self [] i v h = cc
  get_elem?-set_self (x ∷ xs) zero v h = refl
  get_elem?-set_self (x ∷ xs) (suc i) v h = get_elem?-set_self xs i v h

  pub get_elem?-lt : (xs : List A) (i : ℕ) → i < length xs → (x : A) × (get_elem? xs i ≡ some x)
  get_elem?-lt [] i h = absurd (omega arith)
  get_elem?-lt (x ∷ xs) zero h = (x, refl)
  get_elem?-lt (x ∷ xs) (suc i) h = get_elem?-lt xs i (omega arith)

  pub All-set {κ} :
      (P : A → Type κ) (xs : List A) (i : ℕ) (v : A) → All P xs → P v → All P (set xs i v)
  All-set P [] i v h p = tt
  All-set P (x ∷ xs) zero v (_, h) p = (p, h)
  All-set P (x ∷ xs) (suc i) v (q, h) p = (q, All-set P xs i v h p)

  pub All-get_elem? {κ} :
      (P : A → Type κ) (xs : List A) (i : ℕ) {x : A} → All P xs → get_elem? xs i ≡ some x → P x
  All-get_elem? P [] i h e = cc
  All-get_elem? P (y ∷ xs) zero {x} (p, h) e = subst P (some-injective _ _ e) p
  All-get_elem? P (y ∷ xs) (suc i) (p, h) e = All-get_elem? P xs i h e

  pub All-replicate {κ} : (P : A → Type κ) (n : ℕ) (a : A) → P a → All P (replicate n a)
  All-replicate P zero a p = tt
  All-replicate P (suc n) a p = (p, All-replicate P n a p)

  pub length-replicate : (n : ℕ) (a : A) → length (replicate n a) ≡ n
  length-replicate zero a = refl
  length-replicate (suc n) a = ap suc (length-replicate n a)

pub List-cases {ℓ} : {A : Type ℓ} (l : List A) → (l ≡ []) ⊎ ((x : A) × (xs : List A) × (l ≡ x ∷ xs))
List-cases [] = inl refl
List-cases (x ∷ xs) = inr (x, xs, refl)

module _ {ℓ} {A : Type ℓ} where
  -- A place after a write is the one that was written, or was there before.
  pub set_cases :
      (xs : List A) (i : ℕ) (v : A) (j : ℕ) {x : A}
      → get_elem? (set xs i v) j ≡ some x
      → ((j ≡ i) × (x ≡ v)) ⊎ ((j ≢ i) × (get_elem? xs j ≡ some x))
  set_cases [] i v j h = absurd (cc)
  set_cases (y ∷ xs) zero v zero h = inl (refl, ground arith)
  set_cases (y ∷ xs) zero v (suc j) h = inr (λ e. absurd (omega arith), h)
  set_cases (y ∷ xs) (suc i) v zero h = inr (λ e. absurd (omega arith), h)
  set_cases (y ∷ xs) (suc i) v (suc j) h = elim (set_cases xs i v j h) [
    | inl (e, q) ↦ inl (ap suc e, q)
    | inr (e, q) ↦ inr (λ z. e (omega arith), q)
  ]

  pub get_elem?-set_ne :
      (xs : List A) (i : ℕ) (v : A) (j : ℕ) → j ≢ i → get_elem? (set xs i v) j ≡ get_elem? xs j
  get_elem?-set_ne [] i v j h = refl
  get_elem?-set_ne (y ∷ xs) zero v zero h = absurd (h refl)
  get_elem?-set_ne (y ∷ xs) zero v (suc j) h = refl
  get_elem?-set_ne (y ∷ xs) (suc i) v zero h = refl
  get_elem?-set_ne (y ∷ xs) (suc i) v (suc j) h = get_elem?-set_ne xs i v j (λ e. h (ap suc e))

  -- A place of a longer list is one of the list, or the one behind it.
  pub append_cases :
      (xs : List A) (v : A) (j : ℕ) {x : A}
      → get_elem? (xs ++ v ∷ []) j ≡ some x
      → ((get_elem? xs j ≡ some x) × (j < length xs)) ⊎ ((j ≡ length xs) × (x ≡ v))
  append_cases [] v zero h = inr (ground arith, ground arith)
  append_cases [] v (suc j) h = absurd (cc)
  append_cases (x ∷ xs) v zero h = inl (h, omega arith)
  append_cases (x ∷ xs) v (suc j) h = elim (append_cases xs v j h) [
    | inl (e, l) ↦ inl (e, omega arith)
    | inr (e, q) ↦ inr (omega arith, q)
  ]

  pub get_elem?-last : (xs : List A) (v : A) → get_elem? (xs ++ v ∷ []) (length xs) ≡ some v
  get_elem?-last [] v = refl
  get_elem?-last (x ∷ xs) v = get_elem?-last xs v

  pub get_elem?-append :
      (xs : List A) (v : A) (j : ℕ) {x : A}
      → get_elem? xs j ≡ some x
      → get_elem? (xs ++ v ∷ []) j ≡ some x
  get_elem?-append [] v j h = absurd (cc)
  get_elem?-append (y ∷ xs) v zero h = h
  get_elem?-append (y ∷ xs) v (suc j) h = get_elem?-append xs v j h
