-- ===== src/Stream/EncryptedRar/Verify.antt =====
-- What the verification of the encrypted reader shows, and the chaining input of a read.
use drakkar.Prelude.{
  ℕ, zero, suc, ◌*◌, ◌/◌, ◌≡◌, refl, sym, ◌∙◌, subst, ap, true, false, Option, none, some, [], ◌∷◌,
  ◌⊎◌, inl, inr, arith, ltb, if◌then◌else◌, length, take, Bool-cases, Option-cases,
}
use drakkar.Prelude.Bytes.{Bytes}
use drakkar.Prelude.Slices.{slice}
use drakkar.Stream.EncryptedRar.{
  block_size, verify_container_header, CipherError, CipherRead, failed, refused, unexpected_eof,
  unrecognized_container, EncryptedRarReader, chain_of, check_header, decrypt_block_aligned,
  cbc_decrypt,
}
use drakkar.Stream.EncryptedRar.Blocks.{KeepsBlocks, chain}
use drakkar.Stream.EncryptedRar.Plaintext.{IsPart, decrypted}

take_all : (n : ℕ) (b : Bytes) → length b ≡ n → take n b ≡ b
take_all zero [] h = refl
take_all zero (x ∷ b) h = absurd (omega arith)
take_all (suc n) [] h = refl
take_all (suc n) (x ∷ b) h = ap (λ l. x ∷ l) (take_all n b (omega arith))

-- The file begins like a video, once decrypted.
abbrev pub IsVideo : (Bytes → Bytes) → Bytes → Bytes → Type 0
IsVideo d iv c = verify_container_header (take 16 (cbc_decrypt d (length c / 16) iv c)) ≡ true

-- A verification that was passed says so.
abbrev pub IsChecked {ℓ} :
    {E : Type ℓ} → (Bytes → Bytes) → Bytes → Bytes → EncryptedRarReader E → Type ℓ
IsChecked {E = E} d iv c r =
    (r.iv ≡ iv) × (r.verified ≡ some (let n : Option (CipherError E) = none in n) → IsVideo d iv c)

-- A stop, or the right chaining input.
abbrev pub ChainIs {ℓ} : {E : Type ℓ} → Bytes → CipherRead E ⊎ Bytes → Type ℓ
ChainIs {E = E} b (inl r) = (e : CipherError E) × (r ≡ refused e)
ChainIs {E = E} b (inr q) = (q ≡ b) × Unit {ℓ}

module _ {ℓ} {E : Type ℓ} (d : Bytes → Bytes) (iv : Bytes) (r : CipherRead E) where
  check_header-stopped :
      (err : CipherError E) → failed r.error ≡ some err → check_header d iv r ≡ none → ⊥
  unfolding check_header
  check_header-stopped err f q = ground arith

  check_header-short :
      failed r.error ≡ none
      → ltb (length r.bytes) block_size ≡ true
      → check_header d iv r ≡ none
      → ⊥
  unfolding check_header
  check_header-short f t q = ground arith

  check_header-opened :
      {p : Bytes}
      → failed r.error ≡ none
      → ltb (length r.bytes) block_size ≡ false
      → decrypt_block_aligned d r.bytes iv ≡ some p
      → check_header d iv r
        ≡ (if verify_container_header p then none else some unrecognized_container)
  unfolding check_header
  check_header-opened f t q = rw (f, t, q, check_header) refl

module _ {ℓ} {E : Type ℓ} (iv : Bytes) (r : CipherRead E) where
  chain_of-stopped :
      (err : CipherError E) → failed r.error ≡ some err → chain_of iv r ≡ inl (refused err)
  unfolding chain_of
  chain_of-stopped err f = ground arith

  chain_of-short :
      failed r.error ≡ none
      → ltb (length r.bytes) block_size ≡ true
      → chain_of iv r ≡ inl (refused unexpected_eof)
  unfolding chain_of
  chain_of-short f t = ground arith

  chain_of-given :
      failed r.error ≡ none → ltb (length r.bytes) block_size ≡ false → chain_of iv r ≡ inr r.bytes
  unfolding chain_of
  chain_of-given f t = ground arith

accepted {ℓ} :
    {E : Type ℓ} (p : Bytes)
    → ◌≡◌ {A = Option (CipherError E)}
        (if verify_container_header p then none else some unrecognized_container)
        none
    → verify_container_header p ≡ true
accepted p h = elim (Bool-cases (verify_container_header p)) [
  | inl t ↦ t
  | inr t ↦ absurd (ground arith)
]

module _ {ℓ} {E : Type ℓ} (d : Bytes → Bytes) (keeps : KeepsBlocks d) (iv c : Bytes)
    (iv_block : length iv ≡ 16) where
  pub check_header-IsVideo :
      (r : CipherRead E) → IsPart c 0 16 r → check_header d iv r ≡ none → IsVideo d iv c
  check_header-IsVideo r (e, le, full) h = elim (Option-cases (failed r.error)) [
    | inr (err, f) ↦ absurd (check_header-stopped d iv r err f h)
    | inl f ↦ elim (Bool-cases (ltb (length r.bytes) block_size)) [
      | inl t ↦ absurd (check_header-short d iv r f t h)
      | inr t ↦
          let whole = decrypted d keeps iv c iv_block 0 1 r.bytes e (ground arith) (omega arith) in
          let l : length r.bytes ≡ 16 = ground arith in
          accepted {E = E} _ (
            sym (
              check_header-opened d iv r f t
                (ap (λ b. decrypt_block_aligned d b iv) (sym (take_all 16 r.bytes l)) ∙ whole))
            ∙ h)
    ]
  ]

  pub chain_of-ChainIs :
      (a : ℕ) (r : CipherRead E)
      → IsPart c (a * 16) 16 r
      → ChainIs (chain iv c (suc a)) (chain_of iv r)
  chain_of-ChainIs a r (e, le, full) = elim (Option-cases (failed r.error)) [
    | inr (err, f) ↦
        let u : chain_of iv r ≡ inl (refused err) = chain_of-stopped iv r err f in
        subst (ChainIs (chain iv c (suc a))) (sym u) (err, refl)
    | inl f ↦ elim (Bool-cases (ltb (length r.bytes) block_size)) [
      | inl t ↦ subst (ChainIs (chain iv c (suc a))) (sym (chain_of-short iv r f t)) (_, refl)
      | inr t ↦
          let l : length r.bytes ≡ 16 = ground arith in
          subst (ChainIs (chain iv c (suc a))) (sym (chain_of-given iv r f t))
            (e ∙ ap (λ k. slice (a * 16) k c) l, tt)
    ]
  ]
