-- ===== src/Stream/EncryptedRar/Blocks.antt =====
-- Decryption of a part of the ciphertext, from a block boundary on.
use drakkar.Prelude.{
  ℕ, zero, suc, ◌+◌, ◌-◌, ◌*◌, ◌≤◌, ◌≡◌, refl, sym, ◌∙◌, ap, [], ◌∷◌, ◌++◌, arith, length, take,
  drop, length-append, length-take, length-drop, append_assoc, take-length-append,
  drop-length-append,
}
use drakkar.Prelude.Bytes.{Bytes}
use drakkar.Prelude.Slices.{slice, drop-drop, take-take, drop-take}
use drakkar.Stream.EncryptedRar.{xor_bytes, cbc_decrypt}

pub length-xor_bytes :
    (a b : Bytes) (n : ℕ) → length a ≡ n → length b ≡ n → length (xor_bytes a b) ≡ n
unfolding xor_bytes
length-xor_bytes [] b n p q = p
length-xor_bytes (x ∷ a) [] n p q = absurd (omega arith)
length-xor_bytes (x ∷ a) (y ∷ b) n p q =
    omega (arith, length-xor_bytes a b (n - 1) (omega arith) (omega arith))

-- The chaining input of the `a`-th block.
abbrev pub chain : Bytes → Bytes → ℕ → Bytes
chain iv ciphertext zero = iv
chain iv ciphertext (suc a) = slice (a * 16) 16 ciphertext

-- The block cipher gives a block for a block.
abbrev pub KeepsBlocks : (Bytes → Bytes) → Type 0
KeepsBlocks d = (b : Bytes) → length b ≡ 16 → length (d b) ≡ 16

module _ (d : Bytes → Bytes) (keeps : KeepsBlocks d) where
  pub length-cbc_decrypt :
      (n : ℕ) (iv c : Bytes)
      → length iv ≡ 16
      → n * 16 ≤ length c
      → length (cbc_decrypt d n iv c) ≡ n * 16
  unfolding cbc_decrypt
  length-cbc_decrypt zero iv c i h = refl
  length-cbc_decrypt (suc n) iv c i h =
      let block : length (take 16 c) ≡ 16 = omega (arith, length-take 16 c) in
      let head = length-xor_bytes (d (take 16 c)) iv 16 (keeps (take 16 c) block) i in
      let rest =
        length-cbc_decrypt n (take 16 c) (drop 16 c) block (omega (arith, length-drop 16 c)) in
      omega (
        arith,
        length-append (xor_bytes (d (take 16 c)) iv) (cbc_decrypt d n (take 16 c) (drop 16 c)),
      )

  -- Only the blocks that are decrypted are read.
  cbc_decrypt-take :
      (n : ℕ) (iv c : Bytes) → cbc_decrypt d n iv (take (n * 16) c) ≡ cbc_decrypt d n iv c
  unfolding cbc_decrypt
  cbc_decrypt-take zero iv c = refl
  cbc_decrypt-take (suc n) iv c =
      let first = take-take 16 (suc n * 16) c (omega arith) in
      let e : suc n * 16 - 16 ≡ n * 16 = omega arith in
      let rest : drop 16 (take (suc n * 16) c) ≡ take (n * 16) (drop 16 c) =
        drop-take 16 (suc n * 16) c ∙ ap (λ k. take k (drop 16 c)) e in
      ap (λ (b : Bytes). xor_bytes (d b) iv ++ cbc_decrypt d n b (drop 16 (take (suc n * 16) c)))
        first
      ∙ ap (λ r. xor_bytes (d (take 16 c)) iv ++ r)
          (ap (cbc_decrypt d n (take 16 c)) rest ∙ cbc_decrypt-take n (take 16 c) (drop 16 c))

  chain-drop : (iv c : Bytes) (a : ℕ) → chain (take 16 c) (drop 16 c) a ≡ chain iv c (suc a)
  chain-drop iv c zero = refl
  chain-drop iv c (suc a) =
      let e : 16 + a * 16 ≡ suc a * 16 = omega arith in
      ap (take 16) (drop-drop 16 (a * 16) c ∙ ap (λ k. drop k c) e)

  cbc_decrypt-drop :
      (a n : ℕ) (iv c : Bytes)
      → length iv ≡ 16
      → (a + n) * 16 ≤ length c
      → drop (a * 16) (cbc_decrypt d (a + n) iv c)
        ≡ cbc_decrypt d n (chain iv c a) (drop (a * 16) c)
  cbc_decrypt-drop zero n iv c i h =
      let e : 0 + n ≡ n = omega arith in ap (λ k. cbc_decrypt d k iv c) e
  cbc_decrypt-drop (suc a) n iv c i h =
      let e : suc a + n ≡ suc (a + n) = omega arith in
      let block : length (take 16 c) ≡ 16 = omega (arith, length-take 16 c) in
      let head : length (xor_bytes (d (take 16 c)) iv) ≡ 16 =
        length-xor_bytes (d (take 16 c)) iv 16 (keeps (take 16 c) block) i in
      let s : 16 + a * 16 ≡ suc a * 16 = omega arith in
      let behind : drop 16 (cbc_decrypt d (suc (a + n)) iv c)
          ≡ cbc_decrypt d (a + n) (take 16 c) (drop 16 c) =
        first_block (a + n) iv c head in
      ap (λ k. drop (suc a * 16) (cbc_decrypt d k iv c)) e
      ∙ (ap (λ k. drop k (cbc_decrypt d (suc (a + n)) iv c)) (sym s)
          ∙ (sym (drop-drop 16 (a * 16) (cbc_decrypt d (suc (a + n)) iv c))
              ∙ (ap (drop (a * 16)) behind
                  ∙ (cbc_decrypt-drop a n (take 16 c) (drop 16 c) block
                        (omega (arith, length-drop 16 c))
                      ∙ (ap (λ b. cbc_decrypt d n b (drop (a * 16) (drop 16 c))) (chain-drop iv c a)
                          ∙ ap (cbc_decrypt d n (chain iv c (suc a)))
                              (drop-drop 16 (a * 16) c ∙ ap (λ k. drop k c) s))))))
    where
      first_block :
          (k : ℕ) (iv c : Bytes)
          → length (xor_bytes (d (take 16 c)) iv) ≡ 16
          → drop 16 (cbc_decrypt d (suc k) iv c) ≡ cbc_decrypt d k (take 16 c) (drop 16 c)
      first_block k iv c l =
          unfold cbc_decrypt in
          ap (λ j. drop j (xor_bytes (d (take 16 c)) iv ++ cbc_decrypt d k (take 16 c) (drop 16 c)))
            (sym l)
          ∙ drop-length-append (xor_bytes (d (take 16 c)) iv)
              (cbc_decrypt d k (take 16 c) (drop 16 c))

  cbc_decrypt-append :
      (n m : ℕ) (iv c : Bytes)
      → (rest : Bytes) × (cbc_decrypt d (n + m) iv c ≡ cbc_decrypt d n iv c ++ rest)
  unfolding cbc_decrypt
  cbc_decrypt-append zero m iv c =
      let e : 0 + m ≡ m = omega arith in (cbc_decrypt d m iv c, ap (λ k. cbc_decrypt d k iv c) e)
  cbc_decrypt-append (suc n) m iv c =
      let e : suc n + m ≡ suc (n + m) = omega arith in
      let (rest, q) = cbc_decrypt-append n m (take 16 c) (drop 16 c) in
      let head = xor_bytes (d (take 16 c)) iv in
      (
        rest,
        ap (λ k. cbc_decrypt d k iv c) e
            ∙ (ap (λ r. head ++ r) q
                ∙ sym (append_assoc head (cbc_decrypt d n (take 16 c) (drop 16 c)) rest)),
      )

  cbc_decrypt-prefix :
      (n m : ℕ) (iv c : Bytes)
      → length iv ≡ 16
      → n * 16 ≤ length c
      → take (n * 16) (cbc_decrypt d (n + m) iv c) ≡ cbc_decrypt d n iv c
  cbc_decrypt-prefix n m iv c i h =
      let (rest, q) = cbc_decrypt-append n m iv c in
      ap (take (n * 16)) q
      ∙ (ap (λ k. take k (cbc_decrypt d n iv c ++ rest)) (sym (length-cbc_decrypt n iv c i h))
          ∙ take-length-append (cbc_decrypt d n iv c) rest)

  length-chain :
      (a : ℕ) (iv c : Bytes) → length iv ≡ 16 → a * 16 ≤ length c → length (chain iv c a) ≡ 16
  length-chain zero iv c i h = i
  length-chain (suc a) iv c i h =
      omega (arith, length-take 16 (drop (a * 16) c), length-drop (a * 16) c)

  -- Decryption of `n` blocks from the `a`-th on, with the block before as its chaining input, gives
  -- that part of the whole plaintext.
  pub cbc_decrypt-slice :
      (a n whole : ℕ) (iv c : Bytes)
      → length iv ≡ 16
      → a + n ≤ whole
      → whole * 16 ≤ length c
      → cbc_decrypt d n (chain iv c a) (slice (a * 16) (n * 16) c)
        ≡ slice (a * 16) (n * 16) (cbc_decrypt d whole iv c)
  cbc_decrypt-slice a n whole iv c i h k =
      let m = whole - a - n in
      let e : a + (n + m) ≡ whole = omega arith in
      let behind = cbc_decrypt-drop a (n + m) iv c i (omega arith) in
      let first =
        cbc_decrypt-prefix n m (chain iv c a) (drop (a * 16) c)
          (length-chain a iv c i (omega arith)) (omega (arith, length-drop (a * 16) c)) in
      cbc_decrypt-take n (chain iv c a) (drop (a * 16) c)
      ∙ (sym first
          ∙ (sym (ap (take (n * 16)) behind)
              ∙ ap (λ j. slice (a * 16) (n * 16) (cbc_decrypt d j iv c)) e))
