-- ===== src/Stream/EncryptedRar/Reads.antt =====
-- ReadAt of the encrypted reader, with its verification.
use drakkar.Prelude.{
  ℕ, zero, suc, ◌+◌, ◌-◌, ◌*◌, ◌/◌, ◌%◌, ◌<◌, ◌≡◌, refl, sym, ◌∙◌, subst, ap, Option, none, some,
  [], ◌⊎◌, inl, inr, arith, ◌==◌, length, Bool-cases, Option-cases,
}
use drakkar.Prelude.Bytes.{Bytes}
use drakkar.Stream.EncryptedRar.{
  block_size, CipherError, CipherRead, cipher_length, EncryptedRarReader, chain_of, check_header,
  ensure_verified, read_chain, read_decrypted, read_verified, read_encrypted_at, decrypt_read,
}
use mathlib.Core.Option.{some-injective}
use drakkar.Stream.EncryptedRar.Blocks.{KeepsBlocks, chain}
use drakkar.Stream.EncryptedRar.Plaintext.{IsPart, plaintext, refused-IsPart, decrypt_read-IsPart}
use drakkar.Stream.EncryptedRar.Verify.{
  IsVideo, IsChecked, ChainIs, check_header-IsVideo, chain_of-ChainIs,
}

-- The inner reader gives bytes of the ciphertext from the offset on, no more than its buffer holds, and
-- all of them where it gives no error.
abbrev pub Serves {ℓ ℓ'} :
    {W : Type ℓ} {E : Type ℓ'} → Bytes → (ℕ → ℕ → W → CipherRead E × W) → Type (ℓ ⊔ ℓ')
Serves {W = W} c inner = (n offset : ℕ) (w : W) → IsPart c offset n (inner n offset w).0

module _ {ℓ ℓ'} {W : Type ℓ} {E : Type ℓ'} (d : Bytes → Bytes)
    (inner : ℕ → ℕ → W → CipherRead E × W) (keeps : KeepsBlocks d) (iv c : Bytes)
    (iv_block : length iv ≡ 16) (serves : Serves c inner) where
  read_chain-ChainIs : (a : ℕ) (w : W) → ChainIs (chain iv c a) (read_chain d inner iv (a * 16) w).0
  read_chain-ChainIs zero w = unfold read_chain in (refl, tt)
  read_chain-ChainIs (suc a) w =
      let e : suc a * 16 - 16 ≡ a * 16 = omega arith in
      let u : (read_chain d inner iv (suc a * 16) w).0
          ≡ chain_of iv (inner 16 (suc a * 16 - 16) w).0 =
        from_inner (suc a * 16) (omega arith) in
      subst (ChainIs (chain iv c (suc a))) (sym (u ∙ ap (λ o. chain_of iv (inner 16 o w).0) e))
        (chain_of-ChainIs d keeps iv c iv_block a (inner 16 (a * 16) w).0 (serves 16 (a * 16) w))
    where
      from_inner :
          (o : ℕ) → 0 < o → (read_chain d inner iv o w).0 ≡ chain_of iv (inner 16 (o - 16) w).0
      from_inner o h = unfold read_chain in ground arith

  read_decrypted-IsPart :
      (wanted offset : ℕ) (x : CipherRead E ⊎ Bytes) (w : W)
      → ChainIs (chain iv c (offset / 16)) x
      → IsPart (plaintext d iv c) offset wanted (read_decrypted d inner wanted offset (x, w)).0
  unfolding read_decrypted
  read_decrypted-IsPart wanted offset (inl r) w (e, q) =
      subst (IsPart (plaintext d iv c) offset wanted) (sym q)
        (refused-IsPart (plaintext d iv c) offset wanted e)
  read_decrypted-IsPart wanted offset (inr b) w (q, _) =
      let a = offset / 16 in
      let lead = offset % 16 in
      let at : offset - lead ≡ a * 16 = omega arith in
      let whole : a * 16 + lead ≡ offset = omega arith in
      let n = cipher_length lead wanted in
      let (e, le, full) = serves n (a * 16) w in
      let p =
        decrypt_read-IsPart d keeps iv c iv_block a lead wanted (inner n (a * 16) w).0 (omega arith)
          e full in
      subst
        (λ o.
          IsPart (plaintext d iv c) offset wanted (decrypt_read d lead wanted b (inner n o w).0))
        (sym at)
        (subst
          (λ k.
            IsPart (plaintext d iv c) offset wanted
              (decrypt_read d lead wanted k (inner n (a * 16) w).0))
          (sym q)
          (subst
            (λ o.
              IsPart (plaintext d iv c) o wanted
                (decrypt_read d lead wanted (chain iv c a) (inner n (a * 16) w).0))
            whole p))

  ensure_verified-IsChecked :
      (r : EncryptedRarReader E) (w : W)
      → IsChecked d iv c r
      → IsChecked d iv c (ensure_verified d inner r w).0.0
        × ((ensure_verified d inner r w).0.1 ≡ none → IsVideo d iv c)
  ensure_verified-IsChecked r w (i, v) = elim (Option-cases r.verified) [
    | inr (result, e) ↦
        let u : ensure_verified d inner r w ≡ ((r, result), w) =
          unfold ensure_verified in ground arith in
        subst (λ x. IsChecked d iv c x.0.0 × (x.0.1 ≡ none → IsVideo d iv c)) (sym u)
          ((i, v), λ q. v (e ∙ ap some q))
    | inl e ↦
        let first = inner block_size 0 w in
        let result = check_header d r.iv first.0 in
        let u : ensure_verified d inner r w
            ≡ ((record r { verified = some result }, result), first.1) =
          unfold ensure_verified in ground arith in
        let passed : result ≡ none → IsVideo d iv c = λ q.
          check_header-IsVideo d keeps iv c iv_block first.0 (serves block_size 0 w)
            (ap (λ b. check_header d b first.0) (sym i) ∙ q) in
        subst (λ x. IsChecked d iv c x.0.0 × (x.0.1 ≡ none → IsVideo d iv c)) (sym u)
          ((i, λ q. passed (some-injective _ _ q)), passed)
  ]

  -- What a read promises of its result and of the reader after it.
  abbrev Reads : ℕ → ℕ → (CipherRead E × EncryptedRarReader E) × W → Type ℓ'
  Reads wanted offset x =
      IsPart (plaintext d iv c) offset wanted x.0.0
      × (0 < length x.0.0.bytes → IsVideo d iv c)
      × IsChecked d iv c x.0.1

  read_verified-Reads :
      (wanted offset : ℕ) (r : EncryptedRarReader E) (result : Option (CipherError E)) (w : W)
      → IsChecked d iv c r
      → (result ≡ none → IsVideo d iv c)
      → Reads wanted offset (read_verified d inner wanted offset ((r, result), w))
  unfolding read_verified
  read_verified-Reads wanted offset r (some e) w k v =
      (refused-IsPart (plaintext d iv c) offset wanted e, λ h. absurd (omega arith), k)
  read_verified-Reads wanted offset r none w k v =
      let aligned : offset - offset % 16 ≡ offset / 16 * 16 = omega arith in
      let chained =
        subst
          (λ b.
            ChainIs (chain iv c (offset / 16)) (read_chain d inner b (offset - offset % 16) w).0)
          (sym k.0)
          (subst (λ o. ChainIs (chain iv c (offset / 16)) (read_chain d inner iv o w).0)
            (sym aligned) (read_chain-ChainIs (offset / 16) w)) in
      let x = read_chain d inner r.iv (offset - offset % 16) w in
      (read_decrypted-IsPart wanted offset x.0 x.1 chained, λ _. v refl, k)

  -- Where the inner reader gives parts of the ciphertext, and the verification so far was right, a
  -- read gives the part of the plaintext that was asked for: no more than the buffer holds, and all of
  -- it where it gives no error; it gives no byte unless the first block of the plaintext begins like a
  -- video, whatever the offset is; and the verification stays right.
  pub read_encrypted_at-plaintext :
      (r : EncryptedRarReader E) (wanted offset : ℕ) (w : W)
      → IsChecked d iv c r
      → let (result, after) = (read_encrypted_at d inner r wanted offset w).0 in
        IsPart (plaintext d iv c) offset wanted result
        × (0 < length result.bytes → IsVideo d iv c)
        × IsChecked d iv c after
  read_encrypted_at-plaintext r wanted offset w checked = elim (Bool-cases (wanted == 0)) [
    | inl z ↦
        let u : read_encrypted_at d inner r wanted offset w
            ≡ ((record { bytes = []; error = none }, r), w) =
          unfold read_encrypted_at in ground arith in
        subst (Reads wanted offset) (sym u)
          ((refl, omega arith, λ _. ground arith), λ h. absurd (omega arith), checked)
    | inr z ↦
        let u : read_encrypted_at d inner r wanted offset w
            ≡ read_verified d inner wanted offset (ensure_verified d inner r w) =
          unfold read_encrypted_at in ground arith in
        let x = ensure_verified d inner r w in
        let (k, v) = ensure_verified-IsChecked r w checked in
        subst (Reads wanted offset) (sym u) (read_verified-Reads wanted offset x.0.0 x.0.1 x.1 k v)
  ]
