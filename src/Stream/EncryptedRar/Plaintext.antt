-- ===== src/Stream/EncryptedRar/Plaintext.antt =====
-- What a read of an encrypted file gives: a part of its plaintext, and nothing of it unless the file
-- begins like a video.
use drakkar.Prelude.{
  ℕ, zero, suc, ◌+◌, ◌-◌, ◌*◌, ◌/◌, ◌%◌, ◌≤◌, ◌<◌, ◌≡◌, refl, sym, ◌∙◌, subst, ap, true, false,
  ◌||◌, not, Option, none, some, inl, inr, arith, ◌≢◌, leb, ◌==◌, if◌then◌else◌, length, take, drop,
  length-take, length-drop, Bool-cases, Option-cases,
}
use drakkar.Prelude.Bytes.{Bytes}
use drakkar.Prelude.Slices.{slice, take-take, slice-slice, length-slice}
use drakkar.Stream.EncryptedRar.{
  CipherError, eof, unexpected_eof, not_aligned, unrecognized_container, inner_error, CipherRead,
  failed, is_eof, refused, copy_out, cipher_length, cbc_decrypt, decrypt_block_aligned,
  decrypt_read,
}
use drakkar.Stream.EncryptedRar.Blocks.{KeepsBlocks, chain, length-cbc_decrypt, cbc_decrypt-slice}

-- The result is the part of `p` from `lead` on, no more than was wanted, all of it without an error.
abbrev pub IsPart {ℓ} : {E : Type ℓ} → Bytes → ℕ → ℕ → CipherRead E → Type ℓ
IsPart p lead wanted r =
    (r.bytes ≡ slice lead (length r.bytes) p)
    × (length r.bytes ≤ wanted)
    × (r.error ≡ none → length r.bytes ≡ wanted)

module _ {ℓ} {E : Type ℓ} where
  pub refused-IsPart :
      (p : Bytes) (lead wanted : ℕ) (e : CipherError E) → IsPart p lead wanted (refused e)
  refused-IsPart p lead wanted e = (refl, omega arith, λ h. absurd (cc))

  -- A result that copies `k` bytes, where so many are there.
  copied :
      (p : Bytes) (lead k wanted : ℕ) (err : Option (CipherError E))
      → lead + k ≤ length p
      → k ≤ wanted
      → (err ≡ none → k ≡ wanted)
      → IsPart p lead wanted (record { bytes = slice lead k p; error = err })
  copied p lead k wanted err h le full =
      let l = length-slice lead k p h in
      (ap (λ j. slice lead j p) (sym l), omega arith, λ e. l ∙ full e)

  copy_out-IsPart :
      (p : Bytes) (lead wanted : ℕ) (err : Option (CipherError E))
      → (is_eof err ≡ false → lead + wanted ≤ length p)
      → IsPart p lead wanted (copy_out p lead wanted err)
  copy_out-IsPart p lead wanted err full = elim (Bool-cases (leb (length p) lead)) [
    | inl t ↦ subst (IsPart p lead wanted) (sym (nothing t)) (refused-IsPart p lead wanted eof)
    | inr t ↦ elim (Bool-cases (leb (length p - lead) wanted)) [
      | inl u ↦
          subst (IsPart p lead wanted) (sym (rest t u))
            (copied p lead (length p - lead) wanted _ (ground arith) (ground arith) (ends t u))
      | inr u ↦
          subst (IsPart p lead wanted) (sym (all t u))
            (copied p lead wanted wanted none (ground arith) (omega arith) (λ _. refl))
    ]
  ]
    where
      nothing : leb (length p) lead ≡ true → copy_out p lead wanted err ≡ refused eof
      nothing t = unfold copy_out in ground arith

      rest :
          leb (length p) lead ≡ false
          → leb (length p - lead) wanted ≡ true
          → copy_out p lead wanted err ≡ record {
            bytes = slice lead (length p - lead) p;
            error = if is_eof err then some eof else none;
          }
      rest t u = unfold copy_out in ground arith

      all :
          leb (length p) lead ≡ false
          → leb (length p - lead) wanted ≡ false
          → copy_out p lead wanted err ≡ record { bytes = slice lead wanted p; error = none }
      all t u = unfold copy_out in ground arith

      ends :
          leb (length p) lead ≡ false
          → leb (length p - lead) wanted ≡ true
          → ◌≡◌ {A = Option (CipherError E)} (if is_eof err then some eof else none) none
          → length p - lead ≡ wanted
      ends t u e = elim (Bool-cases (is_eof err)) [
        | inl b ↦ absurd (ground arith)
        | inr b ↦ let f = full b in ground arith
      ]

  -- An error that does not end the read is the end of the file.
  failed-none : (err : Option (CipherError E)) → failed err ≡ none → is_eof err ≡ false → err ≡ none
  unfolding failed is_eof
  failed-none none h k = refl
  failed-none (some eof) h k = absurd (cc)
  failed-none (some unexpected_eof) h k = absurd (cc)
  failed-none (some not_aligned) h k = absurd (cc)
  failed-none (some unrecognized_container) h k = absurd (cc)
  failed-none (some (inner_error e)) h k = absurd (cc)

cipher_length-enough : (lead wanted : ℕ) → lead + wanted ≤ cipher_length lead wanted / 16 * 16
unfolding cipher_length
cipher_length-enough lead wanted = omega arith

decrypt_whole :
    (d : Bytes → Bytes) (n : ℕ) (t iv : Bytes)
    → 0 < n
    → length t ≡ n * 16
    → decrypt_block_aligned d t iv ≡ some (cbc_decrypt d n iv t)
unfolding decrypt_block_aligned
decrypt_whole d n t iv h l =
    let q : length t / 16 ≡ n = omega arith in
    let test : ((length t == 0) || not (length t % 16 == 0)) ≡ false = ground arith in
    rw (test, q) refl

-- The plaintext of the whole blocks of the file.
abbrev pub plaintext : (Bytes → Bytes) → Bytes → Bytes → Bytes
plaintext d iv c = cbc_decrypt d (length c / 16) iv c

module _ (d : Bytes → Bytes) (keeps : KeepsBlocks d) (iv c : Bytes)
    (iv_block : length iv ≡ 16) where
  -- The bytes of the ciphertext that the inner reader gave lie in it.
  inside :
      (o : ℕ) (bytes : Bytes)
      → bytes ≡ slice o (length bytes) c
      → length bytes ≢ 0
      → o + length bytes ≤ length c
  inside o bytes e n =
      let l = ap (length {A = ℕ}) e in
      ground (arith, length-take (length bytes) (drop o c), length-drop o c)

  pub decrypted :
      (a n : ℕ) (bytes : Bytes)
      → bytes ≡ slice (a * 16) (length bytes) c
      → n * 16 ≤ length bytes
      → 0 < n
      → decrypt_block_aligned d (take (n * 16) bytes) (chain iv c a)
        ≡ some (slice (a * 16) (n * 16) (plaintext d iv c))
  decrypted a n bytes e u h =
      let fits = inside (a * 16) bytes e (λ z. absurd (omega arith)) in
      let t = ap (take (n * 16)) e ∙ take-take (n * 16) (length bytes) (drop (a * 16) c) u in
      let l : length (slice (a * 16) (n * 16) c) ≡ n * 16 =
        length-slice (a * 16) (n * 16) c (omega arith) in
      ap (λ b. decrypt_block_aligned d b (chain iv c a)) t
      ∙ (decrypt_whole d n (slice (a * 16) (n * 16) c) (chain iv c a) h l
          ∙ ap some (
              cbc_decrypt-slice d keeps a n (length c / 16) iv c iv_block (omega arith)
                (omega arith)))

  -- A part of the decrypted blocks is a part of the plaintext.
  IsPart-shift {ℓ} :
      {E : Type ℓ} (a n lead wanted : ℕ) (r : CipherRead E)
      → IsPart (slice (a * 16) (n * 16) (plaintext d iv c)) lead wanted r
      → IsPart (plaintext d iv c) (a * 16 + lead) wanted r
  IsPart-shift a n lead wanted r (e, le, full) = (shifted (length r.bytes) r.bytes e refl, le, full)
    where
      shifted :
          (k : ℕ) (bytes : Bytes)
          → bytes ≡ slice lead k (slice (a * 16) (n * 16) (plaintext d iv c))
          → length bytes ≡ k
          → bytes ≡ slice (a * 16 + lead) k (plaintext d iv c)
      shifted zero bytes q l = q
      shifted (suc k) bytes q l =
          let m = ap (length {A = ℕ}) q in
          let t = length-take (suc k) (drop lead (slice (a * 16) (n * 16) (plaintext d iv c))) in
          let u = length-drop lead (slice (a * 16) (n * 16) (plaintext d iv c)) in
          let v = length-take (n * 16) (drop (a * 16) (plaintext d iv c)) in
          q ∙ slice-slice (a * 16) (n * 16) lead (suc k) (plaintext d iv c) (omega arith)

  -- The read behind the lead, decrypted from the `a`-th block on.
  pub decrypt_read-IsPart {ℓ} :
      {E : Type ℓ} (a lead wanted : ℕ) (r : CipherRead E)
      → lead < 16
      → r.bytes ≡ slice (a * 16) (length r.bytes) c
      → (r.error ≡ none → length r.bytes ≡ cipher_length lead wanted)
      → IsPart
          (plaintext d iv c)
          (a * 16 + lead)
          wanted
          (decrypt_read d lead wanted (chain iv c a) r)
  decrypt_read-IsPart {E} a lead wanted r small e full = elim (Option-cases (failed r.error)) [
    | inr (err, f) ↦
        subst Part (sym (stopped err f))
          (refused-IsPart (plaintext d iv c) (a * 16 + lead) wanted err)
    | inl f ↦ elim (Bool-cases (usable == 0)) [
      | inl z ↦
          subst Part (sym (empty f z))
            (refused-IsPart (plaintext d iv c) (a * 16 + lead) wanted eof)
      | inr z ↦
          let n = length r.bytes / 16 in
          let u : usable ≡ n * 16 = omega arith in
          let p = slice (a * 16) (n * 16) (plaintext d iv c) in
          let here = decrypted a n r.bytes e (omega arith) (ground arith) in
          let fits = inside (a * 16) r.bytes e (λ y. absurd (ground arith)) in
          let l : length p ≡ n * 16 = length-slice (a * 16) (n * 16) (plaintext d iv c) (
            omega
              (arith, length-cbc_decrypt d keeps (length c / 16) iv c iv_block (omega arith))) in
          subst Part
            (sym (
              opened f z
                (ap (λ k. decrypt_block_aligned d (take k r.bytes) (chain iv c a)) u ∙ here)))
            (IsPart-shift a n lead wanted (copy_out p lead wanted r.error) (
              copy_out-IsPart p lead wanted r.error (λ b.
                let whole = full (failed-none r.error f b) in
                let long = cipher_length-enough lead wanted in omega arith)))
    ]
  ]
    where
      Part : CipherRead E → Type ℓ
      Part x = IsPart (plaintext d iv c) (a * 16 + lead) wanted x

      usable : ℕ
      usable = length r.bytes - length r.bytes % 16

      stopped :
          (err : CipherError E)
          → failed r.error ≡ some err
          → decrypt_read d lead wanted (chain iv c a) r ≡ refused err
      stopped err f = unfold decrypt_read in ground arith

      empty :
          failed r.error ≡ none
          → (usable == 0) ≡ true
          → decrypt_read d lead wanted (chain iv c a) r ≡ refused eof
      empty f z = unfold decrypt_read in ground arith

      opened :
          {p : Bytes}
          → failed r.error ≡ none
          → (usable == 0) ≡ false
          → decrypt_block_aligned d (take usable r.bytes) (chain iv c a) ≡ some p
          → decrypt_read d lead wanted (chain iv c a) r ≡ copy_out p lead wanted r.error
      opened f z q = unfold decrypt_read in ground arith
