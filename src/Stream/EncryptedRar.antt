-- ===== src/Stream/EncryptedRar.antt =====
-- internal/stream/encrypted_rar_reader.go and what it calls of internal/rarcrypto/rar5.go: the reader
-- that decrypts the bytes of another reader. The inner reader is a parameter, a function of its world
-- `W`, and so is the block cipher of the key (crypto/aes); the chaining of the blocks (crypto/cipher)
-- is written out. Offsets are not negative. The once of the verification holds all other readers back,
-- so that a read is one step.
pub mod Blocks
pub mod Plaintext
pub mod Verify
pub mod Reads
use drakkar.Prelude.{
  ℕ, zero, suc, ◌+◌, ◌-◌, ◌*◌, ◌/◌, ◌%◌, Bool, true, false, ◌&&◌, ◌||◌, not, Option, none, some,
  List, [], ◌∷◌, ◌++◌, ◌⊎◌, inl, inr, ltb, leb, ◌==◌, if◌then◌else◌, length, take, drop,
}
use drakkar.Prelude.Bytes.{Bytes, codes, bytes_eq}
use drakkar.Prelude.Slices.{slice}
use Prim.Native.Nat.{bit_xor}

abbrev pub block_size : ℕ
block_size = 16

-- rarcrypto.VerifyContainerHeader; the error is `false`.
unfoldable pub verify_container_header : Bytes → Bool
unfolding bytes_eq
verify_container_header header =
    let box = slice 4 4 header in
    if ltb (length header) 4
    then false
    else if bytes_eq (take 4 header) (0x1a ∷ 0x45 ∷ 0xdf ∷ 0xa3 ∷ [])
    then true
    else if bytes_eq (take 4 header) (codes "RIFF")
    then true
    else if leb 8 (length header)
        && (bytes_eq box (codes "ftyp")
            || (bytes_eq box (codes "moov")
                || (bytes_eq box (codes "mdat")
                    || (bytes_eq box (codes "free")
                        || (bytes_eq box (codes "wide")
                            || (bytes_eq box (codes "skip") || bytes_eq box (codes "pnot")))))))
    then true
    else false

unfoldable pub xor_bytes : Bytes → Bytes → Bytes
xor_bytes [] b = []
xor_bytes (x ∷ a) [] = []
xor_bytes (x ∷ a) (y ∷ b) = bit_xor x y ∷ xor_bytes a b

-- io.EOF, io.ErrUnexpectedEOF, the refusals of rarcrypto, and the errors of the inner reader.
pub data CipherError {ℓ} (E : Type ℓ) : Type ℓ where
  eof unexpected_eof not_aligned unrecognized_container : CipherError E
  inner_error : E → CipherError E

-- The bytes that were written, and the error.
pub record CipherRead {ℓ} (E : Type ℓ) : Type ℓ where
  pub bytes : Bytes
  pub error : Option (CipherError E)

-- err != nil && err != io.EOF
unfoldable pub failed {ℓ} : {E : Type ℓ} → Option (CipherError E) → Option (CipherError E)
failed none = none
failed (some eof) = none
failed (some unexpected_eof) = some unexpected_eof
failed (some not_aligned) = some not_aligned
failed (some unrecognized_container) = some unrecognized_container
failed (some (inner_error e)) = some (inner_error e)

-- err == io.EOF
unfoldable pub is_eof {ℓ} : {E : Type ℓ} → Option (CipherError E) → Bool
is_eof (some eof) = true
is_eof _ = false

abbrev pub refused {ℓ} : {E : Type ℓ} → CipherError E → CipherRead E
refused e = record { bytes = []; error = some e }

-- The last part of ReadAt: the bytes behind the lead are copied, as many as fit.
unfoldable pub copy_out {ℓ} : {E : Type ℓ} → Bytes → ℕ → ℕ → Option (CipherError E) → CipherRead E
unfolding is_eof
copy_out plaintext lead wanted err =
    let avail = length plaintext - lead in
    if leb (length plaintext) lead
    then refused eof
    else if leb avail wanted
    then record {
      bytes = slice lead avail plaintext;
      error = if is_eof err then some eof else none;
    }
    else record { bytes = slice lead wanted plaintext; error = none }

-- `verified` is the result of the verification, `none` before it has run.
pub record EncryptedRarReader {ℓ} (E : Type ℓ) : Type ℓ where
  pub iv : Bytes
  pub verified : Option (Option (CipherError E))

unfoldable pub new_encrypted_rar_reader {ℓ} : {E : Type ℓ} → Bytes → EncryptedRarReader E
new_encrypted_rar_reader iv = record { iv = iv; verified = none }

-- The chaining input: the stored one, or the block before.
unfoldable pub chain_of {ℓ} : {E : Type ℓ} → Bytes → CipherRead E → CipherRead E ⊎ Bytes
unfolding failed
chain_of iv r = elim (failed r.error) [
  | some e ↦ inl (refused e)
  | none ↦ if ltb (length r.bytes) block_size then inl (refused unexpected_eof) else inr r.bytes
]

unfoldable pub cipher_length : ℕ → ℕ → ℕ
cipher_length lead wanted = (lead + wanted + block_size - 1) / block_size * block_size

-- `decrypt_block` decrypts one block under the key.
module _ (decrypt_block : Bytes → Bytes) where
  -- CryptBlocks of cipher.NewCBCDecrypter on `n` blocks.
  unfoldable pub cbc_decrypt : ℕ → Bytes → Bytes → Bytes
  unfolding xor_bytes
  cbc_decrypt zero iv ciphertext = []
  cbc_decrypt (suc n) iv ciphertext =
      let block = take 16 ciphertext in
      xor_bytes (decrypt_block block) iv ++ cbc_decrypt n block (drop 16 ciphertext)

  unfoldable pub decrypt_block_aligned : Bytes → Bytes → Option Bytes
  unfolding cbc_decrypt
  decrypt_block_aligned ciphertext chain_iv =
      if (length ciphertext == 0) || not (length ciphertext % block_size == 0)
      then none
      else some (cbc_decrypt (length ciphertext / block_size) chain_iv ciphertext)

module _ {ℓ} {E : Type ℓ} (decrypt_block : Bytes → Bytes) where
  -- The verification on what the inner reader gave for the first block.
  unfoldable pub check_header : Bytes → CipherRead E → Option (CipherError E)
  unfolding failed decrypt_block_aligned verify_container_header
  check_header iv r = elim (failed r.error) [
    | some e ↦ some e
    | none ↦
        if ltb (length r.bytes) block_size
        then some unexpected_eof
        else elim (decrypt_block_aligned decrypt_block r.bytes iv) [
          | none ↦ some not_aligned
          | some plaintext ↦
              if verify_container_header plaintext then none else some unrecognized_container
        ]
  ]

  -- What was read is decrypted, as far as it has whole blocks.
  unfoldable pub decrypt_read : ℕ → ℕ → Bytes → CipherRead E → CipherRead E
  unfolding failed decrypt_block_aligned copy_out
  decrypt_read lead wanted chain r = elim (failed r.error) [
    | some e ↦ refused e
    | none ↦
        let usable = length r.bytes - length r.bytes % block_size in
        if usable == 0
        then refused eof
        else elim (decrypt_block_aligned decrypt_block (take usable r.bytes) chain) [
          | none ↦ refused not_aligned
          | some plaintext ↦ copy_out plaintext lead wanted r.error
        ]
  ]

-- `inner` is ReadAt of the inner reader, which is given the length of its buffer.
module _ {ℓ ℓ'} {W : Type ℓ} {E : Type ℓ'} (decrypt_block : Bytes → Bytes)
    (inner : ℕ → ℕ → W → CipherRead E × W) where
  -- The reader with the result of its verification.
  unfoldable pub ensure_verified :
      EncryptedRarReader E → W → (EncryptedRarReader E × Option (CipherError E)) × W
  unfolding check_header
  ensure_verified r w = elim r.verified [
    | some result ↦ ((r, result), w)
    | none ↦
        let (first, w') = inner block_size 0 w in
        let result = check_header decrypt_block r.iv first in
        ((record r { verified = some result }, result), w')
  ]

  unfoldable pub read_chain : Bytes → ℕ → W → (CipherRead E ⊎ Bytes) × W
  unfolding chain_of
  read_chain iv aligned w =
      if aligned == 0
      then (inr iv, w)
      else let (r, w') = inner block_size (aligned - block_size) w in (chain_of iv r, w')

  unfoldable pub read_decrypted : ℕ → ℕ → (CipherRead E ⊎ Bytes) × W → CipherRead E × W
  unfolding decrypt_read cipher_length
  read_decrypted wanted offset (inl stop, w) = (stop, w)
  read_decrypted wanted offset (inr chain, w) =
      let lead = offset % block_size in
      let (r, w') = inner (cipher_length lead wanted) (offset - lead) w in
      (decrypt_read decrypt_block lead wanted chain r, w')

  -- What follows the verification.
  unfoldable pub read_verified :
      ℕ
      → ℕ
      → (EncryptedRarReader E × Option (CipherError E)) × W
      → (CipherRead E × EncryptedRarReader E) × W
  unfolding read_decrypted read_chain
  read_verified wanted offset ((r, some e), w) = ((refused e, r), w)
  read_verified wanted offset ((r, none), w) =
      let (result, w') =
        read_decrypted wanted offset (read_chain r.iv (offset - offset % block_size) w) in
      ((result, r), w')

  -- ReadAt with a buffer of `wanted` bytes.
  unfoldable pub read_encrypted_at :
      EncryptedRarReader E → ℕ → ℕ → W → (CipherRead E × EncryptedRarReader E) × W
  unfolding read_verified ensure_verified
  read_encrypted_at r wanted offset w =
      if wanted == 0
      then ((record { bytes = []; error = none }, r), w)
      else read_verified wanted offset (ensure_verified r w)
