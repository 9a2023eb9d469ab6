-- ===== src/Tests/EncryptedRar.antt =====
-- A read of an encrypted file.
use drakkar.Prelude.{
  ℕ, zero, suc, ◌+◌, ◌≤◌, ◌<◌, ◌≡◌, refl, ap, Option, none, some, [], ◌∷◌, ◌++◌, arith, ◌==◌,
  if◌then◌else◌, length, take, drop, replicate,
}
use drakkar.Prelude.Bytes.{Bytes, codes, bytes_eq}
use drakkar.Prelude.Slices.{slice}
use drakkar.Stream.EncryptedRar.{
  CipherError, eof, CipherRead, EncryptedRarReader, read_encrypted_at,
}
use drakkar.Stream.EncryptedRar.Plaintext.{IsPart, plaintext}
use drakkar.Stream.EncryptedRar.Verify.{IsVideo, IsChecked}
use drakkar.Stream.EncryptedRar.Reads.{Serves, read_encrypted_at-plaintext}

-- A cipher that changes nothing, and a file of two blocks.
abbrev same : Bytes → Bytes
same b = b

abbrev zeros : Bytes
zeros = replicate 16 0

abbrev video : Bytes
video = codes "RIFF" ++ replicate 12 7 ++ replicate 16 9

abbrev give : ℕ → ℕ → ℕ → CipherRead ℕ × ℕ
give n offset w =
    let b = slice offset n video in
    (record { bytes = b; error = if length b == n then none else some eof }, w + 1)

take-length-take : (n : ℕ) (b : Bytes) → take n b ≡ take (length (take n b)) b
take-length-take zero b = refl
take-length-take (suc n) [] = refl
take-length-take (suc n) (x ∷ b) = ap (λ l. x ∷ l) (take-length-take n b)

length-take-le : (n : ℕ) (b : Bytes) → length (take n b) ≤ n
length-take-le zero b = omega arith
length-take-le (suc n) [] = omega arith
length-take-le (suc n) (x ∷ b) = omega (arith, length-take-le n b)

complete :
    (b : Bytes) (n : ℕ)
    → ◌≡◌ {A = Option (CipherError ℕ)} (if length b == n then none else some eof) none
    → length b ≡ n
complete b n h = ground arith

give-Serves : Serves video give
give-Serves n offset w = (
  take-length-take n (drop offset video),
  length-take-le n (drop offset video),
  complete (slice offset n video) n,
)

abbrev reader : EncryptedRarReader ℕ
reader = record { iv = zeros; verified = none }

read_encrypted_at-plaintext_example :
    let (result, after) = (read_encrypted_at same give reader 20 5 0).0 in
    IsPart (plaintext same zeros video) 5 20 result
    × (0 < length result.bytes → IsVideo same zeros video)
    × IsChecked same zeros video after
read_encrypted_at-plaintext_example =
    read_encrypted_at-plaintext same give (λ b h. h) zeros video refl give-Serves reader 20 5 0
      (refl, λ h. absurd (cc))

twenty_bytes : length (read_encrypted_at same give reader 20 5 0).0.0.bytes ≡ 20
unfolding read_encrypted_at bytes_eq
twenty_bytes = refl
