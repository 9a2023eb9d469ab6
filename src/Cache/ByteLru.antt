-- ===== src/Cache/ByteLru.antt =====
-- internal/cache/byte_lru.go, the cache: 32 shards, each with its own budget, and a key's shard picked
-- by its hash. The hash (hash/maphash with a random seed) is a parameter; an access outside of the
-- array, which panics in Go, changes nothing here, and no index reaches it.
pub mod Bounds
use drakkar.Prelude.{
  ℕ, zero, suc, ◌+◌, ◌/◌, ◌%◌, Bool, true, false, ◌&&◌, Option, none, some, List, [], ◌∷◌,
  if◌then◌else◌, replicate, get_elem?, set,
}
use drakkar.Prelude.Bytes.{Bytes}
use drakkar.Prelude.Int.{ℤ, pos, negsuc, sub_ℕ, ltb_ℤ}
use drakkar.Cache.Shard
use drakkar.Cache.Shard.{ByteLruShard}

abbrev pub byte_lru_shard_count : ℕ
byte_lru_shard_count = 32

-- Division of an int64 by a positive constant, which truncates towards zero.
unfoldable pub quot : ℤ → ℕ → ℤ
quot (pos n) d = pos (n / d)
quot (negsuc n) d = sub_ℕ 0 (suc n / d)

unfoldable pub per_shard : ℤ → ℤ
unfolding quot
per_shard max_bytes =
    let per = quot max_bytes byte_lru_shard_count in
    if ltb_ℤ (pos 0) max_bytes && ltb_ℤ per (pos 1) then pos 1 else per

unfoldable pub new_shard : ℤ → ByteLruShard
new_shard max_bytes = record { max_bytes = max_bytes; size = pos 0; ll = []; entries = [] }

unfoldable pub new_byte_lru : ℤ → List ByteLruShard
unfolding per_shard new_shard
new_byte_lru max_bytes = replicate byte_lru_shard_count (new_shard (per_shard max_bytes))

module _ (hash : Bytes → ℕ) where
  unfoldable pub shard_for : Bytes → ℕ
  shard_for key = hash key % byte_lru_shard_count

  unfoldable pub get : List ByteLruShard → Bytes → List ByteLruShard × Option Bytes
  unfolding shard_for
  get c key = elim (get_elem? c (shard_for key)) [
    | none ↦ (c, none)
    | some s ↦ let (s', found) = Shard.get s key in (set c (shard_for key) s', found)
  ]

  unfoldable pub put : List ByteLruShard → Bytes → Bytes → List ByteLruShard
  unfolding shard_for
  put c key value = elim (get_elem? c (shard_for key)) [
    | none ↦ c
    | some s ↦ set c (shard_for key) (Shard.put s key value)
  ]

  unfoldable pub remove : List ByteLruShard → Bytes → List ByteLruShard
  unfolding shard_for
  remove c key = elim (get_elem? c (shard_for key)) [
    | none ↦ c
    | some s ↦ set c (shard_for key) (Shard.remove s key)
  ]
