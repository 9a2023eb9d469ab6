-- ===== src/Cache/Shard.antt =====
-- internal/cache/byte_lru.go, one shard: a size-bounded LRU list of byte slices behind a map. The
-- list holds its elements from the front, which was used last, to the back. The map leads from a key
-- to the element that was made with that key, and an element keeps its key for life; so the model
-- keeps the map's keys in `entries` and finds the element in the list by its key. Every operation
-- holds the shard's lock from its first to its last access, so it is one step here. The proofs are
-- in the modules below.
pub mod Invariant
pub mod Recency
use drakkar.Prelude.{
  ℕ, zero, suc, Bool, true, false, ◌&&◌, ◌||◌, Option, none, some, List, [], ◌∷◌, ltb,
  if◌then◌else◌, length,
}
use drakkar.Prelude.Bytes.{Bytes, bytes_eq}
use drakkar.Prelude.Int.{ℤ, pos, ltb_ℤ, ◌+ℤ◌, ◌-ℤ◌}

pub record ByteEntry : Type 0 where
  pub key : Bytes
  pub value : Bytes

pub record ByteLruShard : Type 0 where
  pub max_bytes : ℤ
  pub size : ℤ
  pub ll : List ByteEntry
  pub entries : List Bytes

-- `_, ok := s.entries[key]`
unfoldable pub in_map : Bytes → List Bytes → Bool
in_map k [] = false
in_map k (j ∷ js) = bytes_eq j k || in_map k js

-- delete(s.entries, key)
unfoldable pub delete : Bytes → List Bytes → List Bytes
delete k [] = []
delete k (j ∷ js) = let rest = delete k js in if bytes_eq j k then rest else j ∷ rest

-- The element that s.entries[key] points to.
unfoldable pub find : Bytes → List ByteEntry → Option ByteEntry
find k [] = none
find k (e ∷ es) = if bytes_eq e.key k then some e else find k es

-- s.ll.Remove of that element.
unfoldable pub unlink : Bytes → List ByteEntry → List ByteEntry
unlink k [] = []
unlink k (e ∷ es) = if bytes_eq e.key k then es else e ∷ unlink k es

-- s.ll.Back()
unfoldable pub back : List ByteEntry → Option ByteEntry
back [] = none
back (e ∷ []) = some e
back (e ∷ e' ∷ es) = back (e' ∷ es)

-- The body of the loop of `trim`, at the last element.
unfoldable pub evict : ByteLruShard → ByteEntry → ByteLruShard
evict s item = record s {
  entries = delete item.key s.entries;
  size = s.size -ℤ pos (length item.value);
  ll = unlink item.key s.ll;
}

-- The loop of `trim`; every round takes one element off the list.
unfoldable pub trim_loop : ℕ → ByteLruShard → ByteLruShard
unfolding evict
trim_loop zero s = s
trim_loop (suc fuel) s = elim (ltb_ℤ (pos 0) s.max_bytes && ltb_ℤ s.max_bytes s.size) [
  | false ↦ s
  | true ↦ elim (back s.ll) [ none ↦ s | some item ↦ trim_loop fuel (evict s item) ]
]

unfoldable pub trim : ByteLruShard → ByteLruShard
unfolding trim_loop
trim s = trim_loop (length s.ll) s

unfoldable pub get_element : ByteLruShard → Option ByteEntry → ByteLruShard × Option Bytes
get_element s none = (s, none)
get_element s (some item) = (record s { ll = item ∷ unlink item.key s.ll }, some item.value)

unfoldable pub get : ByteLruShard → Bytes → ByteLruShard × Option Bytes
unfolding get_element
get s key = if in_map key s.entries then get_element s (find key s.ll) else (s, none)

-- The branch of `put` for a key of the map; `trim` comes after it.
unfoldable pub replace : ByteLruShard → ByteEntry → Bytes → ByteLruShard
replace s item clone = record s {
  size = s.size -ℤ pos (length item.value) +ℤ pos (length clone);
  ll = record item { value = clone } ∷ unlink item.key s.ll;
}

unfoldable pub replace_element : ByteLruShard → Option ByteEntry → Bytes → ByteLruShard
unfolding replace
replace_element s none clone = s
replace_element s (some item) clone = replace s item clone

unfoldable pub push_front : ByteLruShard → Bytes → Bytes → ByteLruShard
push_front s key clone = record s {
  ll = record { key = key; value = clone } ∷ s.ll;
  entries = key ∷ s.entries;
  size = s.size +ℤ pos (length clone);
}

-- A slice is a value here, so the copy that `put` makes of it is the slice.
unfoldable pub put : ByteLruShard → Bytes → Bytes → ByteLruShard
unfolding replace_element push_front
put s key value = trim (
    if in_map key s.entries
    then replace_element s (find key s.ll) value
    else push_front s key value)

unfoldable pub remove_element : ByteLruShard → Option ByteEntry → ByteLruShard
unfolding evict
remove_element s none = s
remove_element s (some item) = evict s item

unfoldable pub remove : ByteLruShard → Bytes → ByteLruShard
unfolding remove_element
remove s key = if in_map key s.entries then remove_element s (find key s.ll) else s
