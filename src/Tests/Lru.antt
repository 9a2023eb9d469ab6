-- ===== src/Tests/Lru.antt =====
-- A shard with a bound of ten bytes, and a small cache (internal/cache/byte_lru.go).
use drakkar.Prelude.{
  ◌≢◌, ℕ, some, none, List, [], ◌∷◌, ◌≡◌, refl, arith, ◌≤◌, if◌then◌else◌, ◌&&◌, length,
}
use drakkar.Prelude.Bytes.{Bytes, codes, bytes_eq}
use drakkar.Prelude.Int.{pos, ltb_ℤ, ◌+ℤ◌, ◌-ℤ◌}
use drakkar.Cache.Shard.{ByteLruShard, in_map, find, delete, back, unlink, trim, get, put, remove}
use drakkar.Cache.Shard.Invariant.{IsValid, put-IsValid}
use drakkar.Cache.Shard.Recency.{kept, put-kept, get_after}
use drakkar.Cache.ByteLru.{new_byte_lru}
use drakkar.Cache.ByteLru.Bounds.{Op, put_op, get_op, remove_op, run, held, run-held}

abbrev empty : ByteLruShard
empty = record { max_bytes = pos 10; size = pos 0; ll = []; entries = [] }

empty-IsValid : IsValid empty
unfolding in_map
empty-IsValid = record {
  coherent = record { linked = λ k. refl; unique = tt; counted = refl };
  within = λ p. omega arith;
}

abbrev a : Bytes
a = codes "a"

abbrev b : Bytes
b = codes "b"

abbrev four : Bytes
four = codes "four"

abbrev seven : Bytes
seven = codes "sevenby"

one-IsValid : IsValid (put empty a four)
one-IsValid = put-IsValid empty a four empty-IsValid

put-kept_example :
    (put (put empty a four) b seven).ll
    ≡ kept
        (put empty a four).max_bytes
        (record { key = b; value = seven } ∷ unlink b (put empty a four).ll)
put-kept_example = put-kept (put empty a four) b seven one-IsValid

-- Four bytes and seven do not fit into ten, so the older value is gone.
older_evicted : (get (put (put empty a four) b seven) a).1 ≡ none
unfolding get put trim in_map delete back bytes_eq ◌+ℤ◌ ◌-ℤ◌
older_evicted = refl

both_fit : (get (put (put empty a four) b four) a).1 ≡ some four
unfolding get put trim in_map find unlink bytes_eq ◌+ℤ◌
both_fit = refl

get_after_example :
    ((get (put (put empty a four) b four) b).1 ≡ (
      if ltb_ℤ (pos 0) (put empty a four).max_bytes
        && ltb_ℤ (put empty a four).max_bytes (pos (length four))
      then none
      else some four))
    × ((w : Bytes)
        → b ≢ a
        → (get (put (put empty a four) b four) a).1 ≡ some w
        → (get (put empty a four) a).1 ≡ some w)
    × ((get (remove (put empty a four) b) a).1
        ≡ (if bytes_eq b a then none else (get (put empty a four) a).1))
get_after_example = get_after (put empty a four) b a four one-IsValid

-- A hash for the tests: the length of the key.
abbrev by_length : Bytes → ℕ
by_length = length

abbrev some_ops : List Op
some_ops = put_op a four ∷ get_op a ∷ put_op b seven ∷ remove_op a ∷ []

run-held_example : held (run by_length (new_byte_lru (pos 64)) some_ops) ≤ 64
run-held_example = run-held by_length 64 some_ops (omega arith)
