-- ===== src/Cache/ByteLru/Bounds.antt =====
-- The budget of the whole cache over any sequence of operations, and what a reader finds in it.
use drakkar.Prelude.{
  ℕ, zero, suc, ◌+◌, ◌*◌, ◌/◌, ◌≤◌, ◌<◌, ◌≡◌, refl, ap, ◌∙◌, ◌&&◌, none, some, List, [], ◌∷◌, inl,
  inr, arith, if◌then◌else◌, length, Bool-cases, Option-cases, All, get_elem?, set, All-set,
  length-set, All-replicate, length-replicate, All-get_elem?, get_elem?-lt, get_elem?-set_self,
}
use drakkar.Prelude.Bytes.{Bytes}
use drakkar.Prelude.Int.{ℤ, pos, pos_part, neg_part, ◌≤ℤ◌, ltb_ℤ}
use drakkar.Cache.Shard
use drakkar.Cache.Shard.{ByteLruShard}
use drakkar.Cache.Shard.Invariant.{IsValid, total, get-IsValid, put-IsValid, remove-IsValid}
use drakkar.Cache.Shard.Recency.{get-put}
use drakkar.Cache.ByteLru.{
  byte_lru_shard_count, per_shard, new_shard, new_byte_lru, shard_for, get, put, remove,
}

-- A valid shard with the budget that it was made with.
abbrev pub Holds : ℤ → ByteLruShard → Type 0
Holds m s = IsValid s × (s.max_bytes ≡ m)

-- All shards of the cache.
abbrev pub IsCache : ℤ → List ByteLruShard → Type 0
IsCache m c = All (Holds m) c × (length c ≡ byte_lru_shard_count)

trim_loop-max_bytes :
    (fuel : ℕ) (s : ByteLruShard) → (Shard.trim_loop fuel s).max_bytes ≡ s.max_bytes
unfolding Shard.trim_loop
trim_loop-max_bytes zero s = refl
trim_loop-max_bytes (suc fuel) s =
    elim (Bool-cases (ltb_ℤ (pos 0) s.max_bytes && ltb_ℤ s.max_bytes s.size)) [
      | inr t ↦ rw (t, Shard.trim_loop)
      | inl t ↦ elim (Option-cases (Shard.back s.ll)) [
        | inl n ↦ rw (t, Shard.trim_loop, n)
        | inr (e, b) ↦ rw (t, Shard.trim_loop, b) (trim_loop-max_bytes fuel (Shard.evict s e))
      ]
    ]

trim-max_bytes : (s : ByteLruShard) → (Shard.trim s).max_bytes ≡ s.max_bytes
unfolding Shard.trim
trim-max_bytes s = trim_loop-max_bytes (length s.ll) s

put-max_bytes : (s : ByteLruShard) (k v : Bytes) → (Shard.put s k v).max_bytes ≡ s.max_bytes
unfolding Shard.put
put-max_bytes s k v = rw trim-max_bytes (ground arith)

get-max_bytes : (s : ByteLruShard) (k : Bytes) → (Shard.get s k).0.max_bytes ≡ s.max_bytes
unfolding Shard.get
get-max_bytes s k = ground arith

remove-max_bytes : (s : ByteLruShard) (k : Bytes) → (Shard.remove s k).max_bytes ≡ s.max_bytes
unfolding Shard.remove
remove-max_bytes s k = ground arith

put-Holds : (m : ℤ) (s : ByteLruShard) (k v : Bytes) → Holds m s → Holds m (Shard.put s k v)
put-Holds m s k v (h, e) = (put-IsValid s k v h, put-max_bytes s k v ∙ e)

get-Holds : (m : ℤ) (s : ByteLruShard) (k : Bytes) → Holds m s → Holds m (Shard.get s k).0
get-Holds m s k (h, e) = (get-IsValid s k h, get-max_bytes s k ∙ e)

remove-Holds : (m : ℤ) (s : ByteLruShard) (k : Bytes) → Holds m s → Holds m (Shard.remove s k)
remove-Holds m s k (h, e) = (remove-IsValid s k h, remove-max_bytes s k ∙ e)

set-IsCache :
    (m : ℤ) (c : List ByteLruShard) (i : ℕ) (s : ByteLruShard)
    → IsCache m c
    → Holds m s
    → IsCache m (set c i s)
set-IsCache m c i s (a, l) h = (All-set (Holds m) c i s a h, length-set c i s ∙ l)

new_shard-IsValid : (m : ℤ) → IsValid (new_shard m)
unfolding new_shard Shard.in_map
new_shard-IsValid m = record {
  coherent = record { linked = λ k. refl; unique = tt; counted = refl };
  within = λ p. omega arith;
}

pub new_byte_lru-IsCache : (max_bytes : ℤ) → IsCache (per_shard max_bytes) (new_byte_lru max_bytes)
unfolding new_byte_lru
new_byte_lru-IsCache max_bytes = (
  All-replicate (Holds (per_shard max_bytes)) byte_lru_shard_count (new_shard (per_shard max_bytes))
      (new_shard-IsValid (per_shard max_bytes), unfold new_shard in refl),
  length-replicate byte_lru_shard_count (new_shard (per_shard max_bytes)),
)

-- The operations of the cache.
pub data Op : Type 0 where
  get_op : Bytes → Op
  put_op : Bytes → Bytes → Op
  remove_op : Bytes → Op

module _ (hash : Bytes → ℕ) where
  abbrev pub apply : List ByteLruShard → Op → List ByteLruShard
  apply c (get_op k) = (get hash c k).0
  apply c (put_op k v) = put hash c k v
  apply c (remove_op k) = remove hash c k

  abbrev pub run : List ByteLruShard → List Op → List ByteLruShard
  run c [] = c
  run c (o ∷ os) = run (apply c o) os

  apply-IsCache : (m : ℤ) (c : List ByteLruShard) (o : Op) → IsCache m c → IsCache m (apply c o)
  unfolding get put remove
  apply-IsCache m c (get_op k) h = elim (Option-cases (get_elem? c (shard_for hash k))) [
    | inl n ↦ rw (apply, n, get) h
    | inr (s, e) ↦
        rw (apply, e, get)
          (set-IsCache m c (shard_for hash k) _ h
            (get-Holds m s k (All-get_elem? (Holds m) c (shard_for hash k) h.0 e)))
  ]
  apply-IsCache m c (put_op k v) h = elim (Option-cases (get_elem? c (shard_for hash k))) [
    | inl n ↦ rw (n, put) h
    | inr (s, e) ↦
        rw (e, put)
          (set-IsCache m c (shard_for hash k) _ h
            (put-Holds m s k v (All-get_elem? (Holds m) c (shard_for hash k) h.0 e)))
  ]
  apply-IsCache m c (remove_op k) h = elim (Option-cases (get_elem? c (shard_for hash k))) [
    | inl n ↦ rw (n, remove) h
    | inr (s, e) ↦
        rw (e, remove)
          (set-IsCache m c (shard_for hash k) _ h
            (remove-Holds m s k (All-get_elem? (Holds m) c (shard_for hash k) h.0 e)))
  ]

  run-IsCache : (m : ℤ) (c : List ByteLruShard) (os : List Op) → IsCache m c → IsCache m (run c os)
  run-IsCache m c [] h = h
  run-IsCache m c (o ∷ os) h = run-IsCache m (apply c o) os (apply-IsCache m c o h)

  -- The value that was put into a cache is found again, unless it is larger than the budget of a
  -- shard, whichever shard the key's hash picks.
  pub get-put_cache :
      (m : ℤ) (c : List ByteLruShard) (k value : Bytes)
      → IsCache m c
      → (get hash (put hash c k value) k).1
        ≡ (if ltb_ℤ (pos 0) m && ltb_ℤ m (pos (length value)) then none else some value)
  unfolding get put
  get-put_cache m c k value (a, l) =
      let (s, e) = get_elem?-lt c (shard_for hash k) (unfold shard_for in omega arith) in
      let (v, b) = All-get_elem? (Holds m) c (shard_for hash k) a e in
      rw (e, put, get_elem?-set_self c (shard_for hash k) (Shard.put s k value) e, get, ← b)
        (get-put s k value v)

-- The bytes that a cache holds.
abbrev pub held : List ByteLruShard → ℕ
held [] = 0
held (s ∷ c) = total s.ll + held c

held-le : (p : ℕ) (c : List ByteLruShard) → 0 < p → All (Holds (pos p)) c → held c ≤ length c * p
held-le p [] h a = omega arith
held-le p (s ∷ c) h ((v, b), a) =
    let n = ap pos_part v.coherent.counted in
    let n' = ap neg_part v.coherent.counted in
    let b1 = ap pos_part b in
    let b2 = ap neg_part b in
    let w : s.size ≤ℤ s.max_bytes = v.within (omega arith) in
    let first : total s.ll ≤ p = omega arith in omega (arith, held-le p c h a)

pub per_shard_lem :
    (capacity : ℕ)
    → byte_lru_shard_count ≤ capacity
    → per_shard (pos capacity) ≡ pos (capacity / 32)
unfolding per_shard
per_shard_lem capacity h = ground arith

-- From a new cache with at least one byte for each shard, no sequence of reads, writes and removals
-- makes the cache hold more than its capacity.
pub run-held :
    (hash : Bytes → ℕ) (capacity : ℕ) (os : List Op)
    → byte_lru_shard_count ≤ capacity
    → held (run hash (new_byte_lru (pos capacity)) os) ≤ capacity
run-held hash capacity os h =
    let (a, l) =
      run-IsCache hash (per_shard (pos capacity)) (new_byte_lru (pos capacity)) os
        (new_byte_lru-IsCache (pos capacity)) in
    let b =
      held-le (capacity / 32) (run hash (new_byte_lru (pos capacity)) os) (omega arith)
        (rw (← per_shard_lem capacity h) a) in
    let c : held (run hash (new_byte_lru (pos capacity)) os)
        ≤ byte_lru_shard_count * (capacity / 32) =
      rw l at b in
    omega arith
