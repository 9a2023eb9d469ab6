-- ===== src/Cache/Shard/Invariant.antt =====
-- What holds of a shard between two operations.
use drakkar.Prelude.{
  ℕ, zero, suc, ◌+◌, ◌≤◌, ◌≡◌, refl, sym, ap, subst, ◌∙◌, Bool, true, false, ◌&&◌, ◌||◌, none, some,
  List, [], ◌∷◌, ◌⊎◌, inl, inr, arith, if◌then◌else◌, length, Bool-cases, Option-cases,
}
use drakkar.Prelude.Bytes.{Bytes, bytes_eq, bytes_eq_iff, bytes_eq_refl}
use drakkar.Prelude.Int.{pos, ◌≤ℤ◌, ◌<ℤ◌, ltb_ℤ, ◌-ℤ◌, +ℤ_parts, -ℤ_parts, eq_of_parts}
use drakkar.Cache.Shard.{
  ByteEntry, ByteLruShard, in_map, delete, find, unlink, back, evict, trim_loop, trim, get, replace,
  push_front, put, remove,
}

-- The bytes that the elements hold.
abbrev pub total : List ByteEntry → ℕ
total [] = 0
total (e ∷ es) = length e.value + total es

-- The list has an element with the key.
abbrev pub has : Bytes → List ByteEntry → Bool
has k [] = false
has k (e ∷ es) = bytes_eq e.key k || has k es

-- No two elements have one key.
abbrev pub Unique : List ByteEntry → Type 0
Unique [] = Unit
Unique (e ∷ es) = (has e.key es ≡ false) × Unique es

-- The map leads to the elements of the list and to no others, and the size is the bytes held.
pub record IsCoherent (s : ByteLruShard) : Type 0 where
  pub linked : (k : Bytes) → in_map k s.entries ≡ has k s.ll
  pub unique : Unique s.ll
  pub counted : s.size ≡ pos (total s.ll)

-- And a shard with a bound holds no more than it.
pub record IsValid (s : ByteLruShard) : Type 0 where
  pub coherent : IsCoherent s
  pub within : pos 0 <ℤ s.max_bytes → s.size ≤ℤ s.max_bytes

pub in_map-delete :
    (k j : Bytes) (m : List Bytes)
    → in_map j (delete k m) ≡ (if bytes_eq k j then false else in_map j m)
unfolding in_map delete
in_map-delete k j [] = ground arith
in_map-delete k j (i ∷ m) =
    ground (arith, bytes_eq_iff k j, bytes_eq_iff i k, bytes_eq_iff i j, in_map-delete k j m)

pub has-unlink :
    (k j : Bytes) (es : List ByteEntry)
    → Unique es
    → has j (unlink k es) ≡ (if bytes_eq k j then false else has j es)
unfolding unlink
has-unlink k j [] u = ground arith
has-unlink k j (e ∷ es) (n, u) =
    ground
      (arith, bytes_eq_iff k j, bytes_eq_iff e.key k, bytes_eq_iff e.key j, has-unlink k j es u)

unlink-Unique : (k : Bytes) (es : List ByteEntry) → Unique es → Unique (unlink k es)
unfolding unlink
unlink-Unique k [] u = tt
unlink-Unique k (e ∷ es) (n, u) = ground (arith, unlink-Unique k es u, has-unlink k e.key es u)

-- What a pointer of the map leads to.
pub find-has :
    (k : Bytes) (es : List ByteEntry)
    → has k es ≡ true
    → (e : ByteEntry) × (find k es ≡ some e) × (e.key ≡ k)
unfolding find
find-has k [] h = cc
find-has k (e ∷ es) h = elim (Bool-cases (bytes_eq e.key k)) [
  | inl t ↦ (e, rw t refl, (bytes_eq_iff e.key k).0 t)
  | inr t ↦ let (r, p, q) = find-has k es (ground arith) in (r, rw t p, q)
]

pub total-unlink :
    (k : Bytes) (es : List ByteEntry) (e : ByteEntry)
    → find k es ≡ some e
    → total (unlink k es) + length e.value ≡ total es
unfolding find unlink
total-unlink k [] e h = cc
total-unlink k (x ∷ es) e h = ground (arith, total-unlink k es e)

pub has_apart :
    (k j : Bytes) (es : List ByteEntry) → has k es ≡ false → has j es ≡ true → bytes_eq k j ≡ false
has_apart k j es n h = elim (Bool-cases (bytes_eq k j)) [
  | inr t ↦ t
  | inl t ↦ let h' : has k es ≡ true = rw ((bytes_eq_iff k j).0 t) h in cc
]

-- The last element, as the pointer of its key.
pub find-back :
    (es : List ByteEntry) (e : ByteEntry)
    → Unique es
    → back es ≡ some e
    → (find e.key es ≡ some e) × (has e.key es ≡ true)
unfolding find back
find-back [] e u h = cc
find-back (x ∷ []) e u h = ground (arith, bytes_eq_refl e.key)
find-back (x ∷ y ∷ es) e (n, u) h =
    let (f, g) = find-back (y ∷ es) e u h in
    let t = has_apart x.key e.key (y ∷ es) n g in (rw t f, rw t g)

pub evict-IsCoherent :
    (s : ByteLruShard) (e : ByteEntry)
    → IsCoherent s
    → find e.key s.ll ≡ some e
    → IsCoherent (evict s e)
unfolding evict
evict-IsCoherent s e c f = record {
  linked = λ k. rw (in_map-delete e.key k s.entries, has-unlink e.key k s.ll c.unique, c.linked k);
  unique = unlink-Unique e.key s.ll c.unique;
  counted = eq_of_parts _ _ (
      rw c.counted (
        omega (
          arith,
          total-unlink e.key s.ll e f,
          -ℤ_parts (pos (total s.ll)) (pos (length e.value)),
        )));
}

pub back-none : (es : List ByteEntry) → back es ≡ none → es ≡ []
unfolding back
back-none [] h = refl
back-none (e ∷ []) h = cc
back-none (e ∷ x ∷ es) h = absurd (no_end e x es h)
  where
    no_end : (e x : ByteEntry) (es : List ByteEntry) → back (e ∷ x ∷ es) ≡ none → ⊥
    no_end e x [] h = cc
    no_end e x (y ∷ es) h = no_end x y es h

pub length-unlink :
    (k : Bytes) (es : List ByteEntry) → has k es ≡ true → length (unlink k es) + 1 ≡ length es
unfolding unlink
length-unlink k [] h = cc
length-unlink k (x ∷ es) h = ground (arith, length-unlink k es)

pub nil_of_length : (es : List ByteEntry) → length es ≤ 0 → es ≡ []
nil_of_length [] h = refl
nil_of_length (e ∷ es) h = absurd (omega arith)

empty_within :
    (s : ByteLruShard) → IsCoherent s → s.ll ≡ [] → pos 0 <ℤ s.max_bytes → s.size ≤ℤ s.max_bytes
empty_within s c e p =
    let q : s.size ≡ pos 0 = c.counted ∙ ap (λ l. pos (total l)) e in rw q (omega arith)

-- The loop of `trim` keeps the invariant, and with enough rounds the size is within the bound.
pub trim_loop-IsValid :
    (fuel : ℕ) (s : ByteLruShard) → IsCoherent s → length s.ll ≤ fuel → IsValid (trim_loop fuel s)
unfolding trim_loop
trim_loop-IsValid zero s c h = record {
  coherent = c;
  within = λ p. empty_within s c (nil_of_length s.ll h) p;
}
trim_loop-IsValid (suc fuel) s c h =
    elim (Bool-cases (ltb_ℤ (pos 0) s.max_bytes && ltb_ℤ s.max_bytes s.size)) [
      | inr t ↦ rw (t, trim_loop) (record { coherent = c; within = λ p. ground arith })
      | inl t ↦ elim (Option-cases (back s.ll)) [
        | inl n ↦
            rw (t, trim_loop, n)
              (record { coherent = c; within = λ p. empty_within s c (back-none s.ll n) p })
        | inr (e, b) ↦
            let (f, g) = find-back s.ll e c.unique b in
            rw (t, trim_loop, b)
              (trim_loop-IsValid fuel (evict s e) (evict-IsCoherent s e c f)
                (unfold evict in omega (arith, length-unlink e.key s.ll g)))
      ]
    ]

trim-IsValid : (s : ByteLruShard) → IsCoherent s → IsValid (trim s)
unfolding trim
trim-IsValid s c = trim_loop-IsValid (length s.ll) s c (omega arith)

-- The element that the map leads to, or that there is none.
pub element :
    (s : ByteLruShard) (k : Bytes)
    → IsCoherent s
    → (in_map k s.entries ≡ false)
      ⊎ ((e : ByteEntry) × (in_map k s.entries ≡ true)
          × (find k s.ll ≡ some e)
          × (e.key ≡ k)
          × (find e.key s.ll ≡ some e)
          × (has e.key s.ll ≡ true))
element s k c = elim (Bool-cases (in_map k s.entries)) [
  | inr n ↦ inl n
  | inl y ↦
      let h : has k s.ll ≡ true = rw (← c.linked k) y in
      let (e, f, q) = find-has k s.ll h in
      inr (
        e,
        y,
        f,
        q,
        subst (λ j. find j s.ll ≡ some e) (sym q) f,
        subst (λ j. has j s.ll ≡ true) (sym q) h,
      )
]

-- An element of the list, moved to the front with a new value.
pub front-IsCoherent :
    (s : ByteLruShard) (e : ByteEntry) (v : Bytes)
    → IsCoherent s
    → has e.key s.ll ≡ true
    → find e.key s.ll ≡ some e
    → IsCoherent (replace s e v)
unfolding replace
front-IsCoherent s e v c h f = record {
  linked =
      λ k. rw (c.linked k) (ground (arith, has-unlink e.key k s.ll c.unique, bytes_eq_iff e.key k));
  unique = (
    ground (arith, has-unlink e.key e.key s.ll c.unique, bytes_eq_refl e.key),
    unlink-Unique e.key s.ll c.unique,
  );
  counted = eq_of_parts _ _ (
      rw c.counted (
        omega (
          arith,
          total-unlink e.key s.ll e f,
          -ℤ_parts (pos (total s.ll)) (pos (length e.value)),
          +ℤ_parts (pos (total s.ll) -ℤ pos (length e.value)) (pos (length v)),
        )));
}

touch-IsCoherent :
    (s : ByteLruShard) (e : ByteEntry)
    → IsCoherent s
    → has e.key s.ll ≡ true
    → find e.key s.ll ≡ some e
    → IsCoherent (record s { ll = e ∷ unlink e.key s.ll })
touch-IsCoherent s e c h f = record {
  linked =
      λ k. rw (c.linked k) (ground (arith, has-unlink e.key k s.ll c.unique, bytes_eq_iff e.key k));
  unique = (
    ground (arith, has-unlink e.key e.key s.ll c.unique, bytes_eq_refl e.key),
    unlink-Unique e.key s.ll c.unique,
  );
  counted = rw c.counted (ap pos (omega (arith, total-unlink e.key s.ll e f)));
}

pub push_front-IsCoherent :
    (s : ByteLruShard) (k v : Bytes)
    → IsCoherent s
    → in_map k s.entries ≡ false
    → IsCoherent (push_front s k v)
unfolding push_front in_map
push_front-IsCoherent s k v c n = record {
  linked = λ j. rw (c.linked j) refl;
  unique = (rw (← c.linked k) n, c.unique);
  counted =
      eq_of_parts _ _ (rw c.counted (omega (arith, +ℤ_parts (pos (total s.ll)) (pos (length v)))));
}

-- It only moves an element to the front.
pub get-IsValid : (s : ByteLruShard) (k : Bytes) → IsValid s → IsValid (get s k).0
unfolding get
get-IsValid s k v = elim (element s k v.coherent) [
  | inl n ↦ rw n v
  | inr (e, y, f, q, own, h) ↦
      rw (y, f) (record { coherent = touch-IsCoherent s e v.coherent h own; within = v.within })
]

pub put-IsValid : (s : ByteLruShard) (k value : Bytes) → IsValid s → IsValid (put s k value)
unfolding put
put-IsValid s k value v = elim (element s k v.coherent) [
  | inl n ↦ rw n (trim-IsValid _ (push_front-IsCoherent s k value v.coherent n))
  | inr (e, y, f, q, own, h) ↦
      rw (y, f) (trim-IsValid _ (front-IsCoherent s e value v.coherent h own))
]

pub remove-IsValid : (s : ByteLruShard) (k : Bytes) → IsValid s → IsValid (remove s k)
unfolding remove
remove-IsValid s k v = elim (element s k v.coherent) [
  | inl n ↦ rw n v
  | inr (e, y, f, q, own, h) ↦
      rw (y, f)
        (record {
          coherent = evict-IsCoherent s e v.coherent own;
          within = λ p.
              unfold evict in omega (arith, v.within p, -ℤ_parts s.size (pos (length e.value)));
        })
]
