-- ===== src/Cache/Shard/Recency.antt =====
-- Which elements a shard keeps, and what a reader finds.
use drakkar.Prelude.{
  ℕ, zero, suc, ◌-◌, ◌≤◌, ◌<◌, ◌≡◌, ◌≢◌, refl, sym, ap, subst, ◌∙◌, true, false, ◌&&◌, none, some,
  List, [], ◌∷◌, inl, inr, arith, leb, if◌then◌else◌, length, Bool-cases, Option-cases,
}
use mathlib.Core.Option
use drakkar.Prelude.Bytes.{Bytes, bytes_eq, bytes_eq_iff, bytes_eq_refl}
use drakkar.Prelude.Int.{ℤ, pos, pos_part, neg_part, ltb_ℤ}
use drakkar.Cache.Shard.{
  ByteEntry, ByteLruShard, find, unlink, back, evict, trim_loop, trim, get, replace, push_front,
  put, remove,
}
use drakkar.Cache.Shard.Invariant.{
  total, has, Unique, IsCoherent, IsValid, put-IsValid, remove-IsValid, element, find-back,
  has_apart, evict-IsCoherent, back-none, nil_of_length, length-unlink, front-IsCoherent,
  push_front-IsCoherent, has-unlink,
}

-- The longest front part of the list whose values fit into the budget.
abbrev pub fitting : ℕ → List ByteEntry → List ByteEntry
fitting budget [] = []
fitting budget (e ∷ es) =
    let rest = e ∷ fitting (budget - length e.value) es in
    if leb (length e.value) budget then rest else []

-- What a shard with the bound may keep of a list; no bound keeps all.
abbrev pub kept : ℤ → List ByteEntry → List ByteEntry
kept max_bytes es = if ltb_ℤ (pos 0) max_bytes then fitting (pos_part max_bytes) es else es

fitting_all : (m : ℕ) (es : List ByteEntry) → total es ≤ m → fitting m es ≡ es
fitting_all m [] h = refl
fitting_all m (e ∷ es) h = ground (arith, fitting_all (m - length e.value) es)

fitting_cons :
    (m : ℕ) (x : ByteEntry) (l l' : List ByteEntry)
    → (length x.value ≤ m → fitting (m - length x.value) l ≡ fitting (m - length x.value) l')
    → fitting m (x ∷ l) ≡ fitting m (x ∷ l')
fitting_cons m x l l' h = elim (Bool-cases (leb (length x.value) m)) [
  | inl t ↦ rw t (rw (h (ground arith)))
  | inr t ↦ rw t
]

unlink_cons :
    (k : Bytes) (x : ByteEntry) (l : List ByteEntry)
    → bytes_eq x.key k ≡ false
    → unlink k (x ∷ l) ≡ x ∷ unlink k l
unfolding unlink
unlink_cons k x l h = rw h

-- Without its last element, which is the one that `trim` takes.
fitting_drop :
    (m : ℕ) (es : List ByteEntry) (e : ByteEntry)
    → Unique es
    → back es ≡ some e
    → m < total es
    → fitting m (unlink e.key es) ≡ fitting m es
unfolding back
fitting_drop m [] e u b h = cc
fitting_drop m (x ∷ []) e u b h = unfold unlink in ground (arith, bytes_eq_refl e.key)
fitting_drop m (x ∷ y ∷ es) e (n, u) b h =
    let (f, g) = find-back (y ∷ es) e u b in
    rw (unlink_cons e.key x (y ∷ es) (has_apart x.key e.key (y ∷ es) n g)) (
      fitting_cons m x (unlink e.key (y ∷ es)) (y ∷ es)
        (λ l. fitting_drop (m - length x.value) (y ∷ es) e u b (omega arith)))

-- A list that needs no trimming is kept whole.
kept_all :
    (s : ByteLruShard)
    → IsCoherent s
    → (ltb_ℤ (pos 0) s.max_bytes && ltb_ℤ s.max_bytes s.size) ≡ false
    → s.ll ≡ kept s.max_bytes s.ll
kept_all s c h = elim (Bool-cases (ltb_ℤ (pos 0) s.max_bytes)) [
  | inr t ↦ rw t refl
  | inl t ↦ rw t (
      sym (
        fitting_all (pos_part s.max_bytes) s.ll
          (let n = ap pos_part c.counted in let n' = ap neg_part c.counted in ground arith)))
]

kept_nil : (m : ℤ) → [] ≡ kept m []
kept_nil m = ground arith

kept_of_nil : (m : ℤ) (l : List ByteEntry) → l ≡ [] → l ≡ kept m l
kept_of_nil m l e = rw e (kept_nil m)

-- One eviction does not change what is kept in the end.
kept_evict :
    (s : ByteLruShard) (e : ByteEntry)
    → IsCoherent s
    → back s.ll ≡ some e
    → (ltb_ℤ (pos 0) s.max_bytes && ltb_ℤ s.max_bytes s.size) ≡ true
    → kept s.max_bytes (unlink e.key s.ll) ≡ kept s.max_bytes s.ll
kept_evict s e c b t =
    let n = ap pos_part c.counted in
    let n' = ap neg_part c.counted in
    let bounded : ltb_ℤ (pos 0) s.max_bytes ≡ true = ground arith in
    rw bounded (fitting_drop (pos_part s.max_bytes) s.ll e c.unique b (ground arith))

trim_loop-kept :
    (fuel : ℕ) (s : ByteLruShard)
    → IsCoherent s
    → length s.ll ≤ fuel
    → (trim_loop fuel s).ll ≡ kept s.max_bytes s.ll
unfolding trim_loop
trim_loop-kept zero s c h = kept_of_nil s.max_bytes s.ll (nil_of_length s.ll h)
trim_loop-kept (suc fuel) s c h =
    elim (Bool-cases (ltb_ℤ (pos 0) s.max_bytes && ltb_ℤ s.max_bytes s.size)) [
      | inr t ↦ rw (t, trim_loop) (kept_all s c t)
      | inl t ↦ elim (Option-cases (back s.ll)) [
        | inl n ↦ rw (t, trim_loop, n) (kept_of_nil s.max_bytes s.ll (back-none s.ll n))
        | inr (e, b) ↦
            let (f, g) = find-back s.ll e c.unique b in
            rw (t, trim_loop, b)
              (trim_loop-kept fuel (evict s e) (evict-IsCoherent s e c f)
                  (unfold evict in omega (arith, length-unlink e.key s.ll g))
                ∙ kept_evict s e c b t)
      ]
    ]

unlink_absent : (k : Bytes) (es : List ByteEntry) → has k es ≡ false → unlink k es ≡ es
unfolding unlink
unlink_absent k [] h = refl
unlink_absent k (e ∷ es) h = ground (arith, unlink_absent k es)

trim-kept : (s : ByteLruShard) → IsCoherent s → (trim s).ll ≡ kept s.max_bytes s.ll
unfolding trim
trim-kept s c = trim_loop-kept (length s.ll) s c (omega arith)

-- After Put the shard holds the new element at the front, then the others in the order of their last
-- use, as many from the front as fit into the bound; without a bound it holds them all.
pub put-kept :
    (s : ByteLruShard) (k value : Bytes)
    → IsValid s
    → (put s k value).ll ≡ kept s.max_bytes (record { key = k; value = value } ∷ unlink k s.ll)
unfolding put
put-kept s k value v = elim (element s k v.coherent) [
  | inl n ↦
      rw (n, unlink_absent k s.ll (rw (← v.coherent.linked k) n))
        (trim-kept (push_front s k value) (push_front-IsCoherent s k value v.coherent n)
          ∙ unfold push_front in refl)
  | inr (e, y, f, q, own, h) ↦
      rw (y, f)
        (trim-kept (replace s e value) (front-IsCoherent s e value v.coherent h own)
          ∙ moved s e k value q)
]
  where
    moved :
        (s : ByteLruShard) (e : ByteEntry) (k value : Bytes)
        → e.key ≡ k
        → kept (replace s e value).max_bytes (replace s e value).ll
          ≡ kept s.max_bytes (record { key = k; value = value } ∷ unlink k s.ll)
    moved s e k value q =
        unfold replace in
        ap (λ j. kept s.max_bytes (record { key = j; value = value } ∷ unlink j s.ll)) q

find-none : (k : Bytes) (es : List ByteEntry) → has k es ≡ false → find k es ≡ none
unfolding find
find-none k [] h = refl
find-none k (e ∷ es) h = ground (arith, find-none k es)

-- What a reader gets is the value that the list holds under the key.
pub get-find :
    (s : ByteLruShard) (k : Bytes)
    → IsCoherent s
    → (get s k).1 ≡ Option.map (λ e. e.value) (find k s.ll)
unfolding get
get-find s k c = elim (element s k c) [
  | inl n ↦ rw (n, find-none k s.ll (rw (← c.linked k) n))
  | inr (e, y, f, q, own, h) ↦ rw (y, f)
]

find-fitting :
    (m : ℕ) (j : Bytes) (es : List ByteEntry) (e : ByteEntry)
    → find j (fitting m es) ≡ some e
    → find j es ≡ some e
unfolding find
find-fitting m j [] e h = h
find-fitting m j (x ∷ es) e h = elim (Bool-cases (leb (length x.value) m)) [
  | inr t ↦ absurd (ground arith)
  | inl t ↦ ground (arith, find-fitting (m - length x.value) j es e)
]

find-kept :
    (m : ℤ) (j : Bytes) (es : List ByteEntry) (e : ByteEntry)
    → find j (kept m es) ≡ some e
    → find j es ≡ some e
find-kept m j es e h = elim (Bool-cases (ltb_ℤ (pos 0) m)) [
  | inl t ↦ find-fitting (pos_part m) j es e (rw t at h)
  | inr t ↦ rw t at h
]

find-unlink :
    (k j : Bytes) (es : List ByteEntry) → bytes_eq k j ≡ false → find j (unlink k es) ≡ find j es
unfolding find unlink
find-unlink k j [] h = refl
find-unlink k j (x ∷ es) h =
    ground
      (arith, find-unlink k j es h, bytes_eq_iff x.key k, bytes_eq_iff x.key j, bytes_eq_iff k j)

-- The value that was put is found again, except one that is larger than the bound of its shard,
-- which is evicted at once.
pub get-put :
    (s : ByteLruShard) (k value : Bytes)
    → IsValid s
    → (get (put s k value) k).1 ≡ (
        if ltb_ℤ (pos 0) s.max_bytes && ltb_ℤ s.max_bytes (pos (length value))
        then none
        else some value)
get-put s k value v =
    get-find (put s k value) k (put-IsValid s k value v).coherent
    ∙ rw (put-kept s k value v) (unfold find in ground (arith, bytes_eq_refl k))

-- The value of another key is what it was before, or evicted.
get-put_ne :
    (s : ByteLruShard) (k j value w : Bytes)
    → IsValid s
    → k ≢ j
    → (get (put s k value) j).1 ≡ some w
    → (get s j).1 ≡ some w
get-put_ne s k j value w v d h =
    let x : ByteEntry = record { key = k; value = value } in
    let apart : bytes_eq k j ≡ false = ground (arith, bytes_eq_iff k j) in
    let seen = get-find (put s k value) j (put-IsValid s k value v).coherent in
    elim (Option-cases (find j (put s k value).ll)) [
      | inl n ↦ absurd (let h' = sym h ∙ (seen ∙ ap (Option.map (λ e. e.value)) n) in cc)
      | inr (e, f) ↦
          let old : find j s.ll ≡ some e =
            sym (find-unlink k j s.ll apart)
            ∙ beyond j x (unlink k s.ll) e apart
                (find-kept s.max_bytes j (x ∷ unlink k s.ll) e (rw (put-kept s k value v) at f)) in
          get-find s j v.coherent
          ∙ (ap (Option.map (λ e. e.value)) old
              ∙ (sym (seen ∙ ap (Option.map (λ e. e.value)) f) ∙ h))
    ]
  where
    beyond :
        (j : Bytes) (x : ByteEntry) (l : List ByteEntry) (e : ByteEntry)
        → bytes_eq x.key j ≡ false
        → find j (x ∷ l) ≡ some e
        → find j l ≡ some e
    beyond j x l e t h = unfold find in ground arith

find-unlink_self : (k : Bytes) (es : List ByteEntry) → Unique es → find k (unlink k es) ≡ none
find-unlink_self k es u = find-none k _ (rw (has-unlink k k es u, bytes_eq_refl k))

remove_ll : (s : ByteLruShard) (k : Bytes) → IsCoherent s → (remove s k).ll ≡ unlink k s.ll
unfolding remove evict
remove_ll s k c = elim (element s k c) [
  | inl n ↦ rw n (sym (unlink_absent k s.ll (rw (← c.linked k) n)))
  | inr (e, y, f, q, own, h) ↦ rw (y, f) (ap (λ i. unlink i s.ll) q)
]

removed :
    (s : ByteLruShard) (k j : Bytes)
    → IsValid s
    → find j (remove s k).ll ≡ (if bytes_eq k j then none else find j s.ll)
removed s k j v = rw (remove_ll s k v.coherent) (elim (Bool-cases (bytes_eq k j)) [
  | inl t ↦ rw t (
      subst (λ i. find i (unlink k s.ll) ≡ none) ((bytes_eq_iff k j).0 t)
        (find-unlink_self k s.ll v.coherent.unique))
  | inr t ↦ rw t (find-unlink k j s.ll t)
])

get-remove :
    (s : ByteLruShard) (k j : Bytes)
    → IsValid s
    → (get (remove s k) j).1 ≡ (if bytes_eq k j then none else (get s j).1)
get-remove s k j v =
    get-find (remove s k) j (remove-IsValid s k v).coherent
    ∙ (rw (removed s k j v, get-find s j v.coherent)
        (elim (Bool-cases (bytes_eq k j)) [ inl t ↦ rw t | inr t ↦ rw t ]))

-- After Put its value is found under its key, unless it is larger than the bound of the shard, and
-- what is found under another key is what was found before. After Remove its key is not found, and
-- every other key is found as before.
pub get_after :
    (s : ByteLruShard) (k j value : Bytes)
    → IsValid s
    → ((get (put s k value) k).1 ≡ (
        if ltb_ℤ (pos 0) s.max_bytes && ltb_ℤ s.max_bytes (pos (length value))
        then none
        else some value))
      × ((w : Bytes) → k ≢ j → (get (put s k value) j).1 ≡ some w → (get s j).1 ≡ some w)
      × ((get (remove s k) j).1 ≡ (if bytes_eq k j then none else (get s j).1))
get_after s k j value v = (get-put s k value v, λ w. get-put_ne s k j value w v, get-remove s k j v)
