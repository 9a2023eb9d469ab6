-- ===== src/Api/LoginThrottle/Capacity.antt =====
-- How the operations of the login throttle change the number of its entries.
use drakkar.Prelude.{
  ℕ, zero, suc, ◌+◌, ◌≤◌, ◌≡◌, refl, ◌∙◌, Bool, true, false, Option, none, some, List, [], ◌∷◌,
  arith, ltb, Bool-cases, Option-cases, inl, inr, length,
}
use drakkar.Prelude.Bytes.{Bytes, bytes_eq, bytes_eq_refl, bytes_eq_iff}
use drakkar.Prelude.Dict.{lookup, insert, remove, lookup-insert, lookup-remove}
use drakkar.Api.LoginThrottle.{
  LoginThrottleConfig, LoginThrottleEntry, prune_expired, login_key_protected, older, oldest_entry,
  ensure_loop, count_missing, entry_or_new, reserve,
}

abbrev pub Entries : Type 0
Entries = List (Bytes × LoginThrottleEntry)

length-remove : (k : Bytes) (m : Entries) → length (remove k m) ≤ length m
unfolding remove
length-remove k [] = omega arith
length-remove k ((j, w) ∷ m) = ground (arith, length-remove k m)

length-insert_new :
    (k : Bytes) (v : LoginThrottleEntry) (m : Entries) → length (insert k v m) ≤ length m + 1
unfolding insert
length-insert_new k v [] = omega arith
length-insert_new k v ((j, w) ∷ m) = ground (arith, length-insert_new k v m)

pub length-insert_found :
    (k : Bytes) (v e : LoginThrottleEntry) (m : Entries)
    → lookup k m ≡ some e
    → length (insert k v m) ≡ length m
unfolding insert lookup
length-insert_found k v e [] h = ground arith
length-insert_found k v e ((j, w) ∷ m) h = ground (arith, length-insert_found k v e m)

pub length-prune_expired :
    (c : LoginThrottleConfig) (now : ℕ) (m : Entries) → length (prune_expired c now m) ≤ length m
unfolding prune_expired
length-prune_expired c now [] = omega arith
length-prune_expired c now ((k, e) ∷ m) = ground (arith, length-prune_expired c now m)

-- An inserted key makes no other key missing.
count_missing-insert :
    (k : Bytes) (v : LoginThrottleEntry) (m : Entries) (ks : List Bytes)
    → count_missing (insert k v m) ks ≤ count_missing m ks
unfolding count_missing
count_missing-insert k v m [] = omega arith
count_missing-insert k v m (j ∷ ks) =
    let h = count_missing-insert k v m ks in
    elim (Bool-cases (bytes_eq k j)) [
      | inl t ↦
          rw (count_missing, lookup-insert k j v m, t)
            (elim (Option-cases (lookup j m)) [
              | inl n ↦ rw (count_missing, n) (omega arith)
              | inr (e, y) ↦ rw (count_missing, y) h
            ])
      | inr t ↦
          rw (count_missing, lookup-insert k j v m, t)
            (elim (Option-cases (lookup j m)) [
              | inl n ↦ rw (count_missing, n) (omega arith)
              | inr (e, y) ↦ rw (count_missing, y) h
            ])
    ]

-- What is inserted for a list of keys is what is missing.
pub length-reserve :
    (now : ℕ) (ks : List Bytes) (m : Entries)
    → length (reserve now ks m) ≤ length m + count_missing m ks
unfolding reserve count_missing
length-reserve now [] m = omega arith
length-reserve now (k ∷ ks) m =
    let e = entry_or_new (lookup k m) in
    let v : LoginThrottleEntry = record e { in_flight = e.in_flight + 1; last_seen = now } in
    let h = length-reserve now ks (insert k v m) in
    let c = count_missing-insert k v m ks in
    elim (Option-cases (lookup k m)) [
      | inl n ↦
          let l = length-insert_new k v m in
          let g : length (reserve now ks (insert k v m)) ≤ length m + (count_missing m ks + 1) =
            omega arith in
          rw (count_missing, n) (rw n at g)
      | inr (x, y) ↦
          let l = length-insert_found k v x m y in
          let g : length (reserve now ks (insert k v m)) ≤ length m + count_missing m ks =
            omega arith in
          rw (count_missing, y) (rw y at g)
    ]

abbrev IsOpen : List Bytes → Option (Bytes × LoginThrottleEntry) → Type 0
IsOpen keys none = Unit
IsOpen keys (some x) = login_key_protected keys x.0 ≡ false

oldest_entry-IsOpen :
    (keys : List Bytes) (now : ℕ) (m : Entries) (best : Option (Bytes × LoginThrottleEntry))
    → IsOpen keys best
    → IsOpen keys (oldest_entry keys now m best)
unfolding oldest_entry
oldest_entry-IsOpen keys now [] best h = h
oldest_entry-IsOpen keys now ((k, e) ∷ m) best h =
    oldest_entry-IsOpen keys now m _ (elim (Bool-cases (login_key_protected keys k)) [
      | inl t ↦ rw t h
      | inr t ↦ rw t (elim (Bool-cases (ltb 0 e.in_flight)) [
        | inl u ↦ rw u h
        | inr u ↦ rw u (elim (Bool-cases (older now best e)) [ inl y ↦ rw y t | inr y ↦ rw y h ])
      ])
    ])

protected-ne :
    (keys : List Bytes) (x j : Bytes)
    → login_key_protected keys x ≡ false
    → login_key_protected keys j ≡ true
    → bytes_eq x j ≡ false
protected-ne keys x j h k = elim (Bool-cases (bytes_eq x j)) [
  | inl t ↦ let e = (bytes_eq_iff x j).0 t in let h' = rw e at h in cc
  | inr t ↦ t
]

-- Removing a key that is not protected makes no protected key missing.
count_missing-remove :
    (keys : List Bytes) (x : Bytes)
    → login_key_protected keys x ≡ false
    → (m : Entries) (ks : List Bytes)
    → ((j : Bytes) → login_key_protected ks j ≡ true → login_key_protected keys j ≡ true)
    → count_missing (remove x m) ks ≡ count_missing m ks
unfolding count_missing login_key_protected
count_missing-remove keys x h m [] inside = refl
count_missing-remove keys x h m (k ∷ ks) inside =
    let own : login_key_protected keys k ≡ true = inside k (ground (arith, bytes_eq_refl k)) in
    let rest = count_missing-remove keys x h m ks (λ j p. inside j (ground arith)) in
    rw (count_missing, lookup-remove x k m, protected-ne keys x k h own)
      (elim (Option-cases (lookup k m)) [
        | inl n ↦ rw (count_missing, n, rest) refl
        | inr (e, y) ↦ rw (count_missing, y) rest
      ])

-- What making room keeps: no more entries, all the protected ones, and, where it succeeds, room.
pub record IsRoom (limit missing : ℕ) (keys : List Bytes) (m : Entries) (r : Entries × Bool)
    : Type 0 where
  pub fewer : length r.0 ≤ length m
  pub same : count_missing r.0 keys ≡ count_missing m keys
  pub room : r.1 ≡ true → length r.0 + missing ≤ limit

pub ensure_loop-IsRoom :
    (fuel limit missing : ℕ) (keys : List Bytes) (now : ℕ) (m : Entries)
    → IsRoom limit missing keys m (ensure_loop fuel limit missing keys now m)
unfolding ensure_loop
ensure_loop-IsRoom zero limit missing keys now m = record {
  fewer = omega arith;
  same = refl;
  room = λ h. ground arith;
}
ensure_loop-IsRoom (suc fuel) limit missing keys now m =
    elim (Bool-cases (ltb limit (length m + missing))) [
      | inr t ↦
          rw (ensure_loop, t)
            (record { fewer = omega arith; same = refl; room = λ h. ground arith })
      | inl t ↦ elim (Option-cases (oldest_entry keys now m none)) [
        | inl n ↦
            rw (ensure_loop, t, n) (record { fewer = omega arith; same = refl; room = λ h. cc })
        | inr (x, y) ↦
            let unprotected : login_key_protected keys x.0 ≡ false =
              (let o = oldest_entry-IsOpen keys now m none tt in rw y at o) in
            let i = ensure_loop-IsRoom fuel limit missing keys now (remove x.0 m) in
            let l = length-remove x.0 m in
            rw (ensure_loop, t, y)
              (record {
                fewer = let f = i.fewer in omega arith;
                same = i.same ∙ count_missing-remove keys x.0 unprotected m keys (λ j p. p);
                room = i.room;
              })
      ]
    ]
