-- ===== src/Api/LoginThrottle/Limits.antt =====
-- The bounds of the login throttle: how many checks run at once, and how many entries it keeps.
use drakkar.Prelude.{
  ℕ, zero, suc, ◌+◌, ◌%◌, ◌^◌, ◌≤◌, ◌≡◌, refl, sym, ap, ◌∙◌, subst, ◌-◌, Bool, true, false, ◌||◌,
  Option, none, some, List, [], ◌∷◌, arith, ltb, leb, ◌==◌, if◌then◌else◌, Bool-cases, Option-cases,
  inl, inr, length, get_elem?, set,
}
use drakkar.Prelude.Bytes.{Bytes}
use drakkar.Prelude.Dict.{lookup, insert}
use drakkar.Api.LoginThrottle.{
  LoginThrottleOptions, new_login_throttle, LoginThrottleConfig, LoginThrottle, LoginAttempt,
  ensure_loop, ensure_capacity, retry_after, count_missing, begin_keys, counted,
  login_throttle_keys, begin, finish_entry, finish_found, finish_entries, finish,
}
use drakkar.Api.LoginThrottle.Capacity.{
  Entries, length-insert_found, length-reserve, length-prune_expired, ensure_loop-IsRoom,
}

-- The throttle, and the attempts that it has given out, the last one first.
abbrev pub Checks : Type 0
Checks = LoginThrottle × List LoginAttempt

-- The checks that run: their attempts are not finished.
abbrev pub unfinished : List LoginAttempt → ℕ
unfinished [] = 0
unfinished (a ∷ issued) = if a.done then unfinished issued else suc (unfinished issued)

abbrev given_out : LoginThrottle × (Option LoginAttempt × ℕ) → List LoginAttempt → Checks
given_out (t, (none, wait)) issued = (t, issued)
given_out (t, (some a, wait)) issued = (t, a ∷ issued)

-- The counter is the number of the checks that run, at most so many run, and at most so many entries
-- are kept, as the configuration says.
record IsBounded (c : LoginThrottleConfig) (s : Checks) : Type 0 where
  settings : s.0.config ≡ c
  count : s.0.global_in_flight ≡ unfinished s.1
  running : s.0.global_in_flight ≤ s.0.config.max_concurrent
  kept : length s.0.entries ≤ s.0.config.max_entries

unfinished-set :
    (issued : List LoginAttempt) (k : ℕ) (a b : LoginAttempt)
    → get_elem? issued k ≡ some a
    → a.done ≡ false
    → b.done ≡ true
    → unfinished issued ≡ suc (unfinished (set issued k b))
unfinished-set [] k a b h d e = absurd cc
unfinished-set (x ∷ issued) zero a b h d e = let q : x ≡ a = ground arith in rw (q, d, e) refl
unfinished-set (x ∷ issued) (suc k) a b h d e =
    rw (unfinished-set issued k a b h d e) (ground arith)

set_self :
    (issued : List LoginAttempt) (k : ℕ) (a : LoginAttempt)
    → get_elem? issued k ≡ some a
    → set issued k a ≡ issued
set_self [] k a h = refl
set_self (x ∷ issued) zero a h = ground arith
set_self (x ∷ issued) (suc k) a h = ap (λ l. x ∷ l) (set_self issued k a h)

begin_keys-IsBounded :
    {c : LoginThrottleConfig} (t : LoginThrottle) (issued : List LoginAttempt) (keys : List Bytes)
    (now : ℕ)
    → IsBounded c (t, issued)
    → IsBounded c (given_out (begin_keys t keys now) issued)
unfolding begin_keys ensure_capacity
begin_keys-IsBounded t issued keys now b =
    elim (Bool-cases (leb t.config.max_concurrent t.global_in_flight)) [
      | inl u ↦ rw (begin_keys, u) b
      | inr u ↦ elim (Bool-cases (ltb 0 (retry_after t.config now t.entries keys 0))) [
        | inl v ↦ rw (begin_keys, u, v) b
        | inr v ↦
            let r =
              ensure_loop (length t.entries) t.config.max_entries (count_missing t.entries keys)
                keys now t.entries in
            let i =
              ensure_loop-IsRoom (length t.entries) t.config.max_entries
                (count_missing t.entries keys) keys now t.entries in
            let l = length-reserve now keys r.0 in
            elim (Bool-cases r.1) [
              | inl w ↦
                  let z = i.room w in
                  let s = i.same in
                  rw (begin_keys, u, v, ensure_capacity, w)
                    (record {
                      settings = b.settings;
                      count = let z = b.count in omega arith;
                      running = ground arith;
                      kept = omega arith;
                    })
              | inr w ↦
                  let f = i.fewer in
                  let k = b.kept in
                  rw (begin_keys, u, v, ensure_capacity, w)
                    (record {
                      settings = b.settings;
                      count = b.count;
                      running = b.running;
                      kept = omega arith;
                    })
            ]
      ]
    ]

counted-IsBounded :
    {c : LoginThrottleConfig} (t : LoginThrottle) (issued : List LoginAttempt) (now : ℕ)
    → IsBounded c (t, issued)
    → IsBounded c (counted t now, issued)
unfolding counted
counted-IsBounded t issued now b =
    elim (Bool-cases
      (((t.operations + 1) % 2 ^ 64 % 64 == 0) || leb t.config.max_entries (length t.entries))) [
        | inl u ↦
            rw (counted, u)
              (record {
                settings = b.settings;
                count = b.count;
                running = b.running;
                kept =
                    let l = length-prune_expired t.config now t.entries in
                    let k = b.kept in omega arith;
              })
        | inr u ↦
            rw (counted, u)
              (record {
                settings = b.settings;
                count = b.count;
                running = b.running;
                kept = b.kept;
              })
      ]

length-finish_entries :
    (c : LoginThrottleConfig) (now : ℕ) (success : Bool) (ks : List Bytes) (m : Entries)
    → length (finish_entries c now success ks m) ≡ length m
unfolding finish_entries finish_found
length-finish_entries c now success [] m = refl
length-finish_entries c now success (k ∷ ks) m = elim (Option-cases (lookup k m)) [
  | inl n ↦ rw (finish_entries, n) (length-finish_entries c now success ks m)
  | inr (e, y) ↦
      rw (finish_entries, y)
        (length-finish_entries c now success ks (insert k (finish_entry c now success e) m)
          ∙ length-insert_found k (finish_entry c now success e) e m y)
]

-- What callers do: begin a check, or finish the one that was given out as the so manyth, counted from the
-- last, perhaps not for the first time.
pub data Op : Type 0 where
  begins : Bytes → Bytes → ℕ → Op
  finishes : ℕ → Bool → ℕ → Op

abbrev finish_attempt : Checks → ℕ → LoginThrottle × LoginAttempt → Checks
finish_attempt s k (t, a) = (t, set s.1 k a)

module _ (account_hash : Bytes → Bytes) where
  abbrev pub apply : Checks → Op → Checks
  apply s (begins client_ip username now) =
      given_out (begin account_hash s.0 client_ip username now) s.1
  apply s (finishes k success now) = elim (get_elem? s.1 k) [
    | none ↦ s
    | some a ↦ finish_attempt s k (finish s.0 a success now)
  ]

  abbrev pub run : Checks → List Op → Checks
  run s [] = s
  run s (o ∷ os) = run (apply s o) os

  finish-IsBounded :
      {c : LoginThrottleConfig} (s : Checks) (k : ℕ) (a : LoginAttempt) (success : Bool) (now : ℕ)
      → get_elem? s.1 k ≡ some a
      → IsBounded c s
      → IsBounded c (finish_attempt s k (finish s.0 a success now))
  finish-IsBounded {c} (t, issued) k a success now h b = elim (Bool-cases a.done) [
    | inl d ↦
        let u : finish t a success now ≡ (t, a) = unfold finish in ground arith in
        subst (λ x. IsBounded c (finish_attempt (t, issued) k x)) (sym u)
          (subst (λ l. IsBounded c (t, l)) (sym (set_self issued k a h)) b)
    | inr d ↦
        let over : LoginAttempt = record a { done = true } in
        let t' : LoginThrottle = record t {
          global_in_flight = t.global_in_flight - 1;
          entries = finish_entries t.config now success a.keys t.entries;
        } in
        let u : finish t a success now ≡ (t', over) = unfold finish in ground arith in
        let n = unfinished-set issued k a over h d refl in
        subst (λ x. IsBounded c (finish_attempt (t, issued) k x)) (sym u)
          (record {
            settings = b.settings;
            count = let z = b.count in omega arith;
            running = let r = b.running in omega arith;
            kept = rw (length-finish_entries t.config now success a.keys t.entries) b.kept;
          })
  ]

  apply-IsBounded :
      {c : LoginThrottleConfig} (s : Checks) (o : Op) → IsBounded c s → IsBounded c (apply s o)
  unfolding begin
  apply-IsBounded (t, issued) (begins client_ip username now) b =
      begin_keys-IsBounded (counted t now) issued
        (login_throttle_keys account_hash client_ip username) now (counted-IsBounded t issued now b)
  apply-IsBounded s (finishes k success now) b = elim (Option-cases (get_elem? s.1 k)) [
    | inl n ↦ rw (apply, n) b
    | inr (a, e) ↦ rw (apply, e) (finish-IsBounded s k a success now e b)
  ]

  run-IsBounded :
      {c : LoginThrottleConfig} (s : Checks) (os : List Op) → IsBounded c s → IsBounded c (run s os)
  run-IsBounded s [] b = b
  run-IsBounded s (o ∷ os) b = run-IsBounded (apply s o) os (apply-IsBounded s o b)

  -- From a new throttle, whatever it is configured with, no sequence of begun and finished checks, in
  -- any order and by any clock, lets more checks run at once than the configuration allows, or keeps
  -- more entries. A check runs from the attempt that it was given until this attempt is finished for
  -- the first time; the counter of the throttle is the number of them.
  pub run-bounded :
      (options : LoginThrottleOptions) (os : List Op)
      → let s = run (new_login_throttle options, []) os in
        (unfinished s.1 ≤ (new_login_throttle options).config.max_concurrent)
        × (s.0.global_in_flight ≡ unfinished s.1)
        × (length s.0.entries ≤ (new_login_throttle options).config.max_entries)
  run-bounded options os =
      let t = new_login_throttle options in
      let b =
        run-IsBounded (t, []) os
          (record {
            settings = refl;
            count = unfold new_login_throttle in refl;
            running = unfold new_login_throttle in omega arith;
            kept = unfold new_login_throttle in omega arith;
          }) in
      (rw b.count at (rw b.settings at b.running), b.count, rw b.settings at b.kept)
