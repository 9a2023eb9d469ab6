-- ===== src/Api/LoginThrottle.antt =====
-- internal/api/login_throttle.go: the bound on concurrent password checks and the backoff after failed
-- ones. Instants are nanoseconds after the zero time, which is 0, so a difference that is negative in
-- the source is 0 here; both are below every bound that they are compared with. Each operation holds
-- the lock, so it is one step, and its clock reading is an argument. The hex form of the SHA-256 of
-- an account is a parameter.
pub mod Backoff
pub mod Capacity
pub mod Limits
use drakkar.Prelude.{
  ℕ, zero, suc, ◌+◌, ◌-◌, ◌*◌, ◌/◌, ◌%◌, ◌^◌, Bool, true, false, ◌&&◌, ◌||◌, not, Option, none,
  some, List, [], ◌∷◌, ◌++◌, length, ltb, leb, ◌==◌, if◌then◌else◌,
}
use drakkar.Prelude.Int.{ℤ, pos, negsuc}
use drakkar.Prelude.Bytes.{Bytes, codes, bytes_eq}
use drakkar.Prelude.Text.{trim_space, to_lower}
use drakkar.Prelude.Dict.{lookup, insert, remove}

abbrev pub second : ℕ
second = 1_000_000_000

-- The fields of a configuration as they are given.
pub record LoginThrottleOptions : Type 0 where
  pub failure_threshold : ℤ
  pub base_backoff : ℤ
  pub max_backoff : ℤ
  pub entry_ttl : ℤ
  pub busy_retry : ℤ
  pub max_entries : ℤ
  pub max_concurrent : ℤ
  pub max_per_identity : ℤ

-- The fields in use.
pub record LoginThrottleConfig : Type 0 where
  pub failure_threshold : ℕ
  pub base_backoff : ℕ
  pub max_backoff : ℕ
  pub entry_ttl : ℕ
  pub busy_retry : ℕ
  pub max_entries : ℕ
  pub max_concurrent : ℕ
  pub max_per_identity : ℕ

pub record LoginThrottleEntry : Type 0 where
  pub failures : ℕ
  pub in_flight : ℕ
  pub next_allowed : ℕ
  pub last_seen : ℕ

pub record LoginThrottle : Type 0 where
  pub config : LoginThrottleConfig
  pub entries : List (Bytes × LoginThrottleEntry)
  pub global_in_flight : ℕ
  pub operations : ℕ

pub record LoginAttempt : Type 0 where
  pub keys : List Bytes
  pub done : Bool

-- `if given > 0 { defaults.field = given }`
unfoldable pub positive_or : ℤ → ℕ → ℕ
positive_or (pos zero) default = default
positive_or (pos (suc n)) default = suc n
positive_or (negsuc n) default = default

unfoldable pub new_login_throttle : LoginThrottleOptions → LoginThrottle
unfolding positive_or
new_login_throttle o = record {
  config = record {
    failure_threshold = positive_or o.failure_threshold 3;
    base_backoff = positive_or o.base_backoff second;
    max_backoff = positive_or o.max_backoff (30 * second);
    entry_ttl = positive_or o.entry_ttl (15 * 60 * second);
    busy_retry = positive_or o.busy_retry second;
    max_entries = positive_or o.max_entries 4096;
    max_concurrent = positive_or o.max_concurrent 4;
    max_per_identity = positive_or o.max_per_identity 2;
  };
  entries = [];
  global_in_flight = 0;
  operations = 0;
}

-- The loop of `backoff`, with the number of steps that are left.
unfoldable pub backoff_loop : ℕ → ℕ → ℕ → ℕ
backoff_loop max_backoff zero delay = if ltb max_backoff delay then max_backoff else delay
backoff_loop max_backoff (suc left) delay =
    let rest = backoff_loop max_backoff left (delay * 2) in
    if ltb delay max_backoff
    then if ltb (max_backoff / 2) delay then max_backoff else rest
    else if ltb max_backoff delay
    then max_backoff
    else delay

unfoldable pub backoff : LoginThrottleConfig → ℕ → ℕ
unfolding backoff_loop
backoff c failures = backoff_loop c.max_backoff (failures - c.failure_threshold) c.base_backoff

unfoldable pub prune_expired :
    LoginThrottleConfig → ℕ → List (Bytes × LoginThrottleEntry) → List (Bytes × LoginThrottleEntry)
prune_expired c now [] = []
prune_expired c now ((k, e) ∷ m) =
    let rest = prune_expired c now m in
    if (e.in_flight == 0) && leb c.entry_ttl (now - e.last_seen) then rest else (k, e) ∷ rest

unfoldable pub login_key_protected : List Bytes → Bytes → Bool
login_key_protected [] candidate = false
login_key_protected (k ∷ ks) candidate = bytes_eq k candidate || login_key_protected ks candidate

abbrev pub blocked : ℕ → LoginThrottleEntry → Bool
blocked now e = ltb now e.next_allowed

-- The candidate takes the place of the best one so far. An entry's key is never empty, so `none` is
-- `oldestKey == ""`.
unfoldable pub older : ℕ → Option (Bytes × LoginThrottleEntry) → LoginThrottleEntry → Bool
older now none e = true
older now (some (k, best)) e =
    if blocked now best
    then if blocked now e then ltb e.last_seen best.last_seen else true
    else if blocked now e
    then false
    else ltb e.last_seen best.last_seen

-- The loop over the entries.
unfoldable pub oldest_entry :
    List Bytes
    → ℕ
    → List (Bytes × LoginThrottleEntry)
    → Option (Bytes × LoginThrottleEntry)
    → Option (Bytes × LoginThrottleEntry)
unfolding older login_key_protected
oldest_entry keys now [] best = best
oldest_entry keys now ((k, e) ∷ m) best = oldest_entry keys now m (
    if login_key_protected keys k || ltb 0 e.in_flight
    then best
    else if older now best e
    then some (k, e)
    else best)

-- Each round removes an entry, so the fuel is the number of the entries.
unfoldable pub ensure_loop :
    ℕ
    → ℕ
    → ℕ
    → List Bytes
    → ℕ
    → List (Bytes × LoginThrottleEntry)
    → List (Bytes × LoginThrottleEntry) × Bool
unfolding oldest_entry remove
ensure_loop zero limit missing keys now m = (m, not (ltb limit (length m + missing)))
ensure_loop (suc fuel) limit missing keys now m = elim (ltb limit (length m + missing)) [
  | false ↦ (m, true)
  | true ↦ elim (oldest_entry keys now m none) [
    | none ↦ (m, false)
    | some x ↦ ensure_loop fuel limit missing keys now (remove x.0 m)
  ]
]

unfoldable pub ensure_capacity :
    LoginThrottleConfig
    → ℕ
    → List Bytes
    → ℕ
    → List (Bytes × LoginThrottleEntry)
    → List (Bytes × LoginThrottleEntry) × Bool
unfolding ensure_loop
ensure_capacity c missing keys now m = ensure_loop (length m) c.max_entries missing keys now m

-- The wait that one entry asks for.
unfoldable pub longer_wait : LoginThrottleConfig → ℕ → Option LoginThrottleEntry → ℕ → ℕ
longer_wait c now none acc = acc
longer_wait c now (some e) acc =
    let acc' = if ltb acc (e.next_allowed - now) then e.next_allowed - now else acc in
    if leb c.max_per_identity e.in_flight && ltb acc' c.busy_retry then c.busy_retry else acc'

unfoldable pub retry_after :
    LoginThrottleConfig → ℕ → List (Bytes × LoginThrottleEntry) → List Bytes → ℕ → ℕ
unfolding longer_wait
retry_after c now m [] acc = acc
retry_after c now m (k ∷ ks) acc = retry_after c now m ks (longer_wait c now (lookup k m) acc)

unfoldable pub count_missing : List (Bytes × LoginThrottleEntry) → List Bytes → ℕ
count_missing m [] = 0
count_missing m (k ∷ ks) = elim (lookup k m) [
  | none ↦ count_missing m ks + 1
  | some _ ↦ count_missing m ks
]

unfoldable pub entry_or_new : Option LoginThrottleEntry → LoginThrottleEntry
entry_or_new none = record { failures = 0; in_flight = 0; next_allowed = 0; last_seen = 0 }
entry_or_new (some e) = e

unfoldable pub reserve :
    ℕ → List Bytes → List (Bytes × LoginThrottleEntry) → List (Bytes × LoginThrottleEntry)
unfolding entry_or_new
reserve now [] m = m
reserve now (k ∷ ks) m =
    let e = entry_or_new (lookup k m) in
    reserve now ks (insert k (record e { in_flight = e.in_flight + 1; last_seen = now }) m)

-- `begin` after the first lines, which count the operation and drop expired entries. The results are
-- the attempt, nil where it is refused, and the wait.
unfoldable pub begin_keys :
    LoginThrottle → List Bytes → ℕ → LoginThrottle × (Option LoginAttempt × ℕ)
unfolding retry_after count_missing ensure_capacity reserve
begin_keys t keys now = elim (leb t.config.max_concurrent t.global_in_flight) [
  | true ↦ (t, (none, t.config.busy_retry))
  | false ↦
      let wait = retry_after t.config now t.entries keys 0 in
      elim (ltb 0 wait) [
        | true ↦ (t, (none, wait))
        | false ↦
            let (m, fits) =
              ensure_capacity t.config (count_missing t.entries keys) keys now t.entries in
            elim fits [
              | false ↦ (record t { entries = m }, (none, t.config.busy_retry))
              | true ↦ (
                record t {
                  entries = reserve now keys m;
                  global_in_flight = t.global_in_flight + 1;
                },
                (some (record { keys = keys; done = false }), 0),
              )
            ]
      ]
]

-- `t.operations++`, which wraps around, and the pruning at every 64th operation or a full map.
unfoldable pub counted : LoginThrottle → ℕ → LoginThrottle
unfolding prune_expired
counted t now =
    let n = (t.operations + 1) % 2 ^ 64 in
    if (n % 64 == 0) || leb t.config.max_entries (length t.entries)
    then record t { operations = n; entries = prune_expired t.config now t.entries }
    else record t { operations = n }

module _ (account_hash : Bytes → Bytes) where
  unfoldable pub login_throttle_keys : Bytes → Bytes → List Bytes
  unfolding trim_space to_lower
  login_throttle_keys client_ip username =
      let ip = if length (trim_space client_ip) == 0 then codes "unknown" else client_ip in
      (codes "ip:" ++ ip) ∷ (codes "account:" ++ account_hash (to_lower (trim_space username))) ∷ []

  unfoldable pub begin :
      LoginThrottle → Bytes → Bytes → ℕ → LoginThrottle × (Option LoginAttempt × ℕ)
  unfolding begin_keys counted login_throttle_keys
  begin t client_ip username now =
      begin_keys (counted t now) (login_throttle_keys client_ip username) now

-- The loop's body of `finish` for an entry that is there.
unfoldable pub finish_entry :
    LoginThrottleConfig → ℕ → Bool → LoginThrottleEntry → LoginThrottleEntry
unfolding backoff
finish_entry c now success e =
    let freed = record e { in_flight = e.in_flight - 1; last_seen = now } in
    if success
    then record freed { failures = 0; next_allowed = 0 }
    else if leb c.failure_threshold (e.failures + 1)
    then record freed { failures = e.failures + 1; next_allowed = now + backoff c (e.failures + 1) }
    else record freed { failures = e.failures + 1 }

unfoldable pub finish_found :
    LoginThrottleConfig
    → ℕ
    → Bool
    → Bytes
    → Option LoginThrottleEntry
    → List (Bytes × LoginThrottleEntry)
    → List (Bytes × LoginThrottleEntry)
unfolding finish_entry
finish_found c now success k none m = m
finish_found c now success k (some e) m = insert k (finish_entry c now success e) m

unfoldable pub finish_entries :
    LoginThrottleConfig
    → ℕ
    → Bool
    → List Bytes
    → List (Bytes × LoginThrottleEntry)
    → List (Bytes × LoginThrottleEntry)
unfolding finish_found
finish_entries c now success [] m = m
finish_entries c now success (k ∷ ks) m =
    finish_entries c now success ks (finish_found c now success k (lookup k m) m)

unfoldable pub finish : LoginThrottle → LoginAttempt → Bool → ℕ → LoginThrottle × LoginAttempt
unfolding finish_entries
finish t a success now = if a.done then (t, a) else (
  record t {
    global_in_flight = t.global_in_flight - 1;
    entries = finish_entries t.config now success a.keys t.entries;
  },
  record a { done = true },
)
