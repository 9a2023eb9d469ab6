-- ===== src/Nntp/Fallback/Bounds.antt =====
-- How often a call of BodyPriority or StatPriority asks the providers.
use drakkar.Prelude.{
  List-cases, ℕ, zero, suc, ◌+◌, ◌*◌, ◌≤◌, ◌≡◌, refl, Option, none, some, List, [], ◌∷◌, ap, subst,
  arith, length, leb, if◌then◌else◌, Option-cases, Bool-cases, inl, inr,
}
use drakkar.Prelude.Bytes.{Bytes}
use drakkar.Nntp.Errors.{Error}
use drakkar.Nntp.CircuitBreaker.{allow}
use drakkar.Nntp.Fallback.{
  Reply, got, failed, NamedArticleSource, FallbackSource, source_name, conclusive, marked, Call,
  add_failure, after_failure, mark_missing, handle_failure, handle_reply, try_source, try_sources,
  before_round, rounds, new_call, fetch_priority,
}
use drakkar.Prelude.Int.{ℤ, pos, negsuc, pos_part}
use drakkar.Nntp.Fallback.{new_fallback_source, filtered, at_least_zero}

module _ {ℓ ℓ' ℓ''} {S : Type ℓ} {W : Type ℓ'} {B : Type ℓ''} (fetch : S → W → Reply B × W)
    (now : W → ℕ) (cancelled : W → Option Error) (wait_backoff : W → Option Error × W) where
  settled-length :
      (c : Call W) (name : Bytes) (attempt : ℕ) (r : Reply B × W)
      → length (handle_reply fetch now cancelled wait_backoff c name attempt r).0.attempts
        ≤ length c.attempts + 1
  unfolding handle_reply handle_failure add_failure after_failure mark_missing
  settled-length c name attempt (got body, w) = omega arith
  settled-length c name attempt (failed err, w) = elim (Option-cases (cancelled w)) [
    | inl n ↦ elim (Bool-cases (conclusive err)) [
      | inl t ↦ rw (handle_failure, n, t) (omega arith)
      | inr t ↦ rw (handle_failure, n, t) (omega arith)
    ]
    | inr (e, y) ↦ rw (handle_failure, y) (omega arith)
  ]

  try_source-length :
      (s : NamedArticleSource S) (attempt : ℕ) (c : Call W)
      → length (try_source fetch now cancelled wait_backoff s attempt c).0.attempts
        ≤ length c.attempts + 1
  unfolding try_source add_failure
  try_source-length s attempt c = elim (Bool-cases (marked (source_name s.name) c.missing)) [
    | inl t ↦ rw (try_source, t) (omega arith)
    | inr t ↦ elim (Bool-cases (allow c.breaker (source_name s.name) (now c.world))) [
      | inl u ↦
          rw (try_source, t, u)
            (settled-length c (source_name s.name) attempt (fetch s.source c.world))
      | inr u ↦ rw (try_source, t, u) (omega arith)
    ]
  ]

  try_sources-length :
      (ss : List (NamedArticleSource S)) (attempt : ℕ) (c : Call W)
      → length (try_sources fetch now cancelled wait_backoff ss attempt c).0.attempts
        ≤ length c.attempts + length ss
  unfolding try_sources
  try_sources-length [] attempt c = omega arith
  try_sources-length (s ∷ ss) attempt c =
      let h = try_source-length s attempt c in
      elim (Option-cases (try_source fetch now cancelled wait_backoff s attempt c).1) [
        | inl n ↦
            rw (try_sources, n)
              (let k =
                  try_sources-length ss attempt
                    (try_source fetch now cancelled wait_backoff s attempt c).0 in
                omega arith)
        | inr (a, e) ↦ rw (try_sources, e) (omega arith)
      ]

  before_round-attempts :
      (attempt : ℕ) (c : Call W)
      → (before_round fetch now cancelled wait_backoff attempt c).0.attempts ≡ c.attempts
  unfolding before_round
  before_round-attempts zero c = refl
  before_round-attempts (suc attempt) c = refl

  rounds-length :
      (left : ℕ) (ss : List (NamedArticleSource S)) (attempt : ℕ) (c : Call W)
      → length (rounds fetch now cancelled wait_backoff left ss attempt c).0.attempts
        ≤ length c.attempts + left * length ss
  unfolding rounds
  rounds-length zero ss attempt c = omega arith
  rounds-length (suc left) ss attempt c =
      let b = before_round fetch now cancelled wait_backoff attempt c in
      let q : b.0.attempts ≡ c.attempts = before_round-attempts attempt c in
      let h = try_sources-length ss attempt b.0 in
      let h' = rw q at h in
      elim (Option-cases b.1) [
        | inr (a, e) ↦ rw (rounds, e) (rw q (omega arith))
        | inl n ↦
            let t = try_sources fetch now cancelled wait_backoff ss attempt b.0 in
            elim (Option-cases t.1) [
              | inr (a, e) ↦ rw (rounds, n, e) (omega arith)
              | inl m ↦
                  rw (rounds, n, m) (let k = rounds-length left ss (attempt + 1) t.0 in omega arith)
            ]
      ]

  fetch_priority-le :
      (s : FallbackSource S) (w : W)
      → length (fetch_priority fetch now cancelled wait_backoff s w).0.attempts
        ≤ (s.retries + 1) * length s.sources
  unfolding fetch_priority new_call
  fetch_priority-le s w = elim (List-cases s.sources) [
    | inl e ↦ rw (fetch_priority, e) (omega arith)
    | inr (x, xs, e) ↦
        let h =
          rounds-length (s.retries + 1) (x ∷ xs) 0
            (new_call fetch now cancelled wait_backoff s.breaker w) in
        let z : (n : ℕ) → 0 + n ≡ n = λ n. omega arith in rw (fetch_priority, e) (rw z at h)
  ]

-- The sources that are not nil.
abbrev pub given {ℓ} : {S : Type ℓ} → List (NamedArticleSource (Option S)) → ℕ
given [] = 0
given (s ∷ ss) = elim s.source [ none ↦ given ss | some _ ↦ suc (given ss) ]

length-filtered {ℓ} :
    {S : Type ℓ} (ss : List (NamedArticleSource (Option S))) → length (filtered ss) ≡ given ss
unfolding filtered
length-filtered [] = refl
length-filtered (s ∷ ss) = elim (Option-cases s.source) [
  | inl n ↦ rw n (length-filtered ss)
  | inr (x, e) ↦ rw e (ap suc (length-filtered ss))
]

at_least_zero_lem : (z : ℤ) → at_least_zero z ≡ pos_part z
unfolding at_least_zero
at_least_zero_lem (pos n) = refl
at_least_zero_lem (negsuc n) = refl

most_asked {ℓ} :
    {S : Type ℓ} (ss : List (NamedArticleSource (Option S))) (retries : ℤ)
    → ((new_fallback_source ss retries).retries + 1)
        * length (new_fallback_source ss retries).sources
      ≡ ((if leb (given ss) 1 then 0 else pos_part retries) + 1) * given ss
unfolding new_fallback_source
most_asked ss retries = rw (length-filtered ss, at_least_zero_lem retries) refl

module _ {ℓ ℓ' ℓ''} {S : Type ℓ} {W : Type ℓ'} {B : Type ℓ''} (fetch : S → W → Reply B × W)
    (now : W → ℕ) (cancelled : W → Option Error) (wait_backoff : W → Option Error × W) where
  -- A call on a source that NewFallbackSource built asks at most once for each source that is not nil,
  -- and in each of the further rounds, of which there are none for a single source or a negative
  -- number of retries.
  pub fetch_priority-length :
      (ss : List (NamedArticleSource (Option S))) (retries : ℤ) (w : W)
      → length
          (fetch_priority fetch now cancelled wait_backoff
            (new_fallback_source ss retries)
            w).0.attempts
        ≤ ((if leb (given ss) 1 then 0 else pos_part retries) + 1) * given ss
  fetch_priority-length ss retries w =
      subst
        (λ n.
          length
            (fetch_priority fetch now cancelled wait_backoff (new_fallback_source ss retries)
              w).0.attempts
          ≤ n)
        (most_asked ss retries)
        (fetch_priority-le fetch now cancelled wait_backoff (new_fallback_source ss retries) w)
