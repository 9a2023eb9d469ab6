-- ===== src/Nntp/Fallback/Calls.antt =====
-- What a call of BodyPriority or StatPriority does to the providers, and what it answers.
use drakkar.Prelude.{
  List-cases, ℕ, zero, suc, ◌+◌, ◌≡◌, refl, Bool, true, false, ◌&&◌, not, Option, none, some, List,
  [], ◌∷◌, arith, if◌then◌else◌, Option-cases, Bool-cases, inl, inr,
}
use drakkar.Prelude.Bytes.{Bytes, bytes_eq}
use drakkar.Nntp.Errors.{Error}
use drakkar.Nntp.CircuitBreaker.{allow}
use drakkar.Nntp.Fallback.{
  Reply, got, failed, NamedArticleSource, FallbackSource, source_name, conclusive, marked, Answer,
  found, stopped, joined, unavailable, Attempt, Call, add_failure, after_failure, mark_missing,
  handle_failure, handle_reply, try_source, try_sources, before_round, rounds, new_call,
  fetch_priority,
}

abbrev pub is_conclusive : Option Error → Bool
is_conclusive none = false
is_conclusive (some err) = conclusive err

abbrev pub is_some {ℓ} : {A : Type ℓ} → Option A → Bool
is_some none = false
is_some (some _) = true

-- The provider has given a conclusive answer in these records.
unfoldable pub answered : Bytes → List Attempt → Bool
answered name [] = false
answered name (a ∷ rs) =
    let rest = answered name rs in
    if bytes_eq a.provider name && is_conclusive a.problem then true else rest

-- No provider is asked after it has given a conclusive answer (the newest record is the first).
unfoldable pub never_again : List Attempt → Bool
unfolding answered
never_again [] = true
never_again (a ∷ rs) = not (answered a.provider rs) && never_again rs

unfoldable pub all_failed : List Attempt → Bool
all_failed [] = true
all_failed (a ∷ rs) = is_some a.problem && all_failed rs

abbrev pub is_found {ℓ} : {B : Type ℓ} → Answer B → Bool
is_found (found _) = true
is_found (stopped _) = false
is_found (joined _) = false
is_found unavailable = false

module _ {ℓ ℓ' ℓ''} {S : Type ℓ} {W : Type ℓ'} {B : Type ℓ''} (fetch : S → W → Reply B × W)
    (now : W → ℕ) (cancelled : W → Option Error) (wait_backoff : W → Option Error × W) where
  -- While a call goes on: the marks are the conclusive answers, and no attempt has succeeded.
  record IsGoing (c : Call W) : Type 0 where
    marks : (name : Bytes) → marked name c.missing ≡ answered name c.attempts
    clean : never_again c.attempts ≡ true
    failing : all_failed c.attempts ≡ true

  -- When it may have ended with `o`.
  abbrev IsStepOf : Call W → Option (Answer B) → Type 0
  IsStepOf c none = IsGoing c
  IsStepOf c (some a) = (never_again c.attempts ≡ true) × (all_failed c.attempts ≡ not (is_found a))

  abbrev IsStep : Call W × Option (Answer B) → Type 0
  IsStep r = IsStepOf r.0 r.1

  handle_failure-IsStep :
      (c : Call W) (name : Bytes) (attempt : ℕ) (err : Error) (w : W)
      → IsGoing c
      → marked name c.missing ≡ false
      → IsStep (handle_failure fetch now cancelled wait_backoff c name attempt err w)
  unfolding handle_failure add_failure after_failure mark_missing never_again all_failed marked
      answered
  handle_failure-IsStep c name attempt err w g m = elim (Option-cases (cancelled w)) [
    | inl n ↦
        rw (handle_failure, n)
          (record {
            marks = λ j. elim (Bool-cases (conclusive err)) [
              | inl t ↦ rw t (ground (arith, g.marks j))
              | inr t ↦ rw t (ground (arith, g.marks j))
            ];
            clean = elim (Bool-cases (conclusive err)) [
              | inl t ↦ rw t (ground (arith, g.marks name, g.clean))
              | inr t ↦ rw t (ground (arith, g.marks name, g.clean))
            ];
            failing = elim (Bool-cases (conclusive err)) [
              | inl t ↦ rw t g.failing
              | inr t ↦ rw t g.failing
            ];
          })
    | inr (e, y) ↦ rw (handle_failure, y) (ground (arith, g.marks name, g.clean), g.failing)
  ]

  handle_reply-IsStep :
      (c : Call W) (name : Bytes) (attempt : ℕ) (r : Reply B × W)
      → IsGoing c
      → marked name c.missing ≡ false
      → IsStep (handle_reply fetch now cancelled wait_backoff c name attempt r)
  unfolding handle_reply never_again all_failed
  handle_reply-IsStep c name attempt (got body, w) g m =
      (ground (arith, g.marks name, g.clean), refl)
  handle_reply-IsStep c name attempt (failed err, w) g m =
      handle_failure-IsStep c name attempt err w g m

  try_source-IsStep :
      (s : NamedArticleSource S) (attempt : ℕ) (c : Call W)
      → IsGoing c
      → IsStep (try_source fetch now cancelled wait_backoff s attempt c)
  unfolding try_source add_failure
  try_source-IsStep s attempt c g = elim (Bool-cases (marked (source_name s.name) c.missing)) [
    | inl t ↦ rw (try_source, t) g
    | inr t ↦
        rw (try_source, t)
          (elim (Bool-cases (allow c.breaker (source_name s.name) (now c.world))) [
            | inl u ↦
                rw u
                  (handle_reply-IsStep c (source_name s.name) attempt (fetch s.source c.world) g t)
            | inr u ↦ rw u (record { marks = g.marks; clean = g.clean; failing = g.failing })
          ])
  ]

  try_sources-IsStep :
      (ss : List (NamedArticleSource S)) (attempt : ℕ) (c : Call W)
      → IsGoing c
      → IsStep (try_sources fetch now cancelled wait_backoff ss attempt c)
  unfolding try_sources
  try_sources-IsStep [] attempt c g = g
  try_sources-IsStep (s ∷ ss) attempt c g =
      let h = try_source-IsStep s attempt c g in
      elim (Option-cases (try_source fetch now cancelled wait_backoff s attempt c).1) [
        | inl n ↦ rw (try_sources, n) (try_sources-IsStep ss attempt _ (rw n at h))
        | inr (a, e) ↦ rw (try_sources, e) (rw e at h)
      ]

  before_round-IsStep :
      (attempt : ℕ) (c : Call W)
      → IsGoing c
      → IsStep (before_round fetch now cancelled wait_backoff attempt c)
  unfolding before_round
  before_round-IsStep zero c g = g
  before_round-IsStep (suc attempt) c g = elim (Option-cases (wait_backoff c.world).0) [
    | inl n ↦ rw n (record { marks = g.marks; clean = g.clean; failing = g.failing })
    | inr (e, y) ↦ rw y (g.clean, g.failing)
  ]

  -- When a call has ended.
  abbrev IsEnd : Call W × Answer B → Type 0
  IsEnd r = (never_again r.0.attempts ≡ true) × (all_failed r.0.attempts ≡ not (is_found r.1))

  rounds-IsEnd :
      (left : ℕ) (ss : List (NamedArticleSource S)) (attempt : ℕ) (c : Call W)
      → IsGoing c
      → IsEnd (rounds fetch now cancelled wait_backoff left ss attempt c)
  unfolding rounds
  rounds-IsEnd zero ss attempt c g = (g.clean, g.failing)
  rounds-IsEnd (suc left) ss attempt c g =
      let h = before_round-IsStep attempt c g in
      elim (Option-cases (before_round fetch now cancelled wait_backoff attempt c).1) [
        | inr (a, e) ↦ rw (rounds, e) (rw e at h)
        | inl n ↦
            let k =
              try_sources-IsStep ss attempt
                (before_round fetch now cancelled wait_backoff attempt c).0 (rw n at h) in
            rw (rounds, n)
              (elim (Option-cases
                (try_sources fetch now cancelled wait_backoff ss attempt
                  (before_round fetch now cancelled wait_backoff attempt c).0).1) [
                    | inr (a, e) ↦ rw e (rw e at k)
                    | inl m ↦ rw m (rounds-IsEnd left ss (attempt + 1) _ (rw m at k))
                  ])
      ]

  -- In one call of BodyPriority or StatPriority no provider is asked again after it has answered that
  -- the article is missing for good, in whatever round; and the call gives a result exactly if an
  -- attempt succeeded, whatever the sources, the clock and the context do.
  pub fetch_priority-never_again :
      (s : FallbackSource S) (w : W)
      → let (c, a) = fetch_priority fetch now cancelled wait_backoff s w in
        (never_again c.attempts ≡ true) × (all_failed c.attempts ≡ not (is_found a))
  unfolding fetch_priority new_call
  fetch_priority-never_again s w = elim (List-cases s.sources) [
    | inl e ↦ rw e (unfold never_again all_failed in (refl, refl))
    | inr (x, xs, e) ↦ rw e (
        rounds-IsEnd (s.retries + 1) (x ∷ xs) 0
          (new_call fetch now cancelled wait_backoff s.breaker w)
          (record {
            marks = λ j. unfold marked answered in refl;
            clean = unfold never_again in refl;
            failing = unfold all_failed in refl;
          }))
  ]
