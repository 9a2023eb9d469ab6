-- ===== src/Nntp/Fallback.antt =====
-- internal/nntp/fallback.go: the article source that tries several providers. `W` is the world
-- outside: the sources' state, the clock and the context. The clock advances while a source is
-- asked and while a round waits. One call is modelled, with the breaker to itself. The loops of
-- BodyPriority and StatPriority are the same; they differ in how a source is asked, which is the
-- parameter `fetch`. `attempts` is what slog.Debug records, the newest first.
pub mod Calls
pub mod Bounds
use mathlib.Core.Option
use drakkar.Prelude.{
  ℕ, zero, suc, ◌+◌, ◌≤◌, Bool, true, false, Option, none, some, List, [], ◌∷◌, ◌++◌, length, ltb,
  leb, ◌==◌, if◌then◌else◌,
}
use drakkar.Prelude.Int.{ℤ, pos, negsuc}
use drakkar.Prelude.Bytes.{Bytes, codes, bytes_eq}
use drakkar.Prelude.Text.{trim_space}
use drakkar.Nntp.Errors.{Error, missing_article_ttl, classify_cacheable_error}
use drakkar.Nntp.CircuitBreaker.{
  ProviderCircuitBreaker, new_provider_circuit_breaker, allow, record_success, record_failure,
}

-- What a source answers: a result, or an error.
pub data Reply {ℓ} (B : Type ℓ) : Type ℓ where
  got : B → Reply B
  failed : Error → Reply B

pub record NamedArticleSource {ℓ} (S : Type ℓ) : Type ℓ where
  pub name : Bytes
  pub source : S

pub record FallbackSource {ℓ} (S : Type ℓ) : Type ℓ where
  pub sources : List (NamedArticleSource S)
  pub retries : ℕ
  pub breaker : ProviderCircuitBreaker

-- The loop of NewFallbackSource; `none` stands for a nil source.
unfoldable pub filtered {ℓ} :
    {S : Type ℓ} → List (NamedArticleSource (Option S)) → List (NamedArticleSource S)
filtered [] = []
filtered (s ∷ ss) = elim s.source [
  | none ↦ filtered ss
  | some x ↦ record { name = s.name; source = x } ∷ filtered ss
]

unfoldable pub at_least_zero : ℤ → ℕ
at_least_zero (pos n) = n
at_least_zero (negsuc n) = 0

unfoldable pub new_fallback_source {ℓ} :
    {S : Type ℓ} → List (NamedArticleSource (Option S)) → ℤ → FallbackSource S
unfolding filtered at_least_zero
new_fallback_source sources retries = record {
  sources = filtered sources;
  retries = if leb (length (filtered sources)) 1 then 0 else at_least_zero retries;
  breaker = new_provider_circuit_breaker;
}

unfoldable pub source_name : Bytes → Bytes
unfolding trim_space
source_name name =
    let trimmed = trim_space name in if length trimmed == 0 then codes "provider" else trimmed

-- One error of `failures`: "<name> attempt <n>: <err>".
pub record Failure : Type 0 where
  pub provider : Bytes
  pub attempt : ℕ
  pub cause : Error

abbrev pub err_provider_circuit_open : Error
err_provider_circuit_open = record {
  message = codes "provider circuit open";
  circuit_open = true;
  article_missing = false;
}

-- `ttl, cacheable := classifyCacheableError(err); cacheable && ttl == missingArticleTTL`
unfoldable pub conclusive : Error → Bool
conclusive err = elim (classify_cacheable_error err) [
  | none ↦ false
  | some ttl ↦ ttl == missing_article_ttl
]

-- conclusivelyMissing[name]
unfoldable pub marked : Bytes → List Bytes → Bool
marked name [] = false
marked name (n ∷ ns) = let rest = marked name ns in if bytes_eq n name then true else rest

-- How a call ends: with a result, with the error of the context, or with the joined failures, which
-- is no error where there are none.
pub data Answer {ℓ} (B : Type ℓ) : Type ℓ where
  found : B → Answer B
  stopped : Error → Answer B
  joined : List Failure → Answer B
  unavailable : Answer B

-- One debug record: the provider, and the error if there was one.
pub record Attempt : Type 0 where
  pub provider : Bytes
  pub problem : Option Error

-- The variables of a call.
pub record Call {ℓ} (W : Type ℓ) : Type ℓ where
  pub breaker : ProviderCircuitBreaker
  pub missing : List Bytes
  pub failures : List Failure
  pub attempts : List Attempt
  pub world : W

module _ {ℓ ℓ' ℓ''} {S : Type ℓ} {W : Type ℓ'} {B : Type ℓ''} (fetch : S → W → Reply B × W)
    (now : W → ℕ) (cancelled : W → Option Error) (wait_backoff : W → Option Error × W) where
  unfoldable pub add_failure : Call W → Bytes → ℕ → Error → Call W
  add_failure c name attempt err = record c {
    failures = c.failures ++ (record { provider = name; attempt = attempt + 1; cause = err } ∷ []);
  }

  -- What follows a fetch that failed, up to the test of the context.
  unfoldable pub after_failure : Call W → Bytes → Error → W → Call W
  after_failure c name err w = record c {
    breaker = record_failure c.breaker name err (now w);
    attempts = record { provider = name; problem = some err } ∷ c.attempts;
    world = w;
  }

  unfoldable pub mark_missing : Call W → Bytes → Error → Call W
  unfolding conclusive
  mark_missing c name err = if conclusive err then record c { missing = name ∷ c.missing } else c

  unfoldable pub handle_failure : Call W → Bytes → ℕ → Error → W → Call W × Option (Answer B)
  unfolding add_failure after_failure mark_missing
  handle_failure c name attempt err w =
      let c' = after_failure c name err w in
      elim (cancelled w) [
        | some e ↦ (c', some (stopped e))
        | none ↦ (add_failure (mark_missing c' name err) name attempt err, none)
      ]

  unfoldable pub handle_reply : Call W → Bytes → ℕ → Reply B × W → Call W × Option (Answer B)
  unfolding handle_failure
  handle_reply c name attempt (got body, w) = (
    record c {
      breaker = record_success c.breaker name;
      attempts = record { provider = name; problem = none } ∷ c.attempts;
      world = w;
    },
    some (found body),
  )
  handle_reply c name attempt (failed err, w) = handle_failure c name attempt err w

  -- The body of the inner loop.
  unfoldable pub try_source : NamedArticleSource S → ℕ → Call W → Call W × Option (Answer B)
  unfolding handle_reply marked source_name add_failure
  try_source s attempt c =
      let name = source_name s.name in
      elim (marked name c.missing) [
        | true ↦ (c, none)
        | false ↦ elim (allow c.breaker name (now c.world)) [
          | false ↦ (add_failure c name attempt err_provider_circuit_open, none)
          | true ↦ handle_reply c name attempt (fetch s.source c.world)
        ]
      ]

  -- The inner loop.
  unfoldable pub try_sources : List (NamedArticleSource S) → ℕ → Call W → Call W × Option (Answer B)
  unfolding try_source
  try_sources [] attempt c = (c, none)
  try_sources (s ∷ ss) attempt c =
      let (c', o) = try_source s attempt c in
      elim o [ some a ↦ (c', some a) | none ↦ try_sources ss attempt c' ]

  -- The wait before every round but the first.
  unfoldable pub before_round : ℕ → Call W → Call W × Option (Answer B)
  before_round zero c = (c, none)
  before_round (suc attempt) c =
      let (o, w) = wait_backoff c.world in (record c { world = w }, Option.map stopped o)

  -- The outer loop; the number of rounds that are left.
  unfoldable pub rounds : ℕ → List (NamedArticleSource S) → ℕ → Call W → Call W × Answer B
  unfolding before_round try_sources
  rounds zero ss attempt c = (c, joined c.failures)
  rounds (suc left) ss attempt c =
      let (c', o) = before_round attempt c in
      elim o [
        | some a ↦ (c', a)
        | none ↦
            let (c'', o') = try_sources ss attempt c' in
            elim o' [ some a ↦ (c'', a) | none ↦ rounds left ss (attempt + 1) c'' ]
      ]

  unfoldable pub new_call : ProviderCircuitBreaker → W → Call W
  new_call b w = record { breaker = b; missing = []; failures = []; attempts = []; world = w }

  -- BodyPriority and StatPriority.
  unfoldable pub fetch_priority : FallbackSource S → W → Call W × Answer B
  unfolding rounds new_call
  fetch_priority s w = elim s.sources [
    | [] ↦ (new_call s.breaker w, unavailable)
    | x ∷ xs ↦ rounds (s.retries + 1) (x ∷ xs) 0 (new_call s.breaker w)
  ]
