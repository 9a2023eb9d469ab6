-- ===== src/Nntp/ArticleSource.antt =====
-- internal/nntp/fallback.go: how one source is asked for a body or for the existence of an article,
-- and the four operations of FallbackSource. A source is the methods of ArticleSource and those of the
-- further interfaces that its type may implement.
use drakkar.Prelude.{ℕ, Option, none, some}
use drakkar.Prelude.Int.{ℤ, pos}
use drakkar.Prelude.Bytes.{Bytes}
use drakkar.Nntp.Errors.{Error}
use drakkar.Nntp.Fallback.{Reply, got, failed, FallbackSource, Call, Answer, fetch_priority}

abbrev pub FetchPriority : Type 0
FetchPriority = ℤ

abbrev pub priority_interactive : FetchPriority
priority_interactive = pos 100

-- The result of a check that the article is there.
abbrev pub Present : Type 0
Present = Unit

pub record ArticleSource {ℓ} (W : Type ℓ) : Type ℓ where
  pub body : Bytes → W → Reply Bytes × W
  pub body_priority : Option (Bytes → FetchPriority → W → Reply Bytes × W)
  pub stat : Option (Bytes → W → Reply Present × W)
  pub stat_priority : Option (Bytes → FetchPriority → W → Reply Present × W)

-- `_, err := source.Body(...); return err`
unfoldable pub without_body {ℓ} : {W : Type ℓ} → Reply Bytes × W → Reply Present × W
without_body (got b, w) = (got tt, w)
without_body (failed e, w) = (failed e, w)

module _ {ℓ} {W : Type ℓ} where
  unfoldable pub fetch_article_body : Bytes → FetchPriority → ArticleSource W → W → Reply Bytes × W
  fetch_article_body message_id priority source w = elim source.body_priority [
    | some f ↦ f message_id priority w
    | none ↦ source.body message_id w
  ]

  unfoldable pub fetch_article_stat :
      Bytes → FetchPriority → ArticleSource W → W → Reply Present × W
  unfolding without_body
  fetch_article_stat message_id priority source w = elim source.stat_priority [
    | some f ↦ f message_id priority w
    | none ↦ elim source.stat [
      | some f ↦ f message_id w
      | none ↦ without_body (source.body message_id w)
    ]
  ]

  -- The clock, the error of the context, and the wait between rounds.
  module _ (now : W → ℕ) (cancelled : W → Option Error) (wait_backoff : W → Option Error × W) where
    unfoldable pub body_priority :
        FallbackSource (ArticleSource W) → Bytes → FetchPriority → W → Call W × Answer Bytes
    unfolding fetch_priority fetch_article_body
    body_priority s message_id priority w =
        fetch_priority (fetch_article_body message_id priority) now cancelled wait_backoff s w

    unfoldable pub body : FallbackSource (ArticleSource W) → Bytes → W → Call W × Answer Bytes
    unfolding body_priority
    body s message_id w = body_priority s message_id priority_interactive w

    unfoldable pub stat_priority :
        FallbackSource (ArticleSource W) → Bytes → FetchPriority → W → Call W × Answer Present
    unfolding fetch_priority fetch_article_stat
    stat_priority s message_id priority w =
        fetch_priority (fetch_article_stat message_id priority) now cancelled wait_backoff s w

    unfoldable pub stat : FallbackSource (ArticleSource W) → Bytes → W → Call W × Answer Present
    unfolding stat_priority
    stat s message_id w = stat_priority s message_id priority_interactive w
