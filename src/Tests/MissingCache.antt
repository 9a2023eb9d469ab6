-- ===== src/Tests/MissingCache.antt =====
-- The cache of missing articles after a read-ahead that failed (internal/nntp/article_cache.go).
use drakkar.Prelude.{ℕ, ◌+◌, ◌≡◌, false, none, some, List, [], ◌∷◌, arith, leb, if◌then◌else◌}
use drakkar.Prelude.Int.{pos}
use drakkar.Prelude.Bytes.{Bytes, codes, bytes_eq}
use drakkar.Nntp.Errors.{Error}
use drakkar.Nntp.MissingCache.{is_missing, note_failure}
use drakkar.Nntp.MissingCache.Expiry.{kept_for, checked, is_missing-note_failure}
use drakkar.Nntp.MissingCache.Fetch.{Event, asks, confirms, sweeps}
use drakkar.Nntp.Fallback.{Reply, failed}
use drakkar.Nntp.ArticleSource.{FetchPriority}

abbrev gone : Error
gone = record { message = codes "BODY status 430"; circuit_open = false; article_missing = false }

is_missing-note_failure_example :
    (is_missing
      (checked (note_failure [] (codes "id") (pos 80) gone 5).0 ((codes "id", 7) ∷ []))
      (codes "id")
      9).1
    ≡ (if bytes_eq (codes "id") (codes "id")
        then elim (kept_for (pos 80) gone) [
          | none ↦ (is_missing [] (codes "id") 9).1
          | some ttl ↦ leb 9 (5 + ttl)
        ]
        else (is_missing [] (codes "id") 9).1)
is_missing-note_failure_example =
    is_missing-note_failure [] (codes "id") (codes "id") (pos 80) gone 5 9 ((codes "id", 7) ∷ [])
      (omega arith, tt)

-- The world is the clock, and the sources know no article.
abbrev empty_sources : Bytes → FetchPriority → ℕ → Reply ℕ × ℕ
empty_sources id priority w = (failed gone, w + 1)

-- Another call, the sweep of that second, the confirmation, and a call for another article.
abbrev meanwhile : List (Event (λ (w : ℕ). w) empty_sources)
meanwhile =
    asks (codes "id") (pos 80) 7
    ∷ sweeps 8
    ∷ confirms (codes "id") (some gone) 10_000_000_006
    ∷ asks (codes "other") (pos 100) 9
    ∷ []
