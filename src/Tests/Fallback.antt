-- ===== src/Tests/Fallback.antt =====
-- The fallback over two providers, of which the first has lost the article (internal/nntp/fallback.go).
use drakkar.Prelude.{
  ℕ, zero, suc, ◌+◌, ◌*◌, ◌≤◌, ◌≡◌, true, false, not, Option, none, some, List, [], ◌∷◌, length,
  leb, if◌then◌else◌,
}
use drakkar.Prelude.Int.{pos, pos_part}
use drakkar.Prelude.Bytes.{codes}
use drakkar.Nntp.Errors.{Error}
use drakkar.Nntp.Fallback.{
  Reply, got, failed, NamedArticleSource, new_fallback_source, fetch_priority,
}
use drakkar.Nntp.Fallback.Calls.{never_again, all_failed, is_found, fetch_priority-never_again}
use drakkar.Nntp.Fallback.Bounds.{given, fetch_priority-length}

abbrev gone : Error
gone = record { message = codes "BODY status 430"; circuit_open = false; article_missing = false }

abbrev reset : Error
reset = record { message = codes "connection reset"; circuit_open = false; article_missing = false }

-- The world counts the requests. Source 0 has lost the article, the other gives it at the third request.
abbrev ask : ℕ → ℕ → Reply ℕ × ℕ
ask zero w = (failed gone, suc w)
ask (suc s) w = (if leb 2 w then got 7 else failed reset, suc w)

abbrev wait : ℕ → Option Error × ℕ
wait w = (none, w + 10)

abbrev two : List (NamedArticleSource (Option ℕ))
two =
    record { name = codes "old"; source = some 0 }
    ∷ record { name = codes " "; source = some 1 }
    ∷ []

fetch_priority-never_again_example :
    (never_again
        (fetch_priority ask
          (λ w. w)
          (λ w. none)
          wait
          (new_fallback_source two (pos 2))
          0).0.attempts
      ≡ true)
    × (all_failed
          (fetch_priority ask
            (λ w. w)
            (λ w. none)
            wait
            (new_fallback_source two (pos 2))
            0).0.attempts
        ≡ not (
            is_found
              (fetch_priority ask (λ w. w) (λ w. none) wait (new_fallback_source two (pos 2)) 0).1))
fetch_priority-never_again_example =
    fetch_priority-never_again ask (λ w. w) (λ w. none) wait (new_fallback_source two (pos 2)) 0

fetch_priority-length_example :
    length
      (fetch_priority ask (λ w. w) (λ w. none) wait (new_fallback_source two (pos 2)) 0).0.attempts
    ≤ ((if leb (given two) 1 then 0 else pos_part (pos 2)) + 1) * given two
fetch_priority-length_example = fetch_priority-length ask (λ w. w) (λ w. none) wait two (pos 2) 0
