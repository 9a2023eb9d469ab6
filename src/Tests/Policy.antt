-- ===== src/Tests/Policy.antt =====
-- The recovery policy on one error text (internal/policy/policy.go).
use drakkar.Prelude.{false, ◌≡◌, refl}
use drakkar.Prelude.Bytes.{codes, contains}
use drakkar.Nntp.Errors.{Error, classify_cacheable_error}
use drakkar.Policy.{blocklist_and_search, decide_from_reason}
use drakkar.Policy.Agreement.{decide_from_reason-cacheable}

abbrev gone : Error
gone = record { message = codes "BODY status 430 "; circuit_open = false; article_missing = false }

decide_from_reason-cacheable_example : decide_from_reason gone.message ≡ blocklist_and_search
decide_from_reason-cacheable_example =
    decide_from_reason-cacheable gone refl refl (unfold classify_cacheable_error contains in refl)
