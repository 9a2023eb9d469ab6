-- ===== src/Tests/LoginThrottle.antt =====
-- The login throttle on short runs (internal/api/login_throttle.go).
use drakkar.Prelude.{◌≤◌, ◌-◌, ◌*◌, ◌^◌, ◌≡◌, false, List, [], ◌∷◌, min, length}
use drakkar.Prelude.Int.{pos, negsuc}
use drakkar.Prelude.Bytes.{Bytes, codes}
use drakkar.Api.LoginThrottle.{LoginThrottleOptions, new_login_throttle, backoff}
use drakkar.Api.LoginThrottle.Backoff.{backoff_lem}
use drakkar.Api.LoginThrottle.Limits.{Op, begins, finishes, unfinished, run, run-bounded}

abbrev options : LoginThrottleOptions
options = record {
  failure_threshold = pos 2;
  base_backoff = pos 0;
  max_backoff = negsuc 4;
  entry_ttl = pos 0;
  busy_retry = pos 0;
  max_entries = pos 3;
  max_concurrent = pos 1;
  max_per_identity = pos 1;
}

backoff_lem_example :
    backoff (new_login_throttle options).config 9
    ≡ min (new_login_throttle options).config.max_backoff (
        (new_login_throttle options).config.base_backoff
        * 2 ^ (9 - (new_login_throttle options).config.failure_threshold))
backoff_lem_example = backoff_lem (new_login_throttle options).config 9

abbrev same_text : Bytes → Bytes
same_text account = account

abbrev visits : List Op
visits =
    begins (codes "10.0.0.1") (codes "Admin") 5
    ∷ begins (codes "10.0.0.2") (codes "admin ") 6
    ∷ finishes 0 false 7
    ∷ begins (codes "10.0.0.3") (codes "other") 8
    ∷ []

run-bounded_example :
    (unfinished (run same_text (new_login_throttle options, []) visits).1
      ≤ (new_login_throttle options).config.max_concurrent)
    × ((run same_text (new_login_throttle options, []) visits).0.global_in_flight
        ≡ unfinished (run same_text (new_login_throttle options, []) visits).1)
    × (length (run same_text (new_login_throttle options, []) visits).0.entries
        ≤ (new_login_throttle options).config.max_entries)
run-bounded_example = run-bounded same_text options visits
