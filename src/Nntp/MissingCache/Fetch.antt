-- ===== src/Nntp/MissingCache/Fetch.antt =====
-- internal/nntp/article_cache.go: BodyPriority and StatPriority of CachedFallbackSource, where no other
-- call of the id is under way (what happens else is in Cache.SingleFlight). `inner` is the operation of
-- the FallbackSource, on a world with the clock `now`.
use drakkar.Prelude.{ℕ, ◌≤◌, ◌≡◌, Bool, false, Option, some, List, [], ◌∷◌, if◌then◌else◌}
use drakkar.Prelude.Bytes.{Bytes}
use drakkar.Prelude.Dict.{lookup}
use drakkar.Nntp.Errors.{Error}
use drakkar.Nntp.Fallback.{Reply, got, failed}
use drakkar.Nntp.ArticleSource.{FetchPriority}
use drakkar.Nntp.MissingCache.{
  MissingCache, is_missing, note_failure, confirm_missing, evict_expired, err_article_not_found,
}

-- What the closure does with the reply; the second result is that a confirmation is started.
unfoldable pub note_reply {ℓ} :
    {A : Type ℓ} → MissingCache → Bytes → FetchPriority → Reply A → ℕ → MissingCache × Bool
unfolding note_failure
note_reply c id priority (got _) now = (c, false)
note_reply c id priority (failed err) now = note_failure c id priority err now

module _ {ℓ ℓ'} {W : Type ℓ} {A : Type ℓ'} (now : W → ℕ)
    (inner : Bytes → FetchPriority → W → Reply A × W) where
  unfoldable pub fetch_and_note :
      MissingCache → Bytes → FetchPriority → Reply A × W → (MissingCache × Bool) × (Reply A × W)
  unfolding note_reply
  fetch_and_note c id priority (reply, w) = (note_reply c id priority reply (now w), (reply, w))

  unfoldable pub fetch_cached :
      MissingCache → Bytes → FetchPriority → W → (MissingCache × Bool) × (Reply A × W)
  unfolding fetch_and_note is_missing
  fetch_cached c id priority w =
      let (c', missing) = is_missing c id (now w) in
      if missing
      then ((c', false), (failed (err_article_not_found id), w))
      else fetch_and_note c' id priority (inner id priority w)

  -- What else happens to the cache: the calls of all callers, the confirmations, and the sweeps.
  pub data Event : Type ℓ where
    asks : Bytes → FetchPriority → W → Event
    confirms : Bytes → Option Error → ℕ → Event
    sweeps : ℕ → Event

  abbrev pub happen : MissingCache → Event → MissingCache
  happen c (asks id priority w) = (fetch_cached c id priority w).0.0
  happen c (confirms id reply at) = confirm_missing c id reply at
  happen c (sweeps at) = evict_expired c at

  abbrev pub run : MissingCache → List Event → MissingCache
  run c [] = c
  run c (e ∷ es) = run (happen c e) es

  -- The calls and the sweeps are not later than one instant, the confirmations not earlier than another.
  abbrev pub IsBetween : ℕ → ℕ → Event → Type 0
  IsBetween from until (asks id priority w) = now w ≤ until
  IsBetween from until (confirms id reply at) = from ≤ at
  IsBetween from until (sweeps at) = at ≤ until

  -- The article is held to be missing up to the instant.
  abbrev IsHeld : Bytes → ℕ → MissingCache → Type 0
  IsHeld id until c = (x : ℕ) × (lookup id c ≡ some x) × (until ≤ x)
