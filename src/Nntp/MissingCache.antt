-- ===== src/Nntp/MissingCache.antt =====
-- internal/nntp/article_cache.go: the cache of message ids whose articles could not be fetched. It
-- leads from an id to the instant at which the entry expires. Each operation holds the lock, so it is
-- one step, and its clock reading is an argument. The request for a confirmation, a goroutine in the
-- source, is a result; what comes of it is `confirm_missing`.
pub mod Expiry
pub mod Held
pub mod Fetch
use drakkar.Prelude.{
  ℕ, ◌+◌, Bool, true, false, ◌&&◌, ◌||◌, not, Option, none, some, List, [], ◌∷◌, ◌++◌, ltb, leb,
  ◌==◌, if◌then◌else◌, length,
}
use drakkar.Prelude.Int.{leb_ℤ}
use drakkar.Prelude.Bytes.{Bytes, codes}
use drakkar.Prelude.Dict.{lookup, insert, remove}
use drakkar.Nntp.Errors.{Error, missing_article_ttl, throttle_ttl, classify_cacheable_error}
use drakkar.Nntp.ArticleSource.{FetchPriority, priority_interactive}

abbrev pub MissingCache : Type 0
MissingCache = List (Bytes × ℕ)

unfoldable pub mark_missing : MissingCache → Bytes → ℕ → ℕ → MissingCache
mark_missing c id ttl now = insert id (now + ttl) c

-- The branches of isMissing on the entry.
unfoldable pub check_entry : MissingCache → Bytes → Option ℕ → ℕ → MissingCache × Bool
check_entry c id none now = (c, false)
check_entry c id (some expiry) now = if ltb expiry now then (remove id c, false) else (c, true)

unfoldable pub is_missing : MissingCache → Bytes → ℕ → MissingCache × Bool
unfolding check_entry
is_missing c id now = check_entry c id (lookup id c) now

-- The second result: the entry is provisional, and its confirmation is started.
unfoldable pub mark_and_maybe_confirm :
    MissingCache → Bytes → FetchPriority → ℕ → ℕ → MissingCache × Bool
unfolding mark_missing
mark_and_maybe_confirm c id priority ttl now =
    if not (ttl == missing_article_ttl) || leb_ℤ priority_interactive priority
    then (mark_missing c id ttl now, false)
    else (mark_missing c id throttle_ttl now, true)

-- What follows a fetch that failed, in BodyPriority and StatPriority.
unfoldable pub note_failure : MissingCache → Bytes → FetchPriority → Error → ℕ → MissingCache × Bool
unfolding mark_and_maybe_confirm
note_failure c id priority err now = elim (classify_cacheable_error err) [
  | none ↦ (c, false)
  | some ttl ↦ mark_and_maybe_confirm c id priority ttl now
]

-- What follows the second fetch of confirmMissing; `none` is its success.
unfoldable pub confirm_missing : MissingCache → Bytes → Option Error → ℕ → MissingCache
unfolding mark_missing
confirm_missing c id none now = c
confirm_missing c id (some err) now = elim (classify_cacheable_error err) [
  | none ↦ c
  | some ttl ↦ if ttl == missing_article_ttl then mark_missing c id missing_article_ttl now else c
]

unfoldable pub evict_expired : MissingCache → ℕ → MissingCache
evict_expired [] now = []
evict_expired ((id, expiry) ∷ c) now =
    let rest = evict_expired c now in if ltb expiry now then rest else (id, expiry) ∷ rest

unfoldable pub missing_count : MissingCache → ℕ
missing_count c = length c

-- The error that a cached id gives.
unfoldable pub err_article_not_found : Bytes → Error
err_article_not_found id = record {
  message = codes "article not found (cached): " ++ id;
  circuit_open = false;
  article_missing = true;
}
