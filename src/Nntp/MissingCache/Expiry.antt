-- ===== src/Nntp/MissingCache/Expiry.antt =====
-- How long a failed article is held to be missing.
use drakkar.Prelude.{
  ℕ, ◌+◌, ◌≤◌, ◌≡◌, refl, sym, ◌∙◌, ap, subst, Bool, true, false, ◌||◌, Option, none, some, List,
  [], ◌∷◌, All, arith, ltb, leb, if◌then◌else◌, Bool-cases, Option-cases, inl, inr,
}
use drakkar.Prelude.Int.{pos, leb_ℤ}
use drakkar.Prelude.Bytes.{Bytes, codes, contains, bytes_eq, bytes_eq_iff}
use drakkar.Prelude.Dict.{lookup, remove, lookup-insert, lookup-remove}
use drakkar.Nntp.Errors.{Error, classify_cacheable_error}
use drakkar.Nntp.ArticleSource.{FetchPriority}
use drakkar.Nntp.MissingCache.{
  MissingCache, mark_missing, check_entry, is_missing, mark_and_maybe_confirm, note_failure,
}

-- The error tells that the article is missing, by its kind or in its text.
abbrev pub tells_missing : Error → Bool
tells_missing err =
    err.article_missing
    || (contains err.message (codes "status 430")
        || contains err.message (codes "status 423")
        || contains err.message (codes "article not found")
        || contains err.message (codes "article missing"))

-- How many nanoseconds the failure of a fetch is trusted, `none` where it is not kept: 30 seconds for an
-- open circuit and for what tells of a missing article below the priority of a stream, which is 100;
-- 24 hours for what tells of one at this priority or above.
abbrev pub kept_for : FetchPriority → Error → Option ℕ
kept_for priority err =
    if err.circuit_open
    then some 30_000_000_000
    else if tells_missing err
    then if leb_ℤ (pos 100) priority then some 86_400_000_000_000 else some 30_000_000_000
    else none

-- Whether the entry holds an article to be missing.
abbrev pub held : Option ℕ → ℕ → Bool
held none later = false
held (some expiry) later = leb later expiry

abbrev pub expiry_after : Option ℕ → ℕ → Option ℕ → Option ℕ
expiry_after none now before = before
expiry_after (some ttl) now before = some (now + ttl)

pub is_missing-held :
    (c : MissingCache) (j : Bytes) (later : ℕ) → (is_missing c j later).1 ≡ held (lookup j c) later
unfolding is_missing check_entry
is_missing-held c j later = elim (Option-cases (lookup j c)) [
  | inl n ↦ rw n refl
  | inr (x, e) ↦ rw e (ground arith)
]

pub mark_missing-lookup :
    (c : MissingCache) (id j : Bytes) (ttl now : ℕ)
    → lookup j (mark_missing c id ttl now)
      ≡ (if bytes_eq id j then some (now + ttl) else lookup j c)
unfolding mark_missing
mark_missing-lookup c id j ttl now = lookup-insert id j (now + ttl) c

-- What the failure of a fetch leaves of the map, at each message id.
pub note_failure-lookup :
    (c : MissingCache) (id j : Bytes) (priority : FetchPriority) (err : Error) (now : ℕ)
    → lookup j (note_failure c id priority err now).0 ≡ (
        if bytes_eq id j then expiry_after (kept_for priority err) now (lookup j c) else lookup j c)
unfolding note_failure mark_and_maybe_confirm classify_cacheable_error
note_failure-lookup c id j priority err now = ground (
  arith,
  mark_missing-lookup c id j 86_400_000_000_000 now,
  mark_missing-lookup c id j 30_000_000_000 now,
)

pub is_missing-kept :
    (c : MissingCache) (id : Bytes) (t x : ℕ)
    → lookup id c ≡ some x
    → t ≤ x
    → (is_missing c id t).0 ≡ c
unfolding is_missing check_entry
is_missing-kept c id t x e h = rw e (ground arith)

pub is_missing-dropped :
    (c : MissingCache) (id : Bytes) (t x : ℕ)
    → lookup id c ≡ some x
    → ltb x t ≡ true
    → (is_missing c id t).0 ≡ remove id c
unfolding is_missing check_entry
is_missing-dropped c id t x e h = rw e (ground arith)

pub is_missing-unknown :
    (c : MissingCache) (id : Bytes) (t : ℕ) → lookup id c ≡ none → (is_missing c id t).0 ≡ c
unfolding is_missing check_entry
is_missing-unknown c id t e = rw e refl

-- A check changes nothing for the checks that are not earlier.
pub held-is_missing :
    (c : MissingCache) (id j : Bytes) (t later : ℕ)
    → t ≤ later
    → held (lookup j (is_missing c id t).0) later ≡ held (lookup j c) later
held-is_missing c id j t later h = elim (Option-cases (lookup id c)) [
  | inl n ↦ ap (λ d. held (lookup j d) later) (is_missing-unknown c id t n)
  | inr (x, e) ↦ elim (Bool-cases (ltb x t)) [
    | inr k ↦ ap (λ d. held (lookup j d) later) (is_missing-kept c id t x e (ground arith))
    | inl k ↦
        ap (λ d. held (lookup j d) later) (is_missing-dropped c id t x e k)
        ∙ (ap (λ o. held o later) (lookup-remove id j c) ∙ by_id x e k (bytes_eq id j) refl)
  ]
]
  where
    by_id :
        (x : ℕ)
        → lookup id c ≡ some x
        → ltb x t ≡ true
        → (b : Bool) → bytes_eq id j ≡ b
        → held (if b then none else lookup j c) later ≡ held (lookup j c) later
    by_id x e k false q = refl
    by_id x e k true q =
        let same : id ≡ j = ground (arith, bytes_eq_iff id j) in
        let e' = subst (λ i. lookup i c ≡ some x) same e in rw e' (ground arith)

-- isMissing for one message id after the other, each at its instant.
abbrev pub checked : MissingCache → List (Bytes × ℕ) → MissingCache
checked c [] = c
checked c ((id, t) ∷ ts) = checked (is_missing c id t).0 ts

held-checked :
    (c : MissingCache) (j : Bytes) (later : ℕ) (ts : List (Bytes × ℕ))
    → All (λ (x : Bytes × ℕ). x.1 ≤ later) ts
    → held (lookup j (checked c ts)) later ≡ held (lookup j c) later
held-checked c j later [] h = refl
held-checked c j later ((id, t) ∷ ts) (l, h) =
    held-checked (is_missing c id t).0 j later ts h ∙ held-is_missing c id j t later l

-- After a failed fetch its article is held to be missing up to the end of the time for which such a
-- failure is trusted: 30 seconds for an open circuit, and for an error that is or tells of a missing
-- article 24 hours at the priority of a stream or above, and 30 seconds below it, as that entry waits
-- for its confirmation. After any other error, and for every other article, the answer is what it was
-- before. All this holds however often these and other articles were looked up since, at instants
-- that are not later.
pub is_missing-note_failure :
    (c : MissingCache) (id j : Bytes) (priority : FetchPriority) (err : Error) (now later : ℕ)
    (ts : List (Bytes × ℕ))
    → All (λ (x : Bytes × ℕ). x.1 ≤ later) ts
    → (is_missing (checked (note_failure c id priority err now).0 ts) j later).1 ≡ (
        if bytes_eq id j
        then elim (kept_for priority err) [
          | none ↦ (is_missing c j later).1
          | some ttl ↦ leb later (now + ttl)
        ]
        else (is_missing c j later).1)
is_missing-note_failure c id j priority err now later ts h =
    is_missing-held (checked (note_failure c id priority err now).0 ts) j later
    ∙ (held-checked (note_failure c id priority err now).0 j later ts h
        ∙ (ap (λ o. held o later) (note_failure-lookup c id j priority err now)
            ∙ by_kept (kept_for priority err) (bytes_eq id j)))
  where
    by_kept :
        (k : Option ℕ) (b : Bool)
        → held (if b then expiry_after k now (lookup j c) else lookup j c) later ≡ (
            if b
            then elim k [ none ↦ (is_missing c j later).1 | some ttl ↦ leb later (now + ttl) ]
            else (is_missing c j later).1)
    by_kept none true = sym (is_missing-held c j later)
    by_kept none false = sym (is_missing-held c j later)
    by_kept (some ttl) true = refl
    by_kept (some ttl) false = sym (is_missing-held c j later)
