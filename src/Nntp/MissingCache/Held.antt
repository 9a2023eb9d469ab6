-- ===== src/Nntp/MissingCache/Held.antt =====
-- What leaves an entry of the map of missing articles in its place.
use drakkar.Prelude.{
  ℕ, ◌+◌, ◌≤◌, ◌≡◌, refl, ◌∙◌, ap, subst, false, some, [], ◌∷◌, arith, ltb, Bool-cases,
  Option-cases, inl, inr,
}
use drakkar.Prelude.Bytes.{Bytes, bytes_eq, bytes_eq_refl, eq_of_bytes_eq}
use drakkar.Prelude.Dict.{lookup, lookup-remove}
use drakkar.Nntp.Errors.{Error}
use drakkar.Nntp.ArticleSource.{FetchPriority}
use drakkar.Nntp.MissingCache.{MissingCache, is_missing, note_failure, evict_expired}
use drakkar.Nntp.MissingCache.Expiry.{
  kept_for, note_failure-lookup, is_missing-kept, is_missing-dropped, is_missing-unknown,
}

pub kept_for-le :
    (priority : FetchPriority) (err : Error) (ttl : ℕ)
    → kept_for priority err ≡ some ttl
    → ttl ≤ 86_400_000_000_000
kept_for-le priority err ttl h = ground arith

pub note_failure-kept :
    (c : MissingCache) (id : Bytes) (priority : FetchPriority) (err : Error) (now ttl : ℕ)
    → kept_for priority err ≡ some ttl
    → lookup id (note_failure c id priority err now).0 ≡ some (now + ttl)
note_failure-kept c id priority err now ttl h =
    note_failure-lookup c id id priority err now ∙ rw (bytes_eq_refl id, h) refl

pub check-IsHeld :
    (c : MissingCache) (id j : Bytes) (t until x : ℕ)
    → t ≤ until
    → lookup id c ≡ some x
    → until ≤ x
    → (y : ℕ) × (lookup id (is_missing c j t).0 ≡ some y) × (until ≤ y)
check-IsHeld c id j t until x l e h = elim (Option-cases (lookup j c)) [
  | inl n ↦ (x, ap (lookup id) (is_missing-unknown c j t n) ∙ e, h)
  | inr (z, f) ↦ elim (Bool-cases (ltb z t)) [
    | inr k ↦ (x, ap (lookup id) (is_missing-kept c j t z f (ground arith)) ∙ e, h)
    | inl k ↦ elim (Bool-cases (bytes_eq j id)) [
      | inl q ↦
          let same = eq_of_bytes_eq j id q in
          let f' = subst (λ i. lookup i c ≡ some z) same f in absurd (ground arith)
      | inr q ↦
          (x, ap (lookup id) (is_missing-dropped c j t z f k) ∙ (lookup-remove j id c ∙ rw q e), h)
    ]
  ]
]

-- A sweep leaves what is not yet expired.
pub evict_expired-lookup :
    (c : MissingCache) (id : Bytes) (at x : ℕ)
    → lookup id c ≡ some x
    → at ≤ x
    → lookup id (evict_expired c at) ≡ some x
unfolding evict_expired lookup
evict_expired-lookup [] id at x e h = e
evict_expired-lookup ((j, y) ∷ c) id at x e h = elim (Bool-cases (bytes_eq j id)) [
  | inl q ↦
      let e' = rw q at e in
      let same : y ≡ x = ground arith in let k : ltb y at ≡ false = ground arith in rw (k, q) e'
  | inr q ↦
      let e' = rw q at e in
      let rest = evict_expired-lookup c id at x e' h in
      elim (Bool-cases (ltb y at)) [ inl k ↦ rw k rest | inr k ↦ rw (k, q) rest ]
]
