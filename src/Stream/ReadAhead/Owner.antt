-- ===== src/Stream/ReadAhead/Owner.antt =====
-- Every operation of the read-ahead manager keeps the invariant of its sessions and windows.
use drakkar.Prelude.{
  ℕ, ◌+◌, ◌^◌, ◌≤◌, ◌<◌, ◌≡◌, refl, sym, ◌∙◌, subst, ap, Bool, true, false, ◌||◌, none, some, List,
  [], ◌∷◌, inl, inr, arith, if◌then◌else◌, get_elem?, Bool-cases, Option-cases,
}
use drakkar.Prelude.Int.{ℤ, pos, ltb_ℤ, eqb_ℤ}
use drakkar.Prelude.Bytes.{Bytes, bytes_eq}
use drakkar.Prelude.Dict.{lookup, remove}
use drakkar.Stream.ReadAhead.{
  SessionMeta, ReadAheadSession, Window, ReadAheadManager, cancel_window, cancel_at, store, stop,
  stop_all, stale_ids, with_session, register_meta, next_generation, note_offset,
}
use drakkar.Stream.ReadAhead.Windows.{cancel_at-Evolves, cancel_at-cancelled}
use drakkar.Stream.ReadAhead.Tracked.{
  IsTracked, Detached, store-IsTracked, remove-IsTracked, Evolves-IsTracked,
}
use mathlib.Core.Option.{some-injective}

pub if-both {ℓ κ} :
    {A : Type ℓ} (P : A → Type κ) (b : Bool) {x y : A} → P x → P y → P (if b then x else y)
if-both P true h k = h
if-both P false h k = k

pub next_generation-suc : (g n : ℕ) → g ≤ n → n + 1 < 2 ^ 64 → next_generation g ≡ g + 1
unfolding next_generation
next_generation-suc g n h k = omega arith

-- The windows of an id that has no session are all cancelled.
pub absent-Detached :
    (n : ℕ) (id : Bytes) (m : ReadAheadManager)
    → IsTracked n m
    → lookup id m.sessions ≡ none
    → Detached id m
absent-Detached n id m inv e j w h q = elim (Bool-cases w.cancelled) [
  | inl c ↦ c
  | inr c ↦
      let (s, l, _) = inv.owned j w h c in
      absurd (ground (arith, subst (λ x. lookup x m.sessions ≡ some s) q l))
]

-- What the operations are where a session has a window or none, and where an id has a session or none.
cancel_window-none :
    (s : ReadAheadSession) (m : ReadAheadManager) → s.cancel ≡ none → cancel_window s m ≡ m
unfolding cancel_window
cancel_window-none s m e = ground arith

cancel_window-some :
    (s : ReadAheadSession) (m : ReadAheadManager) {k : ℕ}
    → s.cancel ≡ some k
    → cancel_window s m ≡ record m { windows = cancel_at k m.windows }
unfolding cancel_window
cancel_window-some s m e = ground arith

stop-none : (id : Bytes) (m : ReadAheadManager) → lookup id m.sessions ≡ none → stop id m ≡ m
unfolding stop
stop-none id m e = ground arith

stop-some :
    (id : Bytes) (m : ReadAheadManager) {s : ReadAheadSession}
    → lookup id m.sessions ≡ some s
    → stop id m ≡ record (cancel_window s m) { sessions = remove id (cancel_window s m).sessions }
unfolding stop
stop-some id m e = ground arith

-- A session's windows are all cancelled once its current one is.
pub cancel_window-cut :
    (n : ℕ) (id : Bytes) (s : ReadAheadSession) (m : ReadAheadManager)
    → IsTracked n m
    → lookup id m.sessions ≡ some s
    → IsTracked n (cancel_window s m) × Detached id (cancel_window s m)
cancel_window-cut n id s m inv l = elim (Option-cases s.cancel) [
  | inl e ↦
      subst (λ x. IsTracked n x × Detached id x) (sym (cancel_window-none s m e)) (inv, unowned e)
  | inr (i, e) ↦
      subst (λ x. IsTracked n x × Detached id x) (sym (cancel_window-some s m e))
        (
          Evolves-IsTracked n m (cancel_at i m.windows) inv (cancel_at-Evolves i m.windows),
          own_cancelled i e,
        )
]
  where
    owner :
        (j : ℕ) (w : Window)
        → get_elem? m.windows j ≡ some w
        → w.session_id ≡ id
        → w.cancelled ≡ false
        → s.cancel ≡ some j
    owner j w h q c =
        let (t, k, (o, _, _)) = inv.owned j w h c in
        let z = some-injective _ _ (sym l ∙ subst (λ x. lookup x m.sessions ≡ some t) q k) in
        ap (λ (x : ReadAheadSession). x.cancel) z ∙ o

    unowned : s.cancel ≡ none → Detached id m
    unowned e j w h q = elim (Bool-cases w.cancelled) [
      | inl c ↦ c
      | inr c ↦ let o = owner j w h q c in absurd (cc)
    ]

    own_cancelled :
        (i : ℕ) → s.cancel ≡ some i → Detached id (record m { windows = cancel_at i m.windows })
    own_cancelled i e j w h q = elim (Bool-cases w.cancelled) [
      | inl c ↦ c
      | inr c ↦
          let (v, k, (d, _, _, live, _)) = cancel_at-Evolves i m.windows j w h in
          let u = some-injective _ _ (sym e ∙ owner j v k (sym d ∙ q) (live c)) in
          cancel_at-cancelled i m.windows
            (subst (λ x. get_elem? (cancel_at i m.windows) x ≡ some w) (sym u) h)
    ]

pub cancel_window-sessions :
    (s : ReadAheadSession) (m : ReadAheadManager)
    → ((cancel_window s m).sessions ≡ m.sessions) × ((cancel_window s m).allocated ≡ m.allocated)
cancel_window-sessions s m = elim (Option-cases s.cancel) [
  | inl e ↦
      let q = cancel_window-none s m e in
      (ap (λ (x : ReadAheadManager). x.sessions) q, ap (λ (x : ReadAheadManager). x.allocated) q)
  | inr (i, e) ↦
      let q = cancel_window-some s m e in
      (ap (λ (x : ReadAheadManager). x.sessions) q, ap (λ (x : ReadAheadManager). x.allocated) q)
]

pub stop-IsTracked :
    (n : ℕ) (id : Bytes) (m : ReadAheadManager) → IsTracked n m → IsTracked n (stop id m)
stop-IsTracked n id m inv = elim (Option-cases (lookup id m.sessions)) [
  | inl e ↦ subst (IsTracked n) (sym (stop-none id m e)) inv
  | inr (s, e) ↦
      let (inv', d) = cancel_window-cut n id s m inv e in
      subst (IsTracked n) (sym (stop-some id m e))
        (remove-IsTracked n id (cancel_window s m) inv' d)
]

stop_all-IsTracked :
    (n : ℕ) (ids : List Bytes) (m : ReadAheadManager) → IsTracked n m → IsTracked n (stop_all ids m)
unfolding stop_all
stop_all-IsTracked n [] m inv = inv
stop_all-IsTracked n (id ∷ ids) m inv =
    stop_all-IsTracked n ids (stop id m) (stop-IsTracked n id m inv)

-- A change of a session that leaves its identity and its window alone.
with_session-IsTracked :
    (n : ℕ) (id : Bytes) (f : ReadAheadSession → ReadAheadSession) (m : ReadAheadManager)
    → ((s : ReadAheadSession)
        → ((f s).ident ≡ s.ident) × ((f s).generation ≡ s.generation) × ((f s).cancel ≡ s.cancel))
    → IsTracked n m
    → IsTracked n (with_session id f m)
with_session-IsTracked n id f m keep inv = elim (Option-cases (lookup id m.sessions)) [
  | inl e ↦ subst (IsTracked n) (sym (unchanged e)) inv
  | inr (s, e) ↦
      let (a, g) = inv.allocated_sessions id s e in
      let (i, j, c) = keep s in
      subst (IsTracked n) (sym (changed s e)) (
        store-IsTracked n id (f s) m inv (rw i a) (rw j g) (λ k w h q.
          let l = subst (λ x. lookup x m.sessions ≡ some s) (sym q) e in
          (
            λ z. rw j (inv.older k w s h l (sym i ∙ z)),
            λ live.
                let (t, p, (o1, o2, o3)) = inv.owned k w h live in
                let z = some-injective _ _ (sym l ∙ p) in
                (
                  c ∙ ap (λ (x : ReadAheadSession). x.cancel) z ∙ o1,
                  i ∙ ap (λ (x : ReadAheadSession). x.ident) z ∙ o2,
                  j ∙ ap (λ (x : ReadAheadSession). x.generation) z ∙ o3,
                ),
          )))
]
  where
    unchanged : lookup id m.sessions ≡ none → with_session id f m ≡ m
    unchanged e = unfold with_session in ground arith

    changed :
        (s : ReadAheadSession)
        → lookup id m.sessions ≡ some s
        → with_session id f m ≡ store id (f s) m
    changed s e = unfold with_session in ground arith

pub note_offset-IsTracked :
    (n : ℕ) (id : Bytes) (offset : ℤ) (m : ReadAheadManager)
    → IsTracked n m
    → IsTracked n (note_offset id offset m)
unfolding note_offset
note_offset-IsTracked n id offset m inv =
    if-both (λ x. IsTracked n x) (bytes_eq id [] || ltb_ℤ offset (pos 0)) inv
      (with_session-IsTracked n id (λ s. record s { current_offset = offset }) m
        (λ s. (refl, refl, refl)) inv)

pub register_meta-IsTracked :
    (n : ℕ) (id : Bytes) (meta : SessionMeta) (m : ReadAheadManager)
    → IsTracked n m
    → IsTracked n (register_meta id meta m)
unfolding register_meta
register_meta-IsTracked n id meta m inv =
    let m' = with_session id (λ s. record s { meta = meta }) m in
    let inv' =
      with_session-IsTracked n id (λ s. record s { meta = meta }) m (λ s. (refl, refl, refl)) inv in
    if-both (λ x. IsTracked n x) (bytes_eq id []) inv
      (if-both (λ x. IsTracked n x) (eqb_ℤ meta.virtual_file_id (pos 0)) inv'
        (stop_all-IsTracked n (stale_ids id meta.virtual_file_id m'.sessions) m' inv'))
