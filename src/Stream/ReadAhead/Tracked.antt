-- ===== src/Stream/ReadAhead/Tracked.antt =====
-- The invariant of the sessions and their windows, and what keeps it: a stored or removed session, a
-- change of the windows, and a new window.
use drakkar.Prelude.{
  ℕ, ◌≤◌, ◌<◌, ◌≡◌, refl, sym, ◌∙◌, subst, ap, Bool, true, false, some, List, [], ◌∷◌, ◌++◌, ◌⊎◌,
  inl, inr, arith, length, get_elem?, append_cases, Bool-cases,
}
use drakkar.Prelude.Bytes.{Bytes, bytes_eq, bytes_eq_iff}
use drakkar.Prelude.Dict.{lookup, insert, remove, lookup-insert, lookup-remove}
use drakkar.Stream.ReadAhead.{ReadAheadSession, Window, ReadAheadManager, store}
use drakkar.Stream.ReadAhead.Windows.{ClosedIsCancelled, Evolves}
use mathlib.Core.Option.{some-injective}

-- The session that a window was started for still has it as its current one.
abbrev pub Owns : ReadAheadSession → ℕ → Window → Type 0
Owns s j w = (s.cancel ≡ some j) × (s.ident ≡ w.ident) × (s.generation ≡ w.generation)

-- `n` bounds the generations, which are counted without a wrap below it.
pub record IsTracked (n : ℕ) (m : ReadAheadManager) : Type 0 where
  pub allocated_sessions :
      (id : Bytes) (s : ReadAheadSession)
      → lookup id m.sessions ≡ some s
      → (s.ident < m.allocated) × (s.generation ≤ n)
  pub allocated_windows :
      (j : ℕ) (w : Window)
      → get_elem? m.windows j ≡ some w
      → (w.ident < m.allocated) × ClosedIsCancelled w
  pub older :
      (j : ℕ) (w : Window) (s : ReadAheadSession)
      → get_elem? m.windows j ≡ some w
      → lookup w.session_id m.sessions ≡ some s
      → s.ident ≡ w.ident
      → w.generation ≤ s.generation
  pub distinct :
      (i j : ℕ) (v w : Window)
      → get_elem? m.windows i ≡ some v
      → get_elem? m.windows j ≡ some w
      → v.session_id ≡ w.session_id
      → v.ident ≡ w.ident
      → v.generation ≡ w.generation
      → i ≡ j
  pub owned :
      (j : ℕ) (w : Window)
      → get_elem? m.windows j ≡ some w
      → w.cancelled ≡ false
      → (s : ReadAheadSession) × (lookup w.session_id m.sessions ≡ some s) × Owns s j w

-- No window of this id is left uncancelled.
abbrev pub Detached : Bytes → ReadAheadManager → Type 0
Detached id m =
    (j : ℕ) (w : Window) → get_elem? m.windows j ≡ some w → w.session_id ≡ id → w.cancelled ≡ true

-- What a session has to promise for the windows of its id.
abbrev pub Fits : Bytes → ReadAheadSession → ReadAheadManager → Type 0
Fits id s m =
    (j : ℕ) (w : Window)
    → get_elem? m.windows j ≡ some w
    → w.session_id ≡ id
    → (s.ident ≡ w.ident → w.generation ≤ s.generation) × (w.cancelled ≡ false → Owns s j w)

lookup_stored :
    (id j : Bytes) (s t : ReadAheadSession) (m : List (Bytes × ReadAheadSession))
    → lookup j (insert id s m) ≡ some t
    → ((id ≡ j) × (s ≡ t)) ⊎ (lookup j m ≡ some t)
lookup_stored id j s t m h =
    let e = sym (lookup-insert id j s m) ∙ h in
    elim (Bool-cases (bytes_eq id j)) [
      | inl q ↦ inl ((bytes_eq_iff id j).0 q, some-injective _ _ (rw q at e))
      | inr q ↦ inr (rw q at e)
    ]

pub store-IsTracked :
    (n : ℕ) (id : Bytes) (s : ReadAheadSession) (m : ReadAheadManager)
    → IsTracked n m
    → s.ident < m.allocated
    → s.generation ≤ n
    → Fits id s m
    → IsTracked n (store id s m)
unfolding store
store-IsTracked n id s m inv a g fits = record {
  allocated_sessions = λ j t h. elim (lookup_stored id j s t m.sessions h) [
    | inl (_, e) ↦ subst (λ u. (u.ident < m.allocated) × (u.generation ≤ n)) e (a, g)
    | inr e ↦ inv.allocated_sessions j t e
  ];
  allocated_windows = inv.allocated_windows;
  older = λ j w t h l e. elim (lookup_stored id w.session_id s t m.sessions l) [
    | inl (q, z) ↦
        subst (λ u. u.ident ≡ w.ident → w.generation ≤ u.generation) z (fits j w h (sym q)).0 e
    | inr q ↦ inv.older j w t h q e
  ];
  distinct = inv.distinct;
  owned = λ j w h live. elim (Bool-cases (bytes_eq id w.session_id)) [
    | inl q ↦
        let e = sym ((bytes_eq_iff id w.session_id).0 q) in
        (s, rw (lookup-insert id w.session_id s m.sessions, q) refl, (fits j w h e).1 live)
    | inr q ↦
        let (t, l, o) = inv.owned j w h live in
        (t, rw (lookup-insert id w.session_id s m.sessions, q) l, o)
  ];
}

lookup_removed :
    (id j : Bytes) (t : ReadAheadSession) (m : List (Bytes × ReadAheadSession))
    → lookup j (remove id m) ≡ some t
    → lookup j m ≡ some t
lookup_removed id j t m h =
    let e = sym (lookup-remove id j m) ∙ h in
    elim (Bool-cases (bytes_eq id j)) [ inl q ↦ absurd (ground arith) | inr q ↦ rw q at e ]

pub remove-IsTracked :
    (n : ℕ) (id : Bytes) (m : ReadAheadManager)
    → IsTracked n m
    → Detached id m
    → IsTracked n (record m { sessions = remove id m.sessions })
remove-IsTracked n id m inv d = record {
  allocated_sessions = λ j t h. inv.allocated_sessions j t (lookup_removed id j t m.sessions h);
  allocated_windows = inv.allocated_windows;
  older = λ j w t h l. inv.older j w t h (lookup_removed id w.session_id t m.sessions l);
  distinct = inv.distinct;
  owned = λ j w h live. elim (Bool-cases (bytes_eq id w.session_id)) [
    | inl q ↦ absurd (clash (d j w h (sym ((bytes_eq_iff id w.session_id).0 q))) live)
    | inr q ↦
        let (t, l, o) = inv.owned j w h live in
        (t, rw (lookup-remove id w.session_id m.sessions, q) l, o)
  ];
}
  where
    clash : {b : Bool} → b ≡ true → b ≡ false → ⊥
    clash p q = cc

-- Windows may be cancelled, and go on to their next stage.
pub Evolves-IsTracked :
    (n : ℕ) (m : ReadAheadManager) (ws : List Window)
    → IsTracked n m
    → Evolves m.windows ws
    → IsTracked n (record m { windows = ws })
Evolves-IsTracked n m ws inv ev = record {
  allocated_sessions = inv.allocated_sessions;
  allocated_windows = λ j w h.
      let (v, e, (_, i, _, _, c)) = ev j w h in
      let (a, b) = inv.allocated_windows j v e in (subst (λ x. x < m.allocated) (sym i) a, c b);
  older = λ j w s h l e.
      let (v, q, (d, i, g, _, _)) = ev j w h in
      subst (λ x. x ≤ s.generation) (sym g)
        (inv.older j v s q (subst (λ x. lookup x m.sessions ≡ some s) d l) (e ∙ i));
  distinct = λ i j v w h k d e g.
      let (v', p, (d1, i1, g1, _, _)) = ev i v h in
      let (w', q, (d2, i2, g2, _, _)) = ev j w k in
      inv.distinct i j v' w' p q (sym d1 ∙ d ∙ d2) (sym i1 ∙ e ∙ i2) (sym g1 ∙ g ∙ g2);
  owned = λ j w h live.
      let (v, e, (d, i, g, c, _)) = ev j w h in
      let (s, l, (o1, o2, o3)) = inv.owned j v e (c live) in
      (s, subst (λ x. lookup x m.sessions ≡ some s) (sym d) l, (o1, o2 ∙ sym i, o3 ∙ sym g));
}

-- A new window behind the others, of a session that owns it and is newer than its other windows.
pub append-IsTracked :
    (n : ℕ) (m : ReadAheadManager) (v : Window) (s : ReadAheadSession)
    → IsTracked n m
    → lookup v.session_id m.sessions ≡ some s
    → Owns s (length m.windows) v
    → ClosedIsCancelled v
    → ((j : ℕ) (w : Window)
        → get_elem? m.windows j ≡ some w
        → w.session_id ≡ v.session_id
        → w.ident ≡ v.ident
        → w.generation < v.generation)
    → IsTracked n (record m { windows = m.windows ++ v ∷ [] })
append-IsTracked n m v s inv l (c, i, g) cl newer = record {
  allocated_sessions = inv.allocated_sessions;
  allocated_windows = λ j w h. elim (append_cases m.windows v j h) [
    | inl (e, _) ↦ inv.allocated_windows j w e
    | inr (_, e) ↦
        subst (λ x. (x.ident < m.allocated) × ClosedIsCancelled x) (sym e)
          (subst (λ x. x < m.allocated) i (inv.allocated_sessions v.session_id s l).0, cl)
  ];
  older = λ j w t h k e. elim (append_cases m.windows v j h) [
    | inl (q, _) ↦ inv.older j w t q k e
    | inr (_, q) ↦
        let z =
          some-injective _ _ (sym l ∙ subst (λ x. lookup x.session_id m.sessions ≡ some t) q k) in
        omega (
          arith,
          ap (λ (x : ReadAheadSession). x.generation) z,
          ap (λ (x : Window). x.generation) q,
        )
  ];
  distinct = λ a b x y h k d e f. elim (append_cases m.windows v a h) [
    | inl (p, p') ↦ elim (append_cases m.windows v b k) [
      | inl (q, _) ↦ inv.distinct a b x y p q d e f
      | inr (q', q) ↦ absurd (
          lt_irrefl
            (newer a x p (d ∙ ap (λ (z : Window). z.session_id) q)
              (e ∙ ap (λ (z : Window). z.ident) q))
            (f ∙ ap (λ (z : Window). z.generation) q))
    ]
    | inr (p', p) ↦ elim (append_cases m.windows v b k) [
      | inl (q, _) ↦ absurd (
          lt_irrefl
            (newer b y q (sym d ∙ ap (λ (z : Window). z.session_id) p)
              (sym e ∙ ap (λ (z : Window). z.ident) p))
            (sym f ∙ ap (λ (z : Window). z.generation) p))
      | inr (q', q) ↦ p' ∙ sym q'
    ]
  ];
  owned = λ j w h live. elim (append_cases m.windows v j h) [
    | inl (q, _) ↦ inv.owned j w q live
    | inr (e, q) ↦
        subst (λ x. (t : ReadAheadSession) × (lookup x.session_id m.sessions ≡ some t) × Owns t j x)
          (sym q) (s, l, (c ∙ ap some (sym e), i, g))
  ];
}
  where
    lt_irrefl : {a b : ℕ} → a < b → a ≡ b → ⊥
    lt_irrefl h e = omega arith
