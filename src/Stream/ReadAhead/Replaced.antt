-- ===== src/Stream/ReadAhead/Replaced.antt =====
-- The operations that replace a session or its window keep the invariant, and so does every step.
use drakkar.Prelude.{
  ℕ, ◌+◌, ◌^◌, ◌≤◌, ◌<◌, ◌≡◌, refl, sym, ◌∙◌, subst, ap, Option, none, some, List, [], ◌∷◌, ◌++◌,
  inl, inr, arith, length, get_elem?, Option-cases,
}
use drakkar.Prelude.Int.{ℤ}
use drakkar.Prelude.Bytes.{Bytes, bytes_eq, bytes_eq_refl}
use drakkar.Prelude.Dict.{lookup, insert, lookup-insert}
use drakkar.Stream.RangeMap.{SegmentRange, SegmentSpan}
use drakkar.Stream.ReadAhead.{
  SessionMeta, ReadAheadSession, fetching, Window, ReadAheadManager, cancel_window, store,
  cancel_existing, register, new_session, first_meta, next_generation, sought, active_count,
}
use drakkar.Stream.ReadAhead.Schedule.{last_range_end, new_window, started, start_window, share_of}
use drakkar.Stream.ReadAhead.Tracked.{IsTracked, Detached, store-IsTracked, append-IsTracked}
use drakkar.Stream.ReadAhead.Owner.{
  if-both, next_generation-suc, absent-Detached, cancel_window-cut, cancel_window-sessions,
}

-- A session object of a new identity takes the place of another one.
renewed-IsTracked :
    (n : ℕ) (id : Bytes) (spans : List SegmentSpan) (fetcher : ℕ) (meta : SessionMeta)
    (m : ReadAheadManager)
    → IsTracked n m
    → Detached id m
    → IsTracked n (
        store id
          (new_session m.allocated spans fetcher meta)
          (record m { allocated = m.allocated + 1 }))
unfolding new_session
renewed-IsTracked n id spans fetcher meta m inv d =
    store-IsTracked n id (new_session m.allocated spans fetcher meta)
      (record m { allocated = m.allocated + 1 }) grown (omega arith) (omega arith)
      (λ j w h q. (
        λ e. absurd (omega (arith, (inv.allocated_windows j w h).0)),
        λ live. let c = d j w h q in absurd (cc),
      ))
  where
    grown : IsTracked n (record m { allocated = m.allocated + 1 })
    grown = record {
      allocated_sessions = λ j s h. let (a, g) = inv.allocated_sessions j s h in (omega arith, g);
      allocated_windows = λ j w h. let (a, c) = inv.allocated_windows j w h in (omega arith, c);
      older = inv.older;
      distinct = inv.distinct;
      owned = inv.owned;
    }

cancel_existing-cut :
    (n : ℕ) (id : Bytes) (m : ReadAheadManager)
    → IsTracked n m
    → IsTracked n (cancel_existing id m) × Detached id (cancel_existing id m)
cancel_existing-cut n id m inv = elim (Option-cases (lookup id m.sessions)) [
  | inl e ↦
      let u : cancel_existing id m ≡ m = unfold cancel_existing in ground arith in
      subst (λ x. IsTracked n x × Detached id x) (sym u) (inv, absent-Detached n id m inv e)
  | inr (s, e) ↦
      let u : cancel_existing id m ≡ cancel_window s m = unfold cancel_existing in ground arith in
      subst (λ x. IsTracked n x × Detached id x) (sym u) (cancel_window-cut n id s m inv e)
]

pub register-IsTracked :
    (n : ℕ) (id : Bytes) (spans : List SegmentSpan) (fetcher : Option ℕ) (meta : Option SessionMeta)
    (now : ℕ) (m : ReadAheadManager)
    → IsTracked n m
    → IsTracked n (register id spans fetcher meta now m)
unfolding register
register-IsTracked n id spans none meta now m inv = inv
register-IsTracked n id spans (some f) meta now m inv =
    let (inv', d) = cancel_existing-cut n id m inv in
    if-both (IsTracked n) (bytes_eq id []) inv
      (renewed-IsTracked n id spans f (first_meta meta now) (cancel_existing id m) inv' d)

pub IsTracked-mono : (n k : ℕ) (m : ReadAheadManager) → n ≤ k → IsTracked n m → IsTracked k m
IsTracked-mono n k m h inv = record {
  allocated_sessions = λ j s l. let (a, g) = inv.allocated_sessions j s l in (a, omega arith);
  allocated_windows = inv.allocated_windows;
  older = inv.older;
  distinct = inv.distinct;
  owned = inv.owned;
}

-- A session of a new generation, behind the cancellation of its window.
module _ (n : ℕ) (id : Bytes) (s : ReadAheadSession) (m : ReadAheadManager) (inv : IsTracked n m)
    (here : lookup id m.sessions ≡ some s) (few : n + 1 < 2 ^ 64) where
  cut : IsTracked n (cancel_window s m) × Detached id (cancel_window s m)
  cut = cancel_window-cut n id s m inv here

  still_here : lookup id (cancel_window s m).sessions ≡ some s
  still_here = ap (lookup id) (cancel_window-sessions s m).0 ∙ here

  generation_grows : next_generation s.generation ≡ s.generation + 1
  generation_grows = next_generation-suc s.generation n (inv.allocated_sessions id s here).1 few

  older_windows :
      (j : ℕ) (w : Window)
      → get_elem? (cancel_window s m).windows j ≡ some w
      → w.session_id ≡ id
      → s.ident ≡ w.ident
      → w.generation ≤ s.generation
  older_windows j w h q e =
      let l = subst (λ x. lookup x (cancel_window s m).sessions ≡ some s) (sym q) still_here in
      cut.0.older j w s h l e

  pub restored-IsTracked :
      (t : ReadAheadSession)
      → t.ident ≡ s.ident
      → t.generation ≡ next_generation s.generation
      → IsTracked (n + 1) (store id t (cancel_window s m))
  restored-IsTracked t i g =
      let (a, b) = cut.0.allocated_sessions id s still_here in
      let up = generation_grows in
      store-IsTracked (n + 1) id t (cancel_window s m)
        (IsTracked-mono n (n + 1) (cancel_window s m) (omega arith) cut.0)
        (subst (λ x. x < (cancel_window s m).allocated) (sym i) a) (omega arith)
        (λ j w h q. (
          λ e. let o = older_windows j w h q (sym i ∙ e) in omega arith,
          λ live. let c = cut.1 j w h q in absurd (cc),
        ))

  pub start_window-IsTracked :
      (offset : ℤ) (ranges : List SegmentRange)
      → IsTracked (n + 1) (start_window id (sought s) offset ranges (cancel_window s m))
  start_window-IsTracked offset ranges = elim (Option-cases (last_range_end ranges)) [
    | inl e ↦
        let u : start_window id (sought s) offset ranges (cancel_window s m)
            ≡ store id (sought s) (cancel_window s m) =
          unfold start_window in ground arith in
        subst (IsTracked (n + 1)) (sym u) (restored-IsTracked (sought s) refl refl)
    | inr (z, e) ↦
        let k = length (cancel_window s m).windows in
        let t = started (sought s) k offset z in
        let p = share_of (cancel_window s m).max_parallelism (active_count (cancel_window s m)) in
        let v = new_window id (sought s) ranges p in
        let u : start_window id (sought s) offset ranges (cancel_window s m)
            ≡ record (store id t (cancel_window s m)) {
              windows = (cancel_window s m).windows ++ v ∷ [];
            } =
          unfold start_window in ground arith in
        subst (IsTracked (n + 1)) (sym u) (
          with_window t v k refl (unfold started in refl) (unfold started in refl)
            (unfold started in refl) (unfold new_window in refl) (unfold new_window in refl)
            (unfold new_window in refl) (unfold new_window in refl))
  ]
    where
      with_window :
          (t : ReadAheadSession) (v : Window) (k : ℕ)
          → k ≡ length (cancel_window s m).windows
          → t.ident ≡ s.ident
          → t.generation ≡ next_generation s.generation
          → t.cancel ≡ some k
          → v.session_id ≡ id
          → v.ident ≡ s.ident
          → v.generation ≡ next_generation s.generation
          → v.stage ≡ fetching
          → IsTracked (n + 1) (record (store id t (cancel_window s m)) {
            windows = (cancel_window s m).windows ++ v ∷ [];
          })
      with_window t v k z i g c d e f st =
          unfold store in
          append-IsTracked (n + 1) (store id t (cancel_window s m)) v t (restored-IsTracked t i g)
            (subst (λ x. lookup x (insert id t (cancel_window s m).sessions) ≡ some t) (sym d)
              (rw (lookup-insert id id t (cancel_window s m).sessions, bytes_eq_refl id) refl))
            (c ∙ ap some z, i ∙ sym e, g ∙ sym f) (inl st)
            (λ j w h q r.
              let o = older_windows j w h (q ∙ d) (sym e ∙ sym r) in
              let up = generation_grows in omega arith)
