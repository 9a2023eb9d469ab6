-- ===== src/Stream/ReadAhead/Settled.antt =====
-- The steps of a window's goroutine keep the invariant of the sessions and windows.
use drakkar.Prelude.{
  ℕ, ◌≤◌, ◌≡◌, refl, sym, ◌∙◌, subst, ap, Bool, true, false, ◌&&◌, not, some, inl, inr, arith,
  get_elem?, set, Bool-cases, Option-cases,
}
use drakkar.Prelude.Dict.{lookup}
use drakkar.Stream.ReadAhead.{
  ReadAheadSession, Stage, fetching, closed, ended, Window, ReadAheadManager, store,
}
use drakkar.Stream.ReadAhead.System.{
  failed_fetch, finished, end_window, change_window, settled, is_current, settle_session, settle,
}
use drakkar.Stream.ReadAhead.Windows.{Later, set-Evolves}
use drakkar.Stream.ReadAhead.Tracked.{Owns, IsTracked, store-IsTracked, Evolves-IsTracked}
use mathlib.Core.Option.{some-injective}

pub change_window-IsTracked :
    (n k : ℕ) (f : Window → Window) (m : ReadAheadManager)
    → ((w : Window) → get_elem? m.windows k ≡ some w → Later w (f w))
    → IsTracked n m
    → IsTracked n (change_window k f m)
change_window-IsTracked n k f m later inv = elim (Option-cases (get_elem? m.windows k)) [
  | inl e ↦
      let u : change_window k f m ≡ m = unfold change_window in ground arith in
      subst (IsTracked n) (sym u) inv
  | inr (w, e) ↦
      let u : change_window k f m ≡ record m { windows = set m.windows k (f w) } =
        unfold change_window in ground arith in
      subst (IsTracked n) (sym u) (
        Evolves-IsTracked n m (set m.windows k (f w)) inv
          (set-Evolves m.windows k w (f w) e (later w e)))
]

pub failed_fetch-Later : (w : Window) → Later w (failed_fetch w)
failed_fetch-Later w = by_stage w w.stage refl
  where
    by_stage : (v : Window) (t : Stage) → v.stage ≡ t → Later v (failed_fetch v)
    by_stage v fetching e = rw e (refl, refl, refl, λ h. h, λ c. inl refl)
    by_stage v (closed b) e = rw e (refl, refl, refl, λ h. h, λ c. c)
    by_stage v ended e = rw e (refl, refl, refl, λ h. h, λ c. c)

pub finished-Later : (w : Window) → Later w (finished w)
finished-Later w = by_stage w w.stage refl
  where
    by_stage : (v : Window) (t : Stage) → v.stage ≡ t → Later v (finished v)
    by_stage v fetching e = rw e (refl, refl, refl, λ h. absurd (cc), λ c. inr refl)
    by_stage v (closed b) e = rw e (refl, refl, refl, λ h. h, λ c. c)
    by_stage v ended e = rw e (refl, refl, refl, λ h. h, λ c. c)

not_both : {x : Bool} → x ≡ false → x ≡ true → ⊥
not_both p r = cc

current :
    (s : ReadAheadSession) (w : Window)
    → is_current s w ≡ true
    → (s.ident ≡ w.ident) × (s.generation ≡ w.generation)
unfolding is_current
current s w c = (ground arith, ground arith)

-- The session of a window that has been closed keeps what its other windows need.
settle_session-IsTracked :
    (n k : ℕ) (w : Window) (b : Bool) (m : ReadAheadManager)
    → get_elem? m.windows k ≡ some w
    → w.cancelled ≡ true
    → IsTracked n m
    → IsTracked n (settle_session w b m)
settle_session-IsTracked n k w b m at over inv =
    elim (Option-cases (lookup w.session_id m.sessions)) [
      | inl e ↦
          let u : settle_session w b m ≡ m = unfold settle_session in ground arith in
          subst (IsTracked n) (sym u) inv
      | inr (s, e) ↦ elim (Bool-cases (is_current s w)) [
        | inr c ↦
            let u : settle_session w b m ≡ m = unfold settle_session in ground arith in
            subst (IsTracked n) (sym u) inv
        | inl c ↦
            let t = settled (w.fetch_failed && not b) s in
            let u : settle_session w b m ≡ store w.session_id t m =
              unfold settle_session in ground arith in
            let (a, g) = inv.allocated_sessions w.session_id s e in
            subst (IsTracked n) (sym u) (store-IsTracked n w.session_id t m inv a g (fits s e c))
      ]
    ]
  where
    fits :
        (s : ReadAheadSession)
        → lookup w.session_id m.sessions ≡ some s
        → is_current s w ≡ true
        → (j : ℕ) (v : Window) → get_elem? m.windows j ≡ some v
        → v.session_id ≡ w.session_id
        → (s.ident ≡ v.ident → v.generation ≤ s.generation)
          × (v.cancelled ≡ false → Owns (settled (w.fetch_failed && not b) s) j v)
    fits s e c j v h q = (
      λ z. inv.older j v s h (subst (λ x. lookup x m.sessions ≡ some s) (sym q) e) z,
      λ live.
          let (t, l, (_, o2, o3)) = inv.owned j v h live in
          let z = some-injective _ _ (sym l ∙ ap (λ x. lookup x m.sessions) q ∙ e) in
          let (i, g) = current s w c in
          let same =
            inv.distinct j k v w h at q (sym o2 ∙ ap (λ (x : ReadAheadSession). x.ident) z ∙ i)
              (sym o3 ∙ ap (λ (x : ReadAheadSession). x.generation) z ∙ g) in
          let vw =
            some-injective _ _ (sym (subst (λ x. get_elem? m.windows x ≡ some v) same h) ∙ at) in
          absurd (not_both live (ap (λ (x : Window). x.cancelled) vw ∙ over)),
    )

pub settle_session-windows :
    (w : Window) (b : Bool) (m : ReadAheadManager) → (settle_session w b m).windows ≡ m.windows
unfolding settle_session
settle_session-windows w b m = ground arith

module _ (k : ℕ) (m : ReadAheadManager) (w : Window) where
  settle-fetching : get_elem? m.windows k ≡ some w → w.stage ≡ fetching → settle k m ≡ m
  unfolding settle
  settle-fetching e q = ground arith

  settle-ended : get_elem? m.windows k ≡ some w → w.stage ≡ ended → settle k m ≡ m
  unfolding settle
  settle-ended e q = ground arith

  pub settle-closed :
      (b : Bool)
      → get_elem? m.windows k ≡ some w
      → w.stage ≡ closed b
      → settle k m ≡ change_window k end_window (settle_session w b m)
  unfolding settle
  settle-closed b e q = ground arith

pub settle-IsTracked : (n k : ℕ) (m : ReadAheadManager) → IsTracked n m → IsTracked n (settle k m)
settle-IsTracked n k m inv = elim (Option-cases (get_elem? m.windows k)) [
  | inl e ↦
      let u : settle k m ≡ m = unfold settle in ground arith in subst (IsTracked n) (sym u) inv
  | inr (w, e) ↦ by_stage w e w.stage refl
]
  where
    by_stage :
        (w : Window)
        → get_elem? m.windows k ≡ some w
        → (t : Stage) → w.stage ≡ t
        → IsTracked n (settle k m)
    by_stage w e fetching q = subst (IsTracked n) (sym (settle-fetching k m w e q)) inv
    by_stage w e ended q = subst (IsTracked n) (sym (settle-ended k m w e q)) inv
    by_stage w e (closed b) q =
        let u = settle-closed k m w b e q in
        let over : w.cancelled ≡ true = elim ((inv.allocated_windows k w e).1) [
          | inl f ↦ absurd (ground arith)
          | inr c ↦ c
        ] in
        let inv' = settle_session-IsTracked n k w b m e over inv in
        subst (IsTracked n) (sym u) (
          change_window-IsTracked n k end_window (settle_session w b m)
            (λ v h. (
              refl,
              refl,
              refl,
              λ c. c,
              λ c. inr (
                  ap (λ (x : Window). x.cancelled)
                    (some-injective _ _
                      (sym h ∙ ap (λ x. get_elem? x k) (settle_session-windows w b m) ∙ e))
                  ∙ over),
            ))
            inv')
