-- ===== src/Cache/SingleFlight/Shared.antt =====
-- One fetch at a time for a key, whose result all its callers share; and what becomes of a key whose
-- fetch panics.
use drakkar.Prelude.{
  ℕ, ◌≡◌, ◌≢◌, refl, sym, ◌∙◌, subst, ap, Option, none, some, List, [], ◌∷◌, ◌⊎◌, inl, inr, arith,
  ◌==◌, ==_iff, get_elem?, set, get_elem?-append, get_elem?-set_ne, Bool-cases, Option-cases,
}
use drakkar.Prelude.Dict.{lookup}
use drakkar.Cache.SingleFlight.{
  Flight, Stage, fetching, closing, waiting, panicked, returned, Call, SingleFlight,
  new_single_flight, Action, fetched, deletes, panics, served, gives_up, Event, enters, acts,
  enter_with, set_stage, end_fetch, result_of, end_call, end_wait, act, step, run,
}
use drakkar.Cache.SingleFlight.Invariant.{Holds, Unfinished, IsFlying}
use drakkar.Cache.SingleFlight.Kept.{new-IsFlying, run-IsFlying}
use mathlib.Core.Option.{some-injective}

module _ {ℓ} {R : Type ℓ} where
  one :
      {s : SingleFlight R}
      → IsFlying s
      → (c j : ℕ) (call v : Call R) → get_elem? s.calls c ≡ some call
      → get_elem? s.calls j ≡ some v
      → call.stage ≡ fetching
      → v.stage ≡ fetching
      → call.key ≡ v.key
      → c ≡ j
  one {s} inv c j call v h k p q e =
      let (o, t, _, hold) = inv.held c call h in
      let (y, u, _, hold') = inv.held j v k in
      let ((w, l), n) = subst (λ x. Holds s.flights c call o x) p hold in
      let ((w', l'), n') = subst (λ x. Holds s.flights j v y x) q hold' in
      let same = some-injective _ _ (sym l ∙ (ap (λ x. lookup x s.flights) e ∙ l')) in
      let oy = some-injective _ _ (sym (subst (λ i. get_elem? s.objects i ≡ some o) same t) ∙ u) in
      sym w ∙ (ap (λ (x : Flight R). x.owner) oy ∙ w')

  shared :
      {s : SingleFlight R}
      → IsFlying s
      → (c : ℕ) (call : Call R) (r : R) → get_elem? s.calls c ≡ some call
      → call.stage ≡ returned (some r)
      → (o : Flight R) × (get_elem? s.objects call.flight ≡ some o)
        × (o.key ≡ call.key)
        × (o.result ≡ some r)
  shared {s} inv c call r h p =
      let (o, t, k, hold) = inv.held c call h in
      (o, t, k, subst (λ x. Holds s.flights c call o x) p hold)

  result_of-object :
      (s : SingleFlight R) (call : Call R) (o : Flight R)
      → get_elem? s.objects call.flight ≡ some o
      → result_of call s ≡ o.result
  unfolding result_of
  result_of-object s call o p = ground arith

  progress :
      {s : SingleFlight R}
      → IsFlying s
      → (c : ℕ) (call : Call R) → get_elem? s.calls c ≡ some call
      → call.stage ≡ waiting
      → ((r : R) × (result_of call s ≡ some r))
        ⊎ (j : ℕ) × (v : Call R) × (get_elem? s.calls j ≡ some v)
          × (v.flight ≡ call.flight)
          × Unfinished v.stage
  progress {s} inv c call h p =
      let (o, t, k, hold) = inv.held c call h in
      elim (Option-cases o.result) [
        | inr (r, e) ↦ inl (r, result_of-object s call o t ∙ e)
        | inl e ↦ let (v, a, f, u) = inv.running call.flight o t e in inr (o.owner, v, a, f, u)
      ]

  -- An action changes no call but its own.
  act-calls :
      (c : ℕ) (call : Call R) (a : Action R) (st : Stage R) (s : SingleFlight R)
      → ((act c call a st s).calls ≡ s.calls)
        ⊎ ((v : Call R) × ((act c call a st s).calls ≡ set s.calls c v))
  unfolding act
  act-calls c call (fetched r) fetching s = elim (Option-cases (get_elem? s.objects call.flight)) [
    | inl e ↦ inl (unfold end_fetch in ground arith)
    | inr (o, e) ↦ inr (record call { stage = closing }, unfold end_fetch in ground arith)
  ]
  act-calls c call panics fetching s = inr (_, unfold set_stage in refl)
  act-calls c call deletes closing s = inr (_, unfold end_call in unfold set_stage in refl)
  act-calls c call served waiting s = elim (Option-cases (result_of call s)) [
    | inl e ↦ inl (unfold end_wait in ground arith)
    | inr (r, e) ↦ inr (record call { stage = returned (some r) }, unfold end_wait in ground arith)
  ]
  act-calls c call gives_up waiting s = inr (_, unfold set_stage in refl)
  act-calls c call _ _ s = inl refl

  act-panicked :
      (c : ℕ) (call : Call R) (a : Action R) (s : SingleFlight R) → act c call a panicked s ≡ s
  unfolding act
  act-panicked c call (fetched r) s = refl
  act-panicked c call _ s = refl

  step-keeps :
      (s : SingleFlight R) (e : Event R) (c : ℕ) (call : Call R)
      → get_elem? s.calls c ≡ some call
      → call.stage ≡ panicked
      → get_elem? (step s e).calls c ≡ some call
  unfolding step
  step-keeps s (enters k) c call at st = entered (lookup k s.flights)
    where
      entered : (f : Option ℕ) → get_elem? (enter_with k s f).calls c ≡ some call
      entered none = unfold enter_with in get_elem?-append s.calls _ c at
      entered (some f) = unfold enter_with in get_elem?-append s.calls _ c at
  step-keeps s (acts j a) c call at st = acted (get_elem? s.calls j) refl
    where
      behind :
          (v : Call R)
          → get_elem? s.calls j ≡ some v
          → get_elem? (act j v a v.stage s).calls c ≡ some call
      behind v e = elim (Bool-cases (c == j)) [
        | inl b ↦
            let same =
              some-injective _ _
                (sym (subst (λ i. get_elem? s.calls i ≡ some call) ((==_iff c j).0 b) at) ∙ e) in
            let q = sym (ap (λ (x : Call R). x.stage) same) ∙ st in
            ap (λ x. get_elem? (act j v a x s).calls c) q
            ∙ (ap (λ (x : SingleFlight R). get_elem? x.calls c) (act-panicked j v a s) ∙ at)
        | inr b ↦ elim (act-calls j v a v.stage s) [
          | inl u ↦ ap (λ x. get_elem? x c) u ∙ at
          | inr (w, u) ↦
              ap (λ x. get_elem? x c) u
              ∙ (get_elem?-set_ne s.calls j w c (λ z. absurd (ground arith)) ∙ at)
        ]
      ]

      acted :
          (o : Option (Call R))
          → get_elem? s.calls j ≡ o
          → get_elem?
              (let x : SingleFlight R = elim o [ none ↦ s | some v ↦ act j v a v.stage s ] in
                x.calls)
              c
            ≡ some call
      acted none e = at
      acted (some v) e = behind v e

  run-keeps :
      (es : List (Event R)) (s : SingleFlight R) (c : ℕ) (call : Call R)
      → get_elem? s.calls c ≡ some call
      → call.stage ≡ panicked
      → get_elem? (run s es).calls c ≡ some call
  unfolding run
  run-keeps [] s c call at st = at
  run-keeps (e ∷ es) s c call at st =
      run-keeps es (step s e) c call (step-keeps s e c call at st) st

  stuck :
      (s : SingleFlight R) (c : ℕ) (call : Call R)
      → IsFlying s
      → get_elem? s.calls c ≡ some call
      → call.stage ≡ panicked
      → (lookup call.key s.flights ≡ some call.flight)
        × ((j : ℕ) (v : Call R) (r : R)
            → get_elem? s.calls j ≡ some v
            → v.flight ≡ call.flight
            → v.stage ≢ returned (some r))
  stuck s c call inv at st =
      let (o, t, k, hold) = inv.held c call at in
      let ((w, l), n) = subst (λ x. Holds s.flights c call o x) st hold in
      (
        l,
        λ j v r h e q.
            let (y, u, _, m) = shared inv j v r h q in
            let oy =
              some-injective _ _ (sym (subst (λ i. get_elem? s.objects i ≡ some y) e u) ∙ t) in
            let z = sym m ∙ (ap (λ (x : Flight R). x.result) oy ∙ n) in absurd (cc),
      )

  -- At any time, whatever the calls did, at most one call of a key runs its fetch; a call that has
  -- returned a result has that of a finished fetch of its own key; and a call that waits either can
  -- return, since its flight has a result, or waits for a call of the same flight whose fetch still
  -- runs or has panicked.
  pub run-single_flight :
      (es : List (Event R))
      → let s = run new_single_flight es in
        ((c j : ℕ) (call v : Call R)
          → get_elem? s.calls c ≡ some call
          → get_elem? s.calls j ≡ some v
          → call.stage ≡ fetching
          → v.stage ≡ fetching
          → call.key ≡ v.key
          → c ≡ j)
        × ((c : ℕ) (call : Call R) (r : R)
            → get_elem? s.calls c ≡ some call
            → call.stage ≡ returned (some r)
            → (o : Flight R) × (get_elem? s.objects call.flight ≡ some o)
              × (o.key ≡ call.key)
              × (o.result ≡ some r))
        × ((c : ℕ) (call : Call R)
            → get_elem? s.calls c ≡ some call
            → call.stage ≡ waiting
            → ((r : R) × (result_of call s ≡ some r))
              ⊎ (j : ℕ) × (v : Call R) × (get_elem? s.calls j ≡ some v)
                × (v.flight ≡ call.flight)
                × Unfinished v.stage)
  run-single_flight es = (one inv, shared inv, progress inv)
    where
      inv : IsFlying (run new_single_flight es)
      inv = run-IsFlying es new_single_flight new-IsFlying

  -- Once a fetch has panicked, its call is never removed from the map: whatever happens later, every
  -- new call of the key waits for it, and no call of it ever returns a result.
  pub run-panicked :
      (s : SingleFlight R) (c : ℕ) (call : Call R) (es : List (Event R))
      → IsFlying s
      → get_elem? s.calls c ≡ some call
      → call.stage ≡ panicked
      → let s' = run s es in
        (lookup call.key s'.flights ≡ some call.flight)
        × ((j : ℕ) (v : Call R) (r : R)
            → get_elem? s'.calls j ≡ some v
            → v.flight ≡ call.flight
            → v.stage ≢ returned (some r))
  run-panicked s c call es inv at st =
      stuck (run s es) c call (run-IsFlying es s inv) (run-keeps es s c call at st) st
