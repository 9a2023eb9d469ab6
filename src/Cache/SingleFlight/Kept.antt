-- ===== src/Cache/SingleFlight/Kept.antt =====
-- Every event keeps the invariant of the flights.
use drakkar.Prelude.{
  ℕ, ◌≡◌, refl, sym, ◌∙◌, subst, none, some, List, [], ◌∷◌, inl, inr, arith, get_elem?,
  Option-cases,
}
use drakkar.Prelude.Dict.{lookup}
use drakkar.Cache.SingleFlight.{
  Flight, Stage, fetching, closing, waiting, panicked, returned, Call, SingleFlight,
  new_single_flight, Action, fetched, deletes, panics, served, gives_up, Event, enters, acts,
  enter_with, set_stage, result_of, end_wait, act, step, run,
}
use drakkar.Cache.SingleFlight.Invariant.{Holds, Unfinished, IsFlying, set_stage-IsFlying}
use drakkar.Cache.SingleFlight.Fetched.{end_fetch-IsFlying}
use drakkar.Cache.SingleFlight.Freed.{end_call-IsFlying}
use drakkar.Cache.SingleFlight.Entered.{enter_new-IsFlying, enter_waiting-IsFlying}

module _ {ℓ} {R : Type ℓ} where
  unwaited : (st : Stage R) → st ≡ waiting → Unfinished st → ⊥
  unwaited st e (inl q) = absurd (cc)
  unwaited st e (inr q) = absurd (cc)

  end_wait-IsFlying :
      (s : SingleFlight R) (c : ℕ) (call : Call R)
      → IsFlying s
      → get_elem? s.calls c ≡ some call
      → call.stage ≡ waiting
      → IsFlying (end_wait c call s)
  end_wait-IsFlying s c call inv at st = elim (Option-cases (result_of call s)) [
    | inl e ↦
        let u : end_wait c call s ≡ s = unfold end_wait in ground arith in
        subst IsFlying (sym u) inv
    | inr (r, e) ↦
        let u : end_wait c call s ≡ set_stage c call (returned (some r)) s =
          unfold end_wait in ground arith in
        subst IsFlying (sym u) (
          set_stage-IsFlying s c call (returned (some r)) inv at (λ o p _. sym (given o p) ∙ e)
            (λ x. absurd (unwaited call.stage st x)))
  ]
    where
      given :
          (o : Flight R) → get_elem? s.objects call.flight ≡ some o → result_of call s ≡ o.result
      given o p = unfold result_of in ground arith

  module _ (s : SingleFlight R) (c : ℕ) (call : Call R) (inv : IsFlying s)
      (at : get_elem? s.calls c ≡ some call) where
    panic-IsFlying : call.stage ≡ fetching → IsFlying (set_stage c call panicked s)
    panic-IsFlying q =
        set_stage-IsFlying s c call panicked inv at
          (λ o _ h. subst (λ x. Holds s.flights c call o x) q h) (λ _. inr refl)

    leave-IsFlying : call.stage ≡ waiting → IsFlying (set_stage c call (returned none) s)
    leave-IsFlying q =
        set_stage-IsFlying s c call (returned none) inv at (λ o _ h. tt)
          (λ x. absurd (unwaited call.stage q x))

    act-IsFlying : (a : Action R) (st : Stage R) → call.stage ≡ st → IsFlying (act c call a st s)
    unfolding act
    act-IsFlying (fetched r) fetching q = end_fetch-IsFlying s c call r inv at q
    act-IsFlying panics fetching q = panic-IsFlying q
    act-IsFlying deletes closing q = end_call-IsFlying s c call inv at q
    act-IsFlying served waiting q = end_wait-IsFlying s c call inv at q
    act-IsFlying gives_up waiting q = leave-IsFlying q
    act-IsFlying _ _ q = inv

  step-IsFlying : (s : SingleFlight R) (e : Event R) → IsFlying s → IsFlying (step s e)
  step-IsFlying s (enters k) inv = elim (Option-cases (lookup k s.flights)) [
    | inl e ↦
        unfold step in
        subst (λ x. IsFlying (enter_with k s x)) (sym e) (enter_new-IsFlying s k inv e)
    | inr (f, e) ↦
        unfold step in
        subst (λ x. IsFlying (enter_with k s x)) (sym e) (enter_waiting-IsFlying s k f inv e)
  ]
  step-IsFlying s (acts c a) inv = elim (Option-cases (get_elem? s.calls c)) [
    | inl e ↦ subst IsFlying (sym (idle e)) inv
    | inr (call, e) ↦
        subst IsFlying (sym (active call e)) (act-IsFlying s c call inv e a call.stage refl)
  ]
    where
      idle : get_elem? s.calls c ≡ none → step s (acts c a) ≡ s
      idle e = unfold step in ground arith

      active :
          (call : Call R)
          → get_elem? s.calls c ≡ some call
          → step s (acts c a) ≡ act c call a call.stage s
      active call e = unfold step in ground arith

  pub run-IsFlying : (es : List (Event R)) (s : SingleFlight R) → IsFlying s → IsFlying (run s es)
  unfolding run
  run-IsFlying [] s inv = inv
  run-IsFlying (e ∷ es) s inv = run-IsFlying es (step s e) (step-IsFlying s e inv)

  pub new-IsFlying : IsFlying (new_single_flight {R = R})
  unfolding new_single_flight lookup
  new-IsFlying = record {
    held = λ c call h. absurd (cc);
    mapped = λ k f h. absurd (cc);
    running = λ f o h. absurd (cc);
  }
