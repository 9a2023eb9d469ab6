-- ===== src/Cache/SingleFlight/Freed.antt =====
-- The end of the call that has fetched keeps the invariant of the flights.
use drakkar.Prelude.{
  ℕ, ◌≡◌, sym, ◌∙◌, subst, ap, Option, some, List, inl, inr, arith, get_elem?, set,
  get_elem?-set_ne, set_cases, Bool-cases,
}
use drakkar.Prelude.Bytes.{Bytes, bytes_eq, bytes_eq_iff}
use drakkar.Prelude.Dict.{lookup, remove, lookup-remove}
use drakkar.Cache.SingleFlight.{
  Flight, closing, returned, Call, SingleFlight, set_stage, result_of, end_call,
}
use drakkar.Cache.SingleFlight.Invariant.{Holds, IsFlying, Holds-map, not_closing}
use mathlib.Core.Option.{some-injective}

lookup_removed :
    (k j : Bytes) (f : ℕ) (m : List (Bytes × ℕ))
    → lookup j (remove k m) ≡ some f
    → lookup j m ≡ some f
lookup_removed k j f m h =
    let e = sym (lookup-remove k j m) ∙ h in
    elim (Bool-cases (bytes_eq k j)) [ inl q ↦ absurd (ground arith) | inr q ↦ rw q at e ]

module _ {ℓ} {R : Type ℓ} where
  result_of-some :
      (s : SingleFlight R) (call : Call R) (o : Flight R)
      → get_elem? s.objects call.flight ≡ some o
      → result_of call s ≡ o.result
  unfolding result_of
  result_of-some s call o e = ground arith

  freed :
      (s : SingleFlight R) (c : ℕ) (call : Call R)
      → IsFlying s
      → get_elem? s.calls c ≡ some call
      → call.stage ≡ closing
      → (o : Flight R) → get_elem? s.objects call.flight ≡ some o
      → o.key ≡ call.key
      → o.owner ≡ c
      → lookup call.key s.flights ≡ some call.flight
      → (r : R) → o.result ≡ some r
      → (given : Option R) → given ≡ some r
      → IsFlying (record s {
        calls = set s.calls c (record call { stage = returned given });
        flights = remove call.key s.flights;
      })
  freed s c call inv at st o p k w l r n given g = record {
    held = λ j v h. elim (set_cases s.calls c (record call { stage = returned given }) j h) [
      | inl (e, q) ↦
          subst
            (λ x.
              (y : Flight R) × (get_elem? s.objects x.flight ≡ some y)
              × (y.key ≡ x.key)
              × Holds (remove call.key s.flights) j x y x.stage)
            (sym q)
            (
              o,
              p,
              k,
              subst (λ x. Holds (remove call.key s.flights) j call o (returned x)) (sym g) n,
            )
      | inr (d, q) ↦
          let (y, t, u, hold) = inv.held j v q in
          (
            y,
            t,
            u,
            Holds-map s.flights (remove call.key s.flights) j v y v.stage
                (λ (e, z). elim (Bool-cases (bytes_eq call.key v.key)) [
                  | inl b ↦
                      let same = some-injective _ _ (
                        sym z
                        ∙ (ap (λ x. lookup x s.flights) (sym ((bytes_eq_iff call.key v.key).0 b))
                            ∙ l)) in
                      let yo =
                        some-injective _ _
                          (sym (subst (λ i. get_elem? s.objects i ≡ some y) same t) ∙ p) in
                      absurd (d (sym e ∙ (ap (λ (x : Flight R). x.owner) yo ∙ w)))
                  | inr b ↦ rw (lookup-remove call.key v.key s.flights, b) z
                ])
                hold,
          )
    ];
    mapped = λ j f h. inv.mapped j f (lookup_removed call.key j f s.flights h);
    running = λ f y t m.
        let (v, a, e, u) = inv.running f y t m in
        (
          v,
          get_elem?-set_ne s.calls c (record call { stage = returned given }) y.owner
                (λ x.
                  let same =
                    some-injective _ _ (sym (subst (λ i. get_elem? s.calls i ≡ some v) x a) ∙ at) in
                  not_closing v.stage (ap (λ (z : Call R). z.stage) same ∙ st) u)
              ∙ a,
          e,
          u,
        );
  }

  -- The key of a closed flight is free again.
  pub end_call-IsFlying :
      (s : SingleFlight R) (c : ℕ) (call : Call R)
      → IsFlying s
      → get_elem? s.calls c ≡ some call
      → call.stage ≡ closing
      → IsFlying (end_call c call s)
  end_call-IsFlying s c call inv at st =
      let (o, p, k, hold) = inv.held c call at in
      let ((w, l), r, n) = subst (λ x. Holds s.flights c call o x) st hold in
      unfold end_call in
      unfold set_stage in
      freed s c call inv at st o p k w l r n (result_of call s) (result_of-some s call o p ∙ n)
