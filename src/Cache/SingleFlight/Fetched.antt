-- ===== src/Cache/SingleFlight/Fetched.antt =====
-- The end of a fetch keeps the invariant of the flights.
use drakkar.Prelude.{
  ℕ, ◌≡◌, refl, sym, ◌∙◌, subst, ap, none, some, inl, inr, arith, ◌==◌, ==_iff, get_elem?, set,
  get_elem?-set_self, get_elem?-set_ne, set_cases, Bool-cases,
}
use drakkar.Prelude.Dict.{lookup}
use drakkar.Cache.SingleFlight.{Flight, fetching, closing, Call, SingleFlight, end_fetch}
use drakkar.Cache.SingleFlight.Invariant.{Holds, IsFlying, Holds-resolved}
use mathlib.Core.Option.{some-injective}

module _ {ℓ} {R : Type ℓ} where
  end_fetch-some :
      (s : SingleFlight R) (c : ℕ) (call : Call R) (r : R) {o : Flight R}
      → get_elem? s.objects call.flight ≡ some o
      → end_fetch c call r s ≡ record s {
        objects = set s.objects call.flight (record o { result = some r });
        calls = set s.calls c (record call { stage = closing });
      }
  unfolding end_fetch
  end_fetch-some s c call r e = ground arith

  pub end_fetch-IsFlying :
      (s : SingleFlight R) (c : ℕ) (call : Call R) (r : R)
      → IsFlying s
      → get_elem? s.calls c ≡ some call
      → call.stage ≡ fetching
      → IsFlying (end_fetch c call r s)
  end_fetch-IsFlying s c call r inv at st =
      let (o, p, k, hold) = inv.held c call at in
      let ((w, l), n) = subst (λ x. Holds s.flights c call o x) st hold in
      subst IsFlying (sym (end_fetch-some s c call r p)) (resolved o p k w l n)
    where
      resolved :
          (o : Flight R)
          → get_elem? s.objects call.flight ≡ some o
          → o.key ≡ call.key
          → o.owner ≡ c
          → lookup call.key s.flights ≡ some call.flight
          → o.result ≡ none
          → IsFlying (record s {
            objects = set s.objects call.flight (record o { result = some r });
            calls = set s.calls c (record call { stage = closing });
          })
      resolved o p k w l n = record {
        held = λ j v h. elim (set_cases s.calls c (record call { stage = closing }) j h) [
          | inl (e, q) ↦
              subst
                (λ x.
                  (y : Flight R) × (get_elem?
                      (set s.objects call.flight (record o { result = some r })) x.flight
                    ≡ some y)
                  × (y.key ≡ x.key)
                  × Holds s.flights j x y x.stage)
                (sym q)
                (
                  record o { result = some r },
                  get_elem?-set_self s.objects call.flight (record o { result = some r }) p,
                  k,
                  ((w ∙ sym e, l), r, refl),
                )
          | inr (d, q) ↦
              let (y, t, u, hold) = inv.held j v q in
              elim (Bool-cases (v.flight == call.flight)) [
                | inl b ↦
                    let same = (==_iff v.flight call.flight).0 b in
                    let z =
                      some-injective _ _
                        (sym (subst (λ i. get_elem? s.objects i ≡ some y) same t) ∙ p) in
                    (
                      record o { result = some r },
                      ap (get_elem? (set s.objects call.flight (record o { result = some r }))) same
                          ∙ get_elem?-set_self s.objects call.flight (record o { result = some r })
                              p,
                      ap (λ (x : Flight R). x.key) (sym z) ∙ u,
                      Holds-resolved s.flights j v o r v.stage n (λ x. d (sym x ∙ w))
                          (subst (λ x. Holds s.flights j v x v.stage) z hold),
                    )
                | inr b ↦ (
                  y,
                  get_elem?-set_ne s.objects call.flight (record o { result = some r }) v.flight
                        (λ z. absurd (ground arith))
                      ∙ t,
                  u,
                  hold,
                )
              ]
        ];
        mapped = λ j f h.
            let (y, t, u) = inv.mapped j f h in
            elim (Bool-cases (f == call.flight)) [
              | inl b ↦
                  let same = (==_iff f call.flight).0 b in
                  let z =
                    some-injective _ _
                      (sym (subst (λ i. get_elem? s.objects i ≡ some y) same t) ∙ p) in
                  (
                    record o { result = some r },
                    ap (get_elem? (set s.objects call.flight (record o { result = some r }))) same
                        ∙ get_elem?-set_self s.objects call.flight (record o { result = some r }) p,
                    ap (λ (x : Flight R). x.key) (sym z) ∙ u,
                  )
              | inr b ↦ (
                y,
                get_elem?-set_ne s.objects call.flight (record o { result = some r }) f
                      (λ z. absurd (ground arith))
                    ∙ t,
                u,
              )
            ];
        running = λ f y t m.
            elim (set_cases s.objects call.flight (record o { result = some r }) f t) [
              | inl (e, q) ↦ let z = sym (ap (λ (x : Flight R). x.result) q) ∙ m in absurd (cc)
              | inr (d, q) ↦
                  let (v, a, e, u) = inv.running f y q m in
                  (
                    v,
                    get_elem?-set_ne s.calls c (record call { stage = closing }) y.owner
                          (λ x. d (
                            sym e
                            ∙ ap (λ (i : Call R). i.flight)
                                (some-injective _ _
                                  (sym (subst (λ i. get_elem? s.calls i ≡ some v) x a) ∙ at))))
                        ∙ a,
                    e,
                    u,
                  )
            ];
      }
