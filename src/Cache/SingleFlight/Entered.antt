-- ===== src/Cache/SingleFlight/Entered.antt =====
-- A new call keeps the invariant of the flights.
use drakkar.Prelude.{
  ℕ, ◌≡◌, refl, sym, ◌∙◌, subst, ap, none, some, List, [], ◌∷◌, ◌++◌, ◌⊎◌, inl, inr, length,
  get_elem?, append_cases, get_elem?-last, get_elem?-append, Bool-cases,
}
use drakkar.Prelude.Bytes.{Bytes, bytes_eq, bytes_eq_iff, bytes_eq_refl}
use drakkar.Prelude.Dict.{lookup, insert, lookup-insert}
use drakkar.Cache.SingleFlight.{Flight, fetching, SingleFlight, enter_with}
use drakkar.Cache.SingleFlight.Invariant.{Holds, IsFlying, Holds-map}
use mathlib.Core.Option.{some-injective}

module _ (k : Bytes) (f : ℕ) where
  lookup-own : (m : List (Bytes × ℕ)) → lookup k (insert k f m) ≡ some f
  lookup-own m = rw (lookup-insert k k f m, bytes_eq_refl k) refl

  inserted :
      (j : Bytes) (g : ℕ) (m : List (Bytes × ℕ))
      → lookup j (insert k f m) ≡ some g
      → ((k ≡ j) × (f ≡ g)) ⊎ (lookup j m ≡ some g)
  inserted j g m h =
      let e = sym (lookup-insert k j f m) ∙ h in
      elim (Bool-cases (bytes_eq k j)) [
        | inl q ↦ inl ((bytes_eq_iff k j).0 q, some-injective _ _ (rw q at e))
        | inr q ↦ inr (rw q at e)
      ]

  -- An insertion under a new key leaves what was found before.
  lookup-kept :
      (j : Bytes) (m : List (Bytes × ℕ)) {g : ℕ}
      → lookup k m ≡ none
      → lookup j m ≡ some g
      → lookup j (insert k f m) ≡ some g
  lookup-kept j m {g} n h = elim (Bool-cases (bytes_eq k j)) [
    | inl q ↦ let z = sym n ∙ (ap (λ x. lookup x m) ((bytes_eq_iff k j).0 q) ∙ h) in absurd (cc)
    | inr q ↦ rw (lookup-insert k j f m, q) h
  ]

module _ {ℓ} {R : Type ℓ} where
  -- A flight of a key that has none.
  pub enter_new-IsFlying :
      (s : SingleFlight R) (k : Bytes)
      → IsFlying s
      → lookup k s.flights ≡ none
      → IsFlying (enter_with k s none)
  unfolding enter_with
  enter_new-IsFlying s k inv free = record {
    held = λ j v h. elim (append_cases s.calls _ j h) [
      | inl (q, _) ↦
          let (y, t, u, hold) = inv.held j v q in
          (
            y,
            get_elem?-append s.objects _ v.flight t,
            u,
            Holds-map s.flights (insert k (length s.objects) s.flights) j v y v.stage
                (λ (e, l). lookup-kept k (length s.objects) v.key s.flights free l) hold,
          )
      | inr (e, q) ↦
          subst
            (λ x.
              (y : Flight R) × (get_elem?
                  (s.objects ++ record { key = k; owner = length s.calls; result = none } ∷ [])
                  x.flight
                ≡ some y)
              × (y.key ≡ x.key)
              × Holds (insert k (length s.objects) s.flights) j x y x.stage)
            (sym q)
            (
              record { key = k; owner = length s.calls; result = none },
              get_elem?-last s.objects _,
              refl,
              ((sym e, lookup-own k (length s.objects) s.flights), refl),
            )
    ];
    mapped = λ j f h. elim (inserted k (length s.objects) j f s.flights h) [
      | inl (e, q) ↦ (
        record { key = k; owner = length s.calls; result = none },
        ap (get_elem? (s.objects ++ record { key = k; owner = length s.calls; result = none } ∷ []))
              (sym q)
            ∙ get_elem?-last s.objects _,
        e,
      )
      | inr q ↦ let (y, t, u) = inv.mapped j f q in (y, get_elem?-append s.objects _ f t, u)
    ];
    running = λ f y t n. elim (append_cases s.objects _ f t) [
      | inl (q, _) ↦
          let (v, a, e, u) = inv.running f y q n in (v, get_elem?-append s.calls _ y.owner a, e, u)
      | inr (e, q) ↦ (
        record { key = k; flight = length s.objects; stage = fetching },
        ap
              (get_elem?
                (s.calls ++ record { key = k; flight = length s.objects; stage = fetching } ∷ []))
              (ap (λ (x : Flight R). x.owner) q)
            ∙ get_elem?-last s.calls _,
        sym e,
        inl refl,
      )
    ];
  }

  -- A call that waits for a flight of its key.
  pub enter_waiting-IsFlying :
      (s : SingleFlight R) (k : Bytes) (f : ℕ)
      → IsFlying s
      → lookup k s.flights ≡ some f
      → IsFlying (enter_with k s (some f))
  unfolding enter_with
  enter_waiting-IsFlying s k f inv at = record {
    held = λ j v h. elim (append_cases s.calls _ j h) [
      | inl (q, _) ↦ inv.held j v q
      | inr (e, q) ↦
          let (y, t, u) = inv.mapped k f at in
          subst
            (λ x.
              (y : Flight R) × (get_elem? s.objects x.flight ≡ some y)
              × (y.key ≡ x.key)
              × Holds s.flights j x y x.stage)
            (sym q) (y, t, u, tt)
    ];
    mapped = inv.mapped;
    running = λ g y t n.
        let (v, a, e, u) = inv.running g y t n in (v, get_elem?-append s.calls _ y.owner a, e, u);
  }
