-- ===== src/Cache/SingleFlight/Invariant.antt =====
-- The invariant of the flights and the calls: a call that runs or closes a flight owns it, and the map
-- leads from its key to it; a flight without a result is being fetched, or its fetch has panicked.
use drakkar.Prelude.{
  ℕ, ◌≡◌, ◌≢◌, sym, ◌∙◌, subst, ap, none, some, List, ◌⊎◌, inl, inr, arith, ◌==◌, ==_iff, get_elem?,
  set, get_elem?-set_self, get_elem?-set_ne, set_cases, Bool-cases,
}
use drakkar.Prelude.Bytes.{Bytes}
use drakkar.Prelude.Dict.{lookup}
use drakkar.Cache.SingleFlight.{
  Flight, Stage, fetching, closing, waiting, panicked, returned, Call, SingleFlight, set_stage,
}
use mathlib.Core.Option.{some-injective}

module _ {ℓ} {R : Type ℓ} where
  abbrev pub Owned : List (Bytes × ℕ) → ℕ → Call R → Flight R → Type 0
  Owned m c call o = (o.owner ≡ c) × (lookup call.key m ≡ some call.flight)

  -- What holds of a call's flight at its stage.
  abbrev pub Holds : List (Bytes × ℕ) → ℕ → Call R → Flight R → Stage R → Type ℓ
  Holds m c call o fetching = Owned m c call o × (o.result ≡ none)
  Holds m c call o panicked = Owned m c call o × (o.result ≡ none)
  Holds m c call o closing = Owned m c call o × (r : R) × (o.result ≡ some r)
  Holds m c call o waiting = Unit
  Holds m c call o (returned none) = Unit
  Holds m c call o (returned (some r)) = o.result ≡ some r

  abbrev pub Unfinished : Stage R → Type ℓ
  Unfinished st = (st ≡ fetching) ⊎ (st ≡ panicked)

  pub record IsFlying (s : SingleFlight R) : Type ℓ where
    pub held :
        (c : ℕ) (call : Call R)
        → get_elem? s.calls c ≡ some call
        → (o : Flight R) × (get_elem? s.objects call.flight ≡ some o)
          × (o.key ≡ call.key)
          × Holds s.flights c call o call.stage
    pub mapped :
        (k : Bytes) (f : ℕ)
        → lookup k s.flights ≡ some f
        → (o : Flight R) × (get_elem? s.objects f ≡ some o) × (o.key ≡ k)
    pub running :
        (f : ℕ) (o : Flight R)
        → get_elem? s.objects f ≡ some o
        → o.result ≡ none
        → (call : Call R) × (get_elem? s.calls o.owner ≡ some call)
          × (call.flight ≡ f)
          × Unfinished call.stage

  -- Another map may serve as well.
  pub Holds-map :
      (m m' : List (Bytes × ℕ)) (c : ℕ) (call : Call R) (o : Flight R) (st : Stage R)
      → (Owned m c call o → lookup call.key m' ≡ some call.flight)
      → Holds m c call o st
      → Holds m' c call o st
  Holds-map m m' c call o fetching f ((e, l), h) = ((e, f (e, l)), h)
  Holds-map m m' c call o panicked f ((e, l), h) = ((e, f (e, l)), h)
  Holds-map m m' c call o closing f ((e, l), r, h) = ((e, f (e, l)), r, h)
  Holds-map m m' c call o waiting f h = tt
  Holds-map m m' c call o (returned none) f h = tt
  Holds-map m m' c call o (returned (some r)) f h = h

  -- A result that another call's fetch gives.
  pub Holds-resolved :
      (m : List (Bytes × ℕ)) (c : ℕ) (call : Call R) (o : Flight R) (r : R) (st : Stage R)
      → o.result ≡ none
      → o.owner ≢ c
      → Holds m c call o st
      → Holds m c call (record o { result = some r }) st
  Holds-resolved m c call o r fetching n d ((e, l), h) = absurd (d e)
  Holds-resolved m c call o r panicked n d ((e, l), h) = absurd (d e)
  Holds-resolved m c call o r closing n d ((e, l), q, h) = absurd (d e)
  Holds-resolved m c call o r waiting n d h = tt
  Holds-resolved m c call o r (returned none) n d h = tt
  Holds-resolved m c call o r (returned (some q)) n d h = absurd (cc)

  pub not_closing : (st : Stage R) → st ≡ closing → Unfinished st → ⊥
  not_closing st e (inl q) = absurd (cc)
  not_closing st e (inr q) = absurd (cc)

  -- A call goes to its next stage, and nothing else changes.
  pub set_stage-IsFlying :
      (s : SingleFlight R) (c : ℕ) (call : Call R) (st : Stage R)
      → IsFlying s
      → get_elem? s.calls c ≡ some call
      → ((o : Flight R)
          → get_elem? s.objects call.flight ≡ some o
          → Holds s.flights c call o call.stage
          → Holds s.flights c call o st)
      → (Unfinished call.stage → Unfinished st)
      → IsFlying (set_stage c call st s)
  unfolding set_stage
  set_stage-IsFlying s c call st inv at next stays = record {
    held = λ j v h. elim (set_cases s.calls c (record call { stage = st }) j h) [
      | inl (e, q) ↦
          let (o, p, k, hold) = inv.held c call at in
          subst
            (λ x.
              (o : Flight R) × (get_elem? s.objects x.flight ≡ some o)
              × (o.key ≡ x.key)
              × Holds s.flights j x o x.stage)
            (sym q) (o, p, k, subst (λ i. Holds s.flights i call o st) (sym e) (next o p hold))
      | inr (_, q) ↦ inv.held j v q
    ];
    mapped = inv.mapped;
    running = λ f o p n.
        let (v, q, e, u) = inv.running f o p n in
        elim (Bool-cases (o.owner == c)) [
          | inl b ↦
              let z = (==_iff o.owner c).0 b in
              let w = some-injective _ _ (sym at ∙ subst (λ i. get_elem? s.calls i ≡ some v) z q) in
              (
                record call { stage = st },
                ap (get_elem? (set s.calls c (record call { stage = st }))) z
                    ∙ get_elem?-set_self s.calls c (record call { stage = st }) at,
                ap (λ (x : Call R). x.flight) w ∙ e,
                stays (subst (λ x. Unfinished x) (sym (ap (λ (x : Call R). x.stage) w)) u),
              )
          | inr b ↦ (
            v,
            get_elem?-set_ne s.calls c (record call { stage = st }) o.owner
                  (λ z. absurd (ground arith))
                ∙ q,
            e,
            u,
          )
        ];
  }
