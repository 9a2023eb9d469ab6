-- ===== src/Stream/ReadAhead/Windows.antt =====
-- What the manager's calls do to the list of windows: a context is cancelled, and nothing else of a
-- window that identifies it changes.
use drakkar.Prelude.{
  ℕ, zero, suc, ◌≡◌, refl, true, false, some, List, [], ◌∷◌, ◌⊎◌, arith, get_elem?, set,
}
use drakkar.Stream.ReadAhead.{fetching, Window, cancel_at}

-- The goroutine of the window has left its fetches only after it cancelled its context.
abbrev pub ClosedIsCancelled : Window → Type 0
ClosedIsCancelled w = (w.stage ≡ fetching) ⊎ (w.cancelled ≡ true)

-- The same window later: a cancelled context stays so.
abbrev pub Later : Window → Window → Type 0
Later w w' =
    (w'.session_id ≡ w.session_id)
    × (w'.ident ≡ w.ident)
    × (w'.generation ≡ w.generation)
    × (w'.cancelled ≡ false → w.cancelled ≡ false)
    × (ClosedIsCancelled w → ClosedIsCancelled w')

abbrev pub Evolves : List Window → List Window → Type 0
Evolves ws ws' =
    (j : ℕ) (w' : Window)
    → get_elem? ws' j ≡ some w'
    → (w : Window) × (get_elem? ws j ≡ some w) × Later w w'

pub Later-refl : (w : Window) → Later w w
Later-refl w = (refl, refl, refl, λ h. h, λ h. h)

pub Evolves-refl : (ws : List Window) → Evolves ws ws
Evolves-refl ws j w h = (w, h, Later-refl w)

pub set-Evolves :
    (ws : List Window) (k : ℕ) (w w' : Window)
    → get_elem? ws k ≡ some w
    → Later w w'
    → Evolves ws (set ws k w')
set-Evolves [] k w w' e l j v h = cc
set-Evolves (x ∷ ws) zero w w' e l zero v h = (x, refl, ground arith)
set-Evolves (x ∷ ws) zero w w' e l (suc j) v h = (v, h, Later-refl v)
set-Evolves (x ∷ ws) (suc k) w w' e l zero v h = (x, refl, ground arith)
set-Evolves (x ∷ ws) (suc k) w w' e l (suc j) v h = set-Evolves ws k w w' e l j v h

pub cancel_at-Evolves : (k : ℕ) (ws : List Window) → Evolves ws (cancel_at k ws)
unfolding cancel_at
cancel_at-Evolves k [] j v h = cc
cancel_at-Evolves zero (x ∷ ws) zero v h = (x, refl, ground arith)
cancel_at-Evolves zero (x ∷ ws) (suc j) v h = (v, h, Later-refl v)
cancel_at-Evolves (suc k) (x ∷ ws) zero v h = (x, refl, ground arith)
cancel_at-Evolves (suc k) (x ∷ ws) (suc j) v h = cancel_at-Evolves k ws j v h

-- The cancelled window itself.
pub cancel_at-cancelled :
    (k : ℕ) (ws : List Window) {w : Window}
    → get_elem? (cancel_at k ws) k ≡ some w
    → w.cancelled ≡ true
unfolding cancel_at
cancel_at-cancelled k [] h = cc
cancel_at-cancelled zero (x ∷ ws) h = ground arith
cancel_at-cancelled (suc k) (x ∷ ws) h = cancel_at-cancelled k ws h
