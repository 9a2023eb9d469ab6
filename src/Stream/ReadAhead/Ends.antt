-- ===== src/Stream/ReadAhead/Ends.antt =====
-- How the end of a window's goroutine changes its session, and when it does not.
use drakkar.Prelude.{
  ℕ, ◌≡◌, refl, ◌∙◌, ap, Bool, true, false, ◌&&◌, not, none, some, arith, get_elem?, ◌≢◌, ◌⊎◌, inl,
  inr, Bool-cases, ◌==◌, if◌then◌else◌,
}
use drakkar.Prelude.Int.{ℤ}
use drakkar.Prelude.Bytes.{Bytes, bytes_eq}
use drakkar.Prelude.Dict.{lookup, lookup-insert}
use drakkar.Stream.ReadAhead.{ReadAheadSession, closed, Window, ReadAheadManager, store}
use drakkar.Stream.ReadAhead.Schedule.{coalesced}
use drakkar.Stream.ReadAhead.System.{
  end_window, change_window, settled, is_current, settle_session, settle,
}
use drakkar.Stream.ReadAhead.Settled.{settle-closed}

change_window-sessions :
    (k : ℕ) (f : Window → Window) (m : ReadAheadManager)
    → (change_window k f m).sessions ≡ m.sessions
unfolding change_window
change_window-sessions k f m = ground arith

settle_session-stale :
    (w : Window) (b : Bool) (s : ReadAheadSession) (m : ReadAheadManager)
    → lookup w.session_id m.sessions ≡ some s
    → is_current s w ≡ false
    → settle_session w b m ≡ m
unfolding settle_session
settle_session-stale w b s m l c = ground arith

settle_session-current :
    (w : Window) (b : Bool) (s : ReadAheadSession) (m : ReadAheadManager)
    → lookup w.session_id m.sessions ≡ some s
    → is_current s w ≡ true
    → settle_session w b m ≡ store w.session_id (settled (w.fetch_failed && not b) s) m
unfolding settle_session
settle_session-current w b s m l c = ground arith

settled-coalesced :
    (s : ReadAheadSession) (failed : Bool) (offset : ℤ)
    → coalesced (settled failed s) offset ≡ (not failed && coalesced s offset)
unfolding coalesced
settled-coalesced s failed offset = ground arith

is_current-same :
    (s : ReadAheadSession) (w : Window)
    → is_current s w ≡ true
    → (s.ident ≡ w.ident) × (s.generation ≡ w.generation)
unfolding is_current
is_current-same s w c = (ground arith, ground arith)

is_current-other :
    (s : ReadAheadSession) (w : Window)
    → is_current s w ≡ false
    → (s.ident ≢ w.ident) ⊎ (s.generation ≢ w.generation)
unfolding is_current
is_current-other s w c = elim (Bool-cases (s.ident == w.ident)) [
  | inl e ↦ inr (λ g. ground arith)
  | inr e ↦ inl (λ i. ground arith)
]

-- When the goroutine of a window ends, there are two cases. Where the session is still the one that the
-- window was started for, and of the window's generation, it has no window to cancel any more, keeps
-- its generation, its position and its spans, and from then on serves the offsets that it served
-- before, unless a fetch failed and the window had not been cancelled before: then it serves none.
-- Every other session stays as it is. Where the session has been replaced or has got another
-- generation since, all sessions are left as they are.
pub settle_lem :
    (k : ℕ) (was_cancelled : Bool) (w : Window) (s : ReadAheadSession) (m : ReadAheadManager)
    → get_elem? m.windows k ≡ some w
    → w.stage ≡ closed was_cancelled
    → lookup w.session_id m.sessions ≡ some s
    → ((s.ident ≡ w.ident)
        × (s.generation ≡ w.generation)
        × (t : ReadAheadSession) × ((id : Bytes)
            → lookup id (settle k m).sessions
              ≡ (if bytes_eq w.session_id id then some t else lookup id m.sessions))
        × (t.cancel ≡ none)
        × (t.generation ≡ s.generation)
        × (t.current_offset ≡ s.current_offset)
        × (t.spans ≡ s.spans)
        × ((offset : ℤ)
            → coalesced t offset
              ≡ (not (w.fetch_failed && not was_cancelled) && coalesced s offset)))
      ⊎ (((s.ident ≢ w.ident) ⊎ (s.generation ≢ w.generation))
          × ((settle k m).sessions ≡ m.sessions))
settle_lem k b w s m h st l =
    let u : (settle k m).sessions ≡ (settle_session w b m).sessions =
      ap (λ (x : ReadAheadManager). x.sessions) (settle-closed k m w b h st)
      ∙ change_window-sessions k end_window (settle_session w b m) in
    elim (Bool-cases (is_current s w)) [
      | inl c ↦
          let (i, g) = is_current-same s w c in
          let t = settled (w.fetch_failed && not b) s in
          inl (
            i,
            g,
            t,
            λ id.
                ap (lookup id) (
                  u
                  ∙ ap (λ (x : ReadAheadManager). x.sessions) (settle_session-current w b s m l c))
                ∙ found t id,
            refl,
            refl,
            refl,
            refl,
            settled-coalesced s (w.fetch_failed && not b),
          )
      | inr c ↦ inr (
        is_current-other s w c,
        u ∙ ap (λ (x : ReadAheadManager). x.sessions) (settle_session-stale w b s m l c),
      )
    ]
  where
    found :
        (t : ReadAheadSession) (id : Bytes)
        → lookup id (store w.session_id t m).sessions
          ≡ (if bytes_eq w.session_id id then some t else lookup id m.sessions)
    found t id = unfold store in lookup-insert w.session_id id t m.sessions
