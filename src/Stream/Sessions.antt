-- ===== src/Stream/Sessions.antt =====
-- The session calls of internal/stream/direct_reader.go: a reader that has a read-ahead manager, as one
-- call of it follows another. A fetcher that takes no priority is `none`.
use drakkar.Prelude.{
  ℕ, ◌+◌, ◌≡◌, refl, sym, ◌∙◌, subst, ap, false, Option, none, some, [], arith, length, take, ◌==◌,
  if◌then◌else◌,
}
use drakkar.Prelude.Int.{ℤ, pos, ◌+ℤ◌, ◌-ℤ◌, leb_ℤ, min_ℤ, ◌≤ℤ◌, ◌<ℤ◌, IsInt64}
use drakkar.Prelude.Bytes.{Bytes, bytes_eq, bytes_eq_refl}
use drakkar.Prelude.Dict.{lookup, lookup-insert}
use drakkar.Stream.RangeMap.Layout.{Layout, slices}
use drakkar.Stream.DirectReader.{DirectNzbReader}
use drakkar.Stream.ReadAhead.{
  high_bitrate_file_size_threshold, ReadAheadSession, ReadAheadManager, cancel_window,
  cancel_existing, store, register, new_session, first_meta, with_session, note_offset,
}
use drakkar.Stream.ReadAhead.Schedule.{
  coerce_limit, adaptive_article_limit, coalesced, notify_read, schedule,
}
use drakkar.Stream.ReadAhead.Plan.{wanted, limit_of}
use drakkar.Stream.ReadAhead.Start.{IsStarted, schedule_starts}

unfoldable pub start_session :
    DirectNzbReader → Bytes → Option ℕ → ℕ → ReadAheadManager → ReadAheadManager
unfolding register
start_session r id fetcher now m = register id r.spans fetcher none now m

cancel_existing-settings :
    (id : Bytes) (m : ReadAheadManager)
    → ((cancel_existing id m).window_bytes ≡ m.window_bytes)
      × ((cancel_existing id m).article_limit ≡ m.article_limit)
unfolding cancel_existing cancel_window
cancel_existing-settings id m = ground arith

-- A new session, once the offset of its first read is noted: it has no window yet.
pub record IsOpened (r : DirectNzbReader) (id : Bytes) (fetcher : ℕ) (s : ReadAheadSession)
    (before after : ReadAheadManager) : Type 0 where
  pub registered : lookup id after.sessions ≡ some s
  pub spans : s.spans ≡ r.spans
  pub source : s.fetcher ≡ fetcher
  pub small : s.meta.file_size_bytes ≡ pos 0
  pub idle : s.window_valid ≡ false
  pub window : after.window_bytes ≡ before.window_bytes
  pub limit : after.article_limit ≡ before.article_limit

opened :
    (r : DirectNzbReader) (id : Bytes) (fetcher now : ℕ) (offset : ℤ) (m : ReadAheadManager)
    → bytes_eq id [] ≡ false
    → pos 0 ≤ℤ offset
    → (s : ReadAheadSession) × IsOpened r id fetcher s m
        (note_offset id offset (start_session r id (some fetcher) now m))
opened r id fetcher now offset m b at =
    let m' = cancel_existing id m in
    let s = new_session m'.allocated r.spans fetcher (first_meta none now) in
    let t = record s { current_offset = offset } in
    let grown = record m' { allocated = m'.allocated + 1 } in
    let u : start_session r id (some fetcher) now m ≡ store id s grown = started in
    let v : note_offset id offset (store id s grown) ≡ store id t (store id s grown) =
      noted s grown (found s grown) in
    let (w, l) = cancel_existing-settings id m in
    (
      t,
      subst (IsOpened r id fetcher t m) (sym (ap (note_offset id offset) u ∙ v)) (record {
        registered = found t (store id s grown);
        spans = unfold new_session in refl;
        source = unfold new_session in refl;
        small = unfold new_session in unfold first_meta in refl;
        idle = unfold new_session in refl;
        window = unfold store in w;
        limit = unfold store in l;
      }),
    )
  where
    started :
        start_session r id (some fetcher) now m
        ≡ store id
            (new_session (cancel_existing id m).allocated r.spans fetcher (first_meta none now))
            (record (cancel_existing id m) { allocated = (cancel_existing id m).allocated + 1 })
    started = unfold start_session in unfold register in ground arith

    found :
        (x : ReadAheadSession) (n : ReadAheadManager) → lookup id (store id x n).sessions ≡ some x
    found x n = unfold store in rw (lookup-insert id id x n.sessions, bytes_eq_refl id) refl

    noted :
        (x : ReadAheadSession) (n : ReadAheadManager)
        → lookup id (store id x n).sessions ≡ some x
        → note_offset id offset (store id x n)
          ≡ store id (record x { current_offset = offset }) (store id x n)
    noted x n e = unfold note_offset in unfold with_session in ground arith

-- How many segments are buffered, by the number that is configured: 40 where it is 0.
abbrev pub buffered : ℕ → ℕ
buffered configured = if configured == 0 then 40 else configured

small_limit :
    (s : ReadAheadSession) (m : ReadAheadManager) (offset end : ℤ)
    → s.meta.file_size_bytes ≡ pos 0
    → limit_of m s offset end ≡ buffered m.article_limit
small_limit s m offset end e =
    ap
      (λ z.
        adaptive_article_limit s.spans offset (wanted m offset end) m.article_limit
          (leb_ℤ high_bitrate_file_size_threshold z))
      e
    ∙ (unfold adaptive_article_limit in unfold coerce_limit in refl)

-- A reader whose spans are valid opens a session, and reports its first read, at an offset in the file:
-- the session has one window from that offset on, which fetches with the reader's fetcher the segments
-- of the reader that overlap the bytes ahead, cut to them and in order, up to the window's length, the
-- end of the file, and the configured number of segments, which is 40 where it is given as 0.
pub notify_read-start_session :
    (r : DirectNzbReader) (id : Bytes) (fetcher now : ℕ) (m : ReadAheadManager) (offset end : ℤ)
    → bytes_eq id [] ≡ false
    → Layout (pos 0) r.spans end
    → IsInt64 end
    → pos 0 <ℤ m.window_bytes
    → IsInt64 m.window_bytes
    → pos 0 ≤ℤ offset
    → offset <ℤ end
    → (s : ReadAheadSession) × (k : ℕ) × (s.fetcher ≡ fetcher)
      × IsStarted id s offset end
          (take (buffered m.article_limit) (slices r.spans offset (offset +ℤ wanted m offset end)))
          k
          (notify_read id offset (start_session r id (some fetcher) now m))
notify_read-start_session r id fetcher now m offset end b lay fits window wide at inside =
    let m2 = note_offset id offset (start_session r id (some fetcher) now m) in
    let (s, o) = opened r id fetcher now offset m b at in
    let st =
      schedule_starts id s m2 offset end b o.registered
        (subst (λ x. Layout (pos 0) x end) (sym o.spans) lay) fits
        (subst (λ x. pos 0 <ℤ x) (sym o.window) window) (subst IsInt64 (sym o.window) wide) at
        inside (unserved s o.idle) in
    let same : take (limit_of m2 s offset end)
          (slices s.spans offset (offset +ℤ wanted m2 offset end))
        ≡ take (buffered m.article_limit) (slices r.spans offset (offset +ℤ wanted m offset end)) =
      ap (λ n. take n (slices s.spans offset (offset +ℤ wanted m2 offset end)))
        (small_limit s m2 offset end o.small ∙ ap buffered o.limit)
      ∙ (ap
            (λ x.
              take (buffered m.article_limit) (slices x offset (offset +ℤ wanted m2 offset end)))
            o.spans
          ∙ ap
              (λ x.
                take (buffered m.article_limit)
                  (slices r.spans offset (offset +ℤ min_ℤ x (end -ℤ offset))))
              o.window) in
    (
      s,
      length m2.windows,
      o.source,
      unfold notify_read in
          subst (λ x. IsStarted id s offset end x (length m2.windows) (schedule id offset m2)) same
            st,
    )
  where
    unserved : (s : ReadAheadSession) → s.window_valid ≡ false → coalesced s offset ≡ false
    unserved s e = unfold coalesced in ground arith
