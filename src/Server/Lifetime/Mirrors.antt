-- ===== src/Server/Lifetime/Mirrors.antt =====
-- The life of a connection of wuduo/tcp_connection.cpp, against the connection with its buffers and its
-- channel.
use wuduo.Prelude.{
  ◌+◌, ◌≡◌, refl, sym, ap, ◌∙◌, inl, inr, true, not, [], ltb, ◌==◌, if◌then◌else◌, Outcome, ok,
  abort, arith, Bool-cases,
}
use wuduo.Buffer.{Buffer, peek, Returned, count, minus_one}
use wuduo.Buffer.Invariant.{IsValid}
use wuduo.Reactor.Channel.{Kernel, is_writing}
use wuduo.Tcp
use wuduo.Tcp.{
  State, disconnecting, disconnected, Connection, is_connected, is_disconnecting, eagain,
  handle_error, force_close, after_read, make_all,
}
use wuduo.Tcp.Lifecycle.{closes, Inv, when_open, stop_events-live, is_open}
use wuduo.Server.Lifetime.{
  Life, Reading, goes_on, forces_close, peer_closed, handle_read, handle_close, close_if_open,
  set_disconnecting,
}

-- How a read ends, where the message callback makes no call.
abbrev pub reading_of : Returned → Reading
reading_of (count n) = if ltb 0 n then goes_on else peer_closed
reading_of (minus_one errno) = if not (errno == eagain) then forces_close else goes_on

module _ {k : Kernel} where
  -- It returns, in the same state, and has asked as often for its removal.
  abbrev pub Mirrors : Connection k → Outcome (Connection k) → Life → Life → Type 0
  Mirrors c (ok c') l l' =
      (c'.state ≡ l'.state) × (closes c'.effects + l.removals ≡ closes c.effects + l'.removals)
  Mirrors c (abort f) l l' = ⊥

  handle_close-Mirrors :
      (c : Connection k) (l : Life)
      → Inv c
      → is_open c.state ≡ true
      → Mirrors c (Tcp.handle_close (record c { state = disconnecting })) l (handle_close l)
  unfolding Tcp.handle_close
  handle_close-Mirrors c l v o =
      let (live, unclosed) =
        when_open c.state c.channel (peek c.output_buffer) c.effects o v.in_state in
      let (s, b, done) = stop_events-live (record c { state = disconnected }) live.0 live.1 in
      rw done (refl, omega arith)

  force_close-Mirrors :
      (c : Connection k) (l : Life)
      → Inv c
      → c.state ≡ l.state
      → Mirrors c (force_close c) l (close_if_open l)
  unfolding force_close
  force_close-Mirrors c l v e = elim (Bool-cases (is_open c.state)) [
    | inl o ↦ rw (o, sym (ap is_open e) ∙ o) (handle_close-Mirrors c l v o)
    | inr n ↦ rw (n, sym (ap is_open e) ∙ n) (e, refl)
  ]

  shutdown-Mirrors :
      (c : Connection k) (l : Life)
      → c.state ≡ l.state
      → Mirrors c (Tcp.shutdown c) l (if is_connected l.state then set_disconnecting l else l)
  unfolding Tcp.shutdown
  shutdown-Mirrors c l e = elim (Bool-cases (is_connected c.state)) [
    | inl o ↦
        rw (o, sym (ap is_connected e) ∙ o)
          (elim (Bool-cases (is_writing c.channel)) [
            | inl w ↦ rw w (refl, refl)
            | inr w ↦ rw w (refl, refl)
          ])
    | inr n ↦ rw (n, sym (ap is_connected e) ∙ n) (e, refl)
  ]

  -- With what `readv` gave in the buffer.
  filled :
      (c : Connection k) (buf : Buffer) → IsValid buf → Inv c → Inv (record c { in_buffer = buf })
  filled c buf valid v = record { in_valid = valid; out_valid = v.out_valid; in_state = v.in_state }

  after_read-Mirrors :
      (c : Connection k) (l : Life) (r : Returned) (buf : Buffer)
      → IsValid buf
      → Inv c
      → is_open c.state ≡ true
      → c.state ≡ l.state
      → Mirrors c (after_read c [] (r, buf)) l (handle_read (reading_of r) l)
  unfolding after_read make_all handle_error
  after_read-Mirrors c l (count n) buf valid v o e = elim (Bool-cases (ltb 0 n)) [
    | inl b ↦ rw b (e, refl)
    | inr b ↦ rw b (handle_close-Mirrors (record c { in_buffer = buf }) l (filled c buf valid v) o)
  ]
  after_read-Mirrors c l (minus_one errno) buf valid v o e = elim (Bool-cases (errno == eagain)) [
    | inl b ↦ rw b (e, refl)
    | inr b ↦ rw b (force_close-Mirrors (record c { in_buffer = buf }) l (filled c buf valid v) e)
  ]

  -- The model of a connection's life does what the connection with its buffers and its channel does,
  -- from its invariant on: `handle_read` of an open connection whatever `readv` answers, `force_close`
  -- and `shutdown` return, end in the state that they end in there, and call the close callback as
  -- often as a removal is asked for there. The message callback makes no call.
  pub handlers-Mirrors :
      (c : Connection k) (l : Life) (r : Returned) (buf : Buffer)
      → IsValid buf
      → Inv c
      → is_open c.state ≡ true
      → c.state ≡ l.state
      → Mirrors c (after_read c [] (r, buf)) l (handle_read (reading_of r) l)
        × Mirrors c (force_close c) l (close_if_open l)
        × Mirrors c (Tcp.shutdown c) l (if is_connected l.state then set_disconnecting l else l)
  handlers-Mirrors c l r buf valid v o e = (
    after_read-Mirrors c l r buf valid v o e,
    force_close-Mirrors c l v e,
    shutdown-Mirrors c l e,
  )
