-- ===== src/Tcp/Sending.antt =====
-- Sending keeps the invariant of a connection.
use wuduo.Prelude.{
  ℕ, ◌≤◌, ◌<◌, ◌≡◌, refl, sym, ap, ◌∙◌, true, false, not, inl, inr, Option, ◌++◌, if◌then◌else◌,
  ltb, ◌==◌, length, take, drop, arith, Outcome, ok, abort, max_size, ◌>>=◌, ◌&&◌, Bool-cases,
  lt→ltb, ltb→lt, length-append, length-drop,
}
use wuduo.Buffer.{Buffer, Bytes, peek, append, readable_bytes}
use wuduo.Buffer.Invariant.{IsValid}
use wuduo.Buffer.Growth.{Appends, append-Appends}
use wuduo.Reactor.Channel.{Kernel, is_writing, enable_writing}
use wuduo.Reactor.Channel.Registered.{enable_writing_registered}
use wuduo.Tcp.{
  State, connecting, connected, disconnecting, disconnected, Connection, is_connected,
  is_disconnected, with_channel, taken, pend, send_in_loop, send,
}
use wuduo.Tcp.Lifecycle.{
  closes, is_open, when_open, to_open, open_of_connected, Inv, Keeps, if_Keeps,
}

open-ne-disconnected : (s : State) → is_open s ≡ true → is_disconnected s ≡ false
open-ne-disconnected connecting h = refl
open-ne-disconnected connected h = refl
open-ne-disconnected disconnecting h = refl
open-ne-disconnected disconnected h = absurd (cc)

module _ {k : Kernel} where
  -- A connection that is open, with what its channel asks for left open.
  pub record IsOpen (c : Connection k) : Type 0 where
    in_valid : IsValid c.in_buffer
    out_valid : IsValid c.output_buffer
    still_open : is_open c.state ≡ true
    registered : c.channel.in_interest_list ≡ true
    reading : c.channel.events.epollin ≡ true
    unclosed : closes c.effects ≡ 0

  pub Inv-IsOpen : (c : Connection k) → is_open c.state ≡ true → Inv c → IsOpen c
  Inv-IsOpen c e v =
      let (live, n) = when_open c.state c.channel (peek c.output_buffer) c.effects e v.in_state in
      record {
        in_valid = v.in_valid;
        out_valid = v.out_valid;
        still_open = e;
        registered = live.0;
        reading = live.1;
        unclosed = n;
      }

  pended-Keeps :
      (c : Connection k) (rest : Bytes) (r : Outcome Buffer)
      → IsOpen c
      → 0 < length rest
      → Appends c.output_buffer rest r
      → Keeps (
          r >>= λ buf.
          let c' : Connection k = record c { output_buffer = buf } in
          if is_writing c.channel
          then ok c'
          else with_channel c' (enable_writing k c.kernel c.channel))
  pended-Keeps c rest (abort f) o h a = a.1
  pended-Keeps c rest (ok buf) o h a =
      let some_left : ltb 0 (length (peek buf)) ≡ true =
        lt→ltb 0 (length (peek buf))
          (omega (arith, h, ap length a.0.1, length-append (peek c.output_buffer) rest)) in
      let (s, done) = enable_writing_registered k c.kernel c.channel o.registered in
      if_Keeps (is_writing c.channel) _ _
        (λ busy. record {
          in_valid = o.in_valid;
          out_valid = a.0.0;
          in_state =
              to_open c.state c.channel (peek buf) c.effects o.still_open
                (o.registered, o.reading, busy ∙ sym some_left) o.unclosed;
        })
        (λ _. rw done (record {
          in_valid = o.in_valid;
          out_valid = a.0.0;
          in_state =
              to_open c.state _ (peek buf) c.effects o.still_open
                (o.registered, o.reading, sym some_left) o.unclosed;
        }))

  pend-Keeps :
      (c : Connection k) (rest : Bytes)
      → IsOpen c
      → 0 < length rest
      → length rest ≤ max_size
      → Keeps (pend c rest)
  unfolding pend
  pend-Keeps c rest o h small =
      pended-Keeps c rest (append c.output_buffer rest) o h
        (append-Appends c.output_buffer rest o.out_valid small)

  pub send_in_loop-Keeps :
      (c : Connection k) (xs : Bytes) (answer : Option ℕ)
      → is_open c.state ≡ true
      → length xs ≤ max_size
      → Inv c
      → Keeps (send_in_loop c xs answer)
  unfolding send_in_loop
  send_in_loop-Keeps c xs answer e small v =
      let wrote : ℕ =
        if not (is_writing c.channel) && (readable_bytes c.output_buffer == 0)
        then taken answer xs
        else 0 in
      let o = Inv-IsOpen c e v in
      let c' : Connection k = record c { sent = c.sent ++ take wrote xs } in
      rw (open-ne-disconnected c.state e) (elim (Bool-cases (ltb wrote (length xs))) [
        | inl more ↦ rw more (
            pend-Keeps c' (drop wrote xs)
              (record {
                in_valid = o.in_valid;
                out_valid = o.out_valid;
                still_open = o.still_open;
                registered = o.registered;
                reading = o.reading;
                unclosed = o.unclosed;
              })
              (omega (arith, ltb→lt wrote (length xs) more, length-drop wrote xs))
              (omega (arith, small, length-drop wrote xs)))
        | inr all ↦
            rw all
              (record { in_valid = v.in_valid; out_valid = v.out_valid; in_state = v.in_state })
      ])

  pub send-Keeps :
      (c : Connection k) (xs : Bytes) (answer : Option ℕ)
      → length xs ≤ max_size
      → Inv c
      → Keeps (send c xs answer)
  unfolding send
  send-Keeps c xs answer small v = elim (Bool-cases (is_connected c.state)) [
    | inl e ↦ rw e (send_in_loop-Keeps c xs answer (open_of_connected c.state e) small v)
    | inr e ↦ rw e v
  ]
