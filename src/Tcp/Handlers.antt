-- ===== src/Tcp/Handlers.antt =====
-- Every handler of a connection keeps its invariant, so no assertion of `TcpConnection` fails.
use wuduo.Prelude.{
  ℕ, ◌≤◌, ◌≡◌, refl, sym, subst, true, false, not, Option, List, [], ◌∷◌, ltb, ◌==◌, length, min,
  arith, Outcome, ok, abort, max_size, ◌>>=◌,
}
use wuduo.Buffer.{
  Buffer, peek, readable_bytes, Received, failed, received, Returned, count, minus_one, read_fd,
}
use wuduo.Buffer.Invariant.{IsValid, length-peek}
use wuduo.Buffer.Contents.{retrieve_total}
use wuduo.Buffer.Io.{Delivers, Reads, read_fd-Reads}
use wuduo.Reactor.Channel.{Kernel, has_none_events}
use wuduo.Tcp.{
  disconnecting, Connection, handle_write, Call, sends, takes, shuts_down, forces_close, make,
  make_all, after_read, handle_read, handle_error, Event, reads, writes, calls_it, step,
}
use wuduo.Tcp.Stream.{open_of_events, Drains, handle_write-Drains}
use wuduo.Tcp.Lifecycle.{
  is_open, when_open, Inv, Keeps, if_Keeps, close-Keeps, force_close-Keeps, shutdown-Keeps,
}
use wuduo.Tcp.Sending.{send-Keeps}

-- What is sent is a C++ string or array.
abbrev pub CallFits : Call → Type 0
CallFits (sends xs answer) = length xs ≤ max_size
CallFits _ = Unit {0}

abbrev pub AllFit : List Call → Type 0
AllFit [] = Unit {0}
AllFit (a ∷ as') = CallFits a × AllFit as'

module _ {k : Kernel} where
  -- A report to read is not stale: the channel still asks for events when it is handled. `readv`
  -- delivers no more than there is room for.
  abbrev pub Fits : Connection k → Event → Type 0
  Fits c (reads answer cs) =
      (has_none_events c.channel ≡ false) × Delivers c.in_buffer answer × AllFit cs
  Fits c (writes answer) = Unit {0}
  Fits c (calls_it a) = CallFits a

  kept : (c : Connection k) (r : Outcome (Connection k)) → Drains c r → Keeps r
  kept c (ok c') d = d.0
  kept c (abort f) d = absurd d

  pub handle_write-Keeps :
      (c : Connection k) (answer : Option ℕ) → Inv c → Keeps (handle_write c answer)
  handle_write-Keeps c answer v = kept c (handle_write c answer) (handle_write-Drains c answer v)

  pub make-Keeps : (c : Connection k) (a : Call) → CallFits a → Inv c → Keeps (make c a)
  unfolding make
  make-Keeps c (sends xs answer) f v = send-Keeps c xs answer f v
  make-Keeps c (takes n) f v =
      let (buf, done, held) =
        retrieve_total c.in_buffer (min n (readable_bytes c.in_buffer)) v.in_valid
          (omega (arith, length-peek v.in_valid)) in
      rw done (record { in_valid = held.0; out_valid = v.out_valid; in_state = v.in_state })
  make-Keeps c shuts_down f v = shutdown-Keeps c v
  make-Keeps c forces_close f v = force_close-Keeps c v

  pub then-Keeps :
      (r : Outcome (Connection k)) (next : Connection k → Outcome (Connection k))
      → Keeps r
      → ((c : Connection k) → Inv c → Keeps (next c))
      → Keeps (r >>= next)
  then-Keeps (ok c) next v h = h c v
  then-Keeps (abort f) next v h = v

  make_all-Keeps :
      (as' : List Call) (c : Connection k) → AllFit as' → Inv c → Keeps (make_all c as')
  unfolding make_all
  make_all-Keeps [] c f v = v
  make_all-Keeps (a ∷ as') c f v =
      then-Keeps (make c a) (λ c'. make_all c' as') (make-Keeps c a f.0 v)
        (λ c' v'. make_all-Keeps as' c' f.1 v')

  after_read-Keeps :
      (c : Connection k) (cs : List Call) (r : Returned) (buf : Buffer)
      → is_open c.state ≡ true
      → AllFit cs
      → IsValid buf
      → Inv c
      → Keeps (after_read c cs (r, buf))
  unfolding after_read handle_error
  after_read-Keeps c cs (count n) buf e f valid v =
      if_Keeps (ltb 0 n) _ _
        (λ _.
          make_all-Keeps cs (record c { in_buffer = buf }) f
            (record { in_valid = valid; out_valid = v.out_valid; in_state = v.in_state }))
        (λ _.
          close-Keeps (record c { in_buffer = buf; state = disconnecting }) refl
            (record {
              in_valid = valid;
              out_valid = v.out_valid;
              in_state = when_open c.state c.channel (peek c.output_buffer) c.effects e v.in_state;
            }))
  after_read-Keeps c cs (minus_one errno) buf e f valid v =
      let v' : Inv (record c { in_buffer = buf }) = record {
        in_valid = valid;
        out_valid = v.out_valid;
        in_state = v.in_state;
      } in
      if_Keeps (not (errno == 11)) _ _ (λ _. force_close-Keeps (record c { in_buffer = buf }) v')
        (λ _. v')

  read-Keeps :
      (c : Connection k) (answer : Received) (cs : List Call) (o : Outcome (Returned × Buffer))
      → is_open c.state ≡ true
      → AllFit cs
      → Reads c.in_buffer answer o
      → Inv c
      → Keeps (o >>= after_read c cs)
  read-Keeps c (failed errno) cs (ok (r, buf)) e f d v =
      after_read-Keeps c cs r buf e f (subst IsValid (sym d.1) v.in_valid) v
  read-Keeps c (failed errno) cs (abort x) e f d v = absurd d
  read-Keeps c (received xs) cs (ok (r, buf)) e f d v = after_read-Keeps c cs r buf e f d.1.0 v
  read-Keeps c (received xs) cs (abort x) e f d v = d.1

  pub handle_read-Keeps :
      (c : Connection k) (answer : Received) (cs : List Call)
      → has_none_events c.channel ≡ false
      → Delivers c.in_buffer answer
      → AllFit cs
      → Inv c
      → Keeps (handle_read c answer cs)
  unfolding handle_read
  handle_read-Keeps c answer cs h d f v =
      read-Keeps c answer cs (read_fd c.in_buffer answer)
        (open_of_events c.state c.channel (peek c.output_buffer) c.effects v.in_state h) f
        (read_fd-Reads c.in_buffer answer v.in_valid d) v

  -- Whatever happens to a connection in a state that keeps the invariant, the state after it keeps it
  -- too, and the only way for the process to end is a buffer that would outgrow its string: no
  -- assertion fails in a handler. A report to read is handled only while the channel asks for events,
  -- so that it is none from before another handler closed the connection, and `readv` delivers no more
  -- than there is room for. What is sent is a C++ string or array. The invariant: both buffers are
  -- valid; while the connection is open its channel is registered, reads, and waits to write exactly
  -- if bytes are pending, and the close callback has not been called; once it is disconnected the
  -- channel asks for no event and the close callback has been called exactly once.
  pub step-Keeps : (c : Connection k) (e : Event) → Fits c e → Inv c → Keeps (step c e)
  unfolding step
  step-Keeps c (reads answer cs) f v = handle_read-Keeps c answer cs f.0 f.1 f.2 v
  step-Keeps c (writes answer) f v = handle_write-Keeps c answer v
  step-Keeps c (calls_it a) f v = make-Keeps c a f v
