-- ===== src/Tcp/Remote/Established.antt =====
-- A connection that was established never is connecting again.
use wuduo.Tcp.Lifecycle.{Inv}
use wuduo.Tcp.Stream.{Drains, handle_write-Drains}
use wuduo.Prelude.{
  ap, ◌∙◌, ℕ, ◌≡◌, refl, Bool, true, false, not, ◌||◌, ltb, ◌==◌, length, Option, List, [], ◌∷◌,
  if◌then◌else◌, Outcome, ok, abort, require, ◌>>=◌,
}
use wuduo.Buffer.{Bytes, Buffer, Returned, count, minus_one, retrieve, append, read_fd}
use wuduo.Reactor.Channel.{
  Channel, Kernel, is_writing, has_none_events, disable_all, enable_writing,
}
use wuduo.Tcp.{
  disconnecting, disconnected, is_connecting, is_connected, is_disconnecting, is_disconnected,
  Connection, with_channel, stop_events, handle_close, force_close, handle_error, pend,
  send_in_loop, send, shutdown, handle_write, Call, sends, takes, shuts_down, forces_close, make,
  make_all, after_read, handle_read, Event, reads, writes, calls_it, step,
}

module _ {k : Kernel} where
  -- Where it ends, it is not connecting.
  abbrev pub Past : Outcome (Connection k) → Type 0
  Past (ok c) = is_connecting c.state ≡ false
  Past (abort f) = Unit {0}

  pub if_Past :
      (b : Bool) (x y : Outcome (Connection k)) → Past x → Past y → Past (if b then x else y)
  if_Past true x y u v = u
  if_Past false x y u v = v

  bind_Past {ℓ} :
      {A : Type ℓ} (r : Outcome A) (next : A → Outcome (Connection k))
      → ((a : A) → Past (next a))
      → Past (r >>= next)
  bind_Past (ok a) next h = h a
  bind_Past (abort f) next h = tt

  then_Past :
      (r : Outcome (Connection k)) (next : Connection k → Outcome (Connection k))
      → Past r
      → ((c : Connection k) → is_connecting c.state ≡ false → Past (next c))
      → Past (r >>= next)
  then_Past (ok a) next v h = h a v
  then_Past (abort f) next v h = tt

  with_channel-Past :
      (c : Connection k) (r : Outcome (k.State × Channel))
      → is_connecting c.state ≡ false
      → Past (with_channel c r)
  with_channel-Past c r v = bind_Past r _ (λ a. v)

  stop_events-Past : (c : Connection k) → is_connecting c.state ≡ false → Past (stop_events c)
  unfolding stop_events
  stop_events-Past c v =
      if_Past (not (has_none_events c.channel)) _ _
        (with_channel-Past c (disable_all k c.kernel c.channel) v) v

  pub close-Past : (c : Connection k) → Past (handle_close c)
  unfolding handle_close
  close-Past c = bind_Past (require (is_connected c.state || is_disconnecting c.state)) _ (λ a.
      then_Past (stop_events (record c { state = disconnected })) _
        (stop_events-Past (record c { state = disconnected }) refl) (λ c' v. v))

  force_close-Past : (c : Connection k) → is_connecting c.state ≡ false → Past (force_close c)
  unfolding force_close
  force_close-Past c v =
      if_Past (is_connected c.state || is_disconnecting c.state) _ _
        (close-Past (record c { state = disconnecting })) v

  shutdown-Past : (c : Connection k) → is_connecting c.state ≡ false → Past (shutdown c)
  unfolding shutdown
  shutdown-Past c v =
      if_Past (is_connected c.state) _ _ (if_Past (is_writing c.channel) _ _ refl refl) v

  pend-Past : (c : Connection k) (xs : Bytes) → is_connecting c.state ≡ false → Past (pend c xs)
  unfolding pend
  pend-Past c xs v = bind_Past (append c.output_buffer xs) _ (λ buf.
      if_Past (is_writing c.channel) _ _ v (
        with_channel-Past (record c { output_buffer = buf }) (enable_writing k c.kernel c.channel)
          v))

  pub send_in_loop-Past :
      (c : Connection k) (xs : Bytes) (answer : Option ℕ)
      → is_connecting c.state ≡ false
      → Past (send_in_loop c xs answer)
  unfolding send_in_loop
  send_in_loop-Past c xs answer v =
      if_Past (is_disconnected c.state) _ _ v (if_Past (ltb _ (length xs)) _ _ (pend-Past _ _ v) v)

  send-Past :
      (c : Connection k) (xs : Bytes) (answer : Option ℕ)
      → is_connecting c.state ≡ false
      → Past (send c xs answer)
  unfolding send
  send-Past c xs answer v = if_Past (is_connected c.state) _ _ (send_in_loop-Past c xs answer v) v

  drained_Past :
      (c : Connection k) (r : Outcome (Connection k))
      → is_connecting c.state ≡ false
      → Drains c r
      → Past r
  drained_Past c (ok c') v d = ap is_connecting d.1 ∙ v
  drained_Past c (abort f) v d = tt

  make-Past : (c : Connection k) (a : Call) → is_connecting c.state ≡ false → Past (make c a)
  unfolding make
  make-Past c (sends xs answer) v = send-Past c xs answer v
  make-Past c (takes n) v = bind_Past (retrieve c.in_buffer _) _ (λ buf. v)
  make-Past c shuts_down v = shutdown-Past c v
  make-Past c forces_close v = force_close-Past c v

  make_all-Past :
      (as' : List Call) (c : Connection k) → is_connecting c.state ≡ false → Past (make_all c as')
  unfolding make_all
  make_all-Past [] c v = v
  make_all-Past (a ∷ as') c v =
      then_Past (make c a) _ (make-Past c a v) (λ c' v'. make_all-Past as' c' v')

  after_read-Past :
      (c : Connection k) (cs : List Call) (r : Returned × Buffer)
      → is_connecting c.state ≡ false
      → Past (after_read c cs r)
  unfolding after_read handle_error
  after_read-Past c cs (count n, buf) v =
      if_Past (ltb 0 n) _ _ (make_all-Past cs _ v) (close-Past _)
  after_read-Past c cs (minus_one errno, buf) v =
      if_Past (not (errno == 11)) _ _ (force_close-Past _ v) v

  pub step-Past :
      (c : Connection k) (e : Event) → is_connecting c.state ≡ false → Inv c → Past (step c e)
  unfolding step handle_read
  step-Past c (reads answer cs) v i =
      bind_Past (read_fd c.in_buffer answer) _ (λ r. after_read-Past c cs r v)
  step-Past c (writes answer) v i =
      drained_Past c (handle_write c answer) v (handle_write-Drains c answer i)
  step-Past c (calls_it a) v i = make-Past c a v
