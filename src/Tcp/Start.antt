-- ===== src/Tcp/Start.antt =====
-- A connection from its constructor until it is established.
use wuduo.Prelude.{ℕ, ◌≡◌, refl, sym, ap, ltb, length, true, false, [], ◌∷◌, arith, ok}
use wuduo.Buffer.{initial_size, peek}
use wuduo.Buffer
use wuduo.Buffer.Edits.{create-Parts}
use wuduo.Buffer.Contents.{Holds, Parts-Holds}
use wuduo.Reactor.Channel.{
  Events, Kernel, ctl_add, ctl_op_from, set_state_in_interest_list, update_channel, is_none,
  enable_reading,
}
use wuduo.Tcp.{Connection, create, connected, established, connection_callback}
use wuduo.Tcp.Lifecycle.{Inv}

abbrev pub reading : Events
reading = record {
  epollin = true;
  epollpri = true;
  epollout = false;
  epollerr = false;
  epollhup = false;
  epollrdhup = false;
}

create-Holds : Holds (Buffer.create initial_size) []
create-Holds = Parts-Holds (create-Parts initial_size (omega arith))

module _ {k : Kernel} where
  registers :
      (fd : ℕ) (s : k.State)
      → (k.ctl s ctl_add fd reading).0 ≡ true
      → established (create {k = k} fd s)
        ≡ ok (record (create {k = k} fd s) {
          state = connected;
          channel = record { fd = fd; events = reading; in_interest_list = true };
          kernel = (k.ctl s ctl_add fd reading).1;
          effects = connection_callback ∷ [];
        })
  unfolding established create enable_reading update_channel ctl_op_from set_state_in_interest_list
      is_none
  registers fd s h = simp h

  -- A connection that is made over a socket, and established with the kernel taking it into the
  -- interest list, keeps the invariant from there on: `established` returns, with the connection
  -- connected and its connection callback called once.
  pub established-Inv :
      (fd : ℕ) (s : k.State)
      → (k.ctl s ctl_add fd reading).0 ≡ true
      → (c : Connection k) × (established (create {k = k} fd s) ≡ ok c)
        × Inv c
        × (c.state ≡ connected)
        × (c.effects ≡ connection_callback ∷ [])
  unfolding create
  established-Inv fd s h = (
    _,
    registers fd s h,
    record {
      in_valid = create-Holds.0;
      out_valid = create-Holds.0;
      in_state = ((refl, refl, ap (λ xs. ltb 0 (length xs)) (sym create-Holds.1)), refl);
    },
    refl,
    refl,
  )
