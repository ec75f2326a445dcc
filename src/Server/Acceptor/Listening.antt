-- ===== src/Server/Acceptor/Listening.antt =====
-- What listening does to the acceptor's channel, and what follows for its destructor.
use wuduo.Prelude.{◌≡◌, true, refl, ◌⊎◌, some, ok, abort, assertion, arith, ℕ}
use wuduo.Reactor.Channel
use wuduo.Reactor.Channel.{
  Kernel, Channel, ctl_add, Events, no_events, enable_reading, update_channel, ctl_op_from,
  set_state_in_interest_list, is_none, disable_all,
}
use wuduo.Reactor.Channel.Reading.{read_events, reading, enable_reading_lem, destroy_reading}
use wuduo.Server.Acceptor.{Acceptor, create, listen, destroy}

module _ (k : Kernel) where
  open k use {State, ctl, interest}

  abbrev listener : ℕ → State → Acceptor k
  listener acceptfd s = record {
    channel = (reading k acceptfd s).1;
    listening = true;
    kernel = (reading k acceptfd s).0;
  }

  -- What listening leads to for the acceptor of a descriptor.
  abbrev pub Listens : ℕ → State → Acceptor k → Type 0
  Listens acceptfd s a =
      (listen (create acceptfd s) ≡ ok a)
      × ((interest a.kernel acceptfd ≡ some read_events)
          ⊎ (interest a.kernel acceptfd ≡ interest s acceptfd))
      × (listen a ≡ abort assertion)
      × (destroy a ≡ abort assertion)

  -- A new acceptor listens once, and then the kernel reports its incoming connections, unless
  -- `epoll_ctl` failed; listening again fails an assertion, and so does its destructor, which without
  -- listening does nothing.
  pub listen-Listens :
      (acceptfd : ℕ) (s : State)
      → ((a : Acceptor k) × Listens acceptfd s a) × (destroy (create {k = k} acceptfd s) ≡ ok tt)
  unfolding create listen destroy is_none disable_all Channel.destroy
  listen-Listens acceptfd s = (
    (
      listener acceptfd s,
      (
        rw (enable_reading_lem k acceptfd s) refl,
        ground (
          arith,
          k.ctl_adds s acceptfd read_events,
          k.ctl_fails s ctl_add acceptfd read_events acceptfd,
        ),
        refl,
        rw (destroy_reading k acceptfd s (reading k acceptfd s).0) refl,
      ),
    ),
    refl,
  )
