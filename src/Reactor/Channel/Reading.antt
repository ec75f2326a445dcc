-- ===== src/Reactor/Channel/Reading.antt =====
-- A new channel of wuduo/channel.cpp that starts to read: what it becomes, and that it cannot be
-- destroyed then.
use wuduo.Prelude.{ℕ, ◌≡◌, true, ok, abort, assertion, arith}
use wuduo.Reactor.Channel
use wuduo.Reactor.Channel.{
  Kernel, Channel, ctl_add, Events, no_events, enable_reading, update_channel, ctl_op_from,
  set_state_in_interest_list, is_none, disable_all,
}

abbrev pub read_events : Events
read_events = record (no_events) { epollin = true; epollpri = true }

module _ (k : Kernel) where
  open k use {State, ctl}

  -- What a new channel becomes when it starts to read.
  abbrev pub reading : ℕ → State → State × Channel
  reading fd s = (
    (ctl s ctl_add fd read_events).1,
    record { fd = fd; events = read_events; in_interest_list = (ctl s ctl_add fd read_events).0 },
  )

  pub enable_reading_lem :
      (fd : ℕ) (s : State) → enable_reading k s (Channel.create fd) ≡ ok (reading fd s)
  unfolding enable_reading update_channel ctl_op_from set_state_in_interest_list is_none
  enable_reading_lem fd s = ground arith

  -- It fails one assertion or, where `epoll_ctl` failed, another.
  pub destroy_reading :
      (fd : ℕ) (s s' : State) → Channel.destroy k s' (reading fd s).1 ≡ abort assertion
  unfolding Channel.destroy disable_all update_channel ctl_op_from is_none
  destroy_reading fd s s' = ground arith
