-- ===== src/Reactor/Channel/Registered.antt =====
-- What the operations of a channel do while it is registered with the epoller.
use wuduo.Prelude.{true, false, not, ◌≡◌, Bool, ok, arith}
use wuduo.Reactor.Channel.{
  no_events, is_none, Channel, Kernel, ctl_mod, ctl_del, ctl_op_from, set_state_in_interest_list,
  update_channel, enable_writing, disable_writing, disable_all,
}

module _ (k : Kernel) (s : k.State) (ch : Channel) where
  -- Registered, and to be so with these events.
  update_registered :
      ch.in_interest_list ≡ true
      → is_none ch.events ≡ false
      → update_channel k s ch ≡ ok ((k.ctl s ctl_mod ch.fd ch.events).1, ch)
  unfolding update_channel ctl_op_from set_state_in_interest_list
  update_registered h e = ground arith

module _ (k : Kernel) (s : k.State) (ch : Channel) where
  pub enable_writing_registered :
      ch.in_interest_list ≡ true
      → (s' : k.State) × (enable_writing k s ch
          ≡ ok (s', record ch { events = record (ch.events) { epollout = true } }))
  unfolding enable_writing is_none
  enable_writing_registered h = (
    _,
    update_registered k s (record ch { events = record (ch.events) { epollout = true } }) h
        (ground arith),
  )

  pub disable_writing_registered :
      ch.in_interest_list ≡ true
      → ch.events.epollin ≡ true
      → (s' : k.State) × (disable_writing k s ch
          ≡ ok (s', record ch { events = record (ch.events) { epollout = false } }))
  unfolding disable_writing is_none
  disable_writing_registered h e = (
    _,
    update_registered k s (record ch { events = record (ch.events) { epollout = false } }) h
        (ground arith),
  )

  pub disable_all_registered :
      ch.in_interest_list ≡ true
      → (s' : k.State) × (b : Bool) × (disable_all k s ch
          ≡ ok (s', record { fd = ch.fd; events = no_events; in_interest_list = b }))
  unfolding disable_all update_channel ctl_op_from set_state_in_interest_list is_none
  disable_all_registered h =
      ((k.ctl s ctl_del ch.fd no_events).1, not (k.ctl s ctl_del ch.fd no_events).0, ground arith)
