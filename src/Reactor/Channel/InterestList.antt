-- ===== src/Reactor/Channel/InterestList.antt =====
-- The kernel's interest list and the channel's view of it.
use wuduo.Prelude.{
  true, false, not, ◌≡◌, ◌⊎◌, Option, none, some, if◌then◌else◌, Outcome, ok, abort, assertion,
  arith,
}
use wuduo.Reactor.Channel.{
  Events, is_none, Channel, has_none_events, ctl_add, ctl_mod, ctl_del, Kernel, ctl_op_from,
  set_state_in_interest_list, update_channel, disable_all, destroy,
}

-- What the interest list should have for a channel.
abbrev pub wanted : Channel → Option Events
wanted ch = if ch.in_interest_list then some ch.events else none

module _ (k : Kernel) where
  open k use {State, ctl, interest}

  -- How `update_channel` may end. A failed `epoll_ctl` leaves the channel and the list as they were.
  abbrev pub Updates : State → Channel → Outcome (State × Channel) → Type 0
  Updates s ch (ok (s', ch')) =
      ((interest s' ch.fd ≡ wanted ch')
        × (ch' ≡ record ch { in_interest_list = not (has_none_events ch) }))
      ⊎ ((interest s' ch.fd ≡ interest s ch.fd) × (ch' ≡ ch))
  Updates s ch (abort f) =
      (ch.in_interest_list ≡ false) × (has_none_events ch ≡ true) × (f ≡ assertion)

  -- `update_channel` registers the channel's events with the kernel, and marks it as registered
  -- exactly if it has any; where `epoll_ctl` fails, it changes neither the list nor the channel. Its
  -- assertion fails only for a channel that is not registered and has no events, and the assertions on
  -- the operation chosen never fail.
  pub update_channel-Updates : (s : State) (ch : Channel) → Updates s ch (update_channel k s ch)
  unfolding update_channel ctl_op_from set_state_in_interest_list
  update_channel-Updates s ch = ground (
    arith,
    k.ctl_fails s ctl_add ch.fd ch.events ch.fd,
    k.ctl_fails s ctl_mod ch.fd ch.events ch.fd,
    k.ctl_fails s ctl_del ch.fd ch.events ch.fd,
    k.ctl_adds s ch.fd ch.events,
    k.ctl_modifies s ch.fd ch.events,
    k.ctl_deletes s ch.fd ch.events,
  )

  abbrev pub Destroys : State → Channel → Outcome (State × Channel) → Type 0
  Destroys s ch (ok r) = (ch.in_interest_list ≡ false) × (has_none_events ch ≡ true) × (r ≡ (s, ch))
  Destroys s ch (abort f) =
      ((ch.in_interest_list ≡ true) ⊎ (has_none_events ch ≡ false)) × (f ≡ assertion)

  -- The destructor returns only for a channel that is not registered and has no events, and then it
  -- changes nothing; in every other state it fails an assertion. So it never takes a channel out of
  -- the interest list.
  pub destroy-Destroys : (s : State) (ch : Channel) → Destroys s ch (destroy k s ch)
  unfolding destroy disable_all update_channel ctl_op_from is_none
  destroy-Destroys s ch = ground arith
