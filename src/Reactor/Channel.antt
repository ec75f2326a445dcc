-- ===== src/Reactor/Channel.antt =====
-- `Channel` of wuduo/channel.h and wuduo/channel.cpp, and how `Epoller` of wuduo/epoller.h and
-- wuduo/epoller.cpp keeps the kernel's interest list in step with it. The mask of events is read by
-- its flags. The model runs in the loop's own thread, and a channel is asked of its own loop.
-- `epoll_ctl` is the kernel's: a parameter, with what its manual page says of each operation.
pub mod InterestList
pub mod Registered
pub mod Reading
use wuduo.Prelude.{
  ℕ, Bool, true, false, not, ◌&&◌, ◌||◌, ◌≡◌, ◌≢◌, Option, none, some, List, [], ◌∷◌, ◌++◌,
  if◌then◌else◌, Outcome, ok, abort, require, ◌>>=◌, ◌>>◌,
}

-- A `uint32_t` mask, by the flags that the code names.
pub record Events : Type 0 where
  pub epollin : Bool
  pub epollpri : Bool
  pub epollout : Bool
  pub epollerr : Bool
  pub epollhup : Bool
  pub epollrdhup : Bool

abbrev pub no_events : Events
no_events = record {
  epollin = false;
  epollpri = false;
  epollout = false;
  epollerr = false;
  epollhup = false;
  epollrdhup = false;
}

-- `events_ == 0`
unfoldable pub is_none : Events → Bool
is_none e =
    not (e.epollin || (e.epollpri || (e.epollout || (e.epollerr || (e.epollhup || e.epollrdhup)))))

-- `revents_` is an argument of `handle_events`, which alone reads it.
pub record Channel : Type 0 where
  pub fd : ℕ
  pub events : Events
  pub in_interest_list : Bool

abbrev pub create : ℕ → Channel
create fd = record { fd = fd; events = no_events; in_interest_list = false }

abbrev pub has_none_events : Channel → Bool
has_none_events ch = is_none ch.events

abbrev pub is_reading : Channel → Bool
is_reading ch = ch.events.epollin || ch.events.epollpri

abbrev pub is_writing : Channel → Bool
is_writing ch = ch.events.epollout

pub data Handler : Type 0 where
  close_callback error_callback read_callback write_callback : Handler

-- Which callbacks are set.
abbrev pub Callbacks : Type 0
Callbacks = Handler → Bool

abbrev call : Callbacks → Bool → Handler → List Handler
call set asked h = if asked && set h then h ∷ [] else []

-- The callbacks that `handle_events` makes, in order.
unfoldable pub handle_events : Callbacks → Events → List Handler
handle_events set revents =
    call set (revents.epollhup && not revents.epollin) close_callback
    ++ (call set revents.epollerr error_callback
        ++ (call set (revents.epollin || (revents.epollpri || revents.epollrdhup)) read_callback
            ++ call set revents.epollout write_callback))

pub data CtlOp : Type 0 where
  ctl_add ctl_mod ctl_del : CtlOp

-- The kernel's side of an epoll instance.
pub record Kernel : Type 1 where
  pub State : Type 0
  -- `epoll_ctl(epollfd, op, fd, events)`: whether it returns 0, and the state after it.
  pub ctl : State → CtlOp → ℕ → Events → Bool × State
  -- The events that the interest list has for a descriptor.
  pub interest : State → ℕ → Option Events
  pub ctl_fails :
      (s : State) (op : CtlOp) (fd : ℕ) (e : Events) (j : ℕ)
      → (ctl s op fd e).0 ≡ false
      → interest (ctl s op fd e).1 j ≡ interest s j
  pub ctl_adds :
      (s : State) (fd : ℕ) (e : Events)
      → (ctl s ctl_add fd e).0 ≡ true
      → interest (ctl s ctl_add fd e).1 fd ≡ some e
  pub ctl_modifies :
      (s : State) (fd : ℕ) (e : Events)
      → (ctl s ctl_mod fd e).0 ≡ true
      → interest (ctl s ctl_mod fd e).1 fd ≡ some e
  pub ctl_deletes :
      (s : State) (fd : ℕ) (e : Events)
      → (ctl s ctl_del fd e).0 ≡ true
      → interest (ctl s ctl_del fd e).1 fd ≡ none
  pub ctl_others :
      (s : State) (op : CtlOp) (fd : ℕ) (e : Events) (j : ℕ)
      → j ≢ fd
      → interest (ctl s op fd e).1 j ≡ interest s j

-- `Epoller::ctl_op_from`
unfoldable pub ctl_op_from : Channel → Outcome CtlOp
ctl_op_from ch =
    if not ch.in_interest_list
    then (require (not (has_none_events ch)) >>= λ _. ok ctl_add)
    else (if has_none_events ch then ok ctl_del else ok ctl_mod)

abbrev is_add : CtlOp → Bool
is_add ctl_add = true
is_add _ = false

abbrev is_mod : CtlOp → Bool
is_mod ctl_mod = true
is_mod _ = false

abbrev is_del : CtlOp → Bool
is_del ctl_del = true
is_del _ = false

-- `Epoller::set_state_in_interest_list`
unfoldable pub set_state_in_interest_list : Channel → CtlOp → Outcome Channel
set_state_in_interest_list ch op =
    if not ch.in_interest_list
    then (require (is_add op) >>= λ _. ok (record ch { in_interest_list = true }))
    else (if has_none_events ch
        then (require (is_del op) >>= λ _. ok (record ch { in_interest_list = false }))
        else (require (is_mod op) >>= λ _. ok (record ch { in_interest_list = true })))

module _ (k : Kernel) where
  open k use {State, ctl}

  -- `Epoller::update_channel`; a failed `epoll_ctl` is only logged.
  unfoldable pub update_channel : State → Channel → Outcome (State × Channel)
  update_channel s ch = ctl_op_from ch >>= λ op.
      if (ctl s op ch.fd ch.events).0
      then (set_state_in_interest_list ch op >>= λ ch'. ok ((ctl s op ch.fd ch.events).1, ch'))
      else ok ((ctl s op ch.fd ch.events).1, ch)

  unfoldable pub enable_reading : State → Channel → Outcome (State × Channel)
  enable_reading s ch =
      update_channel s
        (record ch { events = record (ch.events) { epollin = true; epollpri = true } })

  unfoldable pub enable_writing : State → Channel → Outcome (State × Channel)
  enable_writing s ch =
      update_channel s (record ch { events = record (ch.events) { epollout = true } })

  unfoldable pub disable_reading : State → Channel → Outcome (State × Channel)
  disable_reading s ch =
      update_channel s
        (record ch { events = record (ch.events) { epollin = false; epollpri = false } })

  unfoldable pub disable_writing : State → Channel → Outcome (State × Channel)
  disable_writing s ch =
      update_channel s (record ch { events = record (ch.events) { epollout = false } })

  unfoldable pub disable_all : State → Channel → Outcome (State × Channel)
  disable_all s ch = update_channel s (record ch { events = no_events })

  -- `Channel::~Channel`
  unfoldable pub destroy : State → Channel → Outcome (State × Channel)
  destroy s ch = do
    require (not ch.in_interest_list)
    if not (has_none_events ch) then disable_all s ch else ok (s, ch)
