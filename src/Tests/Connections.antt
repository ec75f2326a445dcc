-- ===== src/Tests/Connections.antt =====
-- wuduo/channel.cpp, wuduo/epoller.cpp and wuduo/tcp_connection.cpp with a small kernel.
use wuduo.Prelude.{
  ℕ, ◌≡◌, ◌≢◌, refl, Bool, true, false, [], ◌∷◌, ◌>>=◌, Option, none, some, if◌then◌else◌, ◌==◌,
  arith,
}
use wuduo.Buffer.{Buffer, peek, received}
use wuduo.Buffer.Invariant.{IsValid}
use wuduo.Reactor.Channel.{
  is_none, Events, Channel, CtlOp, ctl_add, ctl_mod, ctl_del, Kernel, update_channel, destroy,
}
use wuduo.Reactor.Channel.InterestList.{Updates, update_channel-Updates, Destroys, destroy-Destroys}
use wuduo.Tcp.{
  Connection, connected, shutdown, handle_write, step, reads, sends, shuts_down,
  connection_callback,
}
use wuduo.Tcp.Lifecycle.{Inv, Keeps}
use wuduo.Tcp.Handlers.{step-Keeps}
use wuduo.Tcp.Stream.{Drains, handle_write-Drains}
use wuduo.Tcp.Shutdown.{HalfClosed, write_all, shutdown_while_writing}

-- What `epoll_ctl` leaves in the list for a descriptor; here it succeeds whenever it may.
abbrev pub allowed : CtlOp → Option Events → Bool
allowed ctl_add none = true
allowed ctl_add (some e) = false
allowed ctl_mod none = false
allowed ctl_mod (some e) = true
allowed ctl_del none = false
allowed ctl_del (some e) = true

abbrev pub entry : CtlOp → Events → Option Events
entry ctl_add e = some e
entry ctl_mod e = some e
entry ctl_del e = none

abbrev pub Interests : Type 0
Interests = ℕ → Option Events

abbrev pub listed : Interests → ℕ → Option Events → Interests
listed s fd v j = if j == fd then v else s j

abbrev pub ctl : Interests → CtlOp → ℕ → Events → Bool × Interests
ctl s op fd e = if allowed op (s fd) then (true, listed s fd (entry op e)) else (false, s)

pub ctl-same :
    (s : Interests) (op : CtlOp) (fd : ℕ) (e : Events)
    → (ctl s op fd e).0 ≡ true
    → (ctl s op fd e).1 fd ≡ entry op e
ctl-same s op fd e h = ground arith

pub ctl-fails :
    (s : Interests) (op : CtlOp) (fd : ℕ) (e : Events) (j : ℕ)
    → (ctl s op fd e).0 ≡ false
    → (ctl s op fd e).1 j ≡ s j
ctl-fails s op fd e j h = ground arith

pub ctl-others :
    (s : Interests) (op : CtlOp) (fd : ℕ) (e : Events) (j : ℕ) → j ≢ fd → (ctl s op fd e).1 j ≡ s j
ctl-others s op fd e j h = ground arith

abbrev pub small_kernel : Kernel
small_kernel = record {
  State = Interests;
  ctl = ctl;
  interest = λ s j. s j;
  ctl_fails = ctl-fails;
  ctl_adds = λ s fd e h. ctl-same s ctl_add fd e h;
  ctl_modifies = λ s fd e h. ctl-same s ctl_mod fd e h;
  ctl_deletes = λ s fd e h. ctl-same s ctl_del fd e h;
  ctl_others = ctl-others;
}

abbrev pub reading_and_writing : Events
reading_and_writing = record {
  epollin = true;
  epollpri = true;
  epollout = true;
  epollerr = false;
  epollhup = false;
  epollrdhup = false;
}

abbrev pub busy_channel : Channel
busy_channel = record { fd = 7; events = reading_and_writing; in_interest_list = true }

abbrev pub watched : Interests
watched j = if j == 7 then some reading_and_writing else none

update_channel-Updates_example :
    Updates small_kernel watched busy_channel (update_channel small_kernel watched busy_channel)
update_channel-Updates_example = update_channel-Updates small_kernel watched busy_channel

destroy-Destroys_example :
    Destroys small_kernel watched busy_channel (destroy small_kernel watched busy_channel)
destroy-Destroys_example = destroy-Destroys small_kernel watched busy_channel

abbrev pub in_bytes : Buffer
in_bytes = record {
  bytes = 0 ∷ 0 ∷ 0 ∷ 0 ∷ 0 ∷ 0 ∷ 0 ∷ 0 ∷ 1 ∷ 2 ∷ [];
  reader_index = 8;
  writer_index = 9;
}

abbrev pub out_bytes : Buffer
out_bytes = record {
  bytes = 0 ∷ 0 ∷ 0 ∷ 0 ∷ 0 ∷ 0 ∷ 0 ∷ 0 ∷ 1 ∷ 2 ∷ 3 ∷ [];
  reader_index = 8;
  writer_index = 11;
}

-- Open, with three bytes pending.
abbrev pub busy : Connection small_kernel
busy = record {
  state = connected;
  channel = busy_channel;
  in_buffer = in_bytes;
  output_buffer = out_bytes;
  kernel = watched;
  sent = [];
  effects = connection_callback ∷ [];
}

in_bytes-IsValid : IsValid in_bytes
in_bytes-IsValid = omega arith

out_bytes-IsValid : IsValid out_bytes
out_bytes-IsValid = omega arith

pub busy-Inv : Inv busy
unfolding peek
busy-Inv = record {
  in_valid = in_bytes-IsValid;
  out_valid = out_bytes-IsValid;
  in_state = ((refl, refl, refl), refl);
}

-- A message comes in, is answered, and the connection is shut down.
step-Keeps_example :
    Keeps (step busy (reads (received (5 ∷ [])) (sends (6 ∷ []) none ∷ shuts_down ∷ [])))
step-Keeps_example =
    step-Keeps busy (reads (received (5 ∷ [])) (sends (6 ∷ []) none ∷ shuts_down ∷ []))
      (unfold is_none in refl, omega arith, (omega arith, (tt, tt))) busy-Inv

handle_write-Drains_example : Drains busy (handle_write busy (some 2))
handle_write-Drains_example = handle_write-Drains busy (some 2) busy-Inv

shutdown_while_writing_example :
    HalfClosed busy (shutdown busy >>= λ c'. write_all c' (some 2 ∷ none ∷ some 5 ∷ []))
shutdown_while_writing_example =
    shutdown_while_writing busy (some 2 ∷ none ∷ some 5 ∷ []) busy-Inv refl refl

abbrev watching_none : Interests
watching_none j = none
