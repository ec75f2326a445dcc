-- ===== src/Tcp/Dispatch.antt =====
-- What one report of the kernel does to a connection: `Channel::handle_events` of wuduo/channel.cpp
-- with the callbacks that the constructor of `TcpConnection` sets, wuduo/tcp_connection.cpp.
use wuduo.Prelude.{
  ℕ, ◌≡◌, Bool, true, false, ◌||◌, Option, List, [], ◌∷◌, ◌++◌, if◌then◌else◌, Outcome, ok, ◌>>=◌,
  arith,
}
use wuduo.Buffer.{Received}
use wuduo.Buffer.Io.{Delivers}
use wuduo.Reactor.Channel.{
  Kernel, Events, Handler, read_callback, write_callback, Callbacks, has_none_events, handle_events,
}
use wuduo.Tcp.{Connection, Call, handle_read, handle_write}
use wuduo.Tcp.Lifecycle.{Inv, Keeps}
use wuduo.Tcp.Handlers.{AllFit, handle_read-Keeps, handle_write-Keeps, then-Keeps}

abbrev pub callbacks_set : Callbacks
callbacks_set read_callback = true
callbacks_set write_callback = true
callbacks_set _ = false

-- What the kernel and the client answer while one report is handled.
pub record Answers : Type 0 where
  pub read : Received
  pub message_callback : List Call
  pub wrote : Option ℕ

abbrev asked_to_read : Events → Bool
asked_to_read e = e.epollin || (e.epollpri || e.epollrdhup)

two_callbacks :
    (e : Events)
    → handle_events callbacks_set e
      ≡ (if asked_to_read e then read_callback ∷ [] else [])
        ++ (if e.epollout then write_callback ∷ [] else [])
unfolding handle_events
two_callbacks e = ground arith

module _ {k : Kernel} where
  abbrev pub run_callback : Answers → Handler → Connection k → Outcome (Connection k)
  run_callback a read_callback c = handle_read c a.read a.message_callback
  run_callback a write_callback c = handle_write c a.wrote
  run_callback a _ c = ok c

  abbrev pub run_callbacks : Answers → List Handler → Connection k → Outcome (Connection k)
  run_callbacks a [] c = ok c
  run_callbacks a (h ∷ hs) c = run_callback a h c >>= λ c'. run_callbacks a hs c'

  unfoldable pub on_events : Answers → Events → Connection k → Outcome (Connection k)
  on_events a revents c = run_callbacks a (handle_events callbacks_set revents) c

  write-Keeps :
      (a : Answers) (b : Bool) (c : Connection k)
      → Inv c
      → Keeps (run_callbacks a (if b then write_callback ∷ [] else []) c)
  write-Keeps a true c v =
      then-Keeps (handle_write c a.wrote) (λ c'. ok c') (handle_write-Keeps c a.wrote v)
        (λ c' v'. v')
  write-Keeps a false c v = v

  read_and_write-Keeps :
      (a : Answers) (b b' : Bool) (c : Connection k)
      → has_none_events c.channel ≡ false
      → Delivers c.in_buffer a.read
      → AllFit a.message_callback
      → Inv c
      → Keeps (
          run_callbacks a
            ((if b then read_callback ∷ [] else []) ++ (if b' then write_callback ∷ [] else []))
            c)
  read_and_write-Keeps a true b' c h d f v =
      then-Keeps (handle_read c a.read a.message_callback) _
        (handle_read-Keeps c a.read a.message_callback h d f v) (λ c' v'. write-Keeps a b' c' v')
  read_and_write-Keeps a false b' c h d f v = write-Keeps a b' c v

  -- Whatever events the kernel reports at once for a connection whose channel asks for any, and whatever
  -- reads, writes and the client's calls do while they are handled, also where reading closes the
  -- connection before the report's write is handled: the connection keeps its invariant, and the only
  -- way for the process to end is a buffer that would outgrow its string.
  pub on_events-Keeps :
      (a : Answers) (revents : Events) (c : Connection k)
      → has_none_events c.channel ≡ false
      → Delivers c.in_buffer a.read
      → AllFit a.message_callback
      → Inv c
      → Keeps (on_events a revents c)
  unfolding on_events
  on_events-Keeps a revents c h d f v =
      rw (two_callbacks revents)
        (read_and_write-Keeps a (asked_to_read revents) revents.epollout c h d f v)
