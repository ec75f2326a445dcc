-- ===== src/Tcp.antt =====
-- `TcpConnection` of wuduo/tcp_connection.h and wuduo/tcp_connection.cpp, in the thread of its loop,
-- where `run_in_loop` runs its task at once. The kernel answers each `read` and `write` by an argument.
-- `sent` and `effects` are what the outside has seen: the bytes that `write` took, and the calls made.
-- A callback that is not set is a call of nothing.
pub mod Lifecycle
pub mod Sending
pub mod Handlers
pub mod Stream
pub mod Shutdown
pub mod Start
pub mod Remote
pub mod Dispatch
use wuduo.Prelude.{
  ℕ, Bool, true, false, not, ◌&&◌, ◌||◌, Option, none, some, List, [], ◌∷◌, ◌++◌, if◌then◌else◌,
  ltb, leb, ◌==◌, length, take, drop, min, Outcome, ok, abort, require, ◌>>=◌, ◌>>◌,
}
use wuduo.Buffer
use wuduo.Buffer.{
  Buffer, Bytes, peek, readable_bytes, append, retrieve, retrieve_all, Received, Returned,
  minus_one, count, read_fd, initial_size,
}
use wuduo.Reactor.Channel
use wuduo.Reactor.Channel.{
  Channel, Kernel, has_none_events, is_writing, enable_reading, enable_writing, disable_writing,
  disable_all,
}

pub data State : Type 0 where
  connecting connected disconnecting disconnected : State

abbrev pub is_connecting : State → Bool
is_connecting connecting = true
is_connecting _ = false

abbrev pub is_connected : State → Bool
is_connected connected = true
is_connected _ = false

abbrev pub is_disconnecting : State → Bool
is_disconnecting disconnecting = true
is_disconnecting _ = false

abbrev pub is_disconnected : State → Bool
is_disconnected disconnected = true
is_disconnected _ = false

-- Calls of the callbacks, and `::shutdown(fd, SHUT_WR)`.
pub data Effect : Type 0 where
  connection_callback close_callback shut_wr : Effect

-- `errno` of a read that would block; the two names are one number on Linux.
abbrev pub eagain : ℕ
eagain = 11

pub record Connection (k : Kernel) : Type 0 where
  pub state : State
  pub channel : Channel
  pub in_buffer : Buffer
  pub output_buffer : Buffer
  pub kernel : k.State
  pub sent : Bytes
  pub effects : List Effect

-- The number of bytes that `write` takes of those offered; -1 is `none`.
abbrev pub taken : Option ℕ → Bytes → ℕ
taken none offered = 0
taken (some n) offered = min n (length offered)

-- What the message callback does with its connection.
pub data Call : Type 0 where
  sends : Bytes → Option ℕ → Call
  takes : ℕ → Call
  shuts_down forces_close : Call

-- What happens to a connection: its channel's events, and calls of its owner.
pub data Event : Type 0 where
  reads : Received → List Call → Event
  writes : Option ℕ → Event
  calls_it : Call → Event

module _ {k : Kernel} where
  -- The constructor, over a socket.
  unfoldable pub create : ℕ → k.State → Connection k
  create fd s = record {
    state = connecting;
    channel = Channel.create fd;
    in_buffer = Buffer.create initial_size;
    output_buffer = Buffer.create initial_size;
    kernel = s;
    sent = [];
    effects = [];
  }

  abbrev pub with_channel : Connection k → Outcome (k.State × Channel) → Outcome (Connection k)
  with_channel c r = r >>= λ (s, ch). ok (record c { kernel = s; channel = ch })

  abbrev pub calls : Connection k → Effect → Connection k
  calls c e = record c { effects = e ∷ c.effects }

  unfoldable pub established : Connection k → Outcome (Connection k)
  established c = do
    require (is_connecting c.state)
    c' ← with_channel (record c { state = connected }) (enable_reading k c.kernel c.channel)
    ok (calls c' connection_callback)

  -- `if (!channel_.has_none_events()) channel_.disable_all();`
  unfoldable pub stop_events : Connection k → Outcome (Connection k)
  stop_events c =
      if not (has_none_events c.channel)
      then with_channel c (disable_all k c.kernel c.channel)
      else ok c

  unfoldable pub destroyed : Connection k → Outcome (Connection k)
  destroyed c =
      if is_connected c.state
      then (stop_events (record c { state = disconnected }) >>= λ c'.
          ok (calls c' connection_callback))
      else ok c

  unfoldable pub handle_close : Connection k → Outcome (Connection k)
  handle_close c = do
    require (is_connected c.state || is_disconnecting c.state)
    c' ← stop_events (record c { state = disconnected })
    ok (calls (calls c' connection_callback) close_callback)

  unfoldable pub force_close : Connection k → Outcome (Connection k)
  force_close c =
      if is_connected c.state || is_disconnecting c.state
      then handle_close (record c { state = disconnecting })
      else ok c

  unfoldable pub handle_error : Connection k → Outcome (Connection k)
  unfolding force_close
  handle_error c = force_close c

  -- What is left over is appended, and the channel waits to write.
  unfoldable pub pend : Connection k → Bytes → Outcome (Connection k)
  pend c rest = append c.output_buffer rest >>= λ buf.
      let c' : Connection k = record c { output_buffer = buf } in
      if is_writing c.channel then ok c' else with_channel c' (enable_writing k c.kernel c.channel)

  -- A direct write, if nothing is waiting, then what is left over.
  unfoldable pub send_in_loop : Connection k → Bytes → Option ℕ → Outcome (Connection k)
  send_in_loop c data' answer =
      if is_disconnected c.state
      then ok c
      else (let wrote =
            if not (is_writing c.channel) && (readable_bytes c.output_buffer == 0)
            then taken answer data'
            else 0 in
          let c' : Connection k = record c { sent = c.sent ++ take wrote data' } in
          if ltb wrote (length data') then pend c' (drop wrote data') else ok c')

  unfoldable pub send : Connection k → Bytes → Option ℕ → Outcome (Connection k)
  send c data' answer = if is_connected c.state then send_in_loop c data' answer else ok c

  -- `send(Buffer*)`, which empties the buffer that it sends.
  unfoldable pub send_buffer : Connection k → Buffer → Option ℕ → Outcome (Connection k × Buffer)
  send_buffer c buf answer =
      if is_connected c.state
      then (send_in_loop c (peek buf) answer >>= λ c'. ok (c', retrieve_all buf))
      else ok (c, buf)

  unfoldable pub shutdown : Connection k → Outcome (Connection k)
  shutdown c =
      if is_connected c.state
      then (if is_writing c.channel
          then ok (record c { state = disconnecting })
          else ok (calls (record c { state = disconnecting }) shut_wr))
      else ok c

  unfoldable pub handle_write : Connection k → Option ℕ → Outcome (Connection k)
  handle_write c answer =
      if is_writing c.channel
      then (let wrote = taken answer (peek c.output_buffer) in
          if ltb 0 wrote
          then (retrieve c.output_buffer wrote >>= λ buf.
              let c' : Connection k = record c {
                output_buffer = buf;
                sent = c.sent ++ take wrote (peek c.output_buffer);
              } in
              (if readable_bytes buf == 0
                then with_channel c' (disable_writing k c.kernel c.channel)
                else ok c')
              >>= λ c''. if is_disconnecting c''.state then shutdown c'' else ok c'')
          else ok c)
      else ok c

  -- A client takes at most the bytes that are there.
  unfoldable pub make : Connection k → Call → Outcome (Connection k)
  make c (sends data' answer) = send c data' answer
  make c (takes n) = retrieve c.in_buffer (min n (readable_bytes c.in_buffer)) >>= λ buf.
      ok (record c { in_buffer = buf })
  make c shuts_down = shutdown c
  make c forces_close = force_close c

  unfoldable pub make_all : Connection k → List Call → Outcome (Connection k)
  make_all c [] = ok c
  make_all c (a ∷ as') = make c a >>= λ c'. make_all c' as'

  -- What `handle_read` does with the answer of `read_fd`.
  unfoldable pub after_read : Connection k → List Call → Returned × Buffer → Outcome (Connection k)
  after_read c message_callback (count n, buf) =
      let c' : Connection k = record c { in_buffer = buf } in
      if ltb 0 n
      then make_all c' message_callback
      else handle_close (record c' { state = disconnecting })
  after_read c message_callback (minus_one errno, buf) =
      let c' : Connection k = record c { in_buffer = buf } in
      if not (errno == eagain) then handle_error c' else ok c'

  -- `message_callback` makes the calls that are given.
  unfoldable pub handle_read : Connection k → Received → List Call → Outcome (Connection k)
  handle_read c answer message_callback =
      read_fd c.in_buffer answer >>= after_read c message_callback

  -- What happens next.
  unfoldable pub step : Connection k → Event → Outcome (Connection k)
  step c (reads answer message_callback) = handle_read c answer message_callback
  step c (writes answer) = handle_write c answer
  step c (calls_it a) = make c a
