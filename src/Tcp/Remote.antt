-- ===== src/Tcp/Remote.antt =====
-- A `TcpConnection` that other threads call, wuduo/tcp_connection.h and wuduo/tcp_connection.cpp: such a
-- call tests the state, sets it, and hands the rest to the loop as a task, in three steps of its own
-- thread, with anything between them. The tasks of the connection are run in the order in which they
-- were queued, between its handlers.
pub mod Established
pub mod Safety
use wuduo.Prelude.{
  ℕ, zero, suc, none, some, Bool, true, false, not, ◌||◌, Option, List, [], ◌∷◌, ◌++◌,
  if◌then◌else◌, Outcome, ok, abort, ◌>>=◌,
}
use wuduo.Buffer.{Bytes}
use wuduo.Reactor.Channel.{Kernel, is_writing}
use wuduo.Tcp.{
  disconnecting, is_connected, is_disconnecting, Connection, calls, shut_wr, Event, step,
  handle_close, send_in_loop,
}

-- The tasks that `send`, `shutdown` and `force_close` hand to the loop.
pub data Task : Type 0 where
  sends_in_loop : Bytes → Task
  shuts_write closes : Task

-- Calls of another thread that set the state.
pub data Closing : Type 0 where
  shuts_down forces_close : Closing

abbrev pub task_of : Closing → Task
task_of shuts_down = shuts_write
task_of forces_close = closes

-- `tested` are the calls of other threads that have found the state as they want it and have not set it
-- yet, and `to_queue` the tasks of those that have only to queue them.
pub record Shared (k : Kernel) : Type 0 where
  pub conn : Connection k
  pub tasks : List Task
  pub tested : List Closing
  pub to_queue : List Task

-- Calls of another thread.
pub data RemoteCall : Type 0 where
  sends : Bytes → RemoteCall
  asks : Closing → RemoteCall

-- What happens: in the loop's thread; in others, where a call begins, one of those that have tested the
-- state sets it, and one queues its task; and the loop's next task, with what `write` answers.
pub data Happening : Type 0 where
  here : Event → Happening
  elsewhere : RemoteCall → Happening
  sets queues : ℕ → Happening
  next_task : Option ℕ → Happening

-- The one with this number, and the others.
abbrev pub with_front {ℓ} : {A : Type ℓ} → A → Option (A × List A) → Option (A × List A)
with_front x none = none
with_front x (some (y, ys)) = some (y, x ∷ ys)

abbrev pub take_out {ℓ} : {A : Type ℓ} → ℕ → List A → Option (A × List A)
take_out n [] = none
take_out zero (x ∷ xs) = some (x, xs)
take_out (suc n) (x ∷ xs) = with_front x (take_out n xs)

module _ {k : Kernel} where
  -- Each of them up to its test.
  unfoldable pub remote_send : Bytes → Shared k → Shared k
  remote_send data' s =
      if is_connected s.conn.state
      then record s { to_queue = s.to_queue ++ sends_in_loop data' ∷ [] }
      else s

  unfoldable pub remote_shutdown : Shared k → Shared k
  remote_shutdown s =
      if is_connected s.conn.state then record s { tested = s.tested ++ shuts_down ∷ [] } else s

  unfoldable pub remote_force_close : Shared k → Shared k
  remote_force_close s =
      if is_connected s.conn.state || is_disconnecting s.conn.state
      then record s { tested = s.tested ++ forces_close ∷ [] }
      else s

  abbrev pub call : RemoteCall → Shared k → Shared k
  call (sends data') s = remote_send data' s
  call (asks shuts_down) s = remote_shutdown s
  call (asks forces_close) s = remote_force_close s

  -- `set_state(kDisconnecting)`, whatever the state is by now.
  abbrev pub set_disconnecting : Option (Closing × List Closing) → Shared k → Shared k
  set_disconnecting none s = s
  set_disconnecting (some (a, rest)) s = record s {
    conn = record (s.conn) { state = disconnecting };
    tested = rest;
    to_queue = s.to_queue ++ task_of a ∷ [];
  }

  -- `run_in_loop`
  abbrev pub queue : Option (Task × List Task) → Shared k → Shared k
  queue none s = s
  queue (some (task, rest)) s = record s { tasks = s.tasks ++ task ∷ []; to_queue = rest }

  unfoldable pub do_task : Task → Option ℕ → Connection k → Outcome (Connection k)
  do_task (sends_in_loop data') answer c = send_in_loop c data' answer
  do_task shuts_write answer c = if is_writing c.channel then ok c else ok (calls c shut_wr)
  do_task closes answer c =
      if is_connected c.state || is_disconnecting c.state then handle_close c else ok c

  abbrev pub do_first : List Task → Option ℕ → Shared k → Outcome (Shared k)
  do_first [] answer s = ok s
  do_first (task ∷ rest) answer s =
      do_task task answer s.conn >>= λ c. ok (record s { conn = c; tasks = rest })

  unfoldable pub happen : Happening → Shared k → Outcome (Shared k)
  happen (here e) s = step s.conn e >>= λ c. ok (record s { conn = c })
  happen (elsewhere a) s = ok (call a s)
  happen (sets n) s = ok (set_disconnecting (take_out n s.tested) s)
  happen (queues n) s = ok (queue (take_out n s.to_queue) s)
  happen (next_task answer) s = do_first s.tasks answer s
