-- ===== src/Server/Lifetime.antt =====
-- Who keeps a `TcpConnection` of wuduo/tcp_server.cpp and wuduo/tcp_connection.cpp alive: the server's
-- set, the tasks that hold a `std::shared_ptr` to it, and its users. A task of `send`, `shutdown` or
-- `force_close` holds `this` alone, and so does the list of active channels. Its loop is one of the
-- pool's, so that the server's loop and users are other threads; a call of theirs is one step.
pub mod Stages
pub mod Steps
pub mod Tasks
pub mod Twice
pub mod Mirrors
pub mod Safety
use wuduo.Prelude.{
  ℕ, zero, suc, ◌-◌, Bool, true, false, not, ◌&&◌, ◌||◌, List, [], ◌∷◌, ◌++◌, if◌then◌else◌, ltb,
  Outcome, ok, abort, use_after_free, require, ◌>>=◌, ◌>>◌,
}
use wuduo.Tcp.{
  State, connecting, connected, disconnecting, disconnected, is_connecting, is_connected,
  is_disconnecting,
}

-- The tasks that are queued in the connection's loop: of `new_connection` and `remove_connection`, which
-- hold a reference, and of calls of other threads, which hold none.
pub data IoTask : Type 0 where
  establishes destroys : IoTask
  sends shuts_write closes : IoTask

abbrev pub holds : IoTask → Bool
holds establishes = true
holds destroys = true
holds _ = false

abbrev pub any_holds : List IoTask → Bool
any_holds [] = false
any_holds (t ∷ ts) = holds t || any_holds ts

-- Where the connection's loop is.
pub data Phase : Type 0 where
  waiting handling doing : Phase

-- `active` tells whether the channel is in the list of active channels. `removals` counts the tasks of
-- `remove_connection` in the server's loop. `dumped` are the tasks of `tasks_dump` that have run: they
-- are destroyed with it, when all have.
pub record Life : Type 0 where
  pub state : State
  pub phase : Phase
  pub active : Bool
  pub in_set : Bool
  pub removals : ℕ
  pub users : ℕ
  pub io_tasks : List IoTask
  pub running : List IoTask
  pub dumped : List IoTask
  pub freed : Bool

-- What `new_connection` leaves behind.
abbrev pub accepted : Life
accepted = record {
  state = connecting;
  phase = waiting;
  active = false;
  in_set = true;
  removals = 0;
  users = 0;
  io_tasks = establishes ∷ [];
  running = [];
  dumped = [];
  freed = false;
}

abbrev pub is_held : Life → Bool
is_held l =
    l.in_set
    || (ltb 0 l.removals
        || (ltb 0 l.users || (any_holds l.io_tasks || (any_holds l.running || any_holds l.dumped))))

-- The last reference is gone.
abbrev pub release : Life → Life
release l = record l { freed = l.freed || not (is_held l) }

abbrev pub is_open : State → Bool
is_open s = is_connected s || is_disconnecting s

-- `handle_close`, of which the close callback asks the server's loop to remove the connection.
abbrev pub handle_close : Life → Life
handle_close l = record l { state = disconnected; removals = suc l.removals }

-- What `force_close` runs in the connection's loop.
abbrev pub close_if_open : Life → Life
close_if_open l = if is_open l.state then handle_close l else l

-- Use of the connection.
abbrev pub touch : Life → Outcome Life
touch l = if l.freed then abort use_after_free else ok l

unfoldable pub run_task : IoTask → Life → Outcome Life
run_task establishes l =
    touch l >>= λ l'. require (is_connecting l'.state) >>= λ _. ok (record l' { state = connected })
run_task destroys l =
    touch l >>= λ l'. ok (if is_connected l'.state then record l' { state = disconnected } else l')
run_task sends l = touch l
run_task shuts_write l = touch l
run_task closes l = touch l >>= λ l'. ok (close_if_open l')

-- How `handle_read` ends: it leaves the connection as it is; an error, or the message callback, closes
-- it by `force_close`; or the peer has closed.
pub data Reading : Type 0 where
  goes_on forces_close peer_closed : Reading

abbrev pub handle_read : Reading → Life → Life
handle_read goes_on l = l
handle_read forces_close l = close_if_open l
-- `set_state(kDisconnecting)` comes first, so that the assertion of `handle_close` holds.
handle_read peer_closed l = handle_close l

pub data Action : Type 0 where
  -- Of the connection's loop: its next move; the connection's own handler; and a call of `force_close`
  -- from another handler, or from a task.
  moves : Action
  handles : Reading → Action
  handler_force_closes task_force_closes : Action
  -- Of the server's loop.
  removes : Action
  -- Of users: to take a reference, in a callback or from another user, to drop it, and to call.
  takes drops : Action
  calls_send calls_shutdown calls_force_close : Action

abbrev pub is_handling : Phase → Bool
is_handling handling = true
is_handling _ = false

abbrev pub is_doing : Phase → Bool
is_doing doing = true
is_doing _ = false

unfoldable pub move : Phase → List IoTask → Life → Outcome Life
-- `epoll_wait` reports a channel that is registered.
move waiting ts l = ok (record l { phase = handling; active = is_open l.state })
move handling ts l =
    ok (record l { phase = doing; active = false; running = l.io_tasks; io_tasks = [] })
move doing (t ∷ rest) l = run_task t (record l { running = rest; dumped = t ∷ l.dumped })
move doing [] l = ok (record l { phase = waiting; dumped = [] })

abbrev pub queue : IoTask → Life → Life
queue t l = record l { io_tasks = l.io_tasks ++ t ∷ [] }

abbrev pub set_disconnecting : Life → Life
set_disconnecting l = record l { state = disconnecting }

-- What cannot happen is ignored.
unfoldable pub act : Action → Life → Outcome Life
act moves l = move l.phase l.running l
act (handles reading) l =
    if l.active
    then (touch l >>= λ l'. ok (handle_read reading (record l' { active = false })))
    else ok l
act handler_force_closes l =
    if ltb 0 l.users && is_handling l.phase then (touch l >>= λ l'. ok (close_if_open l')) else ok l
act task_force_closes l =
    if ltb 0 l.users && is_doing l.phase then (touch l >>= λ l'. ok (close_if_open l')) else ok l
act removes l =
    if ltb 0 l.removals
    then (require l.in_set >>= λ _.
        ok (queue destroys (record l { removals = l.removals - 1; in_set = false })))
    else ok l
act takes l = if is_held l then ok (record l { users = suc l.users }) else ok l
act drops l = ok (record l { users = l.users - 1 })
act calls_send l =
    if ltb 0 l.users
    then (touch l >>= λ l'. ok (if is_connected l'.state then queue sends l' else l'))
    else ok l
act calls_shutdown l =
    if ltb 0 l.users
    then (touch l >>= λ l'.
        ok (if is_connected l'.state then queue shuts_write (set_disconnecting l') else l'))
    else ok l
act calls_force_close l =
    if ltb 0 l.users
    then (touch l >>= λ l'.
        ok (if is_open l'.state then queue closes (set_disconnecting l') else l'))
    else ok l

unfoldable pub run : List Action → Life → Outcome Life
run [] l = ok l
run (a ∷ as') l = act a l >>= λ l'. run as' (release l')
