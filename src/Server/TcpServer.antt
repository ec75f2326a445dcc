-- ===== src/Server/TcpServer.antt =====
-- `TcpServer` of wuduo/tcp_server.h and wuduo/tcp_server.cpp. The loops of its pool are not its own, so
-- what it asks of a connection's loop is queued there, and what a connection's loop asks of it is
-- queued in its own. A connection is known by the number of connections made before it.
pub mod Sets
pub mod Invariant
pub mod Serving
use wuduo.Prelude.{
  ℕ, suc, Bool, true, false, not, ◌&&◌, ◌||◌, Option, none, some, List, [], ◌∷◌, ◌++◌,
  if◌then◌else◌, ◌==◌, Outcome, ok, abort, out_of_bounds, require, ◌>>=◌,
}
use wuduo.Server
use wuduo.Server.{EventLoopThreadPool, next_loop}
use wuduo.Server.Acceptor.{on_incoming_connection}

-- A `std::shared_ptr<TcpConnection>`, with the loop that the connection runs in and its socket.
pub record ConnectionPtr : Type 0 where
  pub id : ℕ
  pub io_loop : ℕ
  pub sockfd : ℕ

-- `conn->established()` and `conn->destroyed()`
pub data Duty : Type 0 where
  establishes destroys : Duty

pub record Task : Type 0 where
  pub conn : ConnectionPtr
  pub duty : Duty

-- `tasks` is what was queued in the loops of connections, from the first on, and `removals` the tasks
-- of `remove_connection` that are pending in the server's own loop.
pub record TcpServer : Type 0 where
  pub event_loop_thread_pool : EventLoopThreadPool
  pub connections : List ConnectionPtr
  pub made : ℕ
  pub tasks : List Task
  pub removals : List ConnectionPtr

-- `kNumThreads`
abbrev pub num_threads : ℕ
num_threads = 4

abbrev pub create : ℕ → TcpServer
create loop = record {
  event_loop_thread_pool = Server.create loop num_threads;
  connections = [];
  made = 0;
  tasks = [];
  removals = [];
}

-- The pool's part of `start`; listening is the acceptor's.
unfoldable pub start : (ℕ → ℕ) → TcpServer → TcpServer
start thread s = record s { event_loop_thread_pool = Server.start thread s.event_loop_thread_pool }

abbrev pub contains : ℕ → List ConnectionPtr → Bool
contains id [] = false
contains id (c ∷ cs) = (c.id == id) || contains id cs

abbrev pub queue_in : ConnectionPtr → Duty → TcpServer → TcpServer
queue_in c duty s = record s { tasks = s.tasks ++ record { conn = c; duty = duty } ∷ [] }

-- The connection that `std::make_shared` makes in the loop whose turn it is.
abbrev pub make_connection :
    ℕ → Option ℕ × EventLoopThreadPool → TcpServer → Outcome (ConnectionPtr × TcpServer)
make_connection connection_fd (none, pool) s = abort out_of_bounds
make_connection connection_fd (some io_loop, pool) s = ok (
  record { id = s.made; io_loop = io_loop; sockfd = connection_fd },
  record s { event_loop_thread_pool = pool; made = suc s.made },
)

unfoldable pub new_connection : ℕ → TcpServer → Outcome TcpServer
new_connection connection_fd s = next_loop s.event_loop_thread_pool >>= λ r.
    make_connection connection_fd r s >>= λ (conn, s').
    require (not (contains conn.id s'.connections)) >>= λ _.
    ok (queue_in conn establishes (record s' { connections = conn ∷ s'.connections }))

unfoldable pub remove_connection : ConnectionPtr → TcpServer → TcpServer
remove_connection conn s = record s { removals = s.removals ++ conn ∷ [] }

-- `connections_.erase`, with the number of connections that it erased.
abbrev pub erase : ℕ → List ConnectionPtr → ℕ × List ConnectionPtr
erase id [] = (0, [])
erase id (c ∷ cs) =
    let (num_erased, rest) = erase id cs in if c.id == id then (1, cs) else (num_erased, c ∷ rest)

-- The task of `remove_connection`.
unfoldable pub remove_in_loop : ConnectionPtr → TcpServer → Outcome TcpServer
remove_in_loop conn s =
    let (num_erased, rest) = erase conn.id s.connections in
    require (num_erased == 1) >>= λ _. ok (queue_in conn destroys (record s { connections = rest }))

-- What happens to a server: its acceptor finds these sockets, a connection calls its close callback, and
-- its loop runs the next of its tasks.
pub data Event : Type 0 where
  accepts : List ℕ → Event
  closes : ConnectionPtr → Event
  removes : Event

abbrev pub next_removal : List ConnectionPtr → TcpServer → Outcome TcpServer
next_removal [] s = ok s
next_removal (conn ∷ rest) s = remove_in_loop conn (record s { removals = rest })

unfoldable pub step : Event → TcpServer → Outcome TcpServer
step (accepts fds) s = on_incoming_connection (some new_connection) (λ fd s'. s') fds s
step (closes conn) s = ok (remove_connection conn s)
step removes s = next_removal s.removals s

unfoldable pub run : List Event → TcpServer → Outcome TcpServer
run [] s = ok s
run (e ∷ es) s = step e s >>= run es
