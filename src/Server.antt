-- ===== src/Server.antt =====
-- `EventLoopThreadPool` of wuduo/event_loop_thread_pool.h and .cpp, in the thread of the base loop. A
-- loop is known by its address, and a thread by the loop that it starts.
pub mod Turns
pub mod LoopThread
pub mod InetAddress
pub mod Acceptor
pub mod TcpServer
pub mod Lifetime
use wuduo.Prelude.{
  ℕ, zero, suc, ◌%◌, Bool, true, false, not, Option, none, some, List, [], ◌∷◌, if◌then◌else◌, ◌==◌,
  ltb, length, get_elem?, Outcome, ok, abort, require, ◌>>=◌,
}

pub record EventLoopThreadPool : Type 0 where
  pub base_loop : ℕ
  pub num_threads : ℕ
  pub started : Bool
  pub next : ℕ
  pub workers : List ℕ

abbrev pub create : ℕ → ℕ → EventLoopThreadPool
create base_loop num_threads = record {
  base_loop = base_loop;
  num_threads = num_threads;
  started = false;
  next = 0;
  workers = [];
}

-- The loops of the first threads that are started, by the order of their start.
abbrev pub started_loops : ℕ → (ℕ → ℕ) → List ℕ
started_loops zero thread = []
started_loops (suc n) thread = thread 0 ∷ started_loops n (λ i. thread (suc i))

unfoldable pub start : (ℕ → ℕ) → EventLoopThreadPool → EventLoopThreadPool
start thread p = record p { started = true; workers = started_loops p.num_threads thread }

-- Behind the end of `workers_` is `none`.
unfoldable pub next_loop : EventLoopThreadPool → Outcome (Option ℕ × EventLoopThreadPool)
next_loop p = require p.started >>= λ _. elim p.workers [
  | [] ↦ ok (some p.base_loop, p)
  | w ∷ ws ↦ ok (get_elem? (w ∷ ws) p.next, record p { next = suc p.next % p.num_threads })
]
