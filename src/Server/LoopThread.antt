-- ===== src/Server/LoopThread.antt =====
-- `EventLoopThread` of wuduo/event_loop_thread.h and .cpp, with the `EventLoop` that its thread's
-- function makes. A `std::thread` that is destroyed while it can be joined ends the process, and so
-- does an exception that leaves the thread's function.
pub mod Fate
use wuduo.Prelude.{
  ℕ, Bool, true, false, not, Option, none, some, List, [], ◌∷◌, Outcome, ok, abort, terminate,
  require, ◌>>=◌,
}
use wuduo.Reactor.Channel.{Kernel}
use wuduo.Reactor.Loop.Object
use wuduo.Reactor.Loop.Object.{LoopObject, ThreadLocal}

pub data Thread : Type 0 where
  joinable joined : Thread

-- Whether `loop_` is set.
pub record EventLoopThread : Type 0 where
  pub has_loop : Bool
  pub started : Bool
  pub exiting : Bool
  pub thread : Option Thread

abbrev pub create : EventLoopThread
create = record { has_loop = false; started = false; exiting = false; thread = none }

-- `loop_->quit(); thread_->join();`
abbrev pub quit_and_join : Bool → Option Thread → Option Thread
quit_and_join true (some thread) = some joined
quit_and_join _ thread = thread

-- The destructor of `thread_`.
abbrev pub destroy_thread : Option Thread → Outcome (Unit {0})
destroy_thread (some joinable) = abort terminate
destroy_thread _ = ok tt

-- `~EventLoopThread`
unfoldable pub destroy : EventLoopThread → Outcome (Unit {0})
destroy t =
    let t' : EventLoopThread = record t { exiting = true } in
    destroy_thread (quit_and_join t'.has_loop t'.thread)

module _ (k : Kernel) where
  -- The loop on the new thread's stack, if it is in the function.
  abbrev pub Stack : Type 0
  Stack = Option (LoopObject k × ThreadLocal k)

  -- `start`, with what the system calls of the loop's constructor answer. The loop that the new thread
  -- makes is what is returned.
  unfoldable pub start :
      Option ℕ → Option ℕ → k.State → EventLoopThread → Outcome (Stack × EventLoopThread)
  start timerfd wakeupfd s t = require (not t.started) >>= λ _.
      Object.create k timerfd wakeupfd (record { has_loop = false; kernel = s }) >>= λ loop.
      ok (some loop, record t { started = true; thread = some joinable })

  -- The thread's function behind `loop.loop()`, with the kernel's state at that time. The loop is
  -- destroyed where its scope ends.
  unfoldable pub leave_loop : k.State → Stack → EventLoopThread → Outcome (Stack × EventLoopThread)
  leave_loop s none t = ok (none, t)
  leave_loop s (some (loop, local)) t =
      let t' : EventLoopThread = record t { has_loop = false } in
      Object.destroy k (record loop { kernel = s }) local >>= λ _. ok (none, t')

  pub data Event : Type 0 where
    starts : Option ℕ → Option ℕ → k.State → Event
    leaves : k.State → Event

  -- The events, and the destructor.
  unfoldable pub live : List Event → Stack × EventLoopThread → Outcome (Unit {0})
  live [] (stack, t) = destroy t
  live (starts timerfd wakeupfd s ∷ es) (stack, t) = start timerfd wakeupfd s t >>= live es
  live (leaves s ∷ es) (stack, t) = leave_loop s stack t >>= live es
