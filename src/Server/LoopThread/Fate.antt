-- ===== src/Server/LoopThread/Fate.antt =====
-- How the life of a thread object of wuduo/event_loop_thread.cpp ends.
use wuduo.Prelude.{
  ℕ, ◌≡◌, refl, true, false, none, some, List, [], ◌∷◌, Outcome, ok, abort, assertion,
  runtime_error, terminate,
}
use wuduo.Reactor.Channel.{Kernel}
use wuduo.Reactor.Loop.Object
use wuduo.Reactor.Loop.Object.{LoopObject, ThreadLocal}
use wuduo.Reactor.Loop.Object.Ends.{create-Made}
use wuduo.Server.LoopThread.{
  EventLoopThread, create, destroy, start, leave_loop, Event, starts, leaves, live, joinable,
}

module _ (k : Kernel) where
  -- A thread that was not started has no loop to leave. One that was ends the process whatever comes.
  abbrev pub fate : List (Event k) → Outcome (Unit {0})
  fate [] = ok tt
  fate (leaves s ∷ es) = fate es
  fate (starts none wakeupfd s ∷ es) = abort runtime_error
  fate (starts (some timerfd) none s ∷ es) = abort assertion
  fate (starts (some timerfd) (some wakeupfd) s ∷ []) = abort terminate
  fate (starts (some timerfd) (some wakeupfd) s ∷ e ∷ es) = abort assertion

  abbrev fresh : k.State → ThreadLocal k
  fresh s = record { has_loop = false; kernel = s }

  abbrev running : EventLoopThread
  running = record create { started = true; thread = some joinable }

  -- What becomes of a thread that is in its loop.
  live-running :
      (es : List (Event k)) (timerfd wakeupfd : ℕ) (s : k.State) (l : LoopObject k)
      (t : ThreadLocal k)
      → ((s' : k.State) → Object.destroy k (record l { kernel = s' }) t ≡ abort assertion)
      → live k es (some (l, t), running) ≡ fate (starts (some timerfd) (some wakeupfd) s ∷ es)
  unfolding live start leave_loop destroy
  live-running [] timerfd wakeupfd s l t h = refl
  live-running (starts timerfd' wakeupfd' s' ∷ es) timerfd wakeupfd s l t h = refl
  live-running (leaves s' ∷ es) timerfd wakeupfd s l t h = rw (h s') refl

  -- Whatever happens to a thread object in its life: if it is never started, it is destroyed without
  -- more. Where its loop's constructor fails, that ends the process. A thread that was started ends it
  -- with `std::terminate` if it is destroyed in its loop, since `loop_` is never set, and with a failed
  -- assertion if it leaves its loop, whose destructor fails, or is started again.
  pub live-create : (es : List (Event k)) → live k es (none, create) ≡ fate es
  unfolding live start leave_loop destroy
  live-create [] = refl
  live-create (leaves s ∷ es) = live-create es
  live-create (starts none wakeupfd s ∷ es) = rw (create-Made k 0 0 wakeupfd (fresh s)).1 refl
  live-create (starts (some timerfd) none s ∷ es) =
      rw (create-Made k timerfd 0 none (fresh s)).2 refl
  live-create (starts (some timerfd) (some wakeupfd) s ∷ es) =
      let (l, t, made, own, ends) = (create-Made k timerfd wakeupfd none (fresh s)).0 refl in
      rw made (live-running es timerfd wakeupfd s l t ends)
