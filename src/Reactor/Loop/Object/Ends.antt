-- ===== src/Reactor/Loop/Object/Ends.antt =====
-- How the life of an `EventLoop` of wuduo/event_loop.cpp ends.
use wuduo.Prelude.{
  ℕ, ◌≡◌, inl, inr, refl, true, false, Option, none, some, ok, abort, runtime_error, assertion,
  Bool-cases,
}
use wuduo.Reactor.Channel.{Kernel}
use wuduo.Reactor.Channel.Reading.{reading, enable_reading_lem, destroy_reading}
use wuduo.Reactor.Loop.Object.{
  LoopObject, ThreadLocal, create_timer_queue, destroy_timer_queue, destroy_members, enable_wakeup,
  create, destroy,
}

module _ (k : Kernel) where
  open k use {State}

  abbrev new_loop : ℕ → ℕ → State → LoopObject k
  new_loop timerfd wakeupfd s = record {
    timer_channel = (reading k timerfd s).1;
    wakeup_channel = (reading k wakeupfd (reading k timerfd s).0).1;
    kernel = (reading k wakeupfd (reading k timerfd s).0).0;
  }

  -- A loop that was made.
  abbrev pub Made : ℕ → ℕ → ThreadLocal k → Type 0
  Made timerfd wakeupfd t =
      (l : LoopObject k) × (t' : ThreadLocal k) × (create k (some timerfd) (some wakeupfd) t
        ≡ ok (l, t'))
      × (t'.has_loop ≡ true)
      × ((s : State) → destroy k (record l { kernel = s }) t' ≡ abort assertion)

  made : (timerfd wakeupfd : ℕ) (t : ThreadLocal k) → t.has_loop ≡ false → Made timerfd wakeupfd t
  unfolding create create_timer_queue enable_wakeup destroy destroy_members destroy_timer_queue
  made timerfd wakeupfd t n = (
    new_loop timerfd wakeupfd t.kernel,
    record { has_loop = true; kernel = (new_loop timerfd wakeupfd t.kernel).kernel },
    rw
        (
          enable_reading_lem k timerfd t.kernel,
          n,
          enable_reading_lem k wakeupfd (reading k timerfd t.kernel).0,
        )
        refl,
    refl,
    λ s. rw (destroy_reading k timerfd t.kernel s) refl,
  )

  -- A thread without a loop gets one if both descriptors are given, but then that loop's destructor
  -- fails an assertion, whatever the kernel has come to. Without a timer the constructor throws, and
  -- without an eventfd it does not get to throw: it fails the same assertion on its way. In a thread
  -- that has a loop the constructor throws or fails an assertion.
  pub create-Made :
      (timerfd wakeupfd : ℕ) (w : Option ℕ) (t : ThreadLocal k)
      → (t.has_loop ≡ false → Made timerfd wakeupfd t)
        × (create k none w t ≡ abort runtime_error)
        × (create k (some timerfd) none t ≡ abort assertion)
        × (t.has_loop ≡ true → create k (some timerfd) w t ≡ abort assertion)
  unfolding create create_timer_queue enable_wakeup destroy_members destroy_timer_queue
  create-Made timerfd wakeupfd w t = (
    made timerfd wakeupfd t,
    refl,
    elim (Bool-cases t.has_loop) [
      | inl e ↦ rw (enable_reading_lem k timerfd t.kernel, e) refl
      | inr e ↦
          rw
            (
              enable_reading_lem k timerfd t.kernel,
              e,
              destroy_reading k timerfd t.kernel (reading k timerfd t.kernel).0,
            )
            refl
    ],
    λ e. rw (enable_reading_lem k timerfd t.kernel, e) refl,
  )
