-- ===== src/Reactor/Loop/Object.antt =====
-- An `EventLoop` of wuduo/event_loop.cpp as an object, with its member `timer_queue_` of
-- wuduo/timer_queue.cpp: what its constructor and its destructor do to the two channels, and to
-- `loop_in_this_thread`. What `timerfd_create` and `eventfd` answer is an argument, `none` for the -1.
pub mod Ends
use wuduo.Prelude.{
  ℕ, Bool, true, false, not, Option, none, some, Outcome, ok, abort, runtime_error, require, ◌>>=◌,
  ◌>>◌, List,
}
use wuduo.Reactor.Channel
use wuduo.Reactor.Channel.{Channel, Kernel, enable_reading}

-- `thread_id_` is that of the thread that makes it, in which it is used.
pub record LoopObject (k : Kernel) : Type 0 where
  pub timer_channel : Channel
  pub wakeup_channel : Channel
  pub kernel : k.State

-- Whether `loop_in_this_thread` is set.
pub record ThreadLocal (k : Kernel) : Type 0 where
  pub has_loop : Bool
  pub kernel : k.State

-- The number that the wake-up channel gets; it is not used where it stands for -1.
abbrev pub fd_of : Option ℕ → ℕ
fd_of none = 0
fd_of (some fd) = fd

module _ (k : Kernel) where
  -- `TimerQueue::TimerQueue`
  unfoldable pub create_timer_queue : Option ℕ → k.State → Outcome (k.State × Channel)
  create_timer_queue none s = abort runtime_error
  create_timer_queue (some timerfd) s = enable_reading k s (Channel.create timerfd)

  -- `TimerQueue::~TimerQueue`: behind `::close`, the channel is destroyed.
  unfoldable pub destroy_timer_queue : k.State → Channel → Outcome (k.State × Channel)
  destroy_timer_queue s ch = Channel.destroy k s ch

  -- The members, the last one first.
  unfoldable pub destroy_members : LoopObject k → Outcome k.State
  destroy_members l = destroy_timer_queue l.kernel l.timer_channel >>= λ (s, ch).
      Channel.destroy k s l.wakeup_channel >>= λ (s', ch'). ok s'

  -- The constructor's body from the test of `wakeupfd_` on. An exception destroys the members before
  -- it leaves the constructor.
  unfoldable pub enable_wakeup : Option ℕ → LoopObject k → Outcome (LoopObject k)
  enable_wakeup none l = destroy_members l >>= λ s. abort runtime_error
  enable_wakeup (some wakeupfd) l = enable_reading k l.kernel l.wakeup_channel >>= λ (s, ch).
      ok (record l { wakeup_channel = ch; kernel = s })

  -- `EventLoop::EventLoop`. A channel that was not registered is destroyed without more when the
  -- timer queue throws.
  unfoldable pub create :
      Option ℕ → Option ℕ → ThreadLocal k → Outcome (LoopObject k × ThreadLocal k)
  create timerfd wakeupfd t = create_timer_queue timerfd t.kernel >>= λ (s, ch).
      require (not t.has_loop) >>= λ _.
      enable_wakeup wakeupfd (record {
        timer_channel = ch;
        wakeup_channel = Channel.create (fd_of wakeupfd);
        kernel = s;
      })
      >>= λ l. ok (l, record { has_loop = true; kernel = l.kernel })

  -- `EventLoop::~EventLoop`
  unfoldable pub destroy : LoopObject k → ThreadLocal k → Outcome (ThreadLocal k)
  destroy l t =
      let t' : ThreadLocal k = record t { has_loop = false } in
      destroy_members l >>= λ s. ok (record t' { kernel = s })
