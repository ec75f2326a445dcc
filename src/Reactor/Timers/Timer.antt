-- ===== src/Reactor/Timers/Timer.antt =====
-- `Timer` of wuduo/timer.h, and how `EventLoop` of wuduo/event_loop.cpp makes one. A callback is a
-- number, and `none` is an empty one.
pub mod Expired
pub mod Once
use wuduo.Prelude.{
  ℕ, ◌+◌, Bool, true, false, not, ◌||◌, Option, none, some, List, [], ◌∷◌, ◌++◌, if◌then◌else◌, leb,
  ◌==◌,
}
use wuduo.Reactor.Timers.{Entry, TimerQueue, add_timer, get_expired}

pub record Timer : Type 0 where
  pub callback : Option ℕ
  pub when : ℕ
  pub interval : ℕ
  pub repeats : Bool

abbrev pub create : Option ℕ → ℕ → ℕ → Timer
create callback when interval = record {
  callback = callback;
  when = when;
  interval = interval;
  repeats = not (interval == 0);
}

abbrev pub called : Option ℕ → List ℕ
called none = []
called (some callback) = callback ∷ []

-- The callbacks that `Timer::run` calls.
unfoldable pub run : Timer → List ℕ
run t = called t.callback

abbrev pub is_expired : ℕ → Timer → Bool
is_expired now t = leb t.when now

-- The timers that are alive, by their addresses, with the queue.
pub record Timers : Type 0 where
  pub heap : ℕ → Timer
  pub queue : TimerQueue

-- `TimerQueue::add_timer` at a time; `std::make_shared` gives the new timer an address.
unfoldable pub add : ℕ → ℕ → Option ℕ → ℕ → ℕ → Timers → Timers
add now address callback when interval t = record {
  heap = λ a. if a == address then create callback when interval else t.heap a;
  queue = add_timer now (record { when = when; timer = address }) t.queue;
}

unfoldable pub run_at : ℕ → ℕ → Option ℕ → ℕ → Timers → Timers
run_at now address callback when t = add now address callback when 0 t

-- The clock is read before the alarm is reset.
unfoldable pub run_after : ℕ → ℕ → ℕ → Option ℕ → ℕ → Timers → Timers
run_after asked now address callback delay t = run_at now address callback (asked + delay) t

-- What `TimerQueue::handle_read` runs.
unfoldable pub run_all : (ℕ → Timer) → List Entry → List ℕ
run_all heap [] = []
run_all heap (e ∷ es) = run (heap e.timer) ++ run_all heap es

unfoldable pub run_expired : ℕ → Timers → List ℕ × Timers
run_expired now t =
    let (expired, q) = get_expired now t.queue in (run_all t.heap expired, record t { queue = q })

abbrev pub is_alive : ℕ → List Entry → Bool
is_alive address [] = false
is_alive address (e ∷ es) = (e.timer == address) || is_alive address es

-- What happens to a queue: a timer is added, with any interval, or the alarm has gone off.
pub data TimerEvent : Type 0 where
  adds : ℕ → ℕ → Option ℕ → ℕ → ℕ → TimerEvent
  fires : ℕ → TimerEvent

-- With the callbacks that were called so far. An address is not given twice at a time.
unfoldable pub happen : TimerEvent → List ℕ × Timers → List ℕ × Timers
happen (adds now address callback when interval) (ran, t) =
    if is_alive address t.queue.timers
    then (ran, t)
    else (ran, add now address callback when interval t)
happen (fires now) (ran, t) = let (callbacks, t') = run_expired now t in (ran ++ callbacks, t')

unfoldable pub happen_all : List TimerEvent → List ℕ × Timers → List ℕ × Timers
happen_all [] r = r
happen_all (v ∷ vs) r = happen_all vs (happen v r)
