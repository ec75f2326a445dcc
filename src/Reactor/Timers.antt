-- ===== src/Reactor/Timers.antt =====
-- `TimerQueue` of wuduo/timer_queue.h and wuduo/timer_queue.cpp, in the thread of its loop. A time
-- is a number of the clock's ticks after its epoch, and a timer is known by its address. The set of
-- entries is a list in the set's order.
pub mod Expiry
pub mod Alarm
pub mod Interval
pub mod Timer
use wuduo.Reactor.Timers.Interval.{Timespec, interval}
use wuduo.Prelude.{
  ℕ, ◌-◌, ◌*◌, ◌%◌, ◌/◌, Bool, true, false, ◌&&◌, ◌||◌, Option, none, some, List, [], ◌∷◌, ◌++◌,
  if◌then◌else◌, ltb, ◌==◌,
}

pub record Entry : Type 0 where
  pub when : ℕ
  pub timer : ℕ

-- `entry_comparator`, the order of pairs.
abbrev pub before : Entry → Entry → Bool
before a b = ltb a.when b.when || ((a.when == b.when) && ltb a.timer b.timer)

-- With the calls of `timerfd_settime` so far, by the time of the call and the value.
pub record TimerQueue : Type 0 where
  pub timers : List Entry
  pub settings : List (ℕ × Timespec)

-- `timers_.emplace`: an entry that is there already stays alone.
unfoldable pub emplace : Entry → List Entry → List Entry
emplace e [] = e ∷ []
emplace e (x ∷ xs) =
    let rest = emplace e xs in
    if before e x then e ∷ x ∷ xs else (if before x e then x ∷ rest else x ∷ xs)

-- At this time.
unfoldable pub reset_alarm : ℕ → ℕ → TimerQueue → TimerQueue
reset_alarm now near_future q = record q {
  settings = q.settings ++ (now, interval now near_future) ∷ [];
}

-- `timers_.empty() || when < timers_.begin()->first`
abbrev pub is_first : ℕ → List Entry → Bool
is_first when [] = true
is_first when (x ∷ xs) = ltb when x.when

unfoldable pub add_timer : ℕ → Entry → TimerQueue → TimerQueue
add_timer now e q =
    let q' : TimerQueue = if is_first e.when q.timers then reset_alarm now e.when q else q in
    record q' { timers = emplace e q'.timers }

-- `UINTPTR_MAX`
abbrev pub uintptr_max : ℕ
uintptr_max = 18446744073709551615

-- The entries before `lower_bound`, and those from it on.
unfoldable pub split_before : Entry → List Entry → List Entry × List Entry
split_before bound [] = ([], [])
split_before bound (x ∷ xs) =
    let (expired, valid) = split_before bound xs in
    if before x bound then (x ∷ expired, valid) else ([], x ∷ xs)

unfoldable pub get_expired : ℕ → TimerQueue → List Entry × TimerQueue
get_expired now q =
    let (expired, valid) = split_before (record { when = now; timer = uintptr_max }) q.timers in
    (expired, record q { timers = valid })

abbrev pub arm_first : ℕ → List Entry → TimerQueue → TimerQueue
arm_first now [] q = q
arm_first now (x ∷ xs) q = reset_alarm now x.when q

abbrev pub add_timers : List (ℕ × Entry) → TimerQueue → TimerQueue
add_timers [] q = q
add_timers ((now, e) ∷ es) q = add_timers es (add_timer now e q)

-- `handle_read`, with the timers that it runs; `added` are those that their callbacks add, with the
-- times at which they do, and `later` is the time at which the alarm is reset behind them.
unfoldable pub handle_read : ℕ → List (ℕ × Entry) → ℕ → TimerQueue → List Entry × TimerQueue
handle_read now added later q =
    let (expired, q') = get_expired now q in
    let q'' : TimerQueue = add_timers added q' in (expired, arm_first later q''.timers q'')
