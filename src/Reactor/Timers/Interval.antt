-- ===== src/Reactor/Timers/Interval.antt =====
-- The interval that `TimerQueue::reset_alarm` of wuduo/timer_queue.cpp sets its timer to. Times are
-- nanoseconds, and the timer is the kernel's: a parameter, with what the manual page of
-- `timerfd_settime` says.
use wuduo.Prelude.{
  ℕ, zero, suc, ◌+◌, ◌-◌, ◌*◌, ◌/◌, ◌%◌, ◌^◌, ◌<◌, ◌≡◌, ap, ◌∙◌, inl, inr, Option, none, some,
  if◌then◌else◌, ltb, leb, ◌==◌, arith, Bool-cases, ltb→lt, ltb→le, le→leb, lt→leb, ==_iff,
}
use wuduo.Prelude.Int.{ℤ, pos, negsuc, neg}

pub record Timespec : Type 0 where
  pub tv_sec : ℤ
  pub tv_nsec : ℤ

abbrev pub second : ℕ
second = 10 ^ 9

-- `delta` is `near_future - now`; the conversion to seconds and `%` both round towards zero.
unfoldable pub interval : ℕ → ℕ → Timespec
interval now near_future =
    if leb now near_future
    then record {
      tv_sec = pos ((near_future - now) / second);
      tv_nsec = pos ((near_future - now) % second);
    }
    else record {
      tv_sec = neg ((now - near_future) / second);
      tv_nsec = neg ((now - near_future) % second);
    }

-- One timer of the kernel.
pub record Timerfd : Type 1 where
  pub State : Type 0
  -- `timerfd_settime(fd, 0, {{0, 0}, value}, NULL)` at this time.
  pub settime : State → ℕ → Timespec → State
  -- When the timer will expire, if it is armed.
  pub expiry : State → Option ℕ
  pub settime_arms :
      (s : State) (now sec nsec : ℕ)
      → 0 < sec + nsec
      → nsec < second
      → expiry (settime s now (record { tv_sec = pos sec; tv_nsec = pos nsec }))
        ≡ some (now + (sec * second + nsec))
  pub settime_disarms :
      (s : State) (now : ℕ)
      → expiry (settime s now (record { tv_sec = pos 0; tv_nsec = pos 0 })) ≡ none
  -- A value below zero is refused with EINVAL.
  pub settime_refuses_sec :
      (s : State) (now sec : ℕ) (nsec : ℤ)
      → expiry (settime s now (record { tv_sec = negsuc sec; tv_nsec = nsec })) ≡ expiry s
  pub settime_refuses_nsec :
      (s : State) (now nsec : ℕ) (sec : ℤ)
      → expiry (settime s now (record { tv_sec = sec; tv_nsec = negsuc nsec })) ≡ expiry s

module _ (k : Timerfd) where
  open k use {
    State, settime, expiry, settime_arms, settime_disarms, settime_refuses_sec,
    settime_refuses_nsec,
  }

  unfoldable pub set_alarm : State → ℕ → ℕ → State
  set_alarm s now near_future = settime s now (interval now near_future)

  refused :
      (s : State) (now sec nsec : ℕ)
      → 0 < sec + nsec
      → expiry (settime s now (record { tv_sec = neg sec; tv_nsec = neg nsec })) ≡ expiry s
  refused s now (suc sec) nsec h = settime_refuses_sec s now sec (neg nsec)
  refused s now zero (suc nsec) h = settime_refuses_nsec s now nsec (pos 0)
  refused s now zero zero h = absurd (omega arith)

  -- `reset_alarm` makes the timer expire at exactly the time that it is given, if that time is to come.
  -- For the present time it disarms the timer, and for a time that has passed it leaves the timer as it
  -- was: a timer that is due already does not set the alarm.
  pub set_alarm-expiry :
      (s : State) (now near_future : ℕ)
      → expiry (set_alarm s now near_future) ≡ (
          if ltb now near_future
          then some near_future
          else if now == near_future
          then none
          else expiry s)
  unfolding set_alarm interval
  set_alarm-expiry s now near_future = elim (Bool-cases (ltb now near_future)) [
    | inl ahead ↦
        let d : ℕ = near_future - now in
        let h = ltb→lt now near_future ahead in
        rw (ahead, set_alarm, interval, le→leb now near_future (omega (arith, h)))
          (settime_arms s now (d / second) (d % second) (omega (arith, h)) (omega arith)
            ∙ ap some (omega (arith, h)))
    | inr past ↦
        let h = ltb→le now near_future past in
        elim (Bool-cases (now == near_future)) [
          | inl present ↦
              let same = (==_iff now near_future).0 present in
              let nothing : near_future - now ≡ 0 = omega (arith, same) in
              rw
                (
                  past,
                  present,
                  set_alarm,
                  interval,
                  le→leb now near_future (omega (arith, same)),
                  nothing,
                )
                (settime_disarms s now)
          | inr differs ↦
              let before : near_future < now = ground (arith, h) in
              rw (past, differs, set_alarm, interval, lt→leb now near_future before)
                (refused s now ((now - near_future) / second) ((now - near_future) % second)
                  (omega (arith, before)))
        ]
  ]
