-- ===== src/Tests/Alarms.antt =====
-- The timer of wuduo/timer_queue.cpp at concrete times.
use wuduo.Prelude.{ℕ, zero, suc, ◌+◌, ◌*◌, ◌<◌, ◌≡◌, refl, ap, Option, none, some, arith}
use wuduo.Prelude.Int.{ℤ, pos, negsuc}
use wuduo.Reactor.Timers.Interval.{second, Timerfd, set_alarm, set_alarm-expiry}

-- A timer that keeps only when it expires.
abbrev pub armed : Option ℕ → ℕ → ℤ → ℤ → Option ℕ
armed s now (negsuc sec) nsec = s
armed s now (pos sec) (negsuc nsec) = s
armed s now (pos zero) (pos zero) = none
armed s now (pos (suc sec)) (pos nsec) = some (now + (suc sec * second + nsec))
armed s now (pos zero) (pos (suc nsec)) = some (now + suc nsec)

pub armed_expires :
    (s : Option ℕ) (now sec nsec : ℕ)
    → 0 < sec + nsec
    → nsec < second
    → armed s now (pos sec) (pos nsec) ≡ some (now + (sec * second + nsec))
armed_expires s now zero zero h k = absurd (omega (arith, h))
armed_expires s now zero (suc nsec) h k = ap (λ i. some (now + i)) (omega arith)
armed_expires s now (suc sec) nsec h k = refl

pub armed_refuses : (s : Option ℕ) (now nsec : ℕ) (sec : ℤ) → armed s now sec (negsuc nsec) ≡ s
armed_refuses s now nsec (pos sec) = refl
armed_refuses s now nsec (negsuc sec) = refl

abbrev pub expiry_timer : Timerfd
expiry_timer = record {
  State = Option ℕ;
  settime = λ s now v. armed s now v.tv_sec v.tv_nsec;
  expiry = λ s. s;
  settime_arms = armed_expires;
  settime_disarms = λ s now. refl;
  settime_refuses_sec = λ s now sec nsec. refl;
  settime_refuses_nsec = armed_refuses;
}

-- A tenth of a second late, with the timer set to a later time: the timer stays as it is.
set_alarm-expiry_example :
    set_alarm expiry_timer (some 9000000000) 5000000000 4900000000 ≡ some 9000000000
set_alarm-expiry_example = set_alarm-expiry expiry_timer (some 9000000000) 5000000000 4900000000
