-- ===== src/Reactor/Timers/Alarm.antt =====
-- What the alarm of wuduo/timer_queue.cpp is set to. The timer is the kernel's, a parameter.
use wuduo.Prelude.{
  ℕ, ◌<◌, ◌≡◌, refl, sym, ap, subst, ◌∙◌, inl, inr, true, false, Option, none, some, List, [], ◌∷◌,
  ◌++◌, if◌then◌else◌, ◌==◌, ltb, arith, Bool-cases, lt→ltb,
}
use wuduo.Reactor.Timers.{
  Entry, before, TimerQueue, emplace, get_expired, add_timer, reset_alarm, is_first, add_timers,
  arm_first, handle_read,
}
use wuduo.Reactor.Timers.Interval.{Timespec, interval, Timerfd, set_alarm, set_alarm-expiry}
use wuduo.Reactor.Timers.Expiry.{Ordered, Addressed, get_expired-SplitAt, emplace-Ordered}

-- At the time of the first entry, if there is one.
abbrev pub ArmedAt : List Entry → Option ℕ → Type 0
ArmedAt [] alarm = Unit {0}
ArmedAt (x ∷ xs) alarm = alarm ≡ some x.when

same_time : (e x : Entry) → ltb e.when x.when ≡ false → before e x ≡ true → e.when ≡ x.when
same_time e x f b = ground arith

earlier : (e x : Entry) → ltb e.when x.when ≡ true → before e x ≡ true
earlier e x f = ground arith

emplace-first :
    (e : Entry) (xs : List Entry) → is_first e.when xs ≡ true → ArmedAt (emplace e xs) (some e.when)
unfolding emplace
emplace-first e [] f = refl
emplace-first e (x ∷ xs) f = rw (earlier e x f) refl

emplace_behind :
    (e : Entry) (xs : List Entry) (alarm : Option ℕ)
    → is_first e.when xs ≡ false
    → ArmedAt xs alarm
    → ArmedAt (emplace e xs) alarm
unfolding emplace
emplace_behind e [] alarm f a = absurd (cc)
emplace_behind e (x ∷ xs) alarm f a = elim (Bool-cases (before e x)) [
  | inl b ↦ rw b (a ∙ ap some (sym (same_time e x f b)))
  | inr b ↦ elim (Bool-cases (before x e)) [ inl c ↦ rw (b, c) a | inr c ↦ rw (b, c) a ]
]

add_timer-Ordered :
    (now : ℕ) (e : Entry) (q : TimerQueue) → Ordered q.timers → Ordered (add_timer now e q).timers
unfolding add_timer reset_alarm
add_timer-Ordered now e q o = elim (Bool-cases (is_first e.when q.timers)) [
  | inl f ↦ rw f (emplace-Ordered e q.timers o)
  | inr f ↦ rw f (emplace-Ordered e q.timers o)
]

add_timers-Ordered :
    (es : List (ℕ × Entry)) (q : TimerQueue) → Ordered q.timers → Ordered (add_timers es q).timers
add_timers-Ordered [] q o = o
add_timers-Ordered ((now, e) ∷ es) q o =
    add_timers-Ordered es (add_timer now e q) (add_timer-Ordered now e q o)

arm_first-timers :
    (now : ℕ) (xs : List Entry) (q : TimerQueue) → (arm_first now xs q).timers ≡ q.timers
unfolding reset_alarm
arm_first-timers now [] q = refl
arm_first-timers now (x ∷ xs) q = refl

module _ (k : Timerfd) where
  open k use {State, settime, expiry}

  -- The timer behind these calls.
  abbrev pub settle : State → List (ℕ × Timespec) → State
  settle s [] = s
  settle s ((now, value) ∷ rest) = settle (settime s now value) rest

  settle-append :
      (s : State) (cs : List (ℕ × Timespec)) (now : ℕ) (value : Timespec)
      → settle s (cs ++ (now, value) ∷ []) ≡ settime (settle s cs) now value
  settle-append s [] now value = refl
  settle-append s ((n, v) ∷ cs) now value = settle-append (settime s n v) cs now value

  -- When the alarm will go off.
  abbrev pub alarm_of : State → TimerQueue → Option ℕ
  alarm_of s q = expiry (settle s q.settings)

  alarm_of-reset_alarm :
      (s : State) (now near_future : ℕ) (q : TimerQueue)
      → alarm_of s (reset_alarm now near_future q) ≡ (
          if ltb now near_future
          then some near_future
          else if now == near_future
          then none
          else alarm_of s q)
  unfolding reset_alarm set_alarm
  alarm_of-reset_alarm s now near_future q =
      ap expiry (settle-append s q.settings now (interval now near_future))
      ∙ set_alarm-expiry k (settle s q.settings) now near_future

  to_come :
      (s : State) (now near_future : ℕ) (q : TimerQueue)
      → now < near_future
      → alarm_of s (reset_alarm now near_future q) ≡ some near_future
  to_come s now near_future q h =
      alarm_of-reset_alarm s now near_future q ∙ simp (lt→ltb now near_future h)

  -- In the order of the set, with the alarm at the first.
  abbrev pub InOrder : State → TimerQueue → Type 0
  InOrder s q = Ordered q.timers × ArmedAt q.timers (alarm_of s q)

  -- A timer whose time is to come is added in order, and the alarm stays at the earliest of them.
  pub add_timer-InOrder :
      (s : State) (now : ℕ) (e : Entry) (q : TimerQueue)
      → now < e.when
      → InOrder s q
      → InOrder s (add_timer now e q)
  unfolding add_timer reset_alarm
  add_timer-InOrder s now e q h v = elim (Bool-cases (is_first e.when q.timers)) [
    | inl f ↦ rw f (
      emplace-Ordered e q.timers v.0,
      subst (ArmedAt (emplace e q.timers)) (sym (to_come s now e.when q h))
          (emplace-first e q.timers f),
    )
    | inr f ↦ rw f (emplace-Ordered e q.timers v.0, emplace_behind e q.timers (alarm_of s q) f v.1)
  ]

  -- What the alarm is once it has been reset for these entries, from what it was.
  abbrev pub ResetTo : ℕ → List Entry → Option ℕ → Option ℕ → Type 0
  ResetTo now [] old new = new ≡ old
  ResetTo now (x ∷ xs) old new =
      new ≡ (if ltb now x.when then some x.when else if now == x.when then none else old)

  arm_first-ResetTo :
      (s : State) (now : ℕ) (xs : List Entry) (q : TimerQueue)
      → ResetTo now xs (alarm_of s q) (alarm_of s (arm_first now xs q))
  arm_first-ResetTo s now [] q = refl
  arm_first-ResetTo s now (x ∷ xs) q = alarm_of-reset_alarm s now x.when q

  -- `handle_read` on a queue in order leaves it in order. If a timer is left, or was added while the
  -- expired ones ran, the alarm is at the earliest of these, provided that its time is still to come
  -- when the alarm is reset; if its time is that very time the alarm is off; and if it has passed
  -- the alarm stays where the callbacks left it, as it does if no timer is there.
  pub handle_read-ResetTo :
      (s : State) (now : ℕ) (added : List (ℕ × Entry)) (later : ℕ) (q : TimerQueue)
      → Ordered q.timers
      → Addressed q.timers
      → Ordered (handle_read now added later q).1.timers
        × ResetTo later
            (handle_read now added later q).1.timers
            (alarm_of s (add_timers added (get_expired now q).1))
            (alarm_of s (handle_read now added later q).1)
  unfolding handle_read
  handle_read-ResetTo s now added later q o a =
      let q' : TimerQueue = add_timers added (get_expired now q).1 in
      let same = arm_first-timers later q'.timers q' in
      (
        subst Ordered (sym same)
            (add_timers-Ordered added (get_expired now q).1 (get_expired-SplitAt now q o a).0.3),
        subst (λ xs. ResetTo later xs (alarm_of s q') (alarm_of s (arm_first later q'.timers q')))
            (sym same) (arm_first-ResetTo s later q'.timers q'),
      )
