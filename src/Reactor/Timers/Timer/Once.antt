-- ===== src/Reactor/Timers/Timer/Once.antt =====
-- How often a timer of wuduo/timer_queue.cpp is run.
use wuduo.Prelude.{
  ℕ, ◌+◌, ◌≡◌, refl, sym, ap, ◌∙◌, inl, inr, Bool, true, false, Option, none, some, List, [], ◌∷◌,
  ◌++◌, if◌then◌else◌, ◌==◌, arith, Bool-cases,
}
use wuduo.Reactor.Timers.{
  Entry, before, TimerQueue, emplace, uintptr_max, split_before, get_expired,
}
use wuduo.Reactor.Timers.Timer.{
  Timer, create, called, run, run_all, Timers, add, run_expired, is_alive, TimerEvent, adds, fires,
  happen, happen_all,
}
use wuduo.Reactor.Timers.Timer.Expired.{add_timer-timers}

abbrev bit : Bool → ℕ
bit true = 1
bit false = 0

abbrev has_callback : ℕ → Option ℕ → Bool
has_callback p none = false
has_callback p (some callback) = callback == p

-- How often a callback was called.
abbrev pub times : ℕ → List ℕ → ℕ
times p [] = 0
times p (c ∷ cs) = bit (c == p) + times p cs

-- How many entries are of timers with this callback.
abbrev pub waiting : ℕ → (ℕ → Timer) → List Entry → ℕ
waiting p heap [] = 0
waiting p heap (e ∷ es) = bit (has_callback p (heap e.timer).callback) + waiting p heap es

times-append : (p : ℕ) (xs ys : List ℕ) → times p (xs ++ ys) ≡ times p xs + times p ys
times-append p [] ys = omega arith
times-append p (x ∷ xs) ys = omega (arith, times-append p xs ys)

waiting-append :
    (p : ℕ) (heap : ℕ → Timer) (xs ys : List Entry)
    → waiting p heap (xs ++ ys) ≡ waiting p heap xs + waiting p heap ys
waiting-append p heap [] ys = omega arith
waiting-append p heap (x ∷ xs) ys = omega (arith, waiting-append p heap xs ys)

times-called : (p : ℕ) (o : Option ℕ) → times p (called o) ≡ bit (has_callback p o)
times-called p none = refl
times-called p (some callback) = omega arith

times-run_all :
    (p : ℕ) (heap : ℕ → Timer) (es : List Entry) → times p (run_all heap es) ≡ waiting p heap es
unfolding run_all run
times-run_all p heap [] = refl
times-run_all p heap (e ∷ es) = omega (
  arith,
  times-append p (called (heap e.timer).callback) (run_all heap es),
  times-called p (heap e.timer).callback,
  times-run_all p heap es,
)

-- Without an entry of the same address there is none that is equal.
waiting-emplace :
    (p : ℕ) (heap : ℕ → Timer) (e : Entry) (xs : List Entry)
    → is_alive e.timer xs ≡ false
    → waiting p heap (emplace e xs)
      ≡ bit (has_callback p (heap e.timer).callback) + waiting p heap xs
unfolding emplace
waiting-emplace p heap e [] f = refl
waiting-emplace p heap e (x ∷ xs) f = ground (arith, waiting-emplace p heap e xs)

-- A new timer changes none that is alive.
waiting_unchanged :
    (p : ℕ) (heap : ℕ → Timer) (address : ℕ) (t : Timer) (xs : List Entry)
    → is_alive address xs ≡ false
    → waiting p (λ a. if a == address then t else heap a) xs ≡ waiting p heap xs
waiting_unchanged p heap address t [] f = refl
waiting_unchanged p heap address t (x ∷ xs) f =
    let other : (x.timer == address) ≡ false = ground (arith, f) in
    rw other (omega (arith, waiting_unchanged p heap address t xs (ground (arith, f))))

whole_split :
    (bound : Entry) (xs : List Entry) → (split_before bound xs).0 ++ (split_before bound xs).1 ≡ xs
unfolding split_before
whole_split bound [] = refl
whole_split bound (x ∷ xs) = elim (Bool-cases (before x bound)) [
  | inl b ↦ rw b (ap (◌∷◌ x) (whole_split bound xs))
  | inr b ↦ rw b refl
]

waiting-get_expired :
    (p now : ℕ) (heap : ℕ → Timer) (q : TimerQueue)
    → waiting p heap (get_expired now q).0 + waiting p heap (get_expired now q).1.timers
      ≡ waiting p heap q.timers
unfolding get_expired
waiting-get_expired p now heap q =
    let bound : Entry = record { when = now; timer = uintptr_max } in
    sym (waiting-append p heap (split_before bound q.timers).0 (split_before bound q.timers).1)
    ∙ ap (waiting p heap) (whole_split bound q.timers)

-- The timers with a callback that an event adds, and that events add.
abbrev pub accepted_by : ℕ → TimerEvent → List ℕ × Timers → ℕ
accepted_by p (adds now address callback when interval) (ran, t) =
    if is_alive address t.queue.timers then 0 else bit (has_callback p callback)
accepted_by p (fires now) r = 0

abbrev pub added_by : ℕ → List TimerEvent → List ℕ × Timers → ℕ
added_by p [] r = 0
added_by p (v ∷ vs) r = accepted_by p v r + added_by p vs (happen v r)

-- How often a callback was called, and how many timers in the queue have it.
abbrev pub known : ℕ → List ℕ × Timers → ℕ
known p (ran, t) = times p ran + waiting p t.heap t.queue.timers

happen-known :
    (p : ℕ) (v : TimerEvent) (r : List ℕ × Timers)
    → known p (happen v r) ≡ accepted_by p v r + known p r
unfolding happen add run_expired
happen-known p (adds now address callback when interval) (ran, t) =
    elim (Bool-cases (is_alive address t.queue.timers)) [
      | inl b ↦ rw b (omega arith)
      | inr b ↦
          let e : Entry = record { when = when; timer = address } in
          let timer : Timer = create callback when interval in
          let heap : ℕ → Timer = λ a. if a == address then timer else t.heap a in
          let own : bit (has_callback p (heap address).callback) ≡ bit (has_callback p callback) =
            ground arith in
          rw (b, add_timer-timers now e t.queue)
            (omega (
              arith,
              waiting-emplace p heap e t.queue.timers b,
              waiting_unchanged p t.heap address timer t.queue.timers b,
              own,
            ))
    ]
happen-known p (fires now) (ran, t) = omega (
  arith,
  times-append p ran (run_all t.heap (get_expired now t.queue).0),
  times-run_all p t.heap (get_expired now t.queue).0,
  waiting-get_expired p now t.heap t.queue,
)

-- However timers are added, with whatever intervals, and whenever the alarm goes off: for each callback,
-- the times that it was called and the timers in the queue that have it are together as many as the
-- timers that were added with it and those there were at the start. So the callback of a timer is
-- called once for it, or the timer is still in the queue, and none is run again.
pub happen_all-known :
    (p : ℕ) (vs : List TimerEvent) (r : List ℕ × Timers)
    → known p (happen_all vs r) ≡ added_by p vs r + known p r
unfolding happen_all
happen_all-known p [] r = omega arith
happen_all-known p (v ∷ vs) r =
    omega (arith, happen_all-known p vs (happen v r), happen-known p v r)
