-- ===== src/Reactor/Timers/Timer/Expired.antt =====
-- Which timers of wuduo/timer.h run when the alarm of wuduo/timer_queue.cpp has gone off.
use wuduo.Prelude.{
  ℕ, ◌≤◌, ◌<◌, ◌≡◌, ◌≢◌, refl, sym, subst, ap, ◌∙◌, inl, inr, true, false, Option, List, [], ◌∷◌,
  ◌++◌, if◌then◌else◌, ◌==◌, arith, Bool-cases,
}
use wuduo.Reactor.Timers.{
  Entry, before, TimerQueue, emplace, uintptr_max, add_timer, reset_alarm, get_expired,
}
use wuduo.Reactor.Timers.Expiry.{All, Ordered, Addressed, get_expired-SplitAt, emplace-Ordered}
use wuduo.Reactor.Timers.Timer.{Timer, create, run, is_expired, Timers, add, run_all, run_expired}

-- The callbacks of the timers that have expired, and the entries of those that have not, both in order,
-- by `is_expired` alone.
abbrev pub run_if_expired : ℕ → (ℕ → Timer) → List Entry → List ℕ
run_if_expired now heap [] = []
run_if_expired now heap (e ∷ es) =
    let rest = run_if_expired now heap es in
    if is_expired now (heap e.timer) then run (heap e.timer) ++ rest else rest

abbrev pub keep_if_valid : ℕ → (ℕ → Timer) → List Entry → List Entry
keep_if_valid now heap [] = []
keep_if_valid now heap (e ∷ es) =
    let rest = keep_if_valid now heap es in if is_expired now (heap e.timer) then rest else e ∷ rest

-- An entry has the time of its timer.
abbrev pub Timed : (ℕ → Timer) → List Entry → Type 0
Timed heap es = All (λ e. (heap e.timer).when ≡ e.when) es

-- The set is in order, and its entries are of timers with their times, at addresses that a timer can
-- have.
pub record Kept (t : Timers) : Type 0 where
  pub ordered : Ordered t.queue.timers
  pub addressed : Addressed t.queue.timers
  pub timed : Timed t.heap t.queue.timers

-- On entries that have expired, and on entries that have not.
run_if_expired-append :
    (now : ℕ) (heap : ℕ → Timer) (es vs : List Entry)
    → All (λ e. e.when ≤ now) es
    → All (λ e. now < e.when) vs
    → Timed heap (es ++ vs)
    → (run_if_expired now heap (es ++ vs) ≡ run_all heap es)
      × (keep_if_valid now heap (es ++ vs) ≡ vs)
unfolding run_all
run_if_expired-append now heap [] [] h k t = (refl, refl)
run_if_expired-append now heap [] (v ∷ vs) h (k, ks) (t, ts) =
    let (ran, kept) = run_if_expired-append now heap [] vs h ks ts in
    let valid : is_expired now (heap v.timer) ≡ false = ground (arith, k, t) in
    rw valid (ran, ap (◌∷◌ v) kept)
run_if_expired-append now heap (e ∷ es) vs (h, hs) k (t, ts) =
    let (ran, kept) = run_if_expired-append now heap es vs hs k ts in
    let expired : is_expired now (heap e.timer) ≡ true = ground (arith, h, t) in
    rw expired (ap (λ cs. run (heap e.timer) ++ cs) ran, kept)

later_part : (P : Entry → Type 0) (es vs : List Entry) → All P (es ++ vs) → All P vs
later_part P [] vs a = a
later_part P (e ∷ es) vs (h, a) = later_part P es vs a

-- When the alarm goes off, exactly the callbacks of the timers run that `is_expired` says have
-- expired, in the order of their times, and exactly the others stay in the queue, which keeps its
-- order.
pub run_expired-Kept :
    (now : ℕ) (t : Timers)
    → Kept t
    → ((run_expired now t).0 ≡ run_if_expired now t.heap t.queue.timers)
      × ((run_expired now t).1.queue.timers ≡ keep_if_valid now t.heap t.queue.timers)
      × Kept (run_expired now t).1
unfolding run_expired
run_expired-Kept now t h =
    let ((whole, early, late, ordered), alarm) =
      get_expired-SplitAt now t.queue h.ordered h.addressed in
    let (ran, kept) =
      run_if_expired-append now t.heap (get_expired now t.queue).0
        (get_expired now t.queue).1.timers early late (subst (Timed t.heap) (sym whole) h.timed) in
    (
      sym ran ∙ ap (run_if_expired now t.heap) whole,
      sym kept ∙ ap (keep_if_valid now t.heap) whole,
      record {
        ordered = ordered;
        addressed =
            later_part _ (get_expired now t.queue).0 (get_expired now t.queue).1.timers
              (subst Addressed (sym whole) h.addressed);
        timed =
            later_part _ (get_expired now t.queue).0 (get_expired now t.queue).1.timers
              (subst (Timed t.heap) (sym whole) h.timed);
      },
    )

emplace-All :
    (P : Entry → Type 0) (e : Entry) (xs : List Entry) → P e → All P xs → All P (emplace e xs)
unfolding emplace
emplace-All P e [] h a = (h, tt)
emplace-All P e (x ∷ xs) h a = elim (Bool-cases (before e x)) [
  | inl b ↦ rw b (h, a)
  | inr b ↦ elim (Bool-cases (before x e)) [
    | inl c ↦ rw (b, c) (a.0, emplace-All P e xs h a.1)
    | inr c ↦ rw (b, c) a
  ]
]

-- No timer that is alive has the address.
abbrev pub Fresh : ℕ → List Entry → Type 0
Fresh address xs = All (λ e. e.timer ≢ address) xs

keeps_times :
    (heap : ℕ → Timer) (address : ℕ) (timer : Timer) (xs : List Entry)
    → Fresh address xs
    → Timed heap xs
    → Timed (λ a. if a == address then timer else heap a) xs
keeps_times heap address timer [] f t = tt
keeps_times heap address timer (x ∷ xs) (f, fs) (t, ts) =
    (ground (arith, f, t), keeps_times heap address timer xs fs ts)

pub add_timer-timers :
    (now : ℕ) (e : Entry) (q : TimerQueue) → (add_timer now e q).timers ≡ emplace e q.timers
unfolding add_timer reset_alarm
add_timer-timers now e q = ground arith

pub add-Kept :
    (now address : ℕ) (callback : Option ℕ) (when interval : ℕ) (t : Timers)
    → address < uintptr_max
    → Fresh address t.queue.timers
    → Kept t
    → Kept (add now address callback when interval t)
unfolding add
add-Kept now address callback when interval t a f h =
    let e : Entry = record { when = when; timer = address } in
    let heap : ℕ → Timer = λ b. if b == address then create callback when interval else t.heap b in
    record {
      ordered =
          subst Ordered (sym (add_timer-timers now e t.queue))
            (emplace-Ordered e t.queue.timers h.ordered);
      addressed =
          subst Addressed (sym (add_timer-timers now e t.queue))
            (emplace-All _ e t.queue.timers a h.addressed);
      timed = subst (Timed heap) (sym (add_timer-timers now e t.queue)) (
          emplace-All _ e t.queue.timers (ground arith)
            (keeps_times t.heap address (create callback when interval) t.queue.timers f h.timed));
    }
