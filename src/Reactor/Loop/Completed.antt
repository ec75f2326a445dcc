-- ===== src/Reactor/Loop/Completed.antt =====
-- The tasks that are queued in a loop of wuduo/event_loop.cpp are called, once and in order.
use wuduo.Prelude.{
  subst, ap₂, Option, none, some, ℕ, ◌≡◌, refl, sym, ap, ◌∙◌, Bool, true, false, List, [], ◌∷◌,
  ◌++◌, append-nil, append_assoc, if◌then◌else◌,
}
use wuduo.Reactor.Loop.{
  Phase, polling, handling, doing, left, from_queue, at_once, call, EventLoop, entered, wakeup,
  Action, moves, reads_wakeup, quits, queues, runs, other_quits, other_runs, act, loop, Effect,
  sets_quit, wakes, pushes, begin, advance, take_if_any, take_effect, take_effects, go_on, goes_on,
  queue_in_loop, run_in_loop, ask_to_quit, take_tasks, do_task, finish_tasks,
}
use wuduo.Reactor.Loop.Order.{
  called_from_queue, taken_by, queued_in, tasks_of, called_from_queue-append, loop-tasks_of,
}

-- These tasks come first, and others behind them.
abbrev pub Begins : List ℕ → List ℕ → Type 0
Begins first all = (rest : List ℕ) × (all ≡ first ++ rest)

Begins-append : (first all more : List ℕ) → Begins first all → Begins first (all ++ more)
Begins-append first all more (rest, e) =
    (rest ++ more, ap (λ xs. xs ++ more) e ∙ append_assoc first rest more)

-- These tasks are called by the time that the loop polls again, or leaves.
abbrev Due : List ℕ → Phase → EventLoop → Type 0
Due first polling l = Begins first (called_from_queue l.ran)
Due first handling l = Begins first (called_from_queue l.ran ++ l.pending_tasks)
Due first (doing tasks) l = Begins first (called_from_queue l.ran ++ tasks)
Due first left l = Begins first (called_from_queue l.ran)

module _ (first : List ℕ) (l : EventLoop) where
  in_phase : (p : Phase) (l' : EventLoop) → l'.phase ≡ p → Due first p l' → Due first l'.phase l'
  in_phase p l' e d = subst (λ q. Due first q l') (sym e) d

  -- Where nothing is called, and pending tasks are only added.
  only_added :
      (p : Phase) (l' : EventLoop) (more : List ℕ)
      → l'.phase ≡ p
      → called_from_queue l'.ran ≡ called_from_queue l.ran
      → l'.pending_tasks ≡ l.pending_tasks ++ more
      → Due first p l
      → Due first l'.phase l'
  only_added p l' more e c q d = in_phase p l' e (by_phase p d)
    where
      by_phase : (p : Phase) → Due first p l → Due first p l'
      by_phase polling d = subst (Begins first) (sym c) d
      by_phase left d = subst (Begins first) (sym c) d
      by_phase (doing ts) d = subst (λ cs. Begins first (cs ++ ts)) (sym c) d
      by_phase handling d =
          subst (Begins first)
            (append_assoc (called_from_queue l.ran) l.pending_tasks more ∙ sym (ap₂ (◌++◌) c q))
            (Begins-append first (called_from_queue l.ran ++ l.pending_tasks) more d)

  unchanged :
      (p : Phase) (l' : EventLoop)
      → l'.phase ≡ p
      → called_from_queue l'.ran ≡ called_from_queue l.ran
      → l'.pending_tasks ≡ l.pending_tasks
      → Due first p l
      → Due first l'.phase l'
  unchanged p l' e c q d = only_added p l' [] e c (q ∙ sym (append-nil l.pending_tasks)) d

  take_effects-Due :
      (p : Phase) (task : ℕ)
      → l.phase ≡ p
      → Due first p l
      → (let l' = take_effects (queue_in_loop task) l in Due first l'.phase l')
  unfolding take_effect take_effects
  take_effects-Due p task e d = woken l.doing_pending_tasks
    where
      l' : EventLoop
      l' = record l { pending_tasks = l.pending_tasks ++ task ∷ [] }

      woken : (c : Bool) → (let l'' = (if c then wakeup l' else l') in Due first l''.phase l'')
      woken true = only_added p (wakeup l') (task ∷ []) e refl refl d
      woken false = only_added p l' (task ∷ []) e refl refl d

  go_on-Due :
      (p : Phase) (n : ℕ) → l.phase ≡ p → Due first p l → Due first (go_on n l).phase (go_on n l)
  unfolding go_on take_effect
  go_on-Due p n e d = after (advance n l.others)
    where
      after :
          (r : Option Effect × List (List Effect))
          → (let l' = take_if_any r.0 (record l { others = r.1 }) in Due first l'.phase l')
      after (none, calls) = unchanged p (record l { others = calls }) e refl refl d
      after (some sets_quit, calls) =
          unchanged p (record l { others = calls; quit = true }) e refl refl d
      after (some wakes, calls) = unchanged p (wakeup (record l { others = calls })) e refl refl d
      after (some (pushes task), calls) =
          only_added p (record l { others = calls; pending_tasks = l.pending_tasks ++ task ∷ [] })
            (task ∷ []) e refl refl d

  -- A task that is called at once is not of the queue.
  run_in_loop-Due :
      (p : Phase) (task : ℕ)
      → l.phase ≡ p
      → Due first p l
      → (let l' = run_in_loop true task l in Due first l'.phase l')
  unfolding run_in_loop
  run_in_loop-Due p task e d =
      unchanged p (call (at_once task) l) e
        (called_from_queue-append l.ran (at_once task ∷ []) ∙ append-nil (called_from_queue l.ran))
        refl d

  finish_tasks-Due : Due first (doing []) l → Due first (finish_tasks l).phase (finish_tasks l)
  unfolding finish_tasks
  finish_tasks-Due d = done l.quit
    where
      all : Begins first (called_from_queue l.ran)
      all = subst (Begins first) (append-nil (called_from_queue l.ran)) d

      done :
          (b : Bool)
          → Due first
              (if b then left else polling)
              (record l { phase = if b then left else polling; doing_pending_tasks = false })
      done true = all
      done false = all

  act-Due :
      (p : Phase) (a : Action)
      → l.phase ≡ p
      → Due first p l
      → Due first (act p a l).phase (act p a l)
  unfolding act run_in_loop ask_to_quit take_effect take_tasks do_task
  act-Due p (other_runs task) e d = unchanged p (begin (queue_in_loop task) l) e refl refl d
  act-Due p other_quits e d = unchanged p (begin (sets_quit ∷ wakes ∷ []) l) e refl refl d
  act-Due p (goes_on n) e d = go_on-Due p n e d
  act-Due polling moves e d = Begins-append first (called_from_queue l.ran) l.pending_tasks d
  act-Due handling moves e d = d
  act-Due (doing []) moves e d = finish_tasks-Due d
  act-Due (doing (task ∷ rest)) moves e d =
      subst (Begins first)
        (sym (
          ap (λ xs. xs ++ rest) (called_from_queue-append l.ran (from_queue task ∷ []))
          ∙ append_assoc (called_from_queue l.ran) (task ∷ []) rest))
        d
  act-Due left moves e d = in_phase left l e d
  act-Due handling reads_wakeup e d = unchanged handling (record l { wakeups = 0 }) e refl refl d
  act-Due polling reads_wakeup e d = in_phase polling l e d
  act-Due (doing ts) reads_wakeup e d = in_phase (doing ts) l e d
  act-Due left reads_wakeup e d = in_phase left l e d
  act-Due handling quits e d = unchanged handling (record l { quit = true }) e refl refl d
  act-Due (doing ts) quits e d = unchanged (doing ts) (record l { quit = true }) e refl refl d
  act-Due polling quits e d = in_phase polling l e d
  act-Due left quits e d = in_phase left l e d
  act-Due handling (queues task) e d = take_effects-Due handling task e d
  act-Due (doing ts) (queues task) e d = take_effects-Due (doing ts) task e d
  act-Due polling (queues task) e d = in_phase polling l e d
  act-Due left (queues task) e d = in_phase left l e d
  act-Due handling (runs task) e d = run_in_loop-Due handling task e d
  act-Due (doing ts) (runs task) e d = run_in_loop-Due (doing ts) task e d
  act-Due polling (runs task) e d = in_phase polling l e d
  act-Due left (runs task) e d = in_phase left l e d

loop-Due :
    (first : List ℕ) (as' : List Action) (l : EventLoop)
    → Due first l.phase l
    → Due first (loop l as').phase (loop l as')
loop-Due first [] l d = d
loop-Due first (a ∷ as') l d =
    loop-Due first as' (act l.phase a l) (act-Due first l l.phase a refl d)

-- The loop's thread is in `epoll_wait`, or behind the loop.
abbrev pub is_between_turns : Phase → Bool
is_between_turns polling = true
is_between_turns left = true
is_between_turns _ = false

between :
    (first : List ℕ) (p : Phase) (l : EventLoop)
    → is_between_turns p ≡ true
    → Due first p l
    → Begins first (called_from_queue l.ran) × (taken_by p ≡ [])
between first polling l b d = (d, refl)
between first left l b d = (d, refl)
between first handling l b d = absurd (cc)
between first (doing ts) l b d = absurd (cc)

-- Whatever the handlers, the tasks and other threads do, from the entry of `loop` on: if the loop's
-- thread was in its handlers, and is in `epoll_wait` again or has left the loop, then all tasks that
-- had been queued by the former time have been called, once and in the order in which they were
-- queued; and those called, with those that are pending behind them, are exactly the tasks that were
-- queued, in that order, so that none is called twice, lost or overtaken. A task counts as queued from
-- its push on. What is pending when the loop is left is not called.
pub loop-queued_in :
    (before after : List Action)
    → (loop entered before).phase ≡ handling
    → is_between_turns (loop (loop entered before) after).phase ≡ true
    → Begins (queued_in entered before) (called_from_queue (loop (loop entered before) after).ran)
      × (called_from_queue (loop (loop entered before) after).ran
            ++ (loop (loop entered before) after).pending_tasks
          ≡ queued_in entered before ++ queued_in (loop entered before) after)
loop-queued_in before after h b =
    let l : EventLoop = loop entered before in
    let l' : EventLoop = loop l after in
    let all : tasks_of l ≡ queued_in entered before = loop-tasks_of before entered in
    let owed : called_from_queue l.ran ++ l.pending_tasks ≡ queued_in entered before =
      ap (λ p. called_from_queue l.ran ++ (taken_by p ++ l.pending_tasks)) (sym h) ∙ all in
    let start : Due (queued_in entered before) l.phase l =
      subst (λ p. Due (queued_in entered before) p l) (sym h)
        ([], owed ∙ sym (append-nil (queued_in entered before))) in
    let (begins, none_taken) =
      between (queued_in entered before) l'.phase l' b
        (loop-Due (queued_in entered before) after l start) in
    (
      begins,
      ap (λ ts. called_from_queue l'.ran ++ (ts ++ l'.pending_tasks)) (sym none_taken)
          ∙ loop-tasks_of after l
          ∙ ap (λ xs. xs ++ queued_in l after) all,
    )
