-- ===== src/Reactor/Loop/Order.antt =====
-- The tasks that are queued in a loop are neither lost nor overtaken.
use wuduo.Prelude.{
  Option, none, some, ℕ, ◌≡◌, refl, sym, ap, ◌∙◌, Bool, true, false, List, [], ◌∷◌, ◌++◌,
  append-nil, append_assoc, if◌then◌else◌,
}
use wuduo.Reactor.Loop.{
  Phase, polling, handling, doing, left, Called, from_queue, at_once, EventLoop, wakeup, Action,
  moves, reads_wakeup, quits, queues, runs, other_quits, other_runs, act, loop, Effect, sets_quit,
  wakes, pushes, advance, take_if_any, take_effect, take_effects, go_on, goes_on, queue_in_loop,
  run_in_loop, ask_to_quit, take_tasks, do_task, finish_tasks,
}

abbrev pub called_from_queue : List Called → List ℕ
called_from_queue [] = []
called_from_queue (from_queue task ∷ rest) = task ∷ called_from_queue rest
called_from_queue (at_once task ∷ rest) = called_from_queue rest

-- The tasks that `do_pending_tasks` took and has not called.
abbrev pub taken_by : Phase → List ℕ
taken_by (doing tasks) = tasks
taken_by _ = []

-- The tasks that an action queues: the push of another thread, and `queue_in_loop` of a handler or a
-- task.
abbrev pub pushed_by : Option Effect → List ℕ
pushed_by (some (pushes task)) = task ∷ []
pushed_by _ = []

abbrev pub queued_by : Phase → Action → List (List Effect) → List ℕ
queued_by p (goes_on n) others = pushed_by (advance n others).0
queued_by handling (queues task) others = task ∷ []
queued_by (doing tasks) (queues task) others = task ∷ []
queued_by p a others = []

abbrev pub queued_in : EventLoop → List Action → List ℕ
queued_in l [] = []
queued_in l (a ∷ as') = queued_by l.phase a l.others ++ queued_in (act l.phase a l) as'

-- The tasks that went through the queue or are in it, from the first on.
abbrev pub tasks_of : EventLoop → List ℕ
tasks_of l = called_from_queue l.ran ++ (taken_by l.phase ++ l.pending_tasks)

pub called_from_queue-append :
    (xs ys : List Called)
    → called_from_queue (xs ++ ys) ≡ called_from_queue xs ++ called_from_queue ys
called_from_queue-append [] ys = refl
called_from_queue-append (from_queue task ∷ xs) ys = ap (◌∷◌ task) (called_from_queue-append xs ys)
called_from_queue-append (at_once task ∷ xs) ys = called_from_queue-append xs ys

module _ (l : EventLoop) where
  same : tasks_of l ≡ tasks_of l ++ []
  same = sym (append-nil (tasks_of l))

  queued :
      (task : ℕ)
      → tasks_of (record l { pending_tasks = l.pending_tasks ++ task ∷ [] })
        ≡ tasks_of l ++ task ∷ []
  queued task =
      ap (◌++◌ (called_from_queue l.ran))
        (sym (append_assoc (taken_by l.phase) l.pending_tasks (task ∷ [])))
      ∙ sym
          (append_assoc (called_from_queue l.ran) (taken_by l.phase ++ l.pending_tasks) (task ∷ []))

  queue_in_loop-tasks_of :
      (task : ℕ) → tasks_of (take_effects (queue_in_loop task) l) ≡ tasks_of l ++ task ∷ []
  unfolding take_effect take_effects
  queue_in_loop-tasks_of task = woken l.doing_pending_tasks
    where
      l' : EventLoop
      l' = record l { pending_tasks = l.pending_tasks ++ task ∷ [] }

      woken : (c : Bool) → tasks_of (if c then wakeup l' else l') ≡ tasks_of l ++ task ∷ []
      woken true = queued task
      woken false = queued task

  go_on-tasks_of : (n : ℕ) → tasks_of (go_on n l) ≡ tasks_of l ++ pushed_by (advance n l.others).0
  unfolding go_on take_effect
  go_on-tasks_of n = after (advance n l.others)
    where
      after :
          (r : Option Effect × List (List Effect))
          → tasks_of (let (e, calls) = r in take_if_any e (record l { others = calls }))
            ≡ tasks_of l ++ pushed_by (r.0)
      after (none, calls) = same
      after (some sets_quit, calls) = same
      after (some wakes, calls) = same
      after (some (pushes task), calls) = queued task

  run_in_loop-tasks_of : (task : ℕ) → tasks_of (run_in_loop true task l) ≡ tasks_of l ++ []
  unfolding run_in_loop
  run_in_loop-tasks_of task =
      ap (λ xs. xs ++ (taken_by l.phase ++ l.pending_tasks))
        (called_from_queue-append l.ran (at_once task ∷ []) ∙ append-nil (called_from_queue l.ran))
      ∙ same

  take_tasks-tasks_of : taken_by l.phase ≡ [] → tasks_of (take_tasks l) ≡ tasks_of l ++ []
  unfolding take_tasks
  take_tasks-tasks_of e =
      ap (◌++◌ (called_from_queue l.ran))
        (append-nil l.pending_tasks ∙ ap (λ xs. xs ++ l.pending_tasks) (sym e))
      ∙ same

  do_task-tasks_of :
      (task : ℕ) (rest : List ℕ)
      → l.phase ≡ doing (task ∷ rest)
      → tasks_of (do_task task rest l) ≡ tasks_of l ++ []
  unfolding do_task
  do_task-tasks_of task rest e =
      ap (λ xs. xs ++ (rest ++ l.pending_tasks))
        (called_from_queue-append l.ran (from_queue task ∷ []))
      ∙ append_assoc (called_from_queue l.ran) (task ∷ []) (rest ++ l.pending_tasks)
      ∙ ap (λ p. called_from_queue l.ran ++ (taken_by p ++ l.pending_tasks)) (sym e)
      ∙ same

  finish_tasks-tasks_of : l.phase ≡ doing [] → tasks_of (finish_tasks l) ≡ tasks_of l ++ []
  unfolding finish_tasks
  finish_tasks-tasks_of e =
      nothing l.quit
      ∙ ap (λ p. called_from_queue l.ran ++ (taken_by p ++ l.pending_tasks)) (sym e)
      ∙ same
    where
      nothing :
          (b : Bool)
          → called_from_queue l.ran ++ (taken_by (if b then left else polling) ++ l.pending_tasks)
            ≡ called_from_queue l.ran ++ l.pending_tasks
      nothing true = refl
      nothing false = refl

  act-tasks_of :
      (p : Phase) (a : Action)
      → l.phase ≡ p
      → tasks_of (act p a l) ≡ tasks_of l ++ queued_by p a l.others
  unfolding act run_in_loop ask_to_quit take_effect
  act-tasks_of p (other_runs task) e = same
  act-tasks_of p other_quits e = same
  act-tasks_of p (goes_on n) e = go_on-tasks_of n
  act-tasks_of polling moves e =
      ap (λ q. called_from_queue l.ran ++ (taken_by q ++ l.pending_tasks)) (sym e) ∙ same
  act-tasks_of handling moves e = take_tasks-tasks_of (ap taken_by e)
  act-tasks_of (doing []) moves e = finish_tasks-tasks_of e
  act-tasks_of (doing (task ∷ rest)) moves e = do_task-tasks_of task rest e
  act-tasks_of left moves e = same
  act-tasks_of handling reads_wakeup e = same
  act-tasks_of polling reads_wakeup e = same
  act-tasks_of (doing ts) reads_wakeup e = same
  act-tasks_of left reads_wakeup e = same
  act-tasks_of handling quits e = same
  act-tasks_of (doing ts) quits e = same
  act-tasks_of polling quits e = same
  act-tasks_of left quits e = same
  act-tasks_of handling (queues task) e = queue_in_loop-tasks_of task
  act-tasks_of (doing ts) (queues task) e = queue_in_loop-tasks_of task
  act-tasks_of polling (queues task) e = same
  act-tasks_of left (queues task) e = same
  act-tasks_of handling (runs task) e = run_in_loop-tasks_of task
  act-tasks_of (doing ts) (runs task) e = run_in_loop-tasks_of task
  act-tasks_of polling (runs task) e = same
  act-tasks_of left (runs task) e = same

pub loop-tasks_of :
    (as' : List Action) (l : EventLoop) → tasks_of (loop l as') ≡ tasks_of l ++ queued_in l as'
loop-tasks_of [] l = same l
loop-tasks_of (a ∷ as') l =
    let l' = act l.phase a l in
    loop-tasks_of as' l'
    ∙ ap (λ xs. xs ++ queued_in l' as') (act-tasks_of l l.phase a refl)
    ∙ append_assoc (tasks_of l) (queued_by l.phase a l.others) (queued_in l' as')
