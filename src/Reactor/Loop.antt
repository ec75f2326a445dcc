-- ===== src/Reactor/Loop.antt =====
-- The pending tasks of `EventLoop`, wuduo/event_loop.h and wuduo/event_loop.cpp. A task is a number.
-- What the loop's thread does is cut where the lock is taken and where it may block. A call of another
-- thread is cut into its effects on what is shared, and the steps of any number of such calls come
-- between any two cuts.
pub mod Wakeup
pub mod Object
pub mod Order
pub mod Completed
use wuduo.Prelude.{
  ℕ, suc, zero, Option, none, some, Bool, true, false, not, ◌||◌, List, [], ◌∷◌, ◌++◌,
  if◌then◌else◌,
}

-- Where the loop's thread is: in `epoll_wait`, in the handlers, in the tasks that `do_pending_tasks`
-- took, or behind the loop.
pub data Phase : Type 0 where
  polling handling : Phase
  doing : List ℕ → Phase
  left : Phase

-- A task that was called: by `do_pending_tasks`, or at once, by `run_in_loop`.
pub data Called : Type 0 where
  from_queue at_once : ℕ → Called

-- What a call of another thread does to what is shared: `quit_ = true`, the push under the lock, and the
-- end of `queue_in_loop` or `quit`, which may wake the loop.
pub data Effect : Type 0 where
  sets_quit wakes : Effect
  pushes : ℕ → Effect

-- `others` are the calls of other threads that have begun, by what they have still to do.
-- `wakeups` is the counter behind `wakeupfd_`, and `ran` lists the tasks that were called.
pub record EventLoop : Type 0 where
  pub phase : Phase
  pub pending_tasks : List ℕ
  pub doing_pending_tasks : Bool
  pub quit : Bool
  pub wakeups : ℕ
  pub ran : List Called
  pub others : List (List Effect)

-- A loop that is entered before any task was queued.
abbrev pub entered : EventLoop
entered = record {
  phase = polling;
  pending_tasks = [];
  doing_pending_tasks = false;
  quit = false;
  wakeups = 0;
  ran = [];
  others = [];
}

abbrev pub wakeup : EventLoop → EventLoop
wakeup l = record l { wakeups = suc l.wakeups }

abbrev pub call : Called → EventLoop → EventLoop
call task l = record l { ran = l.ran ++ task ∷ [] }

-- `queue_in_loop` lets go of the lock behind the push.
abbrev pub queue_in_loop : ℕ → List Effect
queue_in_loop task = pushes task ∷ wakes ∷ []

-- `quit` of another thread.
abbrev pub quit_from_outside : List Effect
quit_from_outside = sets_quit ∷ wakes ∷ []

-- One of these in the loop's thread, or in another.
unfoldable pub take_effect : Bool → Effect → EventLoop → EventLoop
take_effect in_loop_thread sets_quit l = record l { quit = true }
take_effect in_loop_thread (pushes task) l = record l {
  pending_tasks = l.pending_tasks ++ task ∷ [];
}
take_effect in_loop_thread wakes l =
    if not in_loop_thread || l.doing_pending_tasks then wakeup l else l

-- A call of the loop's thread.
unfoldable pub take_effects : List Effect → EventLoop → EventLoop
take_effects [] l = l
take_effects (e ∷ es) l = take_effects es (take_effect true e l)

-- A call of another thread begins.
abbrev pub begin : List Effect → EventLoop → EventLoop
begin es l = record l { others = l.others ++ es ∷ [] }

-- The next effect of the call with this number, and the calls behind it.
abbrev pub advance : ℕ → List (List Effect) → Option Effect × List (List Effect)
advance n [] = (none, [])
advance zero ([] ∷ calls) = (none, [] ∷ calls)
advance zero ((e ∷ es) ∷ calls) = (some e, es ∷ calls)
advance (suc n) (es ∷ calls) = let (e, calls') = advance n calls in (e, es ∷ calls')

abbrev pub take_if_any : Option Effect → EventLoop → EventLoop
take_if_any none l = l
take_if_any (some e) l = take_effect false e l

unfoldable pub go_on : ℕ → EventLoop → EventLoop
go_on n l = let (e, calls) = advance n l.others in take_if_any e (record l { others = calls })

unfoldable pub run_in_loop : Bool → ℕ → EventLoop → EventLoop
run_in_loop in_loop_thread task l =
    if in_loop_thread then call (at_once task) l else begin (queue_in_loop task) l

-- `quit`
unfoldable pub ask_to_quit : Bool → EventLoop → EventLoop
ask_to_quit in_loop_thread l =
    if in_loop_thread then take_effect true sets_quit l else begin quit_from_outside l

-- The callback of `wakeup_channel_`, which reads the counter and so resets it.
abbrev pub read_wakeup : EventLoop → EventLoop
read_wakeup l = record l { wakeups = 0 }

-- `do_pending_tasks` up to its loop, one task of it, and what follows with the test of `loop`.
unfoldable pub take_tasks : EventLoop → EventLoop
take_tasks l = record l {
  phase = doing l.pending_tasks;
  pending_tasks = [];
  doing_pending_tasks = true;
}

unfoldable pub do_task : ℕ → List ℕ → EventLoop → EventLoop
do_task task rest l = record (call (from_queue task) l) { phase = doing rest }

unfoldable pub finish_tasks : EventLoop → EventLoop
finish_tasks l = record l { phase = if l.quit then left else polling; doing_pending_tasks = false }

pub data Action : Type 0 where
  -- Of the loop's thread: its next move, the wake-up channel's callback, and what a handler or a task
  -- calls.
  moves reads_wakeup quits : Action
  queues runs : ℕ → Action
  -- Of other threads: a call begins, and the call with this number goes on.
  other_quits : Action
  other_runs goes_on : ℕ → Action

-- What happens is ignored where it cannot happen.
unfoldable pub act : Phase → Action → EventLoop → EventLoop
act p (other_runs task) l = run_in_loop false task l
act p other_quits l = ask_to_quit false l
act p (goes_on n) l = go_on n l
act polling moves l = record l { phase = handling }
act handling moves l = take_tasks l
act (doing []) moves l = finish_tasks l
act (doing (task ∷ rest)) moves l = do_task task rest l
act handling reads_wakeup l = read_wakeup l
act handling quits l = ask_to_quit true l
act (doing ts) quits l = ask_to_quit true l
act handling (queues task) l = take_effects (queue_in_loop task) l
act (doing ts) (queues task) l = take_effects (queue_in_loop task) l
act handling (runs task) l = run_in_loop true task l
act (doing ts) (runs task) l = run_in_loop true task l
act p a l = l

abbrev pub loop : EventLoop → List Action → EventLoop
loop l [] = l
loop l (a ∷ as') = loop (act l.phase a l) as'
