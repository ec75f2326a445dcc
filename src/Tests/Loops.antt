-- ===== src/Tests/Loops.antt =====
-- The loop's pending tasks and its timers, wuduo/event_loop.cpp,
-- wuduo/timer_queue.cpp and wuduo/timer.h, at small states.
use wuduo.Prelude.{
  true, ◌+◌, ℕ, ◌≡◌, refl, none, some, if◌then◌else◌, ◌==◌, List, [], ◌∷◌, ◌++◌, arith,
}
use wuduo.Reactor.Loop.{
  polling, entered, loop, Action, moves, reads_wakeup, queues, other_runs, act, run_in_loop, go_on,
  take_effect, take_effects, goes_on, handling, take_tasks, do_task, finish_tasks,
}
use wuduo.Reactor.Loop.Wakeup.{Heard, no_lost_wakeup}
use wuduo.Reactor.Loop.Order.{called_from_queue, queued_in}
use wuduo.Reactor.Loop.Completed.{loop-queued_in}
use wuduo.Reactor.Timers.{Entry, TimerQueue, handle_read, add_timers, get_expired}
use wuduo.Reactor.Timers.Expiry.{Ordered, Addressed}
use wuduo.Reactor.Timers.Alarm.{alarm_of, ResetTo, handle_read-ResetTo}
use wuduo.Reactor.Timers.Interval.{interval}
use wuduo.Tests.Alarms.{expiry_timer}
use wuduo.Reactor.Loop.Completed.{Begins, is_between_turns}
use wuduo.Reactor.Timers.Timer.{Timers, create, run_expired, TimerEvent, adds, fires, happen_all}
use wuduo.Reactor.Timers.Timer.Once.{added_by, known, happen_all-known}
use wuduo.Reactor.Timers.Timer.Expired.{run_if_expired, keep_if_valid, Kept, run_expired-Kept}

-- A call of another thread pushes its task, and wakes the loop; the task queues one more, which waits
-- for the next turn.
abbrev up_to_handlers : List Action
up_to_handlers = other_runs 1 ∷ goes_on 0 ∷ goes_on 0 ∷ moves ∷ []

abbrev one_turn : List Action
one_turn =
    other_runs 1
    ∷ goes_on 0
    ∷ goes_on 0
    ∷ moves
    ∷ reads_wakeup
    ∷ moves
    ∷ queues 2
    ∷ moves
    ∷ moves
    ∷ []

one_turn_ends : (loop entered one_turn).phase ≡ polling
unfolding act run_in_loop go_on take_effect take_effects take_tasks do_task finish_tasks
one_turn_ends = refl

no_lost_wakeup_example :
    Heard
      (loop entered one_turn).pending_tasks
      (loop entered one_turn).wakeups
      (loop entered one_turn).others
no_lost_wakeup_example = no_lost_wakeup one_turn one_turn_ends

abbrev rest_of_turn : List Action
rest_of_turn = reads_wakeup ∷ moves ∷ queues 2 ∷ moves ∷ moves ∷ []

in_handlers : (loop entered up_to_handlers).phase ≡ handling
unfolding act run_in_loop go_on take_effect
in_handlers = refl

polls_again : is_between_turns (loop (loop entered up_to_handlers) rest_of_turn).phase ≡ true
unfolding act run_in_loop go_on take_effect take_effects take_tasks do_task finish_tasks
polls_again = refl

loop-queued_in_example :
    Begins
      (queued_in entered up_to_handlers)
      (called_from_queue (loop (loop entered up_to_handlers) rest_of_turn).ran)
    × (called_from_queue (loop (loop entered up_to_handlers) rest_of_turn).ran
          ++ (loop (loop entered up_to_handlers) rest_of_turn).pending_tasks
        ≡ queued_in entered up_to_handlers ++ queued_in (loop entered up_to_handlers) rest_of_turn)
loop-queued_in_example = loop-queued_in up_to_handlers rest_of_turn in_handlers polls_again

abbrev at_time : ℕ → ℕ → Entry
at_time when timer = record { when = when; timer = timer }

abbrev three_timers : TimerQueue
three_timers = record {
  timers = at_time 5 9 ∷ at_time 7 3 ∷ at_time 8 1 ∷ [];
  settings = (2, interval 2 5) ∷ [];
}

three_timers-Ordered : Ordered three_timers.timers
three_timers-Ordered = ((refl, (refl, tt)), ((refl, tt), (tt, tt)))

three_timers-Addressed : Addressed three_timers.timers
three_timers-Addressed = (omega arith, (omega arith, (omega arith, tt)))

-- The timer at 3 has an empty callback.
abbrev three_alive : Timers
three_alive = record {
  heap = λ address.
      if address == 9
      then create (some 90) 5 0
      else (if address == 3 then create none 7 0 else create (some 10) 8 0);
  queue = three_timers;
}

three_alive-Kept : Kept three_alive
three_alive-Kept = record {
  ordered = three_timers-Ordered;
  addressed = three_timers-Addressed;
  timed = (refl, (refl, (refl, tt)));
}

run_expired-Kept_example :
    ((run_expired 7 three_alive).0 ≡ run_if_expired 7 three_alive.heap three_timers.timers)
    × ((run_expired 7 three_alive).1.queue.timers
        ≡ keep_if_valid 7 three_alive.heap three_timers.timers)
    × Kept (run_expired 7 three_alive).1
run_expired-Kept_example = run_expired-Kept 7 three_alive three_alive-Kept

-- A timer for the time 12 is added at 7, and the alarm is reset at 8.
handle_read-ResetTo_example :
    (let q' = (handle_read 7 ((7, at_time 12 4) ∷ []) 8 three_timers).1 in
      Ordered q'.timers
      × ResetTo expiry_timer 8 q'.timers
          (alarm_of expiry_timer none
            (add_timers ((7, at_time 12 4) ∷ []) (get_expired 7 three_timers).1))
          (alarm_of expiry_timer none q'))
handle_read-ResetTo_example =
    handle_read-ResetTo expiry_timer none 7 ((7, at_time 12 4) ∷ []) 8 three_timers
      three_timers-Ordered three_timers-Addressed

abbrev no_timers : List ℕ × Timers
no_timers = (
  [],
  record { heap = λ address. create none 0 0; queue = record { timers = []; settings = [] } },
)

-- The first timer asks to be repeated.
abbrev some_events : List TimerEvent
some_events = adds 0 1 (some 10) 5 2 ∷ adds 0 2 (some 20) 9 0 ∷ fires 6 ∷ fires 8 ∷ []

happen_all-known_example :
    known 10 (happen_all some_events no_timers)
    ≡ added_by 10 some_events no_timers + known 10 no_timers
happen_all-known_example = happen_all-known 10 some_events no_timers
