-- ===== src/Tests/Lifetimes.antt =====
-- Connections of wuduo/tcp_server.cpp from their first task to their last reference.
use wuduo.Prelude.{
  if◌then◌else◌, ◌≡◌, refl, Bool, true, List, [], ◌∷◌, Option, some, none, Outcome, ok, abort,
  assertion,
}
use wuduo.Buffer.{count}
use wuduo.Tcp
use wuduo.Tcp.{connected, is_connected, after_read, force_close}
use wuduo.Server.Lifetime.Mirrors.{Mirrors, reading_of, handlers-Mirrors}
use wuduo.Server.Lifetime.{handle_read, close_if_open, set_disconnecting}
use wuduo.Tests.Connections.{busy, busy-Inv}
use wuduo.Server.Lifetime.{
  run_task, Life, handling, accepted, Action, moves, handles, handler_force_closes, removes, takes,
  drops, calls_send, calls_force_close, peer_closed, move, act, run,
}
use wuduo.Server.Lifetime.Twice.{closed_twice_aborts}

-- It is established, a user keeps a reference, and the peer closes; the last task runs, and the user
-- asks for more before it drops its reference.
abbrev a_life : List Action
a_life =
    moves
    ∷ moves
    ∷ moves
    ∷ moves
    ∷ takes
    ∷ calls_send
    ∷ moves
    ∷ handles peer_closed
    ∷ removes
    ∷ moves
    ∷ moves
    ∷ moves
    ∷ moves
    ∷ moves
    ∷ moves
    ∷ moves
    ∷ moves
    ∷ calls_force_close
    ∷ drops
    ∷ []

abbrev freed_after : Outcome Life → Option Bool
freed_after (ok l) = some l.freed
freed_after (abort f) = none

a_life-freed : freed_after (run a_life accepted) ≡ some true
unfolding run act move run_task
a_life-freed = refl

abbrev reported : Life
reported = record accepted {
  state = connected;
  phase = handling;
  active = true;
  users = 1;
  io_tasks = [];
}

closed_twice_aborts_example :
    run (handler_force_closes ∷ handles peer_closed ∷ removes ∷ removes ∷ []) reported
    ≡ abort assertion
closed_twice_aborts_example = closed_twice_aborts reported refl refl refl refl refl refl refl

-- The end of file on a connection that has bytes to write.
handlers-Mirrors_example :
    Mirrors busy
      (after_read busy [] (count 0, busy.in_buffer))
      reported
      (handle_read (reading_of (count 0)) reported)
    × Mirrors busy (force_close busy) reported (close_if_open reported)
    × Mirrors busy
        (Tcp.shutdown busy)
        reported
        (if is_connected reported.state then set_disconnecting reported else reported)
handlers-Mirrors_example =
    handlers-Mirrors busy reported (count 0) busy.in_buffer busy-Inv.in_valid busy-Inv refl refl
