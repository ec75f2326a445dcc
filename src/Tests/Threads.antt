-- ===== src/Tests/Threads.antt =====
-- wuduo/tcp_connection.cpp when other threads call a connection, and when the kernel
-- reports several events at once, at a small state.
use wuduo.Prelude.{refl, some, [], ◌∷◌, arith}
use wuduo.Reactor.Channel.{is_none}
use wuduo.Tcp.Remote.{Shared, sends_in_loop, shuts_write, forces_close}
use wuduo.Buffer.{received}
use wuduo.Tcp.Lifecycle.{Keeps}
use wuduo.Tcp.Dispatch.{Answers, on_events, on_events-Keeps}
use wuduo.Tests.Connections.{small_kernel, busy, busy-Inv, reading_and_writing}

-- Another thread has sent a byte, one shuts the connection down, and one is about to close it.
abbrev called : Shared small_kernel
called = record {
  conn = busy;
  tasks = sends_in_loop (4 ∷ []) ∷ [];
  tested = forces_close ∷ [];
  to_queue = shuts_write ∷ [];
}

-- The peer has closed, and the socket can be written.
abbrev peer_closed : Answers
peer_closed = record { read = received []; message_callback = []; wrote = some 3 }

on_events-Keeps_example : Keeps (on_events peer_closed reading_and_writing busy)
on_events-Keeps_example =
    on_events-Keeps peer_closed reading_and_writing busy (unfold is_none in refl) (omega arith) tt
      busy-Inv
