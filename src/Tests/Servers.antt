-- ===== src/Tests/Servers.antt =====
-- wuduo/tcp_server.cpp, wuduo/acceptor.cpp, wuduo/event_loop_thread.cpp and wuduo/inet_address.cpp at
-- small inputs.
use wuduo.Prelude.{
  none, false, assertion, runtime_error, ℕ, ◌+◌, ◌*◌, ◌/◌, ◌%◌, ◌^◌, ◌<◌, ◌≡◌, refl, true, some,
  List, [], ◌∷◌, ok, abort, arith,
}
use wuduo.Server.InetAddress.{word, Network, from_port, from_text, port_of, ip_of, ip_of-from_text}
use wuduo.Server.LoopThread
use wuduo.Server.LoopThread.{starts, leaves, live}
use wuduo.Server.LoopThread.Fate.{live-create}
use wuduo.Reactor.Loop.Object
use wuduo.Reactor.Loop.Object.{ThreadLocal}
use wuduo.Reactor.Loop.Object.Ends.{Made, create-Made}
use wuduo.Server.Acceptor
use wuduo.Server.Acceptor.{Acceptor}
use wuduo.Server.Acceptor.Listening.{Listens, listen-Listens}
use wuduo.Server.TcpServer
use wuduo.Server.TcpServer.{ConnectionPtr, Event, accepts, closes, removes, run}
use wuduo.Server.TcpServer.Serving.{Served, run-Served}
use wuduo.Tests.Connections.{small_kernel, watched}

abbrev thread_loop : ℕ → ℕ
thread_loop i = 100 + i

abbrev second_conn : ConnectionPtr
second_conn = record { id = 1; io_loop = 101; sockfd = 10 }

-- Three sockets, of which the second closes, and is removed.
abbrev some_history : List Event
some_history =
    accepts (9 ∷ 10 ∷ []) ∷ closes second_conn ∷ accepts (11 ∷ []) ∷ removes ∷ removes ∷ []

run-Served_example :
    (s : TcpServer.TcpServer) × (run some_history (TcpServer.start thread_loop (TcpServer.create 1))
      ≡ ok s)
    × Served 1 thread_loop some_history s
run-Served_example =
    run-Served 1 thread_loop some_history (record { is_nth = refl; accepted = refl }, (refl, tt))

listen-Listens_example :
    ((a : Acceptor small_kernel) × Listens small_kernel 5 watched a)
    × (Acceptor.destroy (Acceptor.create {k = small_kernel} 5 watched) ≡ ok tt)
listen-Listens_example = listen-Listens small_kernel 5 watched

live-create_example :
    live small_kernel
      (starts (some 3) (some 4) watched ∷ leaves watched ∷ [])
      (none, LoopThread.create)
    ≡ abort assertion
live-create_example =
    live-create small_kernel (starts (some 3) (some 4) watched ∷ leaves watched ∷ [])

abbrev new_thread : ThreadLocal small_kernel
new_thread = record { has_loop = false; kernel = watched }

create-Made_example :
    (new_thread.has_loop ≡ false → Made small_kernel 3 4 new_thread)
    × (Object.create small_kernel none (some 4) new_thread ≡ abort runtime_error)
    × (Object.create small_kernel (some 3) none new_thread ≡ abort assertion)
    × (new_thread.has_loop ≡ true
        → Object.create small_kernel (some 3) (some 4) new_thread ≡ abort assertion)
create-Made_example = create-Made small_kernel 3 4 (some 4) new_thread

abbrev swap16 : ℕ → ℕ
swap16 n = (n % 2 ^ 8) * 2 ^ 8 + (n / 2 ^ 8) % 2 ^ 8

abbrev swap32 : ℕ → ℕ
swap32 n = word (n / 2 ^ 24 % 2 ^ 8) (n / 2 ^ 16 % 2 ^ 8) (n / 2 ^ 8 % 2 ^ 8) (n % 2 ^ 8)

swap32-word :
    (a b c d : ℕ)
    → a < 2 ^ 8
    → b < 2 ^ 8
    → c < 2 ^ 8
    → d < 2 ^ 8
    → swap32 (word a b c d) ≡ word d c b a
swap32-word a b c d ha hb hc hd = omega (arith, ha, hb, hc, hd)

-- A host whose texts of addresses are the numbers themselves.
abbrev little_network : Network
little_network = record {
  htobe16 = swap16;
  be16toh = swap16;
  htobe32 = swap32;
  Text = ℕ;
  inet_pton = λ text. some text;
  inet_ntop = λ n. n;
  be16toh-htobe16 = λ n h. omega (arith, h);
  htobe32_swaps = swap32-word;
  inet_pton-inet_ntop = λ n h. refl;
}

ip_of-from_text_example :
    (port_of little_network (from_port little_network 8080 true) ≡ 8080)
    × (ip_of little_network (from_port little_network 8080 true) ≡ word 127 0 0 1)
    × (port_of little_network (from_text little_network 8080 (word 1 2 3 4) 0) ≡ 8080)
    × (ip_of little_network (from_text little_network 8080 (word 1 2 3 4) 0) ≡ word 4 3 2 1)
ip_of-from_text_example =
    ip_of-from_text little_network 8080 1 2 3 4 0 true (omega arith) (omega arith) (omega arith)
      (omega arith) (omega arith)
