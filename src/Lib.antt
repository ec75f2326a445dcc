-- ===== src/Lib.antt =====
-- A model of wuduo, a reactor library and HTTP server in C++, and what makes its parts correct.
--
-- The parts and how they meet. A `TcpServer` (wuduo/tcp_server.h and .cpp) gets sockets from its
-- `Acceptor` (wuduo/acceptor.h and .cpp) and gives each to the loop of one thread of its pool. A socket
-- is watched by an epoller through a `Channel` (wuduo/channel.h, wuduo/channel.cpp, wuduo/epoller.cpp);
-- `TcpConnection` (wuduo/tcp_connection.h and .cpp) handles its events, reads into one `Buffer`
-- (wuduo/buffer.h, wuduo/buffer.cpp), writes from another, and hands what it read to a message callback.
-- In the `HttpServer` (wuduo/http/http_server.h and .cpp) that callback gives the buffer to the
-- connection's `HttpContext` (wuduo/http/http_context.h and .cpp), which parses an `HttpRequest`
-- (wuduo/http/http_request.h and .cpp) out of it, and sends back an `HttpResponse`
-- (wuduo/http/http_response.h and .cpp).
--
-- - Prelude: native numbers and their tests, lists, integers, and how a C++ call may end (`Outcome`):
--   with a value, or by a failed `assert`, an exception that nothing catches, a read past an array, the
--   use of a freed object, or `std::terminate`. Assertions are on, as the default build of the Makefiles leaves them.
-- - Buffer: `Buffer` with its string and both indices; `size_t` sums wrap at 2 ^ 64. Its children are the
--   invariant, the operations on a split of the string (Edits), the contents of each operation (Contents, Growth),
--   `read_fd` (Io), and any history of calls against a queue of bytes (Queue, History).
-- - Http/Text, Http/Number: the string operations and the numbers that the parser reads and the response
--   prints; Decimal has the lemmas on printed numbers.
-- - Http/Request: `RequestLine`, its parser and printer, and the headers. Proofs in Words, Line, Aborts, Headers.
-- - Http/Context: `parse_request`, whose calls of itself are rounds on fuel. One more than the readable
--   bytes is enough: every round that goes on either consumes a byte or changes the phase for good.
--   Rounds proves that, Lines and HeaderLines what one round does, Complete what a call does, Length what
--   the length of a body is read from. Text is a parser on the bytes alone, Refines relates the two, and
--   Pieces and Arrival are about bytes that arrive in several reads, Room about the buffer's indices.
-- - Http/Status: the status codes, their phrases and the content types of wuduo/http/http_response.cpp.
-- - Http/Response: `HttpResponse`. The order in which the hash table of headers is gone through is a
--   parameter, and what `open`, `fstat` and `readv` answer is an argument. Proofs: what is written
--   (Writing, Printing), the page of an error (ErrorPage), reading a file (File, Analysis).
-- - Http/HttpServer: `on_message`, over the parser, the response and the connection. Its proofs are in
--   Replies and Messages. Session is a connection that is read from again and again: Waiting is about
--   reads that hold no whole request yet, Requests about the read that completes it,
--   Exchanges and KeepAlive about requests that follow one another. ErrorPages is `handle_error`.
-- - Reactor/Channel: `Channel` and `Epoller::update_channel`. The kernel is a parameter, `Kernel`, with
--   what the manual page of `epoll_ctl` says of each operation. Proofs in InterestList and Registered,
--   Reading is a channel that has begun to read.
-- - Tcp: `TcpConnection` over that kernel, in the thread of its loop. What `read` and `write` answer is an
--   argument of the handler, and the message callback is a list of calls that it makes. Proofs: the
--   invariant by operation (Lifecycle, Sending), the bytes of the stream (Stream), every handler
--   (Handlers), the way from the constructor (Start), and a shutdown that is asked for while bytes are
--   pending (Shutdown). Remote is the connection with the calls of other threads, each cut into the test
--   of the state, its setting and the queueing of a task in the loop, with anything between them; proofs
--   in Established and Safety. Dispatch is what a report of several events at once does.
-- - Reactor/Loop: the pending tasks of `EventLoop` (wuduo/event_loop.h and .cpp), as moves of its thread,
--   and calls of other threads as lists of effects that are done one at a time, in any order with the
--   moves. Proofs in Wakeup, Order and Completed. Object is a loop from its constructor to its
--   destructor, with proofs in Ends.
-- - Reactor/Epoller: `Epoller::wait`, and the turns of `EventLoop::loop` that hand its reports to the
--   channels, whose callbacks are a parameter. Proofs in Reports.
-- - Reactor/Timers: `TimerQueue` (wuduo/timer_queue.h and .cpp), its set as a list in order, and its calls
--   of `timerfd_settime` with their times. Interval is what `reset_alarm` hands to the kernel's timer, a
--   parameter with what the manual page of `timerfd_settime` says. Proofs in Expiry, and in Alarm over
--   that timer. Timer is `Timer` (wuduo/timer.h), with proofs in Expired and Once.
-- - Server: `EventLoopThreadPool` (wuduo/event_loop_thread_pool.h and .cpp), with proofs in Turns. Its
--   children are LoopThread, `EventLoopThread` (wuduo/event_loop_thread.h and .cpp) with the loop that
--   its thread makes, with proofs in Fate; InetAddress (wuduo/inet_address.h and .cpp); Acceptor, with
--   proofs in Listening; and TcpServer, with lemmas on its set in Sets and proofs in Invariant and Serving.
-- - Server/Lifetime: who keeps a `TcpConnection` alive while its loop, the server's loop and its users act
--   in any order. Stages says how far a connection is, Steps and Tasks what each move makes of that; proofs
--   in Safety and Twice; Mirrors relates it to Tcp.
-- - Tests: runs at concrete inputs.
--
-- Not modelled: in Server/Lifetime, data races on a connection's state, which calls of other threads read
-- without a lock, so that there each such call is one step; the socket options; and logging, which only
-- prints. A callback of a connection is recorded as a call; only the message callback acts.
pub mod Prelude
pub mod Buffer
pub mod Http
pub mod Reactor
pub mod Tcp
pub mod Server
mod Tests
