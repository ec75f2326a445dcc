-- ===== src/Http/HttpServer/Session.antt =====
-- A connection of the HTTP server while it is read from: `TcpConnection::handle_read` of
-- wuduo/tcp_connection.cpp with `on_message` as its message callback, read after read.
pub mod Waiting
pub mod Requests
pub mod Exchanges
pub mod KeepAlive
use wuduo.Prelude.{
  ℕ, Bool, true, false, Option, none, some, List, [], ◌∷◌, ltb, Outcome, ok, abort, ◌>>=◌,
}
use wuduo.Buffer.{Bytes, Buffer, Received, Returned, count, minus_one, read_fd}
use wuduo.Reactor.Channel.{Kernel}
use wuduo.Tcp.{Connection, after_read}
use wuduo.Http.Context.{HttpContext}
use wuduo.Http.Response.{FileAnswer}
use wuduo.Http.HttpServer.{on_message}

-- What the kernel answers while a read is handled: about the file, and to the two calls of `send`.
pub record Answers : Type 0 where
  pub file : FileAnswer
  pub wrote_page : Option ℕ
  pub wrote : Option ℕ

module _ {k : Kernel} (arrange : List (Bytes × Bytes) → List (Bytes × Bytes)) where
  -- Where nothing was read there is no message.
  abbrev pub without_message :
      Connection k → HttpContext → Returned × Buffer → Option (Outcome (Connection k × HttpContext))
  without_message c context r = some (after_read c [] r >>= λ c'. ok (c', context))

  abbrev pub with_message :
      Connection k
      → HttpContext
      → Answers
      → Returned × Buffer
      → Option (Outcome (Connection k × HttpContext))
  with_message c context a (count n, buf) = elim (ltb 0 n) [
    | true ↦ on_message arrange (record c { in_buffer = buf }) context a.file a.wrote_page a.wrote
    | false ↦ without_message c context (count n, buf)
  ]
  with_message c context a (minus_one errno, buf) = without_message c context (minus_one errno, buf)

  unfoldable pub serve_read :
      Connection k
      → HttpContext
      → Received
      → Answers
      → Option (Outcome (Connection k × HttpContext))
  serve_read c context answer a = elim (read_fd c.in_buffer answer) [
    | abort f ↦ some (abort f)
    | ok r ↦ with_message c context a r
  ]

  unfoldable pub serve_reads :
      Connection k
      → HttpContext
      → List (Received × Answers)
      → Option (Outcome (Connection k × HttpContext))
  serve_reads c context [] = some (ok (c, context))
  serve_reads c context ((answer, a) ∷ rest) = elim (serve_read c context answer a) [
    | none ↦ none
    | some (abort f) ↦ some (abort f)
    | some (ok (c', context')) ↦ serve_reads c' context' rest
  ]
