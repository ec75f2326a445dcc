-- ===== src/Http/HttpServer.antt =====
-- `HttpServer::on_message` of wuduo/http/http_server.cpp, the message callback of a connection: it puts
-- the parser, the response and the connection together. The context is the connection's `context_`.
-- What `write` answers to each of the two calls of `send` is an argument, and so is what the kernel
-- answers about the file.
pub mod Replies
pub mod Messages
pub mod Session
pub mod ErrorPages
use wuduo.Prelude.{
  ℕ, Bool, true, false, Option, none, some, List, if◌then◌else◌, Outcome, ok, abort, ◌>>=◌,
}
use wuduo.Buffer.{Bytes, Buffer, peek}
use wuduo.Reactor.Channel.{Kernel}
use wuduo.Tcp.{Connection, is_connected, send, send_buffer, shutdown}
use wuduo.Http.Request.{HttpRequest, is_close_connection}
use wuduo.Http.Context.{HttpContext, parse_request, parsing_completed, reset, fresh}
use wuduo.Http.Response
use wuduo.Http.Response.{HttpResponse, set_status_code, error_message_with, FileAnswer, analyse}
use wuduo.Http.Status.{ok200, bad_request400}

-- The connection callback that the constructor sets: the context of a connection, if it gets one.
unfoldable pub context_of : {k : Kernel} → Connection k → Option HttpContext
context_of c = if is_connected c.state then some fresh else none

module _ {k : Kernel} where
  abbrev pub close_if : Bool → HttpContext → Connection k → Outcome (Connection k × HttpContext)
  close_if close context c = (if close then shutdown c else ok c) >>= λ c'. ok (c', reset context)

  abbrev pub send_response :
      Connection k
      → HttpContext
      → Option ℕ
      → HttpResponse × Buffer
      → Outcome (Connection k × HttpContext)
  send_response c context wrote (response, output) =
      send c (peek output) wrote >>= close_if response.close_connection context

module _ {k : Kernel} (arrange : List (Bytes × Bytes) → List (Bytes × Bytes)) where
  -- The answer to a request that is no request.
  unfoldable pub refuse : Connection k → Option ℕ → Outcome (Connection k)
  refuse c wrote = do
    (response, page) ← error_message_with arrange (Response.create true) bad_request400
    (c', emptied) ← send_buffer c page wrote
    shutdown c'

  -- The answer to a request that was read as a whole.
  unfoldable pub respond :
      Connection k
      → HttpContext
      → FileAnswer
      → Option ℕ
      → Option (Outcome (Connection k × HttpContext))
  respond c context file wrote =
      elim (analyse arrange
        (set_status_code (Response.create (is_close_connection context.request)) ok200)
        context.request file) [
          | none ↦ none
          | some answer ↦ some (answer >>= send_response c context wrote)
        ]

  abbrev pub respond_if_completed :
      HttpContext
      → FileAnswer
      → Option ℕ
      → Outcome (Connection k)
      → Option (Outcome (Connection k × HttpContext))
  respond_if_completed context file wrote (ok c) =
      if parsing_completed context then respond c context file wrote else some (ok (c, context))
  respond_if_completed context file wrote (abort f) = some (abort f)

  -- `none` is a call that does not return.
  unfoldable pub on_message :
      Connection k
      → HttpContext
      → FileAnswer
      → Option ℕ
      → Option ℕ
      → Option (Outcome (Connection k × HttpContext))
  on_message c context file wrote_page wrote = elim (parse_request context c.in_buffer) [
    | none ↦ none
    | some (abort f) ↦ some (abort f)
    | some (ok (good, context', buf)) ↦
        let c' : Connection k = record c { in_buffer = buf } in
        respond_if_completed context' file wrote (if good then ok c' else refuse c' wrote_page)
  ]
