-- ===== src/Http/HttpServer/Messages.antt =====
-- What the server makes of a message.
use wuduo.Prelude.{
  ℕ, ◌^◌, ◌≤◌, ◌<◌, ◌≡◌, ◌≢◌, refl, sym, subst, Bool, true, false, Option, some, List, ◌∷◌, ◌++◌,
  map, max_size, length, if◌then◌else◌, ok,
}
use wuduo.Buffer
use wuduo.Buffer.{Bytes, Buffer, peek, received, initial_size}
use wuduo.Buffer.Invariant.{IsValid}
use wuduo.Buffer.Contents.{Holds}
use wuduo.Reactor.Channel.{Kernel}
use wuduo.Tcp.{Connection}
use wuduo.Http.Request.{post, RequestLine, HttpRequest, is_close_connection}
use wuduo.Http.Request.Line.{IsParsed}
use wuduo.Http.Context.{HttpContext, completed, parse_request, parsing_completed, reset, fresh}
use wuduo.Http.Context.HeaderLines.{Header, AreHeaders, request_text}
use wuduo.Http.Context.Complete.{Carries, parse_complete_request}
use wuduo.Http.Response
use wuduo.Http.Response.{HttpResponse, set_status_code, FileAnswer, opened}
use wuduo.Http.Status.{ok200, bad_request400}
use wuduo.Http.Response.Writing.{header_text, join}
use wuduo.Http.Response.Printing.{text_of}
use wuduo.Http.Response.ErrorPage.{IsError}
use wuduo.Http.Response.File.{Deliver}
use wuduo.Http.Response.Analysis.{headers_with, headers_for, IsFile}
use wuduo.Http.HttpServer.{on_message}
use wuduo.Http.HttpServer.Replies.{IsIdle, replied, shut, refuse-shut, respond-replied}

-- The response that a request is answered with before the file is looked at.
abbrev pub success : HttpRequest → HttpResponse
success request = set_status_code (Response.create (is_close_connection request)) ok200

module _ {k : Kernel} (arrange : List (Bytes × Bytes) → List (Bytes × Bytes)) (c : Connection k)
    (n : ℕ) (idle : IsIdle c) (takes_all : max_size ≤ n) where
  -- On a connection with nothing pending whose `write` takes all that it is offered, a message that the
  -- parser refuses is answered by exactly the page of 400 Bad Request, and then the sending side of
  -- the socket is shut down; the buffer is left as the parser left it.
  pub on_message_refuses :
      (context context' : HttpContext) (buf : Buffer) (file : FileAnswer) (wrote : Option ℕ)
      → parse_request context c.in_buffer ≡ some (ok (false, context', buf))
      → parsing_completed context' ≡ false
      → length (header_text (arrange (Response.create true).headers)) ≤ 2 ^ 62
      → (r : HttpResponse) × IsError bad_request400 (Response.create true) r
        × (on_message arrange c context file (some n) wrote
            ≡ some
                (ok (shut (replied (record c { in_buffer = buf }) (text_of arrange r)), context')))
  unfolding on_message
  on_message_refuses context context' buf file wrote parsed unfinished few =
      let (r, is, done) = refuse-shut arrange (record c { in_buffer = buf }) n idle takes_all few in
      (r, is, rw (parsed, on_message) (rw (done, unfinished) refl))

  pub on_message_serves :
      (context context' : HttpContext) (buf : Buffer) (first : Bytes) (chunks : List Bytes)
      (wrote : Option ℕ)
      → parse_request context c.in_buffer ≡ some (ok (true, context', buf))
      → parsing_completed context' ≡ true
      → Deliver (Buffer.create initial_size) (first ∷ chunks)
      → length (first ++ join chunks) < 10 ^ 13
      → length (
          header_text (
            arrange (
              headers_for context'.request
                (Response.create (is_close_connection context'.request)).headers)))
        ≤ 2 ^ 62
      → (r : HttpResponse) × IsFile context'.request
          (first ++ join chunks)
          (success context'.request)
          r
        × (on_message arrange c context
              (opened (length (first ++ join chunks)) (map received (first ∷ chunks)))
              wrote
              (some n)
            ≡ some (
                ok (
                  (if is_close_connection context'.request
                      then shut (replied (record c { in_buffer = buf }) (text_of arrange r))
                      else replied (record c { in_buffer = buf }) (text_of arrange r)),
                  reset context',
                )))
  unfolding on_message
  on_message_serves context context' buf first chunks wrote parsed whole d small few =
      let (r, is, done) =
        respond-replied arrange (record c { in_buffer = buf }) n idle takes_all context' first
          chunks d small few in
      (r, is, rw (parsed, on_message) (rw (whole, done) refl))

  -- On a connection with nothing pending whose `write` takes all that it is offered, a message that
  -- starts with a whole printed request that is no POST is answered at once by exactly one response:
  -- the contents of the file, with their length, under 200 OK. The buffer holds the bytes behind the
  -- request, the context is ready for the next one, and the sending side is shut down exactly if the
  -- request does not ask to keep the connection. The file is opened and `readv` delivers all of it,
  -- less than 10^13 bytes; the headers take at most 2^62.
  pub on_message_answers :
      (line : RequestLine) (hs : List Header) (rest first : Bytes) (chunks : List Bytes)
      (wrote : Option ℕ)
      → IsValid c.in_buffer
      → IsParsed line
      → AreHeaders hs
      → line.method ≢ post
      → peek c.in_buffer ≡ request_text line hs rest
      → Deliver (Buffer.create initial_size) (first ∷ chunks)
      → length (first ++ join chunks) < 10 ^ 13
      → ((close : Bool)
          → length
              (header_text (arrange (headers_with line.path close (Response.create close).headers)))
            ≤ 2 ^ 62)
      → (q : HttpRequest) × (buf : Buffer) × (r : HttpResponse) × Carries line hs q
        × Holds buf rest
        × IsFile q (first ++ join chunks) (success q) r
        × (on_message arrange c fresh
              (opened (length (first ++ join chunks)) (map received (first ∷ chunks)))
              wrote
              (some n)
            ≡ some (
                ok (
                  (if is_close_connection q
                      then shut (replied (record c { in_buffer = buf }) (text_of arrange r))
                      else replied (record c { in_buffer = buf }) (text_of arrange r)),
                  fresh,
                )))
  unfolding parsing_completed reset
  on_message_answers line hs rest first chunks wrote v parsed wellformed ne e d small few =
      let (q, buf, run, held, carries) =
        parse_complete_request line hs rest c.in_buffer v parsed wellformed e ne in
      let (r, is, done) =
        on_message_serves fresh (record { phase = completed; request = q }) buf first chunks wrote
          run refl d small
          (subst
            (λ (l : RequestLine).
              length (
                header_text (
                  arrange (
                    headers_with l.path (is_close_connection q)
                      (Response.create (is_close_connection q)).headers)))
              ≤ 2 ^ 62)
            (sym carries.0) (few (is_close_connection q))) in
      (q, buf, r, carries, held, is, done)
