-- ===== src/Http/HttpServer/Replies.antt =====
-- What a connection has sent after a message, and what is left of it.
use wuduo.Prelude.{
  ℕ, ◌+◌, ◌^◌, ◌≤◌, ◌<◌, ◌≡◌, refl, ap, ◌∙◌, Bool, true, false, some, List, [], ◌∷◌, ◌++◌, map,
  max_size, length, take_all, min, if◌then◌else◌, arith, le→ltb, ok,
}
use wuduo.Buffer.{Bytes, Buffer, peek, readable_bytes, received, retrieve_all, initial_size}
use wuduo.Buffer
use wuduo.Buffer.Edits.{create-Parts}
use wuduo.Buffer.Invariant.{IsValid, length-peek}
use wuduo.Buffer.Contents.{Holds, Parts-Holds}
use wuduo.Reactor.Channel.{Kernel, is_writing}
use wuduo.Tcp.{
  is_connected, connected, disconnecting, Connection, send, send_in_loop, send_buffer, shutdown,
  shut_wr,
}
use wuduo.Http.Text.{equal}
use wuduo.Http.Request.{is_close_connection}
use wuduo.Http.Context.{HttpContext, reset}
use wuduo.Http.Response
use wuduo.Http.Response.{
  HttpResponse, set_status_code, error_message_with, FileAnswer, opened, analyse, assign,
  error_page,
}
use wuduo.Http.Status.{ok200, bad_request400, phrase}
use wuduo.Http.Response.Writing.{header_text, join}
use wuduo.Http.Response.Printing.{text_of}
use wuduo.Http.Response.ErrorPage.{IsError, error_message_with-IsError}
use wuduo.Http.Response.File.{Deliver}
use wuduo.Http.Response.Analysis.{headers_for, IsFile, analyse-IsFile}
use wuduo.Http.HttpServer.{close_if, refuse, respond}

module _ {k : Kernel} where
  -- Connected, with nothing that waits to be written.
  abbrev pub IsIdle : Connection k → Type 0
  IsIdle c =
      (c.state ≡ connected) × (is_writing c.channel ≡ false) × (readable_bytes c.output_buffer ≡ 0)

  send_in_loop-all :
      (c : Connection k) (xs : Bytes) (n : ℕ)
      → IsIdle c
      → length xs ≤ n
      → send_in_loop c xs (some n) ≡ ok (record c { sent = c.sent ++ xs })
  unfolding send_in_loop
  send_in_loop-all c xs n idle h =
      let all : min n (length xs) ≡ length xs = omega (arith, h) in
      simp (idle.0, idle.1, idle.2)
        (rw
          (all, take_all (length xs) xs (omega arith), le→ltb (length xs) (length xs) (omega arith))
          refl)

  send-all :
      (c : Connection k) (xs : Bytes) (n : ℕ)
      → IsIdle c
      → length xs ≤ n
      → send c xs (some n) ≡ ok (record c { sent = c.sent ++ xs })
  unfolding send
  send-all c xs n idle h = rw (ap is_connected idle.0) (send_in_loop-all c xs n idle h)

  -- The connection after a reply that was written at once, and after the shutdown that follows it.
  abbrev pub replied : Connection k → Bytes → Connection k
  replied c xs = record c { sent = c.sent ++ xs }

  abbrev pub shut : Connection k → Connection k
  shut c = record c { state = disconnecting; effects = shut_wr ∷ c.effects }

  shutdown-shut : (c : Connection k) → IsIdle c → shutdown c ≡ ok (shut c)
  unfolding shutdown
  shutdown-shut c idle = simp (idle.0, idle.1)

  send_buffer-all :
      (c : Connection k) (b : Buffer) (n : ℕ)
      → IsIdle c
      → length (peek b) ≤ n
      → send_buffer c b (some n) ≡ ok (replied c (peek b), retrieve_all b)
  unfolding send_buffer
  send_buffer-all c b n idle h =
      rw (ap is_connected idle.0, send_in_loop-all c (peek b) n idle h) refl

closing :
    {k : Kernel} (c : Connection k)
    → IsIdle c
    → (close : Bool) (context : HttpContext)
    → close_if close context c ≡ ok ((if close then shut c else c), reset context)
closing c idle true context = rw (shutdown-shut c idle) refl
closing c idle false context = refl

room_for : (n : ℕ) → n < 10 ^ 13 → (Buffer.create initial_size).writer_index + n ≤ max_size
unfolding Buffer.create
room_for n h = omega (arith, h)

length-held-le : (b : Buffer) → IsValid b → length (peek b) ≤ max_size
length-held-le b v = omega (arith, length-peek v, v.in_string, v.addressable)

fresh_body : Holds (Buffer.create initial_size) []
fresh_body = Parts-Holds (create-Parts initial_size (omega arith))

module _ {k : Kernel} (arrange : List (Bytes × Bytes) → List (Bytes × Bytes)) (c : Connection k)
    (n : ℕ) (idle : IsIdle c) (takes_all : max_size ≤ n) where
  pub refuse-shut :
      length (header_text (arrange (Response.create true).headers)) ≤ 2 ^ 62
      → (r : HttpResponse) × IsError bad_request400 (Response.create true) r
        × (refuse arrange c (some n) ≡ ok (shut (replied c (text_of arrange r))))
  unfolding refuse Response.create Response.set_content_type Response.set_close_connection
      Response.add_header Response.assign equal
  refuse-shut few =
      let (r, page, done, is, held) =
        error_message_with-IsError arrange (Response.create true) bad_request400 fresh_body.0 few in
      let sent =
        send_buffer-all c page n idle (omega (arith, length-held-le page held.0, takes_all))
        ∙ ap (λ xs. ok (replied c xs, retrieve_all page)) held.1 in
      (r, is, rw (done, sent) (shutdown-shut (replied c (text_of arrange r)) idle))

  pub respond-replied :
      (context : HttpContext) (first : Bytes) (chunks : List Bytes)
      → Deliver (Buffer.create initial_size) (first ∷ chunks)
      → length (first ++ join chunks) < 10 ^ 13
      → length (
          header_text (
            arrange (
              headers_for context.request
                (Response.create (is_close_connection context.request)).headers)))
        ≤ 2 ^ 62
      → (r : HttpResponse) × IsFile context.request
          (first ++ join chunks)
          (set_status_code (Response.create (is_close_connection context.request)) ok200)
          r
        × (respond arrange c context
              (opened (length (first ++ join chunks)) (map received (first ∷ chunks)))
              (some n)
            ≡ some (
                ok (
                  (if is_close_connection context.request
                      then shut (replied c (text_of arrange r))
                      else replied c (text_of arrange r)),
                  reset context,
                )))
  unfolding respond Response.create set_status_code Response.set_content_type
      Response.set_close_connection Response.add_header phrase
  respond-replied context first chunks d small few =
      let (r, output, done, is, held) =
        analyse-IsFile arrange
          (set_status_code (Response.create (is_close_connection context.request)) ok200)
          context.request first chunks fresh_body
          (fresh_body.0, room_for (length (first ++ join chunks)) small) d small (omega arith)
          few in
      let sent =
        send-all c (peek output) n idle (omega (arith, length-held-le output held.0, takes_all))
        ∙ ap (λ xs. ok (replied c xs)) held.1 in
      (
        r,
        is,
        rw (done, respond, sent)
            (ap some (
              closing (replied c (text_of arrange r)) idle r.close_connection context
              ∙ ap
                  (λ b. ok (
                    (if b
                        then shut (replied c (text_of arrange r))
                        else replied c (text_of arrange r)),
                    reset context,
                  ))
                  is.3)),
      )
