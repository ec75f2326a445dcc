-- ===== src/Http/HttpServer/Session/KeepAlive.antt =====
-- A kept connection of wuduo/http/http_server.cpp answers request after request.
use wuduo.Prelude.{
  Outcome, ℕ, ◌+◌, ◌≤◌, ◌≡◌, refl, sym, ap, ◌∙◌, Option, some, none, List, [], ◌∷◌, ◌++◌,
  append-nil, append_assoc, max_size, length, if◌then◌else◌, arith, ok, abort,
}
use wuduo.Buffer.{Bytes, Buffer, cheap_prepend, Received}
use wuduo.Buffer.Contents.{Holds}
use wuduo.Reactor.Channel.{Kernel}
use wuduo.Tcp.{Connection}
use wuduo.Http.Context.{HttpContext, fresh}
use wuduo.Http.Response.Writing.{join}
use wuduo.Http.Response.Printing.{text_of}
use wuduo.Http.HttpServer.Replies.{IsIdle, replied, shut}
use wuduo.Http.HttpServer.Session.{Answers, serve_read, serve_reads}
use wuduo.Http.HttpServer.Session.Requests.{serve_reads_answer}
use wuduo.Http.HttpServer.Session.Exchanges.{
  Exchange, arrives, stays_open, reads_of, all_reads, all_bytes, Valid, AllValid, Answer,
  AllAnswered,
}

module _ {k : Kernel} (arrange : List (Bytes × Bytes) → List (Bytes × Bytes)) where
  abbrev then_reads :
      List (Received × Answers)
      → Option (Outcome (Connection k × HttpContext))
      → Option (Outcome (Connection k × HttpContext))
  then_reads more none = none
  then_reads more (some (abort f)) = some (abort f)
  then_reads more (some (ok (c, context))) = serve_reads arrange c context more

  serve_reads-append :
      (early more : List (Received × Answers)) (c : Connection k) (context : HttpContext)
      → serve_reads arrange c context (early ++ more)
        ≡ then_reads more (serve_reads arrange c context early)
  unfolding serve_reads
  serve_reads-append [] more c context = refl
  serve_reads-append ((answer, a) ∷ early) more c context =
      go (serve_read arrange c context answer a) (serve_reads-append early more)
    where
      go :
          (o : Option (Outcome (Connection k × HttpContext)))
          → ((c : Connection k) (context : HttpContext)
              → serve_reads arrange c context (early ++ more)
                ≡ then_reads more (serve_reads arrange c context early))
          → elim o [
            | none ↦ none
            | some (abort f) ↦ some (abort f)
            | some (ok (c', context')) ↦ serve_reads arrange c' context' (early ++ more)
          ]
            ≡ then_reads more (elim o [
              | none ↦ none
              | some (abort f) ↦ some (abort f)
              | some (ok (c', context')) ↦ serve_reads arrange c' context' early
            ])
      go none rest = refl
      go (some (abort f)) rest = refl
      go (some (ok (c', context'))) rest = rest c' context'

  single_reply :
      (x : Exchange) (c : Connection k) (n m : ℕ)
      → IsIdle c
      → max_size ≤ n
      → Holds c.in_buffer []
      → cheap_prepend ≤ m
      → c.in_buffer.writer_index ≤ m
      → m + length (arrives x) ≤ max_size
      → Valid arrange x
      → (buf : Buffer) × (text : Bytes) × Answer arrange x text
        × Holds buf []
        × (buf.writer_index ≤ m + length (arrives x))
        × (serve_reads arrange c fresh (reads_of n x)
            ≡ some (ok (replied (record c { in_buffer = buf }) text, fresh)))
  single_reply x c n m idle takes_all empty front below room v =
      let (q, buf, r, carries, held, is, w, served) =
        serve_reads_answer arrange c n idle takes_all x.early x.last none x.line x.headers []
          x.first x.chunks m empty front below room v.waits v.some_bytes v.small v.parsed
          v.wellformed v.no_post v.whole v.delivered v.file_size v.few in
      (
        buf,
        text_of arrange r,
        (q, r, carries, is, refl),
        held,
        w,
        served
            ∙ ap
                (λ b. some (
                  ok (
                    (if b
                        then shut (replied (record c { in_buffer = buf }) (text_of arrange r))
                        else replied (record c { in_buffer = buf }) (text_of arrange r)),
                    fresh,
                  )))
                (stays_open x.line x.headers q v.keeps carries),
      )

  -- Requests that follow one another, each in any number of reads, on a connection with nothing
  -- pending, whose `write` takes all that it is offered, and each asking to keep the connection: each
  -- is answered by exactly one response, the contents of its file under 200 OK, in the order of the
  -- requests, nothing else is sent, and the connection is left open and ready for the next one, with
  -- an empty buffer. Each request is whole and printed and no POST, and the parser waits for more
  -- after each of its reads but the last; no read is empty or delivers more than the extra array
  -- takes, and all of them leave room in the buffer; each file is opened and delivered, less than
  -- 10^13 bytes; the headers take at most 2^62.
  pub serve_reads-AllAnswered :
      (xs : List Exchange) (c : Connection k) (n m : ℕ)
      → IsIdle c
      → max_size ≤ n
      → Holds c.in_buffer []
      → cheap_prepend ≤ m
      → c.in_buffer.writer_index ≤ m
      → m + all_bytes xs ≤ max_size
      → AllValid arrange xs
      → (buf : Buffer) × (texts : List Bytes) × AllAnswered arrange xs texts
        × Holds buf []
        × (serve_reads arrange c fresh (all_reads n xs)
            ≡ some (ok (replied (record c { in_buffer = buf }) (join texts), fresh)))
  unfolding serve_reads
  serve_reads-AllAnswered [] c n m idle takes_all empty front below room vs = (
    c.in_buffer,
    [],
    tt,
    empty,
    ap (λ sent. some (ok (record c { sent = sent }, fresh))) (sym (append-nil c.sent)),
  )
  serve_reads-AllAnswered (x ∷ xs) c n m idle takes_all empty front below room (v, vs) =
      let (b, text, answer, held, w, served) =
        single_reply x c n m idle takes_all empty front below (omega (arith, room)) v in
      let c' : Connection k = replied (record c { in_buffer = b }) text in
      let (b', texts, answers, held', rest) =
        serve_reads-AllAnswered xs c' n (m + length (arrives x)) idle takes_all held
          (omega (arith, front)) w (omega (arith, room)) vs in
      (
        b',
        text ∷ texts,
        (answer, answers),
        held',
        serve_reads-append (reads_of n x) (all_reads n xs) c fresh
            ∙ ap (then_reads (all_reads n xs)) served
            ∙ rest
            ∙ ap (λ sent. some (ok (record c { in_buffer = b'; sent = sent }, fresh)))
                (append_assoc c.sent text (join texts)),
      )
