-- ===== src/Http/HttpServer/Session/Requests.antt =====
-- A request that arrives in any number of reads.
use wuduo.Prelude.{
  ℕ, ◌+◌, ◌^◌, ◌≤◌, ◌<◌, ◌≡◌, ◌≢◌, refl, sym, ap, subst, ◌∙◌, Bool, true, Option, some, List, [],
  ◌∷◌, ◌++◌, append-nil, map, max_size, length, length-append, replicate, if◌then◌else◌, arith, ok,
}
use wuduo.Buffer
use wuduo.Buffer.{Bytes, Buffer, cheap_prepend, extra_size, peek, Received, received, initial_size}
use wuduo.Buffer.Contents.{Holds, Parts-Holds}
use wuduo.Reactor.Channel.{Kernel}
use wuduo.Tcp.{Connection}
use wuduo.Http.Request.{post, RequestLine, HttpRequest, is_close_connection}
use wuduo.Http.Request.Line.{IsParsed}
use wuduo.Http.Context.{HttpContext, completed, parsing_completed, reset, fresh}
use wuduo.Http.Context.Text.{parse_text}
use wuduo.Http.Context.Refines.{seen, parse_request-seen}
use wuduo.Http.Context.HeaderLines.{Header, AreHeaders, request_text}
use wuduo.Http.Context.Room.{parse_request-writer_index}
use wuduo.Http.Context.Complete.{Carries, parse_complete_request}
use wuduo.Http.Response
use wuduo.Http.Response.{HttpResponse, FileAnswer, opened}
use wuduo.Http.Response.Writing.{header_text, join}
use wuduo.Http.Response.Printing.{text_of}
use wuduo.Http.Response.File.{Deliver}
use wuduo.Http.Response.Analysis.{headers_with, IsFile}
use wuduo.Http.HttpServer.Replies.{IsIdle, replied, shut}
use wuduo.Http.HttpServer.Messages.{success, on_message_serves}
use wuduo.Http.HttpServer.Session.{Answers, serve_read, serve_reads}
use wuduo.Http.HttpServer.Session.Waiting.{
  read_total, Parsed, Waits, joined, as_reads, serve_read_message, serve_reads_wait,
}

-- A buffer with nothing else.
abbrev around : Bytes → Buffer
around xs = record {
  bytes = replicate cheap_prepend 0 ++ xs;
  reader_index = cheap_prepend;
  writer_index = cheap_prepend + length xs;
}

around-Holds : (xs : Bytes) → cheap_prepend + length xs ≤ max_size → Holds (around xs) xs
around-Holds xs h = Parts-Holds (record {
  front = replicate cheap_prepend 0;
  rest = [];
  cut = ap (◌++◌ (replicate cheap_prepend 0)) (sym (append-nil xs));
  reader_at = refl;
  writer_at = refl;
  front_room = omega (arith, length-append (replicate {A = ℕ} cheap_prepend 0) xs);
  fits = omega (arith, length-append (replicate {A = ℕ} cheap_prepend 0) xs, h);
})

-- A whole request on plain bytes.
parse_text_complete :
    (line : RequestLine) (hs : List Header) (rest : Bytes)
    → cheap_prepend + length (request_text line hs rest) ≤ max_size
    → IsParsed line
    → AreHeaders hs
    → line.method ≢ post
    → (q : HttpRequest) × (parse_text fresh (request_text line hs rest)
        ≡ some (ok (true, record { phase = completed; request = q }, rest)))
      × Carries line hs q
parse_text_complete line hs rest room parsed wellformed ne =
    let b = around (request_text line hs rest) in
    let h = around-Holds (request_text line hs rest) room in
    let (q, b', run, h', carries) =
      parse_complete_request line hs rest b h.0 parsed wellformed h.1 ne in
    (
      q,
      ap (parse_text fresh) (sym h.1)
          ∙ sym (parse_request-seen fresh b h.0)
          ∙ ap seen run
          ∙ ap (λ s. some (ok (true, record { phase = completed; request = q }, s))) h'.1,
      carries,
    )

last_read :
    {k : Kernel} (arrange : List (Bytes × Bytes) → List (Bytes × Bytes)) (c : Connection k)
    (context : HttpContext) (p : Bytes) (a : Answers) {c' : Connection k} {context' : HttpContext}
    → serve_read arrange c context (received p) a ≡ some (ok (c', context'))
    → serve_reads arrange c context ((received p, a) ∷ []) ≡ some (ok (c', context'))
unfolding serve_reads
last_read arrange c context p a served = rw (served, serve_reads) refl

module _ {k : Kernel} (arrange : List (Bytes × Bytes) → List (Bytes × Bytes)) (c : Connection k)
    (n : ℕ) (idle : IsIdle c) (takes_all : max_size ≤ n) where
  -- A new request on a connection with nothing pending, whose `write` takes all that it is offered, is
  -- answered by exactly one response, the contents of the file under 200 OK, in however many reads it
  -- arrives, as long as the parser waits for more after each but the last: until then nothing is sent,
  -- and after the last the buffer holds the bytes behind the request, the context is ready for the
  -- next one, its index of writing has grown by no more than what arrived, and the sending side is
  -- shut down exactly if the request does not ask to keep the connection. The request is whole and
  -- printed, and no POST; no read is empty or delivers more than the extra array takes, and all of
  -- them leave room in the buffer; the file is opened and delivered, less than 10^13 bytes; the
  -- headers take at most 2^62.
  pub serve_reads_answer :
      (early : List (Bytes × Answers)) (last : Bytes) (wrote_page : Option ℕ) (line : RequestLine)
      (hs : List Header) (rest first : Bytes) (chunks : List Bytes) (m : ℕ)
      → Holds c.in_buffer []
      → cheap_prepend ≤ m
      → c.in_buffer.writer_index ≤ m
      → m + length (joined early ++ last) ≤ max_size
      → Waits fresh [] early
      → 0 < length last
      → length last ≤ extra_size
      → IsParsed line
      → AreHeaders hs
      → line.method ≢ post
      → joined early ++ last ≡ request_text line hs rest
      → Deliver (Buffer.create initial_size) (first ∷ chunks)
      → length (first ++ join chunks) < 10 ^ 13
      → ((close : Bool)
          → length
              (header_text (arrange (headers_with line.path close (Response.create close).headers)))
            ≤ 2 ^ 62)
      → (q : HttpRequest) × (buf : Buffer) × (r : HttpResponse) × Carries line hs q
        × Holds buf rest
        × IsFile q (first ++ join chunks) (success q) r
        × (buf.writer_index ≤ m + length (joined early ++ last))
        × (serve_reads arrange c fresh (
              as_reads early (
                (
                  received last,
                  record {
                    file = opened (length (first ++ join chunks)) (map received (first ∷ chunks));
                    wrote_page = wrote_page;
                    wrote = some n;
                  },
                )
                ∷ []))
            ≡ some (
                ok (
                  (if is_close_connection q
                      then shut (replied (record c { in_buffer = buf }) (text_of arrange r))
                      else replied (record c { in_buffer = buf }) (text_of arrange r)),
                  fresh,
                )))
  unfolding parsing_completed reset
  serve_reads_answer early last wrote_page line hs rest first chunks m empty front below room waits
        some_bytes small parsed wellformed ne whole d file_size few =
      let a : Answers = record {
        file = opened (length (first ++ join chunks)) (map received (first ∷ chunks));
        wrote_page = wrote_page;
        wrote = some n;
      } in
      let total : length (joined early ++ last) ≡ length (joined early) + length last =
        length-append (joined early) last in
      let (b, context, held, waited, h, w, same) =
        serve_reads_wait arrange c fresh [] early m front below (omega (arith, room, total)) empty
          waits in
      let (b₁, read, h₁, w₁) = read_total b last h.0 small (omega (arith, w, room, total)) in
      let (q, done, carries) =
        parse_text_complete line hs rest (omega (arith, room, front, ap length whole)) parsed
          wellformed ne in
      let (b₂, run, h₂) =
        Parsed context (record { phase = completed; request = q }) b₁ rest h₁.0
          (ap (parse_text context) (h₁.1 ∙ ap (λ xs. xs ++ last) h.1)
            ∙ same last
            ∙ ap (parse_text fresh) whole
            ∙ done) in
      let (r, is, served) =
        on_message_serves arrange (record c { in_buffer = b₁ }) n idle takes_all context
          (record { phase = completed; request = q }) b₂ first chunks wrote_page run refl d
          file_size
          (subst
            (λ (l : RequestLine).
              length (
                header_text (
                  arrange (
                    headers_with l.path (is_close_connection q)
                      (Response.create (is_close_connection q)).headers)))
              ≤ 2 ^ 62)
            (sym carries.0) (few (is_close_connection q))) in
      (
        q,
        b₂,
        r,
        carries,
        h₂,
        is,
        parse_request-writer_index (m + length (joined early ++ last)) (omega (arith, front))
            context (record { phase = completed; request = q }) b₁ b₂ true
            (omega (arith, w, w₁, total)) run,
        waited ((received last, a) ∷ [])
            ∙ last_read arrange (record c { in_buffer = b }) context last a
                (serve_read_message arrange (record c { in_buffer = b }) context last a b₁ read
                    some_bytes
                  ∙ served),
      )
