-- ===== src/Http/HttpServer/Session/Waiting.antt =====
-- Reads that leave the server waiting for more of a request.
use wuduo.Prelude.{
  ℕ, ◌+◌, ◌≤◌, ◌<◌, ◌≡◌, refl, sym, ap, ◌∙◌, Bool, true, false, Option, none, some, List, [], ◌∷◌,
  ◌++◌, append_assoc, length, length-append, lt→ltb, max_size, arith, Outcome, ok, abort,
}
use wuduo.Buffer.{
  Bytes, Buffer, cheap_prepend, extra_size, peek, Received, received, Returned, count, read_fd,
}
use wuduo.Buffer.Invariant.{IsValid}
use wuduo.Buffer.Contents.{Holds}
use wuduo.Buffer.Io.{Reads, read_fd-Reads}
use wuduo.Reactor.Channel.{Kernel}
use wuduo.Tcp.{Connection}
use wuduo.Http.Context.{HttpContext, parse_request, parsing_completed}
use wuduo.Http.Context.Text.{parse_text}
use wuduo.Http.Context.Rounds.{Parses, parse_request-Parses}
use wuduo.Http.Context.Refines.{seen, parse_request-seen}
use wuduo.Http.Context.Arrival.{parse_text_arrives}
use wuduo.Http.Context.Room.{parse_request-writer_index}
use wuduo.Http.HttpServer.{on_message}
use wuduo.Http.HttpServer.Session.{Answers, with_message, serve_read, serve_reads}

-- A call that the parser on plain bytes describes, on a valid buffer.
pub Parsed :
    (c c' : HttpContext) (b : Buffer) (s : Bytes)
    → IsValid b
    → parse_text c (peek b) ≡ some (ok (true, c', s))
    → (b' : Buffer) × (parse_request c b ≡ some (ok (true, c', b'))) × Holds b' s
Parsed c c' b s v e =
    from_seen (parse_request c b) (parse_request-seen c b v ∙ e) (parse_request-Parses c b v)
  where
    from_seen :
        (o : Option (Outcome (Bool × HttpContext × Buffer)))
        → seen o ≡ some (ok (true, c', s))
        → Parses c b o
        → (b' : Buffer) × (o ≡ some (ok (true, c', b'))) × Holds b' s
    from_seen none e' h = absurd (cc)
    from_seen (some (abort f)) e' h = absurd (cc)
    from_seen (some (ok (r, d, b'))) e' h =
        let good : r ≡ true = cc in let same : d ≡ c' = cc in (b', rw (good, same) refl, (h.0, cc))

-- A read of this many bytes in a buffer with room for them.
pub read_total :
    (b : Buffer) (xs : Bytes)
    → IsValid b
    → length xs ≤ extra_size
    → b.writer_index + length xs ≤ max_size
    → (b' : Buffer) × (read_fd b (received xs) ≡ ok (count (length xs), b'))
      × Holds b' (peek b ++ xs)
      × (b'.writer_index ≤ b.writer_index + length xs)
read_total b xs v small room =
    from_reads (read_fd b (received xs)) (read_fd-Reads b (received xs) v (omega (arith, small)))
  where
    from_reads :
        (o : Outcome (Returned × Buffer))
        → Reads b (received xs) o
        → (b' : Buffer) × (o ≡ ok (count (length xs), b'))
          × Holds b' (peek b ++ xs)
          × (b'.writer_index ≤ b.writer_index + length xs)
    from_reads (ok (r, b')) h = (b', ap (λ x. ok (x, b')) h.0, h.1, h.2)
    from_reads (abort f) h = absurd (omega (arith, h.0, room))

-- Reads that are not empty, no longer than the extra array, and each followed by a call of the parser
-- that waits for more.
abbrev pub Waits : HttpContext → Bytes → List (Bytes × Answers) → Type 0
Waits c held [] = Unit {0}
Waits c held ((p, a) ∷ ps) =
    (0 < length p)
    × (length p ≤ extra_size)
    × ((c' : HttpContext) × (held' : Bytes) × (parse_text c (held ++ p)
          ≡ some (ok (true, c', held')))
        × (parsing_completed c' ≡ false)
        × Waits c' held' ps)

-- All that is read, in order.
abbrev pub joined : List (Bytes × Answers) → Bytes
joined [] = []
joined ((p, a) ∷ ps) = p ++ joined ps

abbrev pub as_reads : List (Bytes × Answers) → List (Received × Answers) → List (Received × Answers)
as_reads [] rest = rest
as_reads ((p, a) ∷ ps) rest = (received p, a) ∷ as_reads ps rest

module _ {k : Kernel} (arrange : List (Bytes × Bytes) → List (Bytes × Bytes)) where
  pub serve_read_message :
      (c : Connection k) (context : HttpContext) (p : Bytes) (a : Answers) (b : Buffer)
      → read_fd c.in_buffer (received p) ≡ ok (count (length p), b)
      → 0 < length p
      → serve_read arrange c context (received p) a
        ≡ on_message arrange (record c { in_buffer = b }) context a.file a.wrote_page a.wrote
  unfolding serve_read
  serve_read_message c context p a b read some_bytes =
      rw (read, serve_read, with_message, lt→ltb 0 (length p) some_bytes) refl

  on_message_waits :
      (c : Connection k) (context context' : HttpContext) (a : Answers) (b : Buffer)
      → parse_request context c.in_buffer ≡ some (ok (true, context', b))
      → parsing_completed context' ≡ false
      → on_message arrange c context a.file a.wrote_page a.wrote
        ≡ some (ok (record c { in_buffer = b }, context'))
  unfolding on_message
  on_message_waits c context context' a b run waits = rw (run, on_message) (rw waits refl)

  serve_read_waits :
      (c : Connection k) (context context' : HttpContext) (held held' p : Bytes) (a : Answers)
      (m : ℕ)
      → cheap_prepend ≤ m
      → c.in_buffer.writer_index ≤ m
      → m + length p ≤ max_size
      → 0 < length p
      → length p ≤ extra_size
      → Holds c.in_buffer held
      → parse_text context (held ++ p) ≡ some (ok (true, context', held'))
      → parsing_completed context' ≡ false
      → (b : Buffer) × (serve_read arrange c context (received p) a
          ≡ some (ok (record c { in_buffer = b }, context')))
        × Holds b held'
        × (b.writer_index ≤ m + length p)
  serve_read_waits c context context' held held' p a m front below room some_bytes small h parsed
        waits =
      let (b₁, read, h₁, w₁) = read_total c.in_buffer p h.0 small (omega (arith, below, room)) in
      let (b₂, run, h₂) =
        Parsed context context' b₁ held' h₁.0
          (ap (parse_text context) (h₁.1 ∙ ap (λ xs. xs ++ p) h.1) ∙ parsed) in
      (
        b₂,
        serve_read_message c context p a b₁ read some_bytes
            ∙ on_message_waits (record c { in_buffer = b₁ }) context context' a b₂ run waits,
        h₂,
        parse_request-writer_index (m + length p) (omega (arith, front)) context context' b₁ b₂ true
            (omega (arith, w₁, below)) run,
      )

  -- After such reads, whatever is read next, the parser is where it would be if all of it had come at
  -- once.
  pub serve_reads_wait :
      (c : Connection k) (context : HttpContext) (held : Bytes) (ps : List (Bytes × Answers))
      (m : ℕ)
      → cheap_prepend ≤ m
      → c.in_buffer.writer_index ≤ m
      → m + length (joined ps) ≤ max_size
      → Holds c.in_buffer held
      → Waits context held ps
      → (b : Buffer) × (context' : HttpContext) × (held' : Bytes) × ((rest : List
            (Received × Answers))
          → serve_reads arrange c context (as_reads ps rest)
            ≡ serve_reads arrange (record c { in_buffer = b }) context' rest)
        × Holds b held'
        × (b.writer_index ≤ m + length (joined ps))
        × ((more : Bytes)
            → parse_text context' (held' ++ more)
              ≡ parse_text context (held ++ (joined ps ++ more)))
  unfolding serve_reads
  serve_reads_wait c context held [] m front below room h waits =
      (c.in_buffer, context, held, λ rest. refl, h, omega (arith, below), λ more. refl)
  serve_reads_wait c context held ((p, a) ∷ ps) m front below room h
        (some_bytes, small, (context', held', parsed, unfinished, later)) =
      let total : length (p ++ joined ps) ≡ length p + length (joined ps) =
        length-append p (joined ps) in
      let (b, served, h', w) =
        serve_read_waits c context context' held held' p a m front below
          (omega (arith, room, total)) some_bytes small h parsed unfinished in
      let (b', context'', held'', all, h'', w', same) =
        serve_reads_wait (record c { in_buffer = b }) context' held' ps (m + length p)
          (omega (arith, front)) w (omega (arith, room, total)) h' later in
      (
        b',
        context'',
        held'',
        λ rest. rw (served, serve_reads) (all rest),
        h'',
        omega (arith, w', total),
        λ more.
            same more
            ∙ parse_text_arrives context context' (held ++ p) (joined ps ++ more) held' parsed
                unfinished
            ∙ ap (parse_text context) (
                append_assoc held p (joined ps ++ more)
                ∙ ap (◌++◌ held) (sym (append_assoc p (joined ps) more))),
      )
