-- ===== src/Http/HttpServer/Session/Exchanges.antt =====
-- Requests to wuduo/http/http_server.cpp that follow one another on a connection that is kept.
use wuduo.Prelude.{
  ℕ, ◌+◌, ◌^◌, ◌≤◌, ◌<◌, ◌≡◌, ◌≢◌, ◌⊎◌, inl, inr, Bool, false, some, none, List, [], ◌∷◌, ◌++◌, map,
  length, arith,
}
use wuduo.Buffer
use wuduo.Buffer.{Bytes, Buffer, cheap_prepend, extra_size, Received, received, initial_size}
use wuduo.Http.Text.{codes}
use wuduo.Http.Text.Find.{equal_refl}
use wuduo.Http.Request.{post, RequestLine, HttpRequest, is_close_connection}
use wuduo.Http.Request.Line.{IsParsed}
use wuduo.Http.Context.{fresh}
use wuduo.Http.Context.HeaderLines.{Header, AreHeaders, request_text, find}
use wuduo.Http.Context.Complete.{Carries}
use wuduo.Http.Response
use wuduo.Http.Response.{HttpResponse, opened}
use wuduo.Http.Response.Writing.{header_text, join}
use wuduo.Http.Response.Printing.{text_of}
use wuduo.Http.Response.File.{Deliver}
use wuduo.Http.Response.Analysis.{headers_with, IsFile}
use wuduo.Http.HttpServer.Messages.{success}
use wuduo.Http.HttpServer.Session.{Answers}
use wuduo.Http.HttpServer.Session.Waiting.{Waits, joined, as_reads}

-- A request, as it arrives, and the file that it is answered with, as it is delivered.
pub record Exchange : Type 0 where
  pub early : List (Bytes × Answers)
  pub last : Bytes
  pub line : RequestLine
  pub headers : List Header
  pub first : Bytes
  pub chunks : List Bytes

abbrev pub arrives : Exchange → Bytes
arrives x = joined x.early ++ x.last

abbrev pub contents : Exchange → Bytes
contents x = x.first ++ join x.chunks

-- The request asks to keep the connection.
abbrev pub Keeps : List Header → Type 0
Keeps hs =
    (find (codes "Connection") hs ≡ some (codes "keep-alive"))
    ⊎ (find (codes "Connection") hs ≡ some (codes "Keep-Alive"))

pub stays_open :
    (line : RequestLine) (hs : List Header) (q : HttpRequest)
    → Keeps hs
    → Carries line hs q
    → is_close_connection q ≡ false
unfolding is_close_connection
stays_open line hs q (inl e) c =
    ground (arith, c.1 (codes "Connection"), e, equal_refl (codes "keep-alive"))
stays_open line hs q (inr e) c =
    ground (arith, c.1 (codes "Connection"), e, equal_refl (codes "Keep-Alive"))

-- What the kernel answers for it, with a `write` that takes this many bytes.
abbrev pub reads_of : ℕ → Exchange → List (Received × Answers)
reads_of n x = as_reads x.early (
    (
      received x.last,
      record {
        file = opened (length (contents x)) (map received (x.first ∷ x.chunks));
        wrote_page = none;
        wrote = some n;
      },
    )
    ∷ [])

abbrev pub all_reads : ℕ → List Exchange → List (Received × Answers)
all_reads n [] = []
all_reads n (x ∷ xs) = reads_of n x ++ all_reads n xs

abbrev pub all_bytes : List Exchange → ℕ
all_bytes [] = 0
all_bytes (x ∷ xs) = length (arrives x) + all_bytes xs

module _ (arrange : List (Bytes × Bytes) → List (Bytes × Bytes)) where
  -- The request is whole, printed, no POST, and asks to keep the connection; the parser waits until it
  -- is whole; the file is delivered.
  pub record Valid (x : Exchange) : Type 0 where
    pub waits : Waits fresh [] x.early
    pub some_bytes : 0 < length x.last
    pub small : length x.last ≤ extra_size
    pub parsed : IsParsed x.line
    pub wellformed : AreHeaders x.headers
    pub no_post : x.line.method ≢ post
    pub whole : arrives x ≡ request_text x.line x.headers []
    pub keeps : Keeps x.headers
    pub delivered : Deliver (Buffer.create initial_size) (x.first ∷ x.chunks)
    pub file_size : length (contents x) < 10 ^ 13
    pub few :
        (close : Bool)
        → length
            (header_text (arrange (headers_with x.line.path close (Response.create close).headers)))
          ≤ 2 ^ 62

  abbrev pub AllValid : List Exchange → Type 0
  AllValid [] = Unit {0}
  AllValid (x ∷ xs) = Valid x × AllValid xs

  -- The file under 200 OK, as an answer to the request.
  abbrev pub Answer : Exchange → Bytes → Type 0
  Answer x text =
      (q : HttpRequest) × (r : HttpResponse) × Carries x.line x.headers q
      × IsFile q (contents x) (success q) r
      × (text ≡ text_of arrange r)

  abbrev pub AllAnswered : List Exchange → List Bytes → Type 0
  AllAnswered [] [] = Unit {0}
  AllAnswered [] (t ∷ ts) = ⊥
  AllAnswered (x ∷ xs) [] = ⊥
  AllAnswered (x ∷ xs) (t ∷ ts) = Answer x t × AllAnswered xs ts
