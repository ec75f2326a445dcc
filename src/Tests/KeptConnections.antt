-- ===== src/Tests/KeptConnections.antt =====
-- wuduo/http/http_server.cpp on two requests that follow one another.
use wuduo.Prelude.{◌≡◌, refl, inl, some, List, [], ◌∷◌, max_size, arith, ok}
use wuduo.Buffer
use wuduo.Buffer.{Bytes, Buffer, peek}
use wuduo.Buffer.Contents.{Holds}
use wuduo.Http.Text
use wuduo.Http.Text.{codes}
use wuduo.Http.Request.{to_string}
use wuduo.Http.Context.{fresh}
use wuduo.Http.Context.HeaderLines.{Header, AreHeaders}
use wuduo.Http.Response.Writing.{join}
use wuduo.Http.HttpServer.Replies.{replied}
use wuduo.Http.HttpServer.Session.{serve_reads}
use wuduo.Http.HttpServer.Session.Exchanges.{Exchange, all_reads, Valid, AllAnswered}
use wuduo.Http.HttpServer.Session.KeepAlive.{serve_reads-AllAnswered}
use wuduo.Tests.Requests.{index_line, index_line-IsParsed, host, host-AreHeaders, holding}
use wuduo.Tests.Responses.{as_added, with_message, few_headers}
use wuduo.Tests.Sessions.{early, early-Waits}

abbrev keep : Header
keep = record { key = codes "Connection"; first = b'k'; others = codes "eep-alive" }

keep-AreHeaders : AreHeaders (host ∷ keep ∷ [])
unfolding Text.equal
keep-AreHeaders = (
  host-AreHeaders.0,
  refl,
  (
    record {
      no_colon = ground arith;
      key_line = ground arith;
      no_space = ground arith;
      value_line = ground arith;
    },
    refl,
    tt,
  ),
)

abbrev in_two_reads : Exchange
in_two_reads = record {
  early = early;
  last = codes "st: a\r\nConnection: keep-alive\r\n\r\n";
  line = index_line;
  headers = host ∷ keep ∷ [];
  first = codes "hi";
  chunks = [];
}

abbrev in_one_read : Exchange
in_one_read = record in_two_reads {
  early = [];
  last = codes "GET /a.html?x HTTP/1.1\r\nHost: a\r\nConnection: keep-alive\r\n\r\n";
}

in_two_reads-Valid : Valid as_added in_two_reads
unfolding peek to_string Text.equal Buffer.create
in_two_reads-Valid = record {
  waits = early-Waits;
  some_bytes = omega arith;
  small = omega arith;
  parsed = index_line-IsParsed;
  wellformed = keep-AreHeaders;
  no_post = λ e. cc;
  whole = refl;
  keeps = inl refl;
  delivered = (omega arith, λ b' read. tt);
  file_size = omega arith;
  few = few_headers;
}

in_one_read-Valid : Valid as_added in_one_read
unfolding to_string
in_one_read-Valid = record {
  waits = tt;
  some_bytes = omega arith;
  small = omega arith;
  parsed = index_line-IsParsed;
  wellformed = keep-AreHeaders;
  no_post = λ e. cc;
  whole = refl;
  keeps = in_two_reads-Valid.keeps;
  delivered = in_two_reads-Valid.delivered;
  file_size = omega arith;
  few = few_headers;
}

serve_reads-AllAnswered_example :
    (buf : Buffer) × (texts : List Bytes) × AllAnswered as_added
      (in_two_reads ∷ in_one_read ∷ [])
      texts
    × Holds buf []
    × (serve_reads as_added
          (with_message (holding []))
          fresh
          (all_reads max_size (in_two_reads ∷ in_one_read ∷ []))
        ≡ some (
            ok (
              replied (record (with_message (holding [])) { in_buffer = buf }) (join texts),
              fresh,
            )))
unfolding peek
serve_reads-AllAnswered_example =
    serve_reads-AllAnswered as_added (in_two_reads ∷ in_one_read ∷ []) (with_message (holding []))
      max_size 8 (refl, refl, refl) (omega arith) (omega arith, refl) (omega arith) (omega arith)
      (omega arith) (in_two_reads-Valid, (in_one_read-Valid, tt))
