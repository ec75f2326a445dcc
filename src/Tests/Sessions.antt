-- ===== src/Tests/Sessions.antt =====
-- wuduo/http/http_server.cpp on a request that is read in two pieces.
use wuduo.Prelude.{
  ◌++◌, length, ◌≤◌, ◌+◌, ◌≡◌, refl, sym, ap, ◌∙◌, true, none, some, List, [], ◌∷◌, map,
  if◌then◌else◌, max_size, arith, ok,
}
use wuduo.Buffer
use wuduo.Buffer.{Bytes, Buffer, peek, received}
use wuduo.Buffer.Contents.{Holds}
use wuduo.Http.Text.{codes}
use wuduo.Http.Request.{HttpRequest, is_close_connection, to_string}
use wuduo.Http.Context.{fresh, parsing_completed}
use wuduo.Http.Context.Text.{parse_text}
use wuduo.Http.Context.Refines.{seen, parse_request-seen}
use wuduo.Http.Context.Complete.{Carries}
use wuduo.Http.Response.{HttpResponse, opened, not_opened}
use wuduo.Http.Response.Printing.{text_of}
use wuduo.Http.Response.Analysis.{IsFile}
use wuduo.Http.HttpServer.Replies.{replied, shut}
use wuduo.Http.HttpServer.Messages.{success}
use wuduo.Http.HttpServer.Session.{Answers, serve_reads}
use wuduo.Http.HttpServer.Session.Waiting.{Waits, as_reads, joined}
use wuduo.Http.HttpServer.Session.Requests.{serve_reads_answer}
use wuduo.Tests.Requests.{index_line, index_line-IsParsed, host, host-AreHeaders, holding}
use wuduo.Tests.Pieces.{first_piece, first_piece-IsValid, first_piece_waits, waiting}
use wuduo.Tests.Responses.{as_added, with_message, few_headers}

abbrev pub early : List (Bytes × Answers)
early =
    (
      codes "GET /a.html?x HTTP/1.1\r\nHo",
      record { file = not_opened; wrote_page = none; wrote = none },
    )
    ∷ []

abbrev late : Bytes
late = codes "st: a\r\n\r\nmore"

first_piece_text :
    parse_text fresh (codes "GET /a.html?x HTTP/1.1\r\nHo") ≡ some (ok (true, waiting, codes "Ho"))
unfolding peek
first_piece_text =
    sym (parse_request-seen fresh first_piece first_piece-IsValid) ∙ ap seen first_piece_waits

pub early-Waits : Waits fresh [] early
unfolding parsing_completed
early-Waits = (omega arith, omega arith, (waiting, codes "Ho", first_piece_text, refl, tt))

serve_reads_answer_example :
    (q : HttpRequest) × (buf : Buffer) × (r : HttpResponse) × Carries index_line (host ∷ []) q
    × Holds buf (codes "more")
    × IsFile q (codes "hi") (success q) r
    × (buf.writer_index ≤ 8 + length (joined early ++ late))
    × (serve_reads as_added (with_message (holding [])) fresh (
          as_reads early (
            (
              received late,
              record {
                file = opened 2 (map received (codes "hi" ∷ []));
                wrote_page = none;
                wrote = some max_size;
              },
            )
            ∷ []))
        ≡ some (
            ok (
              (if is_close_connection q
                  then shut (
                      replied
                        (record (with_message (holding [])) { in_buffer = buf })
                        (text_of as_added r))
                  else replied
                      (record (with_message (holding [])) { in_buffer = buf })
                      (text_of as_added r)),
              fresh,
            )))
unfolding peek to_string Buffer.create
serve_reads_answer_example =
    serve_reads_answer as_added (with_message (holding [])) max_size (refl, refl, refl)
      (omega arith) early late none index_line (host ∷ []) (codes "more") (codes "hi") [] 8
      (omega arith, refl) (omega arith) (omega arith) (omega arith) early-Waits (omega arith)
      (omega arith) index_line-IsParsed host-AreHeaders (λ e. cc) refl (omega arith, λ b' read. tt)
      (omega arith) few_headers
