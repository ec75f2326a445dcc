-- ===== src/Tests/Pieces.antt =====
-- wuduo/http/http_context.cpp on a request that arrives in two pieces.
use wuduo.Prelude.{◌≡◌, refl, true, some, ◌++◌, ok, arith}
use wuduo.Buffer.{Bytes, Buffer, peek, retrieve}
use wuduo.Buffer.Invariant.{IsValid}
use wuduo.Buffer.Contents.{Holds}
use wuduo.Http.Text.{codes, equal, find_char, find_cr_lf}
use wuduo.Http.Request.{
  empty_request, set_request_line_from, from_line, before_cr, split_at_space, from_parts, method_of,
  version_of, path_and_query,
}
use wuduo.Http.Context.{
  HttpContext, header_lines, fresh, parsing_completed, parse_request, parse_rounds, round,
  request_line_round, header_line_round,
}
use wuduo.Http.Context.Refines.{seen}
use wuduo.Http.Context.Arrival.{parse_request_arrives}
use wuduo.Tests.Requests.{index_line, holding}

abbrev pub first_piece : Buffer
first_piece = holding (codes "GET /a.html?x HTTP/1.1\r\nHo")

pub first_piece-IsValid : IsValid first_piece
first_piece-IsValid = omega arith

abbrev pub waiting : HttpContext
waiting = record {
  phase = header_lines;
  request = record empty_request { request_line = index_line };
}

-- What is left of the piece.
abbrev pub left_over : Buffer
left_over = record first_piece { reader_index = 32 }

pub first_piece_waits : parse_request fresh first_piece ≡ some (ok (true, waiting, left_over))
unfolding parse_request parse_rounds round request_line_round header_line_round
    set_request_line_from from_line before_cr split_at_space from_parts method_of version_of
    path_and_query equal find_char find_cr_lf peek retrieve
first_piece_waits = refl

abbrev second_piece : Bytes
second_piece = codes "st: a\r\n\r\n"

-- The buffers that hold the rest, and all of it.
abbrev rest_of_it : Buffer
rest_of_it = holding (codes "Host: a\r\n\r\n")

abbrev all_of_it : Buffer
all_of_it = holding (codes "GET /a.html?x HTTP/1.1\r\nHost: a\r\n\r\n")

rest_of_it-Holds : Holds rest_of_it (peek left_over ++ second_piece)
unfolding peek
rest_of_it-Holds = (omega arith, refl)

all_of_it-Holds : Holds all_of_it (peek first_piece ++ second_piece)
unfolding peek
all_of_it-Holds = (omega arith, refl)

parse_request_arrives_example :
    seen (parse_request waiting rest_of_it) ≡ seen (parse_request fresh all_of_it)
unfolding parsing_completed
parse_request_arrives_example =
    parse_request_arrives fresh waiting first_piece left_over rest_of_it all_of_it second_piece
      first_piece-IsValid first_piece_waits refl rest_of_it-Holds all_of_it-Holds
