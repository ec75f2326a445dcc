-- ===== src/Tests/Requests.antt =====
-- wuduo/http at small requests.
use wuduo.Prelude.{
  ◌≡◌, refl, true, false, none, some, [], ◌∷◌, ◌++◌, ◌+◌, ◌↔◌, arith, length, ok, abort, assertion,
  length_error,
}
use wuduo.Buffer.{Buffer, Bytes, peek}
use wuduo.Buffer.Invariant.{IsValid}
use wuduo.Buffer.Contents.{Holds}
use wuduo.Http.Text.{codes, equal, find_char}
use wuduo.Http.Number.{stoll, skip_spaces, read_digits}
use wuduo.Http.Request.{
  get, post, http11, RequestLine, HttpRequest, empty_request, from_line, before_cr, split_at_space,
  from_parts, method_of, version_of, path_and_query, without_first, to_string, add_header_from,
  get_header,
}
use wuduo.Http.Request.Line.{IsParsed, from_line_iff}
use wuduo.Http.Request.Aborts.{from_line_aborts}
use wuduo.Http.Request.Headers.{Adds, add_header_from-Adds}
use wuduo.Http.Context.{entity_body, completed, fresh, parse_request}
use wuduo.Http.Context.Rounds.{Parses, parse_request-Parses}
use wuduo.Http.Context.HeaderLines.{Header, AreHeaders}
use wuduo.Http.Context.Complete.{
  Carries, parse_complete_request, parse_post_refused, lone_request_line_aborts,
}

abbrev pub index_line : RequestLine
index_line = record {
  method = get;
  url = codes "/a.html?x";
  path = codes "/a.html";
  query = codes "?x";
  version = http11;
}

pub index_line-IsParsed : IsParsed index_line
unfolding path_and_query find_char
index_line-IsParsed = record {
  method_known = λ e. cc;
  version_known = λ e. cc;
  one_word = ground arith;
  one_line = ground arith;
  target = refl;
}

read_index : from_line (codes "GET /a.html?x HTTP/1.1") ≡ ok (some index_line)
unfolding from_line before_cr split_at_space find_char from_parts method_of version_of
    path_and_query equal
read_index = refl

-- Without a query the leading slash goes; with one it stays.
read_without_query : path_and_query (codes "/a.html") ≡ ok (codes "a.html", [])
unfolding path_and_query find_char equal without_first
read_without_query = refl

numbers :
    (stoll (codes " +12x") ≡ some (false, 12))
    × (stoll (codes "-3") ≡ some (true, 3))
    × (stoll (codes "9223372036854775808") ≡ none)
    × (stoll (codes "x") ≡ none)
unfolding stoll skip_spaces read_digits
numbers = (refl, refl, refl, refl)

from_line_aborts_example :
    (from_line (codes "GET ") ≡ abort assertion)
    × (from_line (codes "GET GET ") ≡ abort assertion)
    × (from_line (codes "GET  HTTP/1.1") ≡ abort length_error)
from_line_aborts_example =
    from_line_aborts get (codes "GET") (codes "HTTP/1.1") (ground arith) (ground arith)
      (ground arith) (λ e. cc) (λ e. cc)

add_header_from-Adds_example :
    Adds empty_request
      (codes "Host")
      (codes "a")
      (get_header empty_request (codes "Host"))
      (add_header_from empty_request (codes "Host:  a"))
add_header_from-Adds_example =
    add_header_from-Adds empty_request (codes "Host") 2 b'a' [] (ground arith) (ground arith)

abbrev pub holding : Bytes → Buffer
holding xs = record {
  bytes = codes "........" ++ xs;
  reader_index = 8;
  writer_index = 8 + length xs;
}

pub holding-IsValid : IsValid (holding (codes "GET /a.html?x HTTP/1.1\r\nHost: a\r\n\r\nmore"))
holding-IsValid = omega arith

abbrev pub host : Header
host = record { key = codes "Host"; first = b'a'; others = [] }

pub host-AreHeaders : AreHeaders (host ∷ [])
host-AreHeaders = (
  record {
    no_colon = ground arith;
    key_line = ground arith;
    no_space = ground arith;
    value_line = ground arith;
  },
  refl,
  tt,
)

from_line_iff_example :
    (from_line (codes "GET /a.html?x HTTP/1.1\rjunk") ≡ ok (some index_line)) ↔ (
      IsParsed index_line
      × (to_string index_line ≡ before_cr (codes "GET /a.html?x HTTP/1.1\rjunk")))
from_line_iff_example = from_line_iff (codes "GET /a.html?x HTTP/1.1\rjunk") index_line

abbrev pub whole_request : Buffer
whole_request = holding (codes "GET /a.html?x HTTP/1.1\r\nHost: a\r\n\r\nmore")

parse_request-Parses_example : Parses fresh whole_request (parse_request fresh whole_request)
parse_request-Parses_example = parse_request-Parses fresh whole_request holding-IsValid

parse_complete_request_example :
    (q : HttpRequest) × (b' : Buffer) × (parse_request fresh whole_request
      ≡ some (ok (true, record { phase = completed; request = q }, b')))
    × Holds b' (codes "more")
    × Carries index_line (host ∷ []) q
unfolding peek to_string
parse_complete_request_example =
    parse_complete_request index_line (host ∷ []) (codes "more") whole_request holding-IsValid
      index_line-IsParsed host-AreHeaders refl (λ e. cc)

abbrev post_line : RequestLine
post_line = record index_line { method = post }

post_line-IsParsed : IsParsed post_line
post_line-IsParsed = record {
  method_known = λ e. cc;
  version_known = λ e. cc;
  one_word = ground arith;
  one_line = ground arith;
  target = index_line-IsParsed.target;
}

-- The usual spelling of the header.
abbrev sized : Header
sized = record { key = codes "Content-Length"; first = b'0'; others = [] }

sized-AreHeaders : AreHeaders (sized ∷ [])
sized-AreHeaders = (
  record {
    no_colon = ground arith;
    key_line = ground arith;
    no_space = ground arith;
    value_line = ground arith;
  },
  refl,
  tt,
)

abbrev posted : Buffer
posted = holding (codes "POST /a.html?x HTTP/1.1\r\nContent-Length: 0\r\n\r\n")

posted-IsValid : IsValid posted
posted-IsValid = omega arith

parse_post_refused_example :
    (q : HttpRequest) × (b' : Buffer) × (parse_request fresh posted
      ≡ some (ok (false, record { phase = entity_body; request = q }, b')))
    × Carries post_line (sized ∷ []) q
unfolding peek to_string equal
parse_post_refused_example =
    parse_post_refused post_line (sized ∷ []) [] posted posted-IsValid post_line-IsParsed
      sized-AreHeaders refl refl refl

abbrev lone : Buffer
lone = holding (codes "GET /a.html?x HTTP/1.1\r\n")

lone-IsValid : IsValid lone
lone-IsValid = omega arith

lone_request_line_aborts_example : parse_request fresh lone ≡ some (abort assertion)
unfolding peek to_string
lone_request_line_aborts_example =
    lone_request_line_aborts fresh index_line lone lone-IsValid index_line-IsParsed refl refl
