-- ===== src/Tests/Responses.antt =====
-- wuduo/http/http_response.cpp and wuduo/http/http_server.cpp at small responses.
use wuduo.Prelude.{
  ◌≤◌, ◌^◌, ◌≡◌, refl, Bool, true, false, none, some, List, [], ◌∷◌, ◌++◌, map, length, take,
  if◌then◌else◌, ltb, max_size, arith, ok, abort, out_of_bounds,
}
use wuduo.Buffer
use wuduo.Buffer.{Buffer, Bytes, peek, initial_size, received}
use wuduo.Buffer.Invariant.{IsValid}
use wuduo.Buffer.Contents.{Holds}
use wuduo.Reactor.Channel.{Events}
use wuduo.Tcp.{Connection, connected, connection_callback}
use wuduo.Http.Text
use wuduo.Http.Status
use wuduo.Http.Request
use wuduo.Http.Text.{codes, equal, find_char, find_cr_lf}
use wuduo.Http.Number.{digits}
use wuduo.Http.Request.{
  HttpRequest, empty_request, is_close_connection, from_line, before_cr, split_at_space, from_parts,
  method_of, to_string, set_request_line_from,
}
use wuduo.Http.Context.{
  fresh, parse_request, parse_rounds, round, request_line_round, parsing_completed,
}
use wuduo.Http.Context.Complete.{Carries}
use wuduo.Http.Response
use wuduo.Http.Response.{
  HttpResponse, append_to, analyse, opened, not_opened, printed, length_text, type_of_path,
}
use wuduo.Http.Status.{StatusCode, ok200, bad_request400, phrase, type_from}
use wuduo.Http.Response.Writing.{Extends, header_text}
use wuduo.Http.Response.Printing.{text_of, append_to-Extends, printed-length_text}
use wuduo.Http.Response.ErrorPage.{IsError}
use wuduo.Http.Response.Analysis.{headers_with, IsFile, analyse-IsFile, analyse_of_truncated}
use wuduo.Http.HttpServer.{on_message}
use wuduo.Http.HttpServer.Replies.{replied, shut}
use wuduo.Http.HttpServer.Messages.{success, on_message_refuses, on_message_answers}
use wuduo.Tests.Connections.{small_kernel, busy_channel, watched}
use wuduo.Tests.Requests.{
  index_line, index_line-IsParsed, host, host-AreHeaders, whole_request, holding, holding-IsValid,
}

-- The order in which the headers were added.
abbrev pub as_added : List (Bytes × Bytes) → List (Bytes × Bytes)
as_added hs = hs

printed-length_text_example : printed (length_text 1024) ≡ (
    if ltb 1024 (10 ^ 13)
    then ok (length_text 1024)
    else if ltb 1024 (10 ^ 14)
    then ok (take 31 (length_text 1024) ++ 0 ∷ [])
    else abort out_of_bounds)
printed-length_text_example = printed-length_text 1024

abbrev small : HttpResponse
small = record {
  headers = (codes "Connection", codes "close") ∷ [];
  status_code = ok200;
  phrase = codes "OK";
  entity_body = holding (codes "hi");
  close_connection = true;
}

small_body-IsValid : IsValid (holding (codes "hi"))
small_body-IsValid = omega arith

empty-IsValid : IsValid (holding [])
empty-IsValid = omega arith

small_text :
    text_of as_added small
    ≡ codes "HTTP/1.1 200 OK\r\nContent-Length: 2\r\nConnection: close\r\n\r\nhi"
unfolding peek digits Status.code_of
small_text = refl

append_to-Extends_example :
    Extends (holding []) (text_of as_added small) (append_to as_added small (holding []))
unfolding peek digits Status.code_of
append_to-Extends_example =
    append_to-Extends as_added small (holding []) small_body-IsValid (omega arith)
      (empty-IsValid, omega arith)

content_types :
    (type_of_path (codes "a.b.png") ≡ codes "image/png")
    × (type_of_path (codes "a.b.PNG") ≡ codes "text/html;charset=utf-8")
unfolding type_of_path type_from Text.find_last equal Request.find_header
content_types = (refl, refl)

abbrev starting : HttpResponse
starting = record small { entity_body = holding [] }

empty-Holds : Holds (holding []) []
unfolding peek
empty-Holds = (empty-IsValid, refl)

analyse-IsFile_example :
    (r' : HttpResponse) × (buffer : Buffer) × (analyse as_added starting empty_request
        (opened 4 (map received (codes "hi " ∷ codes "x" ∷ [])))
      ≡ some (ok (r', buffer)))
    × IsFile empty_request (codes "hi x") starting r'
    × Holds buffer (text_of as_added r')
unfolding type_of_path Text.find_last equal is_close_connection Response.assign Request.get_header
    Request.find_header
analyse-IsFile_example =
    analyse-IsFile as_added starting empty_request (codes "hi ") (codes "x" ∷ []) empty-Holds
      (empty-IsValid, omega arith) (omega arith, λ b' read. (omega arith, λ b'' read'. tt))
      (omega arith) (omega arith) (omega arith)

analyse_of_truncated_example :
    analyse as_added starting empty_request (opened 5 (map received (codes "hi" ∷ [] ∷ [] ∷ [])))
    ≡ none
analyse_of_truncated_example =
    analyse_of_truncated as_added starting empty_request (codes "hi" ∷ [] ∷ [] ∷ []) 5 empty-Holds
      (empty-IsValid, omega arith)
      (omega arith, λ b₁ r₁. (omega arith, λ b₂ r₂. (omega arith, λ b₃ r₃. tt))) (omega arith)

abbrev reading : Events
reading = record {
  epollin = true;
  epollpri = true;
  epollout = false;
  epollerr = false;
  epollhup = false;
  epollrdhup = false;
}

-- Connected, with this message read and nothing pending.
abbrev pub with_message : Buffer → Connection small_kernel
with_message message = record {
  state = connected;
  channel = record busy_channel { events = reading };
  in_buffer = message;
  output_buffer = holding [];
  kernel = watched;
  sent = [];
  effects = connection_callback ∷ [];
}

abbrev nonsense : Buffer
nonsense = holding (codes "NOPE x HTTP/1.1\r\nmore")

nonsense_refused : parse_request fresh nonsense ≡ some (ok (false, fresh, nonsense))
unfolding parse_request parse_rounds round request_line_round set_request_line_from from_line
    before_cr split_at_space from_parts method_of equal find_char find_cr_lf peek
nonsense_refused = refl

on_message_refuses_example :
    (r : HttpResponse) × IsError bad_request400 (Response.create true) r
    × (on_message as_added (with_message nonsense) fresh not_opened (some max_size) none
        ≡ some (ok (shut (replied (with_message nonsense) (text_of as_added r)), fresh)))
unfolding parsing_completed Response.create Response.set_content_type Response.set_close_connection
    Response.add_header Response.assign equal
on_message_refuses_example =
    on_message_refuses as_added (with_message nonsense) max_size (refl, refl, refl) (omega arith)
      fresh fresh nonsense not_opened none nonsense_refused refl (omega arith)

pub few_headers :
    (close : Bool)
    → length (
        header_text (as_added (headers_with index_line.path close (Response.create close).headers)))
      ≤ 2 ^ 62
unfolding Response.create Response.set_content_type Response.set_close_connection
    Response.add_header Response.assign equal type_of_path Text.find_last type_from
    Request.find_header
few_headers true = omega arith
few_headers false = omega arith

on_message_answers_example :
    (q : HttpRequest) × (buf : Buffer) × (r : HttpResponse) × Carries index_line (host ∷ []) q
    × Holds buf (codes "more")
    × IsFile q (codes "hi") (success q) r
    × (on_message as_added
          (with_message whole_request)
          fresh
          (opened 2 (map received (codes "hi" ∷ [])))
          none
          (some max_size)
        ≡ some (
            ok (
              (if is_close_connection q
                  then shut (
                      replied
                        (record (with_message whole_request) { in_buffer = buf })
                        (text_of as_added r))
                  else replied
                      (record (with_message whole_request) { in_buffer = buf })
                      (text_of as_added r)),
              fresh,
            )))
unfolding peek to_string Buffer.create Response.create Response.set_content_type
    Response.set_close_connection Response.add_header Response.assign equal type_of_path
    Text.find_last type_from Request.find_header
on_message_answers_example =
    on_message_answers as_added (with_message whole_request) max_size (refl, refl, refl)
      (omega arith) index_line (host ∷ []) (codes "more") (codes "hi") [] none holding-IsValid
      index_line-IsParsed host-AreHeaders (λ e. cc) refl (omega arith, λ b' read. tt) (omega arith)
      few_headers
