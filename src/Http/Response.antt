-- ===== src/Http/Response.antt =====
-- `HttpResponse` of wuduo/http/http_response.h and
-- wuduo/http/http_response.cpp. `headers_` is an association list; it is gone through in an order
-- that its hash table chooses: a parameter, `arrange`. `response_messages_` is never used.
pub mod Writing
pub mod Printing
pub mod ErrorPage
pub mod File
pub mod Analysis
use wuduo.Prelude.{
  ℕ, suc, ◌-◌, Bool, true, false, Option, none, some, List, [], ◌∷◌, ◌++◌, if◌then◌else◌, ltb, leb,
  ◌==◌, length, take, drop, Outcome, ok, abort, out_of_bounds, require, ◌>>=◌,
}
use wuduo.Buffer
use wuduo.Buffer.{
  Bytes, Buffer, peek, readable_bytes, retrieve_all, append, initial_size, read_fd, Received,
  Returned, minus_one, count,
}
use wuduo.Http.Text.{codes, equal, find_last}
use wuduo.Http.Number.{to_decimal}
use wuduo.Http.Status.{
  StatusCode, ok200, bad_request400, not_found404, phrase, code_of, default_type, type_from,
}
use wuduo.Http.Request.{find_header, HttpRequest, is_close_connection}

pub record HttpResponse : Type 0 where
  pub headers : List (Bytes × Bytes)
  pub status_code : StatusCode
  pub phrase : Bytes
  pub entity_body : Buffer
  pub close_connection : Bool

-- `headers_[key] = value`
unfoldable pub assign : Bytes → Bytes → List (Bytes × Bytes) → List (Bytes × Bytes)
assign key value [] = (key, value) ∷ []
assign key value ((k, v) ∷ rest) =
    if equal k key then (k, value) ∷ rest else (k, v) ∷ assign key value rest

unfoldable pub add_header : HttpResponse → Bytes → Bytes → HttpResponse
add_header r key value = record r { headers = assign key value r.headers }

unfoldable pub set_content_type : HttpResponse → Bytes → HttpResponse
set_content_type r content_type = add_header r (codes "Content-Type") content_type

unfoldable pub set_close_connection : HttpResponse → Bool → HttpResponse
set_close_connection r close =
    record (add_header r (codes "Connection")
      (if close then codes "close" else codes "keep-alive")) { close_connection = close }

unfoldable pub set_status_code : HttpResponse → StatusCode → HttpResponse
set_status_code r code = record r { phrase = phrase code; status_code = code }

unfoldable pub create : Bool → HttpResponse
create close =
    set_content_type
      (set_close_connection
        (record {
          headers = [];
          status_code = not_found404;
          phrase = codes "Not Found";
          entity_body = Buffer.create initial_size;
          close_connection = close;
        })
        close)
      default_type

abbrev pub cr_lf : Bytes
cr_lf = codes "\r\n"

-- A view of what `snprintf` printed to `char buf[32]`, by the length that it returns. It writes at most
-- 31 characters and a zero behind them.
unfoldable pub printed : Bytes → Outcome Bytes
printed text =
    if ltb (length text) 32
    then ok text
    else (if length text == 32 then ok (take 31 text ++ 0 ∷ []) else abort out_of_bounds)

abbrev pub append_headers : Buffer → List (Bytes × Bytes) → Outcome Buffer
append_headers output [] = ok output
append_headers output ((k, v) ∷ rest) = append output k >>= λ o₁. append o₁ (codes ": ") >>= λ o₂.
    append o₂ v >>= λ o₃. append o₃ cr_lf >>= λ o₄. append_headers o₄ rest

-- The numbers that the two calls of `snprintf` are for.
abbrev pub status_text : StatusCode → Bytes
status_text code = codes "HTTP/1.1 " ++ (to_decimal (code_of code) ++ codes " ")

abbrev pub length_text : ℕ → Bytes
length_text n = codes "Content-Length: " ++ (to_decimal n ++ cr_lf)

-- Appending several texts, one call after the other.
abbrev pub append_all : Buffer → List Bytes → Outcome Buffer
append_all b [] = ok b
append_all b (text ∷ rest) = append b text >>= λ b'. append_all b' rest

-- The page of `error_message_with`, by the calls that append it; the title is in UTF-8.
abbrev pub error_page : StatusCode → List Bytes
error_page code =
    (codes "<html><title>"
      ++ (0xE5 ∷ 0x87 ∷ 0xBA ∷ 0xE9 ∷ 0x94 ∷ 0x99 ∷ 0xE4 ∷ 0xBA ∷ 0x86 ∷ codes "~</title>"))
    ∷ codes "<body><h1>ERROR<hr /></h1><p>"
    ∷ to_decimal (code_of code)
    ∷ codes ", "
    ∷ phrase code
    ∷ codes "</p></body></html>"
    ∷ []

-- What `open`, `fstat` and the calls of `readv` answer.
pub data FileAnswer : Type 0 where
  not_opened not_statted : FileAnswer
  opened : ℕ → List Received → FileAnswer

-- The loop of `analyse`: whether the file was read, and the body. `none` is a loop that goes on after
-- the answers given.
unfoldable pub read_file : ℕ → Buffer → List Received → Option (Outcome (Bool × Buffer))
read_file st_size body [] = none
read_file st_size body (answer ∷ rest) = elim (read_fd body answer) [
  | abort f ↦ some (abort f)
  | ok (minus_one errno, body') ↦ some (ok (false, body'))
  | ok (count n, body') ↦ elim (ltb (readable_bytes body') st_size) [
    | true ↦ read_file st_size body' rest
    | false ↦ some (require (readable_bytes body' == st_size) >>= λ _. ok (true, body'))
  ]
]

-- The content type that `analyse` finds for a path.
unfoldable pub type_of_path : Bytes → Bytes
type_of_path path = elim (find_last b'.' path) [
  | none ↦ default_type
  | some pos_dot ↦ type_from (drop pos_dot path)
]

module _ (arrange : List (Bytes × Bytes) → List (Bytes × Bytes)) where
  unfoldable pub append_status_line_and_headers_to : HttpResponse → Buffer → Outcome Buffer
  append_status_line_and_headers_to r output = do
    status ← printed (status_text r.status_code)
    o₁ ← append output status
    o₂ ← append o₁ r.phrase
    o₃ ← append o₂ cr_lf
    size ← printed (length_text (readable_bytes r.entity_body))
    o₄ ← append o₃ size
    o₅ ← append_headers o₄ (arrange r.headers)
    append o₅ cr_lf

  unfoldable pub append_to : HttpResponse → Buffer → Outcome Buffer
  append_to r output = do
    output' ← append_status_line_and_headers_to r output
    append output' (peek r.entity_body)

  -- The response after the call, and the buffer that it returns.
  unfoldable pub error_message_with : HttpResponse → StatusCode → Outcome (HttpResponse × Buffer)
  error_message_with r code = do
    let r' = set_content_type (set_status_code r code) default_type
    body ← append_all (retrieve_all r'.entity_body) (error_page code)
    let r'' : HttpResponse = record r' { entity_body = body }
    buffer ← append_to r'' (Buffer.create initial_size)
    ok (r'', buffer)

  abbrev pub after_reading : HttpResponse → Bool × Buffer → Outcome (HttpResponse × Buffer)
  after_reading r (true, body) =
      let r' : HttpResponse = record r { entity_body = body } in
      append_to r' (Buffer.create initial_size) >>= λ output. ok (r', output)
  after_reading r (false, body) = error_message_with (record r { entity_body = body }) not_found404

  unfoldable pub analyse :
      HttpResponse → HttpRequest → FileAnswer → Option (Outcome (HttpResponse × Buffer))
  analyse r request answer =
      let r' : HttpResponse =
        set_content_type (set_close_connection r (is_close_connection request))
          (type_of_path request.request_line.path) in
      elim answer [
        | not_opened ↦ some (error_message_with r' not_found404)
        | not_statted ↦ some (error_message_with r' not_found404)
        | opened st_size reads ↦ elim (read_file st_size r'.entity_body reads) [
          | none ↦ none
          | some o ↦ some (o >>= after_reading r')
        ]
      ]
