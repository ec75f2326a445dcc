-- ===== src/Http/Request.antt =====
-- wuduo/http/http_request.h and wuduo/http/http_request.cpp: `RequestLine` and `HttpRequest`.
-- A string that would get `size() - 1` bytes of an empty view ends in a `length_error`.
pub mod Words
pub mod Line
pub mod Aborts
pub mod Headers
use wuduo.Prelude.{
  ℕ, suc, Bool, true, false, not, ◌&&◌, Option, none, some, List, [], ◌∷◌, ◌++◌, if◌then◌else◌, ltb,
  length, take, drop, Outcome, ok, abort, length_error, require, ◌>>=◌,
}
use wuduo.Buffer.{Bytes}
use wuduo.Http.Text.{codes, space, carriage_return, equal, find_char, find_not_space}

pub data Method : Type 0 where
  get head post unknown : Method

pub data Version : Type 0 where
  http10 http11 unknown : Version

pub record RequestLine : Type 0 where
  pub method : Method
  pub url : Bytes
  pub path : Bytes
  pub query : Bytes
  pub version : Version

abbrev pub empty_line : RequestLine
empty_line = record {
  method = Method.unknown;
  url = [];
  path = [];
  query = [];
  version = Version.unknown;
}

-- The chain of `if`s over the method; `nullopt` is `none`.
unfoldable pub method_of : Bytes → Option Method
method_of s =
    if equal s (codes "GET")
    then some get
    else if equal s (codes "HEAD")
    then some head
    else if equal s (codes "POST")
    then some post
    else none

unfoldable pub version_of : Bytes → Option Version
version_of s =
    if equal s (codes "HTTP/1.0")
    then some http10
    else if equal s (codes "HTTP/1.1")
    then some http11
    else none

-- `std::string{url.data() + 1, url.size() - 1}`
unfoldable pub without_first : Bytes → Outcome Bytes
without_first [] = abort length_error
without_first (c ∷ cs) = ok cs

-- The path and the query of a url.
unfoldable pub path_and_query : Bytes → Outcome (Bytes × Bytes)
path_and_query url = elim (find_char b'?' url) [
  | some p ↦ ok (take p url, drop p url)
  | none ↦
      if equal url (codes "/")
      then ok (codes "index.html", [])
      else (without_first url >>= λ path. ok (path, []))
]

-- `RequestLine::from(method, url, version)`
unfoldable pub from_parts : Bytes → Bytes → Bytes → Outcome (Option RequestLine)
from_parts method url version = elim (method_of method) [
  | none ↦ ok none
  | some m ↦ path_and_query url >>= λ (path, query). elim (version_of version) [
    | none ↦ ok none
    | some v ↦ ok (some (record { method = m; url = url; path = path; query = query; version = v }))
  ]
]

-- The line up to the first `\r`.
unfoldable pub before_cr : Bytes → Bytes
before_cr line = elim (find_char carriage_return line) [ none ↦ line | some p ↦ take p line ]

-- What stands before the first space and what follows it, which must not be empty.
unfoldable pub split_at_space : Bytes → Outcome (Option (Bytes × Bytes))
split_at_space line = elim (find_char space line) [
  | none ↦ ok none
  | some p ↦ require (ltb (suc p) (length line)) >>= λ _. ok (some (take p line, drop (suc p) line))
]

-- A `nullopt` is returned at once.
abbrev pub and_then {ℓ κ} :
    {A : Type ℓ} {B : Type κ} → Outcome (Option A) → (A → Outcome (Option B)) → Outcome (Option B)
and_then (ok none) f = ok none
and_then (ok (some a)) f = f a
and_then (abort e) f = abort e

-- `RequestLine::from(line)`
unfoldable pub from_line : Bytes → Outcome (Option RequestLine)
from_line line =
    and_then (split_at_space (before_cr line)) λ (method, rest).
      and_then (split_at_space rest) λ (url, version). from_parts method url version

abbrev pub method_text : Method → Bytes
method_text get = codes "GET"
method_text head = codes "HEAD"
method_text post = codes "POST"
method_text unknown = codes "UNKNOWN"

abbrev pub version_text : Version → Bytes
version_text http10 = codes "HTTP/1.0"
version_text http11 = codes "HTTP/1.1"
version_text unknown = codes "UNKNOWN VERSION"

unfoldable pub to_string : RequestLine → Bytes
to_string line =
    method_text line.method ++ (space ∷ (line.url ++ (space ∷ version_text line.version)))

-- `std::unordered_map<std::string, std::string>`, by its look-ups: one entry for a key.
pub record HttpRequest : Type 0 where
  pub request_line : RequestLine
  pub headers : List (Bytes × Bytes)

abbrev pub empty_request : HttpRequest
empty_request = record { request_line = empty_line; headers = [] }

unfoldable pub find_header : Bytes → List (Bytes × Bytes) → Option Bytes
find_header key [] = none
find_header key ((k, v) ∷ rest) = if equal k key then some v else find_header key rest

unfoldable pub get_header : HttpRequest → Bytes → Option Bytes
get_header r key = find_header key r.headers

-- `headers_.emplace(key, value).second`, with the map after it.
unfoldable pub emplace : Bytes → Bytes → List (Bytes × Bytes) → Bool × List (Bytes × Bytes)
emplace key value headers = elim (find_header key headers) [
  | some _ ↦ (false, headers)
  | none ↦ (true, (key, value) ∷ headers)
]

unfoldable pub set_request_line_from : HttpRequest → Bytes → Outcome (Bool × HttpRequest)
set_request_line_from r line = from_line line >>= λ parsed. elim parsed [
  | some l ↦ ok (true, record r { request_line = l })
  | none ↦ ok (false, r)
]

unfoldable pub add_header_from : HttpRequest → Bytes → Bool × HttpRequest
add_header_from r line = elim (find_char b':' line) [
  | none ↦ (false, r)
  | some colon ↦ elim (find_not_space (drop (suc colon) line)) [
    | none ↦ (false, r)
    | some n ↦
        let (added, headers) =
          emplace (take colon line) (drop n (drop (suc colon) line)) r.headers in
        (added, record r { headers = headers })
  ]
]

unfoldable pub is_close_connection : HttpRequest → Bool
is_close_connection r = elim (get_header r (codes "Connection")) [
  | none ↦ true
  | some v ↦ not (equal v (codes "keep-alive")) && not (equal v (codes "Keep-Alive"))
]
