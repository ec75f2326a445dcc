-- ===== src/Http/Context.antt =====
-- wuduo/http/http_context.h and wuduo/http/http_context.cpp: `HttpContext`.
-- `parse_request` calls itself last, once for each phase and line; the calls are the rounds of a loop
-- here. A round that goes on reads at least two bytes, so `parse_fuel` rounds are enough.
pub mod Rounds
pub mod Lines
pub mod HeaderLines
pub mod Complete
pub mod Length
pub mod Text
pub mod Refines
pub mod Pieces
pub mod Arrival
pub mod Room
use wuduo.Prelude.{
  ℕ, zero, suc, ◌+◌, Bool, true, false, not, Option, none, some, [], ◌∷◌, if◌then◌else◌, ltb, leb,
  ◌==◌, take, length, Outcome, ok, abort, require, ◌>>=◌, ◌>>◌,
}
use wuduo.Buffer.{Bytes, Buffer, peek, readable_bytes, retrieve, retrieve_all}
use wuduo.Http.Text.{codes, find_cr_lf}
use wuduo.Http.Number.{stoll}
use wuduo.Http.Request.{
  Method, post, HttpRequest, empty_request, set_request_line_from, add_header_from, get_header,
}

pub data ParsingPhase : Type 0 where
  request_line header_lines entity_body completed : ParsingPhase

pub record HttpContext : Type 0 where
  pub phase : ParsingPhase
  pub request : HttpRequest

abbrev pub fresh : HttpContext
fresh = record { phase = request_line; request = empty_request }

unfoldable pub parsing_completed : HttpContext → Bool
parsing_completed c = elim c.phase [ completed ↦ true | _ ↦ false ]

unfoldable pub reset : HttpContext → HttpContext
reset c = record { phase = request_line; request = empty_request }

-- How a round ends: the call returns, or calls itself.
pub data Round : Type 0 where
  returns : Bool → HttpContext → Buffer → Round
  again : HttpContext → Buffer → Round

unfoldable pub request_line_round : HttpContext → Buffer → Outcome Round
request_line_round c buf = elim (find_cr_lf (peek buf)) [
  | none ↦ ok (returns true c buf)
  | some pos ↦ set_request_line_from c.request (take pos (peek buf)) >>= λ (parsed, request).
      if parsed
      then (require (ltb (pos + 2) (readable_bytes buf)) >>= λ _. retrieve buf (pos + 2) >>= λ buf'.
          ok (again (record { phase = header_lines; request = request }) buf'))
      else ok (returns false c buf)
]

abbrev pub is_empty : Bytes → Bool
is_empty [] = true
is_empty (c ∷ cs) = false

unfoldable pub header_line_round : HttpContext → Buffer → Outcome Round
header_line_round c buf = elim (find_cr_lf (peek buf)) [
  | none ↦ ok (returns true c buf)
  | some pos ↦
      if is_empty (take pos (peek buf))
      then (require (pos == 0) >>= λ _.
          retrieve buf 2 >>= λ buf'. ok (again (record c { phase = entity_body }) buf'))
      else (let (added, request) = add_header_from c.request (take pos (peek buf)) in
          if added
          then (require (leb (pos + 2) (readable_bytes buf)) >>= λ _.
              retrieve buf (pos + 2) >>= λ buf'. ok (again (record c { request = request }) buf'))
          else ok (returns false (record c { request = request }) buf))
]

abbrev pub is_post : Method → Bool
is_post post = true
is_post _ = false

-- `contents_length_value`, if it is not below zero.
unfoldable pub content_length : Bytes → Option ℕ
content_length value = elim (stoll value) [
  | none ↦ none
  | some (negative, n) ↦ if negative then none else some n
]

unfoldable pub entity_body_round : HttpContext → Buffer → Outcome Round
entity_body_round c buf =
    if not (is_post c.request.request_line.method)
    then ok (returns true (record c { phase = completed }) buf)
    else elim (get_header c.request (codes "Content-length")) [
      | none ↦ ok (returns false c buf)
      | some value ↦ elim (content_length value) [
        | none ↦ ok (returns false c buf)
        | some n ↦
            if ltb (readable_bytes buf) n
            then ok (returns true c buf)
            else ok (returns true (record c { phase = completed }) (retrieve_all buf))
      ]
    ]

unfoldable pub round : ParsingPhase → HttpContext → Buffer → Outcome Round
round request_line c buf = request_line_round c buf
round header_lines c buf = header_line_round c buf
round entity_body c buf = entity_body_round c buf
round completed c buf = ok (returns true c buf)

-- `none` is no end within the fuel.
unfoldable pub parse_rounds :
    ℕ → HttpContext → Buffer → Option (Outcome (Bool × HttpContext × Buffer))
parse_rounds zero c buf = none
parse_rounds (suc fuel) c buf = elim (round c.phase c buf) [
  | abort f ↦ some (abort f)
  | ok (returns r c' buf') ↦ some (ok (r, c', buf'))
  | ok (again c' buf') ↦ parse_rounds fuel c' buf'
]

abbrev pub parse_fuel : Buffer → ℕ
parse_fuel buf = suc (length (peek buf))

-- `HttpContext::parse_request(buf)`
unfoldable pub parse_request : HttpContext → Buffer → Option (Outcome (Bool × HttpContext × Buffer))
parse_request c buf = parse_rounds (parse_fuel buf) c buf
