-- ===== src/Http/Context/Text.antt =====
-- The parser on plain bytes: what `parse_request` does, without a buffer. It is the reference that the
-- rounds on a buffer are compared with.
use wuduo.Prelude.{
  ℕ, zero, suc, ◌+◌, Bool, true, false, not, Option, none, some, [], if◌then◌else◌, ltb, length,
  take, drop, Outcome, ok, abort, require, ◌>>=◌,
}
use wuduo.Buffer.{Bytes}
use wuduo.Http.Text.{codes, find_cr_lf}
use wuduo.Http.Request.{set_request_line_from, add_header_from, get_header}
use wuduo.Http.Context.{
  ParsingPhase, request_line, header_lines, entity_body, completed, HttpContext, is_empty, is_post,
  content_length,
}

pub data TextRound : Type 0 where
  returns : Bool → HttpContext → Bytes → TextRound
  again : HttpContext → Bytes → TextRound

unfoldable pub request_line_text : HttpContext → Bytes → Outcome TextRound
request_line_text c s = elim (find_cr_lf s) [
  | none ↦ ok (returns true c s)
  | some pos ↦ set_request_line_from c.request (take pos s) >>= λ (parsed, request).
      if parsed
      then (require (ltb (pos + 2) (length s)) >>= λ _.
          ok (again (record { phase = header_lines; request = request }) (drop (pos + 2) s)))
      else ok (returns false c s)
]

unfoldable pub header_line_text : HttpContext → Bytes → Outcome TextRound
header_line_text c s = elim (find_cr_lf s) [
  | none ↦ ok (returns true c s)
  | some pos ↦
      if is_empty (take pos s)
      then ok (again (record c { phase = entity_body }) (drop 2 s))
      else (let (added, request) = add_header_from c.request (take pos s) in
          if added
          then ok (again (record c { request = request }) (drop (pos + 2) s))
          else ok (returns false (record c { request = request }) s))
]

unfoldable pub entity_body_text : HttpContext → Bytes → Outcome TextRound
entity_body_text c s =
    if not (is_post c.request.request_line.method)
    then ok (returns true (record c { phase = completed }) s)
    else elim (get_header c.request (codes "Content-length")) [
      | none ↦ ok (returns false c s)
      | some value ↦ elim (content_length value) [
        | none ↦ ok (returns false c s)
        | some n ↦
            if ltb (length s) n
            then ok (returns true c s)
            else ok (returns true (record c { phase = completed }) [])
      ]
    ]

unfoldable pub round_text : ParsingPhase → HttpContext → Bytes → Outcome TextRound
round_text request_line c s = request_line_text c s
round_text header_lines c s = header_line_text c s
round_text entity_body c s = entity_body_text c s
round_text completed c s = ok (returns true c s)

unfoldable pub rounds_text : ℕ → HttpContext → Bytes → Option (Outcome (Bool × HttpContext × Bytes))
rounds_text zero c s = none
rounds_text (suc fuel) c s = elim (round_text c.phase c s) [
  | abort f ↦ some (abort f)
  | ok (returns r c' s') ↦ some (ok (r, c', s'))
  | ok (again c' s') ↦ rounds_text fuel c' s'
]

unfoldable pub parse_text : HttpContext → Bytes → Option (Outcome (Bool × HttpContext × Bytes))
parse_text c s = rounds_text (suc (length s)) c s
