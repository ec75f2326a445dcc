-- ===== src/Http/Context/Refines.antt =====
-- `parse_request` on a buffer does what the parser on its bytes does.
use wuduo.Prelude.{
  ℕ, zero, suc, ◌+◌, ◌≤◌, ◌≡◌, refl, sym, ap, Bool, true, false, inl, inr, Option, none, some, [],
  if◌then◌else◌, ltb, leb, length, take, drop, arith, Outcome, ok, abort, require, ◌>>=◌,
  Bool-cases, Option-cases, le→leb, ==_iff,
}
use wuduo.Buffer.{Bytes, Buffer, peek, readable_bytes, retrieve, retrieve_all}
use wuduo.Buffer.Invariant.{IsValid, length-peek}
use wuduo.Buffer.Edits.{retrieve_all-Parts}
use wuduo.Buffer.Contents.{Holds, Parts-Holds, retrieve_total}
use wuduo.Http.Text.{codes, find_cr_lf}
use wuduo.Http.Text.Find.{find_cr_lf-le}
use wuduo.Http.Request.{HttpRequest, set_request_line_from, add_header_from, get_header}
use wuduo.Http.Context.{
  ParsingPhase, request_line, header_lines, entity_body, completed, HttpContext, Round,
  request_line_round, header_line_round, entity_body_round, round, parse_rounds, parse_request,
  parse_fuel, is_post, is_empty, content_length,
}
use wuduo.Http.Context.Rounds.{is_empty-take}
use wuduo.Http.Context.Text.{
  TextRound, request_line_text, header_line_text, entity_body_text, round_text, rounds_text,
  parse_text,
}

-- A round on a buffer that ends as the round on its bytes, with a valid buffer.
abbrev Agrees : Outcome Round → Outcome TextRound → Type 0
Agrees (ok (Round.returns r c b)) t = IsValid b × (t ≡ ok (TextRound.returns r c (peek b)))
Agrees (ok (Round.again c b)) t = IsValid b × (t ≡ ok (TextRound.again c (peek b)))
Agrees (abort f) t = t ≡ abort f

retrieve-Agrees :
    (b : Buffer) (n : ℕ) (c : HttpContext)
    → IsValid b
    → n ≤ length (peek b)
    → Agrees
        (retrieve b n >>= λ b'. ok (Round.again c b'))
        (ok (TextRound.again c (drop n (peek b))))
retrieve-Agrees b n c v h =
    let (b', e, held) = retrieve_total b n v h in
    rw e (held.0, ap (λ s. ok (TextRound.again c s)) (sym held.1))

request_line-Agrees :
    (c : HttpContext) (b : Buffer)
    → IsValid b
    → Agrees (request_line_round c b) (request_line_text c (peek b))
unfolding request_line_round request_line_text
request_line-Agrees c b v = elim (Option-cases (find_cr_lf (peek b))) [
  | inl absent ↦ rw (absent, request_line_round, request_line_text) (v, refl)
  | inr (n, found) ↦
      rw (found, request_line_round, request_line_text)
        (go n (find_cr_lf-le (peek b) n found) (set_request_line_from c.request (take n (peek b))))
]
  where
    go :
        (n : ℕ)
        → n + 2 ≤ length (peek b)
        → (o : Outcome (Bool × HttpRequest))
        → Agrees
            (o >>= λ (parsed, request).
              if parsed
              then (require (ltb (n + 2) (readable_bytes b)) >>= λ _. retrieve b (n + 2) >>= λ b'.
                  ok (Round.again (record { phase = header_lines; request = request }) b'))
              else ok (Round.returns false c b))
            (o >>= λ (parsed, request).
              if parsed
              then (require (ltb (n + 2) (length (peek b))) >>= λ _. ok (
                  TextRound.again
                    (record { phase = header_lines; request = request })
                    (drop (n + 2) (peek b))))
              else ok (TextRound.returns false c (peek b)))
    go n h (abort f) = refl
    go n h (ok (false, request)) = (v, refl)
    go n h (ok (true, request)) =
        rw (length-peek v) (elim (Bool-cases (ltb (n + 2) (readable_bytes b))) [
          | inl more ↦
              rw more
                (retrieve-Agrees b (n + 2) (record { phase = header_lines; request = request }) v h)
          | inr last ↦ rw last refl
        ])

header_line-Agrees :
    (c : HttpContext) (b : Buffer)
    → IsValid b
    → Agrees (header_line_round c b) (header_line_text c (peek b))
unfolding header_line_round header_line_text
header_line-Agrees c b v = elim (Option-cases (find_cr_lf (peek b))) [
  | inl absent ↦ rw (absent, header_line_round, header_line_text) (v, refl)
  | inr (n, found) ↦
      let inside = find_cr_lf-le (peek b) n found in
      rw (found, header_line_round, header_line_text)
        (elim (Bool-cases (is_empty (take n (peek b)))) [
          | inl blank ↦
              let first = is_empty-take n (peek b) (omega (arith, inside)) blank in
              rw (blank, (==_iff n 0).1 first)
                (retrieve-Agrees b 2 (record c { phase = entity_body }) v (omega (arith, inside)))
          | inr text ↦ rw text (line n inside (add_header_from c.request (take n (peek b))))
        ])
]
  where
    line :
        (n : ℕ)
        → n + 2 ≤ length (peek b)
        → (a : Bool × HttpRequest)
        → Agrees
            (if a.0
              then (require (leb (n + 2) (readable_bytes b)) >>= λ _.
                  retrieve b (n + 2) >>= λ b'. ok (Round.again (record c { request = a.1 }) b'))
              else ok (Round.returns false (record c { request = a.1 }) b))
            (if a.0
              then ok (TextRound.again (record c { request = a.1 }) (drop (n + 2) (peek b)))
              else ok (TextRound.returns false (record c { request = a.1 }) (peek b)))
    line n h (false, request) = (v, refl)
    line n h (true, request) =
        rw (le→leb (n + 2) (readable_bytes b) (omega (arith, h, length-peek v)))
          (retrieve-Agrees b (n + 2) (record c { request = request }) v h)

entity_body-Agrees :
    (c : HttpContext) (b : Buffer)
    → IsValid b
    → Agrees (entity_body_round c b) (entity_body_text c (peek b))
unfolding entity_body_round entity_body_text
entity_body-Agrees c b v = elim (Bool-cases (is_post c.request.request_line.method)) [
  | inr bodiless ↦ rw bodiless (v, refl)
  | inl posted ↦ rw posted (elim (Option-cases (get_header c.request (codes "Content-length"))) [
    | inl missing ↦ rw (missing, entity_body_round, entity_body_text) (v, refl)
    | inr (value, given) ↦
        rw (given, entity_body_round, entity_body_text)
          (elim (Option-cases (content_length value)) [
            | inl malformed ↦ rw malformed (v, refl)
            | inr (n, size) ↦
                rw (size, length-peek v)
                  (elim (Bool-cases (ltb (readable_bytes b) n)) [
                    | inl short ↦ rw short (v, refl)
                    | inr whole ↦ rw whole (
                      emptied.0,
                      ap (λ s. ok (TextRound.returns true (record c { phase = completed }) s))
                          (sym emptied.1),
                    )
                  ])
          ])
  ])
]
  where
    emptied : Holds (retrieve_all b) []
    emptied = Parts-Holds (retrieve_all-Parts v)

round-Agrees :
    (p : ParsingPhase) (c : HttpContext) (b : Buffer)
    → IsValid b
    → Agrees (round p c b) (round_text p c (peek b))
unfolding round round_text
round-Agrees request_line c b v = request_line-Agrees c b v
round-Agrees header_lines c b v = header_line-Agrees c b v
round-Agrees entity_body c b v = entity_body-Agrees c b v
round-Agrees completed c b v = (v, refl)

-- How a call ends, with the bytes that the buffer holds then.
abbrev pub seen :
    Option (Outcome (Bool × HttpContext × Buffer)) → Option (Outcome (Bool × HttpContext × Bytes))
seen none = none
seen (some (abort f)) = some (abort f)
seen (some (ok (r, c, b))) = some (ok (r, c, peek b))

rounds-seen :
    (fuel : ℕ) (c : HttpContext) (b : Buffer)
    → IsValid b
    → seen (parse_rounds fuel c b) ≡ rounds_text fuel c (peek b)
unfolding parse_rounds rounds_text
rounds-seen zero c b v = refl
rounds-seen (suc fuel) c b v =
    next (round c.phase c b) (round-Agrees c.phase c b v) (λ c' b' v'. rounds-seen fuel c' b' v')
  where
    next :
        (o : Outcome Round)
        → Agrees o (round_text c.phase c (peek b))
        → ((c' : HttpContext) (b' : Buffer)
            → IsValid b'
            → seen (parse_rounds fuel c' b') ≡ rounds_text fuel c' (peek b'))
        → seen (elim o [
          | abort f ↦ some (abort f)
          | ok (Round.returns r c' b') ↦ some (ok (r, c', b'))
          | ok (Round.again c' b') ↦ parse_rounds fuel c' b'
        ])
          ≡ rounds_text (suc fuel) c (peek b)
    next (abort f) a later = rw (a, rounds_text) refl
    next (ok (Round.returns r c' b')) a later = rw (a.1, rounds_text) refl
    next (ok (Round.again c' b')) a later = rw (a.1, rounds_text) (later c' b' a.0)

-- `parse_request` on a valid buffer ends exactly as the parser on plain bytes does on the bytes that it
-- holds: with the same answer, context and bytes left, or in the same way without an answer.
pub parse_request-seen :
    (c : HttpContext) (b : Buffer) → IsValid b → seen (parse_request c b) ≡ parse_text c (peek b)
unfolding parse_request parse_text
parse_request-seen c b v = rounds-seen (parse_fuel b) c b v
