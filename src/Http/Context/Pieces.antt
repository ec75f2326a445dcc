-- ===== src/Http/Context/Pieces.antt =====
-- A request that arrives in pieces is parsed as if it had arrived at once.
use wuduo.Prelude.{
  ℕ, ◌+◌, ◌<◌, ◌≤◌, ◌≡◌, refl, ap, ◌⊎◌, Bool, true, false, ◌&&◌, inl, inr, some, [], ◌∷◌, ◌++◌,
  if◌then◌else◌, ltb, ◌==◌, length, take, drop, arith, Outcome, ok, abort, require, ◌>>=◌,
  Bool-cases, Option-cases, length-append, length-drop, take_append_of_le, drop_append_of_le,
  ltb→lt, lt→ltb,
}
use wuduo.Buffer.{Bytes}
use wuduo.Http.Text.{codes, find_cr_lf, carriage_return, line_feed}
use wuduo.Http.Text.Find.{find_cr_lf-le}
use wuduo.Http.Request.{HttpRequest, set_request_line_from, add_header_from, get_header}
use wuduo.Http.Context.{
  ParsingPhase, request_line, header_lines, entity_body, completed, HttpContext, parsing_completed,
  is_post, is_empty, content_length,
}
use wuduo.Http.Context.Text.{
  TextRound, returns, again, request_line_text, header_line_text, entity_body_text, round_text,
}

-- A line end that is there stays the first one, whatever follows.
find_cr_lf_before : (s ys : Bytes) (n : ℕ) → find_cr_lf s ≡ some n → find_cr_lf (s ++ ys) ≡ some n
unfolding find_cr_lf
find_cr_lf_before [] ys n e = absurd (cc)
find_cr_lf_before (x ∷ []) ys n e = absurd (cc)
find_cr_lf_before (x ∷ y ∷ xs) ys n e =
    elim (Bool-cases ((x == carriage_return) && (y == line_feed))) [
      | inl here ↦ ground arith
      | inr past ↦ elim (Option-cases (find_cr_lf (y ∷ xs))) [
        | inl absent ↦ absurd (ground arith)
        | inr (m, found) ↦ ground (arith, find_cr_lf_before (y ∷ xs) ys m found)
      ]
    ]

-- A round on some bytes, and the round with more bytes behind them: it goes on in the same way, or
-- the request is done, or the round waits with nothing changed, or the message is refused.
abbrev pub Grows : HttpContext → Bytes → Bytes → Outcome TextRound → Outcome TextRound → Type 0
Grows c s ys (ok (again c' s')) t = (t ≡ ok (again c' (s' ++ ys))) × (length s' < length s)
Grows c s ys (ok (returns true c' s')) t = (parsing_completed c' ≡ true) ⊎ ((c' ≡ c) × (s' ≡ s))
Grows c s ys (ok (returns false c' s')) t = Unit {0}
Grows c s ys (abort f) t = Unit {0}

dropped-Grows :
    (c c' : HttpContext) (s ys : Bytes) (n : ℕ)
    → 0 < n
    → n ≤ length s
    → Grows c s ys (ok (again c' (drop n s))) (ok (again c' (drop n (s ++ ys))))
dropped-Grows c c' s ys n pos h =
    (ap (λ t. ok (again c' t)) (drop_append_of_le n s ys h), omega (arith, length-drop n s, pos, h))

request_line-Grows :
    (c : HttpContext) (s ys : Bytes)
    → Grows c s ys (request_line_text c s) (request_line_text c (s ++ ys))
unfolding request_line_text
request_line-Grows c s ys = elim (Option-cases (find_cr_lf s)) [
  | inl absent ↦ rw (absent, request_line_text) (inr (refl, refl))
  | inr (n, found) ↦
      let inside = find_cr_lf-le s n found in
      rw
        (
          found,
          find_cr_lf_before s ys n found,
          take_append_of_le n s ys (omega (arith, inside)),
          request_line_text,
        )
        (go n inside (set_request_line_from c.request (take n s)))
]
  where
    go :
        (n : ℕ)
        → n + 2 ≤ length s
        → (o : Outcome (Bool × HttpRequest))
        → Grows c s ys
            (o >>= λ (parsed, request).
              if parsed
              then (require (ltb (n + 2) (length s)) >>= λ _.
                  ok (again (record { phase = header_lines; request = request }) (drop (n + 2) s)))
              else ok (returns false c s))
            (o >>= λ (parsed, request).
              if parsed
              then (require (ltb (n + 2) (length (s ++ ys))) >>= λ _. ok (
                  again
                    (record { phase = header_lines; request = request })
                    (drop (n + 2) (s ++ ys))))
              else ok (returns false c (s ++ ys)))
    go n h (abort f) = tt
    go n h (ok (false, request)) = tt
    go n h (ok (true, request)) = elim (Bool-cases (ltb (n + 2) (length s))) [
      | inr last ↦ rw last tt
      | inl more ↦
          rw
            (
              more,
              lt→ltb (n + 2) (length (s ++ ys))
                  (omega (arith, ltb→lt (n + 2) (length s) more, length-append s ys)),
            )
            (dropped-Grows c (record { phase = header_lines; request = request }) s ys (n + 2)
              (omega arith) h)
    ]

header_line-Grows :
    (c : HttpContext) (s ys : Bytes)
    → Grows c s ys (header_line_text c s) (header_line_text c (s ++ ys))
unfolding header_line_text
header_line-Grows c s ys = elim (Option-cases (find_cr_lf s)) [
  | inl absent ↦ rw (absent, header_line_text) (inr (refl, refl))
  | inr (n, found) ↦
      let inside = find_cr_lf-le s n found in
      rw
        (
          found,
          find_cr_lf_before s ys n found,
          take_append_of_le n s ys (omega (arith, inside)),
          header_line_text,
        )
        (elim (Bool-cases (is_empty (take n s))) [
          | inl blank ↦ rw blank (
              dropped-Grows c (record c { phase = entity_body }) s ys 2 (omega arith)
                (omega (arith, inside)))
          | inr text ↦ rw text (line n inside (add_header_from c.request (take n s)))
        ])
]
  where
    line :
        (n : ℕ)
        → n + 2 ≤ length s
        → (a : Bool × HttpRequest)
        → Grows c s ys
            (if a.0
              then ok (again (record c { request = a.1 }) (drop (n + 2) s))
              else ok (returns false (record c { request = a.1 }) s))
            (if a.0
              then ok (again (record c { request = a.1 }) (drop (n + 2) (s ++ ys)))
              else ok (returns false (record c { request = a.1 }) (s ++ ys)))
    line n h (false, request) = tt
    line n h (true, request) =
        dropped-Grows c (record c { request = request }) s ys (n + 2) (omega arith) h

entity_body-Grows :
    (c : HttpContext) (s ys : Bytes)
    → Grows c s ys (entity_body_text c s) (entity_body_text c (s ++ ys))
unfolding entity_body_text parsing_completed
entity_body-Grows c s ys = elim (Bool-cases (is_post c.request.request_line.method)) [
  | inr bodiless ↦ rw bodiless (inl refl)
  | inl posted ↦ rw posted (elim (Option-cases (get_header c.request (codes "Content-length"))) [
    | inl missing ↦ rw (missing, entity_body_text) tt
    | inr (value, given) ↦
        rw (given, entity_body_text)
          (elim (Option-cases (content_length value)) [
            | inl malformed ↦ rw malformed tt
            | inr (n, size) ↦ rw size (elim (Bool-cases (ltb (length s) n)) [
              | inl short ↦ rw short (inr (refl, refl))
              | inr whole ↦ rw whole (inl refl)
            ])
          ])
  ])
]

pub round-Grows :
    (p : ParsingPhase) (c : HttpContext) (s ys : Bytes)
    → c.phase ≡ p
    → Grows c s ys (round_text p c s) (round_text p c (s ++ ys))
unfolding round_text parsing_completed
round-Grows request_line c s ys e = request_line-Grows c s ys
round-Grows header_lines c s ys e = header_line-Grows c s ys
round-Grows entity_body c s ys e = entity_body-Grows c s ys
round-Grows completed c s ys e = inl (rw e refl)
