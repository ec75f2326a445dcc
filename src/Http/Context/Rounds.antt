-- ===== src/Http/Context/Rounds.antt =====
-- The rounds of `parse_request`: each that goes on reads something, so the call returns.
use wuduo.Prelude.{
  ℕ, zero, suc, ◌+◌, ◌<◌, ◌≤◌, ◌≡◌, ◌≢◌, refl, sym, ap, ◌∙◌, Bool, true, false, inl, inr, Option,
  none, some, [], ◌∷◌, ◌++◌, append_assoc, if◌then◌else◌, ltb, leb, length, take, arith, Outcome,
  ok, abort, require, ◌>>=◌, Bool-cases, Option-cases, length-drop, take-append-drop, le→leb,
  append-nil, ==_iff,
}
use wuduo.Buffer.{Bytes, Buffer, peek, readable_bytes, retrieve, retrieve_all}
use wuduo.Buffer.Invariant.{IsValid, length-peek}
use wuduo.Buffer.Edits.{retrieve_all-Parts}
use wuduo.Buffer.Contents.{Holds, Parts-Holds, retrieve_total}
use wuduo.Http.Text.{codes, find_cr_lf}
use wuduo.Http.Text.Find.{find_cr_lf-le}
use wuduo.Http.Request.{HttpRequest, set_request_line_from, add_header_from, get_header}
use wuduo.Http.Context.{
  ParsingPhase, request_line, header_lines, entity_body, completed, HttpContext, Round, returns,
  again, request_line_round, header_line_round, entity_body_round, round, parse_rounds,
  parse_request, parse_fuel, is_post, is_empty, content_length,
}

-- What is left after some bytes in front are read.
abbrev pub Suffix : Bytes → Bytes → Type 0
Suffix xs ys = (front : Bytes) × (xs ≡ front ++ ys)

Suffix-trans : (xs ys zs : Bytes) → Suffix xs ys → Suffix ys zs → Suffix xs zs
Suffix-trans xs ys zs (f, e) (g, k) = (f ++ g, e ∙ ap (◌++◌ f) k ∙ sym (append_assoc f g zs))

-- How a round may end.
abbrev Rounded : ParsingPhase → Buffer → Outcome Round → Type 0
Rounded p b (ok (returns r c' b')) = IsValid b' × Suffix (peek b) (peek b')
Rounded p b (ok (again c' b')) =
    (c'.phase ≢ request_line)
    × IsValid b'
    × (length (peek b') < length (peek b))
    × Suffix (peek b) (peek b')
Rounded p b (abort f) = p ≡ request_line

-- Going on after `n` bytes.
retrieve-Rounded :
    (p : ParsingPhase) (b : Buffer) (n : ℕ) (c' : HttpContext)
    → IsValid b
    → 0 < n
    → n ≤ length (peek b)
    → c'.phase ≢ request_line
    → Rounded p b (retrieve b n >>= λ b'. ok (again c' b'))
retrieve-Rounded p b n c' v pos h ne =
    let (b', e, after) = retrieve_total b n v h in
    let (v', held) = after in
    rw e (
      ne,
      v',
      omega (arith, ap length held, length-drop n (peek b)),
      (take n (peek b), sym (take-append-drop n (peek b)) ∙ ap (◌++◌ (take n (peek b))) (sym held)),
    )

stay : {b : Buffer} → IsValid b → IsValid b × Suffix (peek b) (peek b)
stay v = (v, ([], refl))

request_line-Rounded :
    (c : HttpContext) (b : Buffer) → IsValid b → Rounded request_line b (request_line_round c b)
unfolding request_line_round
request_line-Rounded c b v = elim (Option-cases (find_cr_lf (peek b))) [
  | inl absent ↦ rw (absent, request_line_round) (stay v)
  | inr (n, found) ↦
      rw (found, request_line_round)
        (go n (find_cr_lf-le (peek b) n found) (set_request_line_from c.request (take n (peek b))))
]
  where
    go :
        (n : ℕ)
        → n + 2 ≤ length (peek b)
        → (o : Outcome (Bool × HttpRequest))
        → Rounded request_line b (
            o >>= λ (parsed, request).
            if parsed
            then (require (ltb (n + 2) (readable_bytes b)) >>= λ _. retrieve b (n + 2) >>= λ b'.
                ok (again (record { phase = header_lines; request = request }) b'))
            else ok (returns false c b))
    go n h (abort f) = refl
    go n h (ok (false, request)) = stay v
    go n h (ok (true, request)) = elim (Bool-cases (ltb (n + 2) (readable_bytes b))) [
      | inl more ↦ rw more (
          retrieve-Rounded request_line b (n + 2)
            (record { phase = header_lines; request = request }) v (omega arith) h (λ e. cc))
      | inr last ↦ rw last refl
    ]

pub is_empty-take : (n : ℕ) (xs : Bytes) → n ≤ length xs → is_empty (take n xs) ≡ true → n ≡ 0
is_empty-take zero xs h e = refl
is_empty-take (suc n) [] h e = absurd (omega arith)
is_empty-take (suc n) (x ∷ xs) h e = absurd (cc)

header_line-Rounded :
    (c : HttpContext) (b : Buffer)
    → c.phase ≡ header_lines
    → IsValid b
    → Rounded header_lines b (header_line_round c b)
unfolding header_line_round
header_line-Rounded c b ph v = elim (Option-cases (find_cr_lf (peek b))) [
  | inl absent ↦ rw (absent, header_line_round) (stay v)
  | inr (n, found) ↦
      let inside = find_cr_lf-le (peek b) n found in
      rw (found, header_line_round)
        (elim (Bool-cases (is_empty (take n (peek b)))) [
          | inl blank ↦
              let first = is_empty-take n (peek b) (omega (arith, inside)) blank in
              rw (blank, (==_iff n 0).1 first)
                (retrieve-Rounded header_lines b 2 (record c { phase = entity_body }) v
                  (omega arith) (omega (arith, inside)) (λ e. cc))
          | inr text ↦ rw text (line n inside (add_header_from c.request (take n (peek b))))
        ])
]
  where
    line :
        (n : ℕ)
        → n + 2 ≤ length (peek b)
        → (a : Bool × HttpRequest)
        → Rounded header_lines b (
            if a.0
            then (require (leb (n + 2) (readable_bytes b)) >>= λ _.
                retrieve b (n + 2) >>= λ b'. ok (again (record c { request = a.1 }) b'))
            else ok (returns false (record c { request = a.1 }) b))
    line n h (false, request) = stay v
    line n h (true, request) =
        rw (le→leb (n + 2) (readable_bytes b) (omega (arith, h, length-peek v))) (
          retrieve-Rounded header_lines b (n + 2) (record c { request = request }) v (omega arith) h
            (λ e. cc))

entity_body-Rounded :
    (c : HttpContext) (b : Buffer) → IsValid b → Rounded entity_body b (entity_body_round c b)
unfolding entity_body_round
entity_body-Rounded c b v = elim (Bool-cases (is_post c.request.request_line.method)) [
  | inr bodiless ↦ rw bodiless (stay v)
  | inl posted ↦ rw posted (elim (Option-cases (get_header c.request (codes "Content-length"))) [
    | inl missing ↦ rw (missing, entity_body_round) (stay v)
    | inr (value, given) ↦
        rw (given, entity_body_round)
          (elim (Option-cases (content_length value)) [
            | inl malformed ↦ rw malformed (stay v)
            | inr (n, size) ↦ rw size (elim (Bool-cases (ltb (readable_bytes b) n)) [
              | inl short ↦ rw short (stay v)
              | inr whole ↦ rw whole (
                emptied.0,
                (peek b, sym (append-nil (peek b)) ∙ ap (◌++◌ (peek b)) (sym emptied.1)),
              )
            ])
          ])
  ])
]
  where
    emptied : Holds (retrieve_all b) []
    emptied = Parts-Holds (retrieve_all-Parts v)

round-Rounded :
    (p : ParsingPhase) (c : HttpContext) (b : Buffer)
    → c.phase ≡ p
    → IsValid b
    → Rounded p b (round p c b)
unfolding round
round-Rounded request_line c b e v = request_line-Rounded c b v
round-Rounded header_lines c b e v = header_line-Rounded c b e v
round-Rounded entity_body c b e v = entity_body-Rounded c b v
round-Rounded completed c b e v = stay v

-- How a call may end.
abbrev pub Parses : HttpContext → Buffer → Option (Outcome (Bool × HttpContext × Buffer)) → Type 0
Parses c b none = ⊥
Parses c b (some (abort f)) = c.phase ≡ request_line
Parses c b (some (ok (r, c', b'))) = IsValid b' × Suffix (peek b) (peek b')

-- A later round's end, seen from the round before it.
widen-Parses :
    (c c' : HttpContext) (b b' : Buffer) (o : Option (Outcome (Bool × HttpContext × Buffer)))
    → c'.phase ≢ request_line
    → Suffix (peek b) (peek b')
    → Parses c' b' o
    → Parses c b o
widen-Parses c c' b b' none ne s h = h
widen-Parses c c' b b' (some (abort f)) ne s h = absurd (ne h)
widen-Parses c c' b b' (some (ok (r, d, e))) ne s h =
    (h.0, Suffix-trans (peek b) (peek b') (peek e) s h.1)

rounds-Parses :
    (fuel : ℕ) (c : HttpContext) (b : Buffer)
    → IsValid b
    → length (peek b) < fuel
    → Parses c b (parse_rounds fuel c b)
unfolding parse_rounds
rounds-Parses zero c b v h = absurd (omega arith)
rounds-Parses (suc fuel) c b v h =
    next (round c.phase c b) (round-Rounded c.phase c b refl v)
      (λ c' b' v' k. rounds-Parses fuel c' b' v' (omega (arith, k, h)))
  where
    next :
        (o : Outcome Round)
        → Rounded c.phase b o
        → ((c' : HttpContext) (b' : Buffer)
            → IsValid b'
            → length (peek b') < length (peek b)
            → Parses c' b' (parse_rounds fuel c' b'))
        → Parses c b (elim o [
          | abort f ↦ some (abort f)
          | ok (returns r c' b') ↦ some (ok (r, c', b'))
          | ok (again c' b') ↦ parse_rounds fuel c' b'
        ])
    next (abort f) r later = r
    next (ok (returns x c' b')) r later = r
    next (ok (again c' b')) r later =
        widen-Parses c c' b b' (parse_rounds fuel c' b') r.0 r.3 (later c' b' r.1 r.2)

-- `parse_request` on a valid buffer always returns: the fuel is enough, and each way to end leaves a
-- valid buffer that holds what follows the bytes read. Only a call that starts at the request line
-- can end in a failed assertion or an exception; one that goes on with headers or body never does.
pub parse_request-Parses :
    (c : HttpContext) (b : Buffer) → IsValid b → Parses c b (parse_request c b)
unfolding parse_request
parse_request-Parses c b v = rounds-Parses (parse_fuel b) c b v (omega arith)
