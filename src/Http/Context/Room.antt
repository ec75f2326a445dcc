-- ===== src/Http/Context/Room.antt =====
-- Parsing does not move the end of what the buffer holds to the right.
use wuduo.Prelude.{
  ℕ, zero, suc, ◌+◌, ◌≤◌, ◌≡◌, refl, subst, Bool, true, false, not, inl, inr, Option, none, some,
  if◌then◌else◌, ltb, leb, ◌==◌, take, arith, Outcome, ok, abort, require, ◌>>=◌, Option-cases,
}
use wuduo.Buffer.{Buffer, cheap_prepend, peek, readable_bytes, retrieve, retrieve_all}
use wuduo.Http.Text.{codes, find_cr_lf}
use wuduo.Http.Request.{set_request_line_from, add_header_from, get_header}
use wuduo.Http.Context.{
  ParsingPhase, request_line, header_lines, entity_body, completed, HttpContext, Round, returns,
  again, request_line_round, header_line_round, entity_body_round, round, parse_rounds,
  parse_request, parse_fuel, is_post, is_empty, content_length,
}

module _ (m : ℕ) (room : cheap_prepend ≤ m) where
  abbrev Within : Outcome Round → Type 0
  Within (ok (returns r c b)) = b.writer_index ≤ m
  Within (ok (again c b)) = b.writer_index ≤ m
  Within (abort f) = Unit {0}

  if_Within : (b : Bool) (x y : Outcome Round) → Within x → Within y → Within (if b then x else y)
  if_Within true x y u v = u
  if_Within false x y u v = v

  bind_Within {ℓ} :
      {A : Type ℓ} (r : Outcome A) (next : A → Outcome Round)
      → ((a : A) → Within (next a))
      → Within (r >>= next)
  bind_Within (ok a) next h = h a
  bind_Within (abort f) next h = tt

  retrieved-le :
      (b b' : Buffer) (n : ℕ) → b.writer_index ≤ m → retrieve b n ≡ ok b' → b'.writer_index ≤ m
  unfolding retrieve retrieve_all
  retrieved-le b b' n h e = ground arith

  retrieve-Within :
      (b : Buffer) (n : ℕ) (c : HttpContext)
      → b.writer_index ≤ m
      → Within (retrieve b n >>= λ b'. ok (again c b'))
  retrieve-Within b n c h = go (retrieve b n) (λ b' e. retrieved-le b b' n h e)
    where
      go :
          (r : Outcome Buffer)
          → ((b' : Buffer) → r ≡ ok b' → b'.writer_index ≤ m)
          → Within (r >>= λ b'. ok (again c b'))
      go (ok b') below = below b' refl
      go (abort f) below = tt

  request_line-Within :
      (c : HttpContext) (b : Buffer) → b.writer_index ≤ m → Within (request_line_round c b)
  unfolding request_line_round
  request_line-Within c b h = elim (Option-cases (find_cr_lf (peek b))) [
    | inl absent ↦ rw (absent, request_line_round) h
    | inr (n, found) ↦
        rw (found, request_line_round)
          (bind_Within (set_request_line_from c.request (take n (peek b))) _ (λ (parsed, request).
            if_Within parsed _ _
              (bind_Within (require (ltb (n + 2) (readable_bytes b))) _
                (λ u. retrieve-Within b (n + 2) _ h))
              h))
  ]

  header_line-Within :
      (c : HttpContext) (b : Buffer) → b.writer_index ≤ m → Within (header_line_round c b)
  unfolding header_line_round
  header_line-Within c b h = elim (Option-cases (find_cr_lf (peek b))) [
    | inl absent ↦ rw (absent, header_line_round) h
    | inr (n, found) ↦
        rw (found, header_line_round)
          (if_Within (is_empty (take n (peek b))) _ _
            (bind_Within (require (n == 0)) _ (λ u. retrieve-Within b 2 _ h))
            (if_Within (add_header_from c.request (take n (peek b))).0 _ _
              (bind_Within (require (leb (n + 2) (readable_bytes b))) _
                (λ u. retrieve-Within b (n + 2) _ h))
              h))
  ]

  entity_body-Within :
      (c : HttpContext) (b : Buffer) → b.writer_index ≤ m → Within (entity_body_round c b)
  unfolding entity_body_round retrieve_all
  entity_body-Within c b h =
      if_Within (not (is_post c.request.request_line.method)) _ _ h
        (elim (Option-cases (get_header c.request (codes "Content-length"))) [
          | inl absent ↦ rw (absent, entity_body_round) h
          | inr (value, there) ↦
              rw (there, entity_body_round)
                (elim (Option-cases (content_length value)) [
                  | inl bad ↦ rw (bad, entity_body_round) h
                  | inr (n, good) ↦
                      rw (good, entity_body_round) (if_Within (ltb (readable_bytes b) n) _ _ h room)
                ])
        ])

  round-Within :
      (p : ParsingPhase) (c : HttpContext) (b : Buffer) → b.writer_index ≤ m → Within (round p c b)
  unfolding round
  round-Within request_line c b h = request_line-Within c b h
  round-Within header_lines c b h = header_line-Within c b h
  round-Within entity_body c b h = entity_body-Within c b h
  round-Within completed c b h = h

  abbrev Ended : Option (Outcome (Bool × HttpContext × Buffer)) → Type 0
  Ended (some (ok (r, c, b))) = b.writer_index ≤ m
  Ended (some (abort f)) = Unit {0}
  Ended none = Unit {0}

  rounds-Ended :
      (fuel : ℕ) (c : HttpContext) (b : Buffer) → b.writer_index ≤ m → Ended (parse_rounds fuel c b)
  unfolding parse_rounds
  rounds-Ended zero c b h = tt
  rounds-Ended (suc fuel) c b h =
      next (round c.phase c b) (round-Within c.phase c b h) (λ c' b' h'. rounds-Ended fuel c' b' h')
    where
      next :
          (o : Outcome Round)
          → Within o
          → ((c' : HttpContext) (b' : Buffer)
              → b'.writer_index ≤ m
              → Ended (parse_rounds fuel c' b'))
          → Ended (elim o [
            | abort f ↦ some (abort f)
            | ok (returns r c' b') ↦ some (ok (r, c', b'))
            | ok (again c' b') ↦ parse_rounds fuel c' b'
          ])
      next (abort f) w later = tt
      next (ok (returns r c' b')) w later = w
      next (ok (again c' b')) w later = later c' b' w

  -- The index behind the bytes held stays below a bound that leaves room for the front.
  pub parse_request-writer_index :
      (c c' : HttpContext) (b b' : Buffer) (r : Bool)
      → b.writer_index ≤ m
      → parse_request c b ≡ some (ok (r, c', b'))
      → b'.writer_index ≤ m
  unfolding parse_request
  parse_request-writer_index c c' b b' r h e = subst Ended e (rounds-Ended (parse_fuel b) c b h)
