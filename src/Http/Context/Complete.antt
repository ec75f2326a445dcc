-- ===== src/Http/Context/Complete.antt =====
-- What `parse_request` makes of a request that is there as a whole, and of a lone request line.
use wuduo.Prelude.{
  ℕ, suc, ◌+◌, ◌-◌, ◌≤◌, ◌≡◌, ◌≢◌, refl, sym, ap, ◌∙◌, true, false, Option, none, some, List, [],
  ◌∷◌, length, arith, ok, abort, assertion,
}
use wuduo.Buffer.{Bytes, Buffer, peek}
use wuduo.Buffer.Invariant.{IsValid}
use wuduo.Buffer.Contents.{Holds}
use wuduo.Http.Text.{codes}
use wuduo.Http.Request.{
  Method, get, head, post, RequestLine, HttpRequest, empty_request, get_header, find_header,
  to_string,
}
use wuduo.Http.Request.Line.{IsParsed}
use wuduo.Http.Context.{
  request_line, entity_body, completed, HttpContext, fresh, round, parse_rounds, parse_request,
  is_post, entity_body_round,
}
use wuduo.Http.Context.Lines.{with_end, length-with_end, request_line_goes_on, request_line_aborts}
use wuduo.Http.Context.HeaderLines.{
  Header, AreHeaders, find, head_text, text_of, request_text, or_else, round_again, round_returns,
  in_headers, headers_read,
}

-- The bytes are more than the rounds.
rounds-lt : (hs : List Header) (rest : Bytes) → length hs + 2 ≤ length (head_text hs rest)
rounds-lt [] rest = omega arith
rounds-lt (h ∷ hs) rest =
    omega (arith, rounds-lt hs rest, length-with_end (text_of h) (head_text hs rest))

head_text-ne-nil : (hs : List Header) (rest : Bytes) → head_text hs rest ≢ []
head_text-ne-nil hs rest e = omega (arith, rounds-lt hs rest, ap length e)

or_else-none : (o : Option Bytes) → or_else o none ≡ o
or_else-none none = refl
or_else-none (some v) = refl

-- A request with this line and these headers.
abbrev pub Carries : RequestLine → List Header → HttpRequest → Type 0
Carries r hs q = (q.request_line ≡ r) × ((j : Bytes) → get_header q j ≡ find j hs)

not_post : (m : Method) → m ≢ post → is_post m ≡ false
not_post get ne = refl
not_post head ne = refl
not_post post ne = absurd (ne refl)
not_post Method.unknown ne = refl

-- A whole request takes the call to its body.
module _ (r : RequestLine) (hs : List Header) (rest : Bytes) (b : Buffer) (v : IsValid b)
    (parsed : IsParsed r) (wellformed : AreHeaders hs) (e : peek b ≡ request_text r hs rest) where
  reaches_body :
      (q : HttpRequest) × (b' : Buffer) × (fuel : ℕ) × (parse_request fresh b
        ≡ parse_rounds (suc fuel) (record { phase = entity_body; request = q }) b')
      × Holds b' rest
      × Carries r hs q
  unfolding parse_request round get_header find_header
  reaches_body =
      let line : HttpRequest = record empty_request { request_line = r } in
      let (b₁, done, held) =
        request_line_goes_on fresh b r (head_text hs rest) v parsed e (head_text-ne-nil hs rest) in
      let fuel : ℕ = length (peek b) - (length hs + 2) in
      let (q, b₂, run, held', all) =
        headers_read hs (suc fuel) line b₁ rest held.0 wellformed (λ j x k. refl) held.1 in
      let k : length (peek b) ≡ length hs + suc (suc fuel) = omega (
        arith,
        rounds-lt hs rest,
        ap length e,
        length-with_end (to_string r) (head_text hs rest),
      ) in
      (
        q,
        b₂,
        fuel,
        round_again (length (peek b)) fresh (in_headers line) b b₁ done
            ∙ ap (λ n. parse_rounds n (in_headers line) b₁) k
            ∙ run,
        held',
        (all.0, λ j. all.1 j ∙ or_else-none (find j hs)),
      )

  -- A valid buffer that starts with a printed request line that is no POST, well-formed header lines
  -- with distinct keys and a blank line is parsed by one call: it answers `true` with the context
  -- completed, a request that has this line and exactly these headers, and a valid buffer that holds
  -- the bytes behind the blank line.
  pub parse_complete_request :
      r.method ≢ post
      → (q : HttpRequest) × (b' : Buffer) × (parse_request fresh b
          ≡ some (ok (true, record { phase = completed; request = q }, b')))
        × Holds b' rest
        × Carries r hs q
  unfolding round entity_body_round
  parse_complete_request ne =
      let (q, b', fuel, run, held, carries) = reaches_body in
      (
        q,
        b',
        run
            ∙ round_returns fuel (record { phase = entity_body; request = q })
                (record { phase = completed; request = q }) b' b' true
                (rw (
                  not_post q.request_line.method
                    (λ m. ne (sym (ap (λ (l : RequestLine). l.method) carries.0) ∙ m)))),
        held,
        carries,
      )

  -- Under the same conditions a POST whose headers have no key spelled `Content-length`, such as one
  -- with the usual `Content-Length`, is refused: the call answers `false`.
  pub parse_post_refused :
      r.method ≡ post
      → find (codes "Content-length") hs ≡ none
      → (q : HttpRequest) × (b' : Buffer) × (parse_request fresh b
          ≡ some (ok (false, record { phase = entity_body; request = q }, b')))
        × Carries r hs q
  unfolding round entity_body_round
  parse_post_refused is absent =
      let (q, b', fuel, run, held, carries) = reaches_body in
      let method : is_post q.request_line.method ≡ true =
        ap (λ (l : RequestLine). is_post l.method) carries.0 ∙ ap is_post is in
      (
        q,
        b',
        run
            ∙ round_returns fuel (record { phase = entity_body; request = q })
                (record { phase = entity_body; request = q }) b' b' false
                (rw method
                  (rw (carries.1 (codes "Content-length"), absent, entity_body_round) refl)),
        carries,
      )

-- A valid buffer that holds a printed request line with its end, and nothing more, ends the process:
-- the call that waits for the request line fails its assertion.
pub lone_request_line_aborts :
    (c : HttpContext) (r : RequestLine) (b : Buffer)
    → IsValid b
    → IsParsed r
    → c.phase ≡ request_line
    → peek b ≡ with_end (to_string r) []
    → parse_request c b ≡ some (abort assertion)
unfolding parse_request parse_rounds round
lone_request_line_aborts c r b v h p e =
    let stop : round c.phase c b ≡ abort assertion =
      ap (λ x. round x c b) p ∙ request_line_aborts c b r [] v h e refl in
    rw (stop, parse_rounds)
