-- ===== src/Http/Context/Arrival.antt =====
-- Going on with a request when more of it has arrived.
use wuduo.Prelude.{
  ℕ, zero, suc, ◌<◌, ◌≡◌, refl, sym, ap, ap₂, ◌∙◌, Bool, true, false, inl, inr, Option, none, some,
  [], ◌++◌, length, length-append, arith, Outcome, ok, abort,
}
use wuduo.Buffer.{Bytes, Buffer, peek}
use wuduo.Buffer.Invariant.{IsValid}
use wuduo.Buffer.Contents.{Holds}
use wuduo.Http.Context.{HttpContext, parsing_completed, parse_request}
use wuduo.Http.Context.Text.{TextRound, returns, again, round_text, rounds_text, parse_text}
use wuduo.Http.Context.Refines.{seen, parse_request-seen}
use wuduo.Http.Context.Pieces.{Grows, round-Grows}

abbrev Result : Type 0
Result = Option (Outcome (Bool × HttpContext × Bytes))

-- The context and the bytes left of a call that returned.
abbrev context_after : HttpContext → Result → HttpContext
context_after d (some (ok (r, c, s))) = c
context_after d (some (abort f)) = d
context_after d none = d

abbrev left_after : Result → Bytes
left_after (some (ok (r, c, s))) = s
left_after (some (abort f)) = []
left_after none = []

-- What `rounds_text` makes of a round.
abbrev go_on : (HttpContext → Bytes → Result) → Outcome TextRound → Result
go_on later o = elim o [
  | abort f ↦ some (abort f)
  | ok (returns r c s) ↦ some (ok (r, c, s))
  | ok (again c s) ↦ later c s
]

-- Any fuel above the bytes gives the same.
rounds_text-fuel :
    (f g : ℕ) (c : HttpContext) (s : Bytes)
    → length s < f
    → length s < g
    → rounds_text f c s ≡ rounds_text g c s
unfolding rounds_text
rounds_text-fuel zero g c s h k = absurd (omega arith)
rounds_text-fuel (suc f) zero c s h k = absurd (omega arith)
rounds_text-fuel (suc f) (suc g) c s h k =
    next (round_text c.phase c s) (round_text c.phase c (s ++ [])) (round-Grows c.phase c s [] refl)
      (λ c' s' shorter.
        rounds_text-fuel f g c' s' (omega (arith, shorter, h)) (omega (arith, shorter, k)))
  where
    next :
        (o t : Outcome TextRound)
        → Grows c s [] o t
        → ((c' : HttpContext) (s' : Bytes)
            → length s' < length s
            → rounds_text f c' s' ≡ rounds_text g c' s')
        → go_on (rounds_text f) o ≡ go_on (rounds_text g) o
    next (abort x) t grows later = refl
    next (ok (returns r c' s')) t grows later = refl
    next (ok (again c' s')) t grows later = later c' s' grows.1

rounds_text-arrives :
    (f g : ℕ) (c c₁ : HttpContext) (s ys s₁ : Bytes)
    → length s < f
    → length (s ++ ys) < g
    → rounds_text f c s ≡ some (ok (true, c₁, s₁))
    → parsing_completed c₁ ≡ false
    → rounds_text g c (s ++ ys) ≡ parse_text c₁ (s₁ ++ ys)
unfolding rounds_text
rounds_text-arrives zero g c c₁ s ys s₁ h k run waits = absurd (omega arith)
rounds_text-arrives (suc f) zero c c₁ s ys s₁ h k run waits = absurd (omega arith)
rounds_text-arrives (suc f) (suc g) c c₁ s ys s₁ h k run waits =
    next (round_text c.phase c s) (round_text c.phase c (s ++ ys)) (round-Grows c.phase c s ys refl)
      run
      (unfold parse_text in
        rounds_text-fuel (suc g) (suc (length (s ++ ys))) c (s ++ ys) k (omega arith))
      (λ c' s' shorter later.
        rounds_text-arrives f g c' c₁ s' ys s₁ (omega (arith, shorter, h))
          (omega (arith, shorter, k, length-append s ys, length-append s' ys)) later waits)
  where
    next :
        (o t : Outcome TextRound)
        → Grows c s ys o t
        → go_on (rounds_text f) o ≡ some (ok (true, c₁, s₁))
        → go_on (rounds_text g) t ≡ parse_text c (s ++ ys)
        → ((c' : HttpContext) (s' : Bytes)
            → length s' < length s
            → rounds_text f c' s' ≡ some (ok (true, c₁, s₁))
            → rounds_text g c' (s' ++ ys) ≡ parse_text c₁ (s₁ ++ ys))
        → go_on (rounds_text g) t ≡ parse_text c₁ (s₁ ++ ys)
    next (abort x) t grows e same later = absurd (cc)
    next (ok (returns false c' s')) t grows e same later = absurd (cc)
    next (ok (returns true c' s')) t (inl done) e same later = absurd (cc)
    next (ok (returns true c' s')) t (inr (c_same, s_same)) e same later =
        same
        ∙ ap₂ (λ d u. parse_text d (u ++ ys)) (sym c_same ∙ ap (context_after c) e)
            (sym s_same ∙ ap left_after e)
    next (ok (again c' s')) t grows e same later =
        ap (go_on (rounds_text g)) grows.0 ∙ later c' s' grows.1 e

-- The same on plain bytes.
pub parse_text_arrives :
    (c c₁ : HttpContext) (s ys s₁ : Bytes)
    → parse_text c s ≡ some (ok (true, c₁, s₁))
    → parsing_completed c₁ ≡ false
    → parse_text c₁ (s₁ ++ ys) ≡ parse_text c (s ++ ys)
unfolding parse_text
parse_text_arrives c c₁ s ys s₁ once waits = sym (
    rounds_text-arrives (suc (length s)) (suc (length (s ++ ys))) c c₁ s ys s₁ (omega arith)
      (omega arith) once waits)

-- If a call waits for more of the request, and more arrives behind what it left in the buffer, then
-- the next call ends exactly as one call would have ended on a buffer that had held it all from the
-- start: with the same answer, context and bytes left, or in the same way without an answer. So
-- it makes no difference where the reads cut a request, as long as a call waits there.
pub parse_request_arrives :
    (c c₁ : HttpContext) (b b₁ next all : Buffer) (more : Bytes)
    → IsValid b
    → parse_request c b ≡ some (ok (true, c₁, b₁))
    → parsing_completed c₁ ≡ false
    → Holds next (peek b₁ ++ more)
    → Holds all (peek b ++ more)
    → seen (parse_request c₁ next) ≡ seen (parse_request c all)
parse_request_arrives c c₁ b b₁ next all more v run waits held whole =
    let once : parse_text c (peek b) ≡ some (ok (true, c₁, peek b₁)) =
      sym (parse_request-seen c b v) ∙ ap seen run in
    parse_request-seen c₁ next held.0
    ∙ ap (parse_text c₁) held.1
    ∙ parse_text_arrives c c₁ (peek b) more (peek b₁) once waits
    ∙ ap (parse_text c) (sym whole.1)
    ∙ sym (parse_request-seen c all whole.0)
