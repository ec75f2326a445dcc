-- ===== src/Http/Context/HeaderLines.antt =====
-- The header lines of a request that is there as a whole.
use wuduo.Prelude.{
  ℕ, suc, ◌+◌, ◌≡◌, ◌≢◌, refl, ap, ◌∙◌, subst, Bool, true, inl, inr, Option, none, some, List, [],
  ◌∷◌, if◌then◌else◌, length, arith, ok, Bool-cases,
}
use wuduo.Buffer.{Bytes, Buffer, peek}
use wuduo.Buffer.Invariant.{IsValid}
use wuduo.Buffer.Contents.{Holds}
use wuduo.Http.Text.{space, carriage_return, equal}
use wuduo.Http.Text.Find.{Lacks, Lacks-append, equal_iff, equal_refl}
use wuduo.Http.Request.{RequestLine, HttpRequest, add_header_from, get_header, to_string}
use wuduo.Http.Request.Words.{append-ne-nil}
use wuduo.Http.Request.Headers.{header_line, Adds, add_header_from-Adds}
use wuduo.Http.Context.{header_lines, entity_body, HttpContext, returns, again, round, parse_rounds}
use wuduo.Http.Context.Lines.{with_end, blank_line_goes_on, header_line_goes_on}

-- A header of a request: a key, and a value given by its first byte and the others.
pub record Header : Type 0 where
  pub key : Bytes
  pub first : ℕ
  pub others : Bytes

abbrev pub value_of : Header → Bytes
value_of h = h.first ∷ h.others

pub record IsHeader (h : Header) : Type 0 where
  pub no_colon : Lacks b':' h.key
  pub key_line : Lacks carriage_return h.key
  pub no_space : h.first ≢ space
  pub value_line : Lacks carriage_return (value_of h)

abbrev pub text_of : Header → Bytes
text_of h = header_line h.key 1 (value_of h)

-- The value under a key, of the first header that has it.
abbrev pub find : Bytes → List Header → Option Bytes
find j [] = none
find j (h ∷ hs) = if equal h.key j then some (value_of h) else find j hs

-- Well-formed headers, no two with one key.
abbrev pub AreHeaders : List Header → Type 0
AreHeaders [] = Unit {0}
AreHeaders (h ∷ hs) = IsHeader h × (find h.key hs ≡ none) × AreHeaders hs

-- The header lines, the blank line, and what follows.
abbrev pub head_text : List Header → Bytes → Bytes
head_text [] rest = with_end [] rest
head_text (h ∷ hs) rest = with_end (text_of h) (head_text hs rest)

abbrev pub request_text : RequestLine → List Header → Bytes → Bytes
request_text r hs rest = with_end (to_string r) (head_text hs rest)

abbrev pub or_else : Option Bytes → Option Bytes → Option Bytes
or_else (some v) o = some v
or_else none o = o

-- The headers of `q` behind those found in `hs`.
abbrev pub AddsAll : List Header → HttpRequest → HttpRequest → Type 0
AddsAll hs q q' =
    (q'.request_line ≡ q.request_line)
    × ((j : Bytes) → get_header q' j ≡ or_else (find j hs) (get_header q j))

text_of-Lacks : (h : Header) → IsHeader h → Lacks carriage_return (text_of h)
text_of-Lacks h w =
    Lacks-append carriage_return h.key _ w.key_line ((λ e. cc), ((λ e. cc), w.value_line))

-- A new header is added by its line.
add_header :
    (q : HttpRequest) (h : Header)
    → IsHeader h
    → get_header q h.key ≡ none
    → (q' : HttpRequest) × (add_header_from q (text_of h) ≡ (true, q'))
      × (q'.request_line ≡ q.request_line)
      × ((j : Bytes)
          → get_header q' j ≡ (if equal h.key j then some (value_of h) else get_header q j))
add_header q h w new =
    let a =
      subst (λ o. Adds q h.key (value_of h) o (add_header_from q (text_of h))) new
        (add_header_from-Adds q h.key 1 h.first h.others w.no_colon w.no_space) in
    (
      (add_header_from q (text_of h)).1,
      ap (λ (x : Bool). (x, (add_header_from q (text_of h)).1)) a.0,
      a.1,
      a.2,
    )

pub round_again :
    (fuel : ℕ) (c c' : HttpContext) (b b' : Buffer)
    → round c.phase c b ≡ ok (again c' b')
    → parse_rounds (suc fuel) c b ≡ parse_rounds fuel c' b'
unfolding parse_rounds
round_again fuel c c' b b' e = rw (e, parse_rounds)

pub round_returns :
    (fuel : ℕ) (c c' : HttpContext) (b b' : Buffer) (r : Bool)
    → round c.phase c b ≡ ok (returns r c' b')
    → parse_rounds (suc fuel) c b ≡ some (ok (r, c', b'))
unfolding parse_rounds
round_returns fuel c c' b b' r e = rw (e, parse_rounds)

abbrev pub in_headers : HttpRequest → HttpContext
in_headers q = record { phase = header_lines; request = q }

-- The keys of `hs` are new.
abbrev pub AreNew : List Header → HttpRequest → Type 0
AreNew hs q = (j v : Bytes) → find j hs ≡ some v → get_header q j ≡ none

-- One header is added: the others are still new, and the two look-ups add up.
module _ (h : Header) (hs : List Header) (q q' : HttpRequest) (distinct : find h.key hs ≡ none)
    (look : (j : Bytes)
      → get_header q' j ≡ (if equal h.key j then some (value_of h) else get_header q j)) where
  distinct_at : (j : Bytes) → equal h.key j ≡ true → find j hs ≡ none
  distinct_at j e = subst (λ k. find k hs ≡ none) ((equal_iff h.key j).0 e) distinct

  AreNew-cons : AreNew (h ∷ hs) q → AreNew hs q'
  AreNew-cons new j v e = elim (Bool-cases (equal h.key j)) [
    | inl same ↦ absurd (cc (distinct_at j same))
    | inr other ↦ look j ∙ rw other (new j v (rw other e))
  ]

  AddsAll-cons :
      (q'' : HttpRequest) (j : Bytes)
      → get_header q'' j ≡ or_else (find j hs) (get_header q' j)
      → get_header q'' j ≡ or_else (find j (h ∷ hs)) (get_header q j)
  AddsAll-cons q'' j e = elim (Bool-cases (equal h.key j)) [
    | inl same ↦ rw same (e ∙ rw (distinct_at j same) (look j ∙ rw same))
    | inr other ↦ rw other (e ∙ ap (or_else (find j hs)) (look j ∙ rw other))
  ]

-- The loop over the header lines.
pub headers_read :
    (hs : List Header) (fuel : ℕ) (q : HttpRequest) (b : Buffer) (rest : Bytes)
    → IsValid b
    → AreHeaders hs
    → AreNew hs q
    → peek b ≡ head_text hs rest
    → (q' : HttpRequest) × (b' : Buffer) × (parse_rounds (length hs + suc fuel) (in_headers q) b
        ≡ parse_rounds fuel (record { phase = entity_body; request = q' }) b')
      × Holds b' rest
      × AddsAll hs q q'
unfolding round
headers_read [] fuel q b rest v w new e =
    let (b', done, held) = blank_line_goes_on (in_headers q) b rest v e in
    let k : 0 + suc fuel ≡ suc fuel = omega arith in
    (
      q,
      b',
      ap (λ n. parse_rounds n (in_headers q) b) k
          ∙ round_again fuel (in_headers q) (record { phase = entity_body; request = q }) b b' done,
      held,
      (refl, λ j. refl),
    )
headers_read (h ∷ hs) fuel q b rest v w new e =
    let (q', added, same, look) =
      add_header q h w.0 (new h.key (value_of h) (rw (equal_refl h.key))) in
    let (b', done, held) =
      header_line_goes_on b (text_of h) (head_text hs rest) v (text_of-Lacks h w.0) e (in_headers q)
        q' (append-ne-nil h.key b':' (space ∷ value_of h)) added in
    let (q'', b'', run, held', all) =
      headers_read hs fuel q' b' rest held.0 w.2 (AreNew-cons h hs q q' w.1 look new) held.1 in
    let k : suc (length hs) + suc fuel ≡ suc (length hs + suc fuel) = omega arith in
    (
      q'',
      b'',
      ap (λ n. parse_rounds n (in_headers q) b) k
          ∙ round_again (length hs + suc fuel) (in_headers q) (in_headers q') b b' done
          ∙ run,
      held',
      (all.0 ∙ same, λ j. AddsAll-cons h hs q q' w.1 look q'' j (all.1 j)),
    )
