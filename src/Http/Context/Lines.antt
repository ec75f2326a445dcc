-- ===== src/Http/Context/Lines.antt =====
-- One round of `parse_request` on a whole line.
use wuduo.Prelude.{
  suc, ◌+◌, ◌<◌, ◌≡◌, ◌≢◌, refl, sym, ap, ◌∙◌, true, false, some, [], ◌∷◌, ◌++◌, length, take, drop,
  arith, ok, abort, assertion, length-append, take_append, le→leb, lt→ltb, le→ltb,
}
use wuduo.Buffer.{Bytes, Buffer, peek, readable_bytes, retrieve}
use wuduo.Buffer.Invariant.{IsValid, length-peek}
use wuduo.Buffer.Contents.{Holds, retrieve_total}
use wuduo.Http.Text.{carriage_return, line_feed, find_cr_lf}
use wuduo.Http.Text.Find.{Lacks, Lacks-append, find_cr_lf_append}
use wuduo.Http.Request.{
  Version, http10, http11, RequestLine, HttpRequest, set_request_line_from, add_header_from,
  to_string, method_text, version_text,
}
use wuduo.Http.Request.Line.{IsParsed, from_line_iff, method_text-Lacks}
use wuduo.Http.Request.Words.{before_cr_none}
use wuduo.Http.Context.{
  header_lines, entity_body, HttpContext, again, request_line_round, header_line_round, is_empty,
}

-- A line, its end, and what follows.
abbrev pub with_end : Bytes → Bytes → Bytes
with_end line more = line ++ (carriage_return ∷ line_feed ∷ more)

pub length-with_end :
    (line more : Bytes) → length (with_end line more) ≡ length line + 2 + length more
length-with_end line more = omega (arith, length-append line (carriage_return ∷ line_feed ∷ more))

drop-with_end : (line more : Bytes) → drop (length line + 2) (with_end line more) ≡ more
drop-with_end [] more = refl
drop-with_end (x ∷ line) more =
    let e : length (x ∷ line) + 2 ≡ suc (length line + 2) = omega arith in
    rw e (drop-with_end line more)

retrieve_line :
    (b : Buffer) (line more : Bytes)
    → IsValid b
    → peek b ≡ with_end line more
    → (b' : Buffer) × (retrieve b (length line + 2) ≡ ok b') × Holds b' more
retrieve_line b line more v e =
    let (b', done, held) =
      retrieve_total b (length line + 2) v
        (omega (arith, ap length e, length-with_end line more)) in
    (b', done, (held.0, held.1 ∙ ap (drop (length line + 2)) e ∙ drop-with_end line more))

version_text-Lacks : (v : Version) → Lacks carriage_return (version_text v)
version_text-Lacks http10 = ground arith
version_text-Lacks http11 = ground arith
version_text-Lacks Version.unknown = ground arith

pub to_string-Lacks :
    (r : RequestLine) → Lacks carriage_return r.url → Lacks carriage_return (to_string r)
unfolding to_string
to_string-Lacks r h =
    Lacks-append carriage_return (method_text r.method) _ (method_text-Lacks r.method).1
      ((λ e. cc), Lacks-append carriage_return r.url _ h ((λ e. cc), version_text-Lacks r.version))

set_request_line_from_text :
    (q : HttpRequest) (r : RequestLine)
    → IsParsed r
    → set_request_line_from q (to_string r) ≡ ok (true, record q { request_line = r })
unfolding set_request_line_from
set_request_line_from_text q r h = rw (
    (from_line_iff (to_string r) r).1
      (h, sym (before_cr_none (to_string r) (to_string-Lacks r h.one_line))))

is_empty-ne : (xs : Bytes) → xs ≢ [] → is_empty xs ≡ false
is_empty-ne [] ne = absurd (ne refl)
is_empty-ne (x ∷ xs) ne = refl

length-ne-nil : (xs : Bytes) → xs ≢ [] → 0 < length xs
length-ne-nil [] ne = absurd (ne refl)
length-ne-nil (x ∷ xs) ne = omega arith

-- A buffer that starts with a whole line.
module _ (b : Buffer) (line more : Bytes) (v : IsValid b) (free : Lacks carriage_return line)
    (e : peek b ≡ with_end line more) where
  found : find_cr_lf (peek b) ≡ some (length line)
  found = ap find_cr_lf e ∙ find_cr_lf_append line more free

  taken : take (length line) (peek b) ≡ line
  taken =
      ap (take (length line)) e
      ∙ take_append (length line) line (carriage_return ∷ line_feed ∷ more) refl

  readable : readable_bytes b ≡ length line + 2 + length more
  readable = sym (length-peek v) ∙ ap length e ∙ length-with_end line more

  pub header_line_goes_on :
      (c : HttpContext) (r : HttpRequest)
      → line ≢ []
      → add_header_from c.request line ≡ (true, r)
      → (b' : Buffer) × (header_line_round c b ≡ ok (again (record c { request = r }) b'))
        × Holds b' more
  unfolding header_line_round
  header_line_goes_on c r ne added =
      let (b', done, held) = retrieve_line b line more v e in
      (
        b',
        rw (found, header_line_round)
            (rw (
              taken,
              is_empty-ne line ne,
              added,
              le→leb (length line + 2) (readable_bytes b) (omega (arith, readable)),
              done,
            )),
        held,
      )

module _ (c : HttpContext) (b : Buffer) (r : RequestLine) (more : Bytes) (v : IsValid b)
    (h : IsParsed r) (e : peek b ≡ with_end (to_string r) more) where
  pub request_line_goes_on :
      more ≢ []
      → (b' : Buffer) × (request_line_round c b
          ≡ ok (
              again
                (record { phase = header_lines; request = record c.request { request_line = r } })
                b'))
        × Holds b' more
  unfolding request_line_round
  request_line_goes_on ne =
      let free = to_string-Lacks r h.one_line in
      let size = readable b (to_string r) more v free e in
      let (b', done, held) = retrieve_line b (to_string r) more v e in
      (
        b',
        rw (found b (to_string r) more v free e, request_line_round)
            (rw (
              taken b (to_string r) more v free e,
              set_request_line_from_text c.request r h,
              lt→ltb (length (to_string r) + 2) (readable_bytes b)
                  (omega (arith, size, length-ne-nil more ne)),
              done,
            )),
        held,
      )

  -- With nothing behind the request line the assertion of the round fails.
  pub request_line_aborts : more ≡ [] → request_line_round c b ≡ abort assertion
  unfolding request_line_round
  request_line_aborts none_left =
      let free = to_string-Lacks r h.one_line in
      let size = readable b (to_string r) more v free e in
      rw (found b (to_string r) more v free e, request_line_round)
        (rw (
          taken b (to_string r) more v free e,
          set_request_line_from_text c.request r h,
          le→ltb (length (to_string r) + 2) (readable_bytes b)
              (omega (arith, size, ap length none_left)),
        ))

pub blank_line_goes_on :
    (c : HttpContext) (b : Buffer) (more : Bytes)
    → IsValid b
    → peek b ≡ with_end [] more
    → (b' : Buffer) × (header_line_round c b ≡ ok (again (record c { phase = entity_body }) b'))
      × Holds b' more
unfolding header_line_round
blank_line_goes_on c b more v e =
    let (b', done, held) = retrieve_line b [] more v e in
    (b', rw (found b [] more v tt e, header_line_round) (rw done), held)
