-- ===== src/Http/Response/Printing.antt =====
-- What a response writes: its text, the array that numbers are printed to, and the page of an error.
use wuduo.Prelude.{
  ℕ, suc, ◌+◌, ◌^◌, ◌≤◌, ◌<◌, ◌≡◌, refl, sym, ap, ◌∙◌, false, inl, inr, List, [], ◌∷◌, ◌++◌, length,
  length-append, take, if◌then◌else◌, ltb, ◌==◌, arith, Bool-cases, ltb→lt, ltb→le, lt→ltb, le→ltb,
  ==_iff, ok, abort, out_of_bounds,
}
use wuduo.Buffer.{Bytes, Buffer, peek, readable_bytes, append}
use wuduo.Buffer.Invariant.{IsValid, length-peek}
use wuduo.Http.Number.{digits, to_decimal}
use wuduo.Http.Number.Decimal.{power10, length-digits-le, lt-length-digits}
use wuduo.Http.Response.{
  HttpResponse, cr_lf, printed, append_headers, status_text, length_text,
  append_status_line_and_headers_to, append_to,
}
use wuduo.Http.Status.{
  StatusCode, ok200, moved_permanently301, bad_request400, not_found404,
  http_version_not_supported505, code_of,
}
use wuduo.Http.Response.Writing.{
  HasRoom, Extends, append_then, >>=-Extends, append-Extends, append_headers-Extends, header_text,
}

status_text-printed : (code : StatusCode) → printed (status_text code) ≡ ok (status_text code)
unfolding printed digits code_of
status_text-printed ok200 = refl
status_text-printed moved_permanently301 = refl
status_text-printed bad_request400 = refl
status_text-printed not_found404 = refl
status_text-printed http_version_not_supported505 = refl

pub length-length_text : (n : ℕ) → length (length_text n) ≡ 18 + length (to_decimal n)
length-length_text n = omega (arith, length-append (to_decimal n) cr_lf)

pub decimal-le : (k n : ℕ) → n < power10 (suc k) → length (to_decimal n) ≤ suc k
decimal-le k n h = length-digits-le k (suc n) n h

lt-decimal : (k n : ℕ) → power10 k ≤ n → k < length (to_decimal n)
lt-decimal k n h = lt-length-digits k (suc n) n (omega arith) h

-- The view of `buf` that the line of the body's length is appended from, for a body of any size: it is
-- the line for less than 10^13 bytes; from there to 10^14 its last character is replaced by the
-- zero that ends the array; and from 10^14 bytes on it reads past the end of the array.
pub printed-length_text :
    (n : ℕ)
    → printed (length_text n) ≡ (
        if ltb n (10 ^ 13)
        then ok (length_text n)
        else if ltb n (10 ^ 14)
        then ok (take 31 (length_text n) ++ 0 ∷ [])
        else abort out_of_bounds)
unfolding printed
printed-length_text n = elim (Bool-cases (ltb n (10 ^ 13))) [
  | inl short ↦
      let few = decimal-le 12 n (ltb→lt n (10 ^ 13) short) in
      rw (short, lt→ltb (length (length_text n)) 32 (omega (arith, few, length-length_text n))) refl
  | inr long ↦
      let many = lt-decimal 13 n (ltb→le n (10 ^ 13) long) in
      let over : ltb (length (length_text n)) 32 ≡ false =
        le→ltb (length (length_text n)) 32 (omega (arith, many, length-length_text n)) in
      elim (Bool-cases (ltb n (10 ^ 14))) [
        | inl one ↦
            let few = decimal-le 13 n (ltb→lt n (10 ^ 14) one) in
            rw
              (
                long,
                one,
                over,
                (==_iff (length (length_text n)) 32).1
                    (omega (arith, few, many, length-length_text n)),
              )
              refl
        | inr more ↦
            let lots = lt-decimal 14 n (ltb→le n (10 ^ 14) more) in
            let differs : (length (length_text n) == 32) ≡ false =
              ground (arith, lots, length-length_text n) in
            rw (long, more, over, differs) refl
      ]
]

module _ (arrange : List (Bytes × Bytes) → List (Bytes × Bytes)) where
  -- The status line, the length of the body, the headers and the blank line.
  abbrev pub head_of : HttpResponse → Bytes
  head_of r =
      status_text r.status_code
      ++ (r.phrase
          ++ (cr_lf
              ++ (length_text (length (peek r.entity_body))
                  ++ (header_text (arrange r.headers) ++ cr_lf))))

  abbrev pub text_of : HttpResponse → Bytes
  text_of r = head_of r ++ peek r.entity_body

  head-Extends :
      (r : HttpResponse) (output : Buffer)
      → IsValid r.entity_body
      → length (peek r.entity_body) < 10 ^ 13
      → HasRoom output (length (head_of r))
      → Extends output (head_of r) (append_status_line_and_headers_to arrange r output)
  unfolding append_status_line_and_headers_to
  head-Extends r output v small room =
      let size : printed (length_text (readable_bytes r.entity_body))
          ≡ ok (length_text (length (peek r.entity_body))) =
        ap (λ n. printed (length_text n)) (sym (length-peek v))
        ∙ printed-length_text (length (peek r.entity_body))
        ∙ rw (lt→ltb (length (peek r.entity_body)) (10 ^ 13) small) refl in
      rw (status_text-printed r.status_code, size)
        (append_then output (status_text r.status_code) _ _ room λ o₁ h₁.
          append_then o₁ r.phrase _ _ h₁ λ o₂ h₂. append_then o₂ cr_lf _ _ h₂ λ o₃ h₃.
            append_then o₃ (length_text (length (peek r.entity_body))) _ _ h₃ λ o₄ h₄.
              >>=-Extends o₄ (header_text (arrange r.headers)) cr_lf
                (append_headers o₄ (arrange r.headers)) (λ o₅. append o₅ cr_lf) h₄
                (append_headers-Extends (arrange r.headers) o₄ (
                  h₄.0,
                  omega (arith, h₄.1, length-append (header_text (arrange r.headers)) cr_lf),
                ))
                (λ o₅ h₅. append-Extends o₅ cr_lf h₅))

  -- `append_to` puts exactly the response's text behind what the output holds: the status line, the
  -- length of the body in decimal, the headers, a blank line and the body. It is enough that the body
  -- has less than 10^13 bytes and that the output's string can grow by the text.
  pub append_to-Extends :
      (r : HttpResponse) (output : Buffer)
      → IsValid r.entity_body
      → length (peek r.entity_body) < 10 ^ 13
      → HasRoom output (length (text_of r))
      → Extends output (text_of r) (append_to arrange r output)
  unfolding append_to
  append_to-Extends r output v small room =
      >>=-Extends output (head_of r) (peek r.entity_body)
        (append_status_line_and_headers_to arrange r output) (λ o. append o (peek r.entity_body))
        room
        (head-Extends r output v small
          (room.0, omega (arith, room.1, length-append (head_of r) (peek r.entity_body))))
        (λ o h. append-Extends o (peek r.entity_body) h)
