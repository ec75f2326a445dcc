-- ===== src/Http/Response/ErrorPage.antt =====
-- The page that a response answers an error with.
use wuduo.Prelude.{
  ℕ, ◌+◌, ◌^◌, ◌≤◌, ◌≡◌, refl, ap, ◌∙◌, List, ◌++◌, length, length-append, arith, ok,
}
use wuduo.Buffer
use wuduo.Buffer.{Bytes, Buffer, peek, retrieve_all, initial_size}
use wuduo.Buffer.Invariant.{IsValid}
use wuduo.Buffer.Edits.{retrieve_all-Parts, create-Parts}
use wuduo.Buffer.Contents.{Holds, Parts-Holds}
use wuduo.Http.Text.{codes}
use wuduo.Http.Number.{digits}
use wuduo.Http.Response.{
  HttpResponse, set_content_type, set_status_code, add_header, assign, error_page,
  error_message_with, status_text, length_text, cr_lf,
}
use wuduo.Http.Status.{
  StatusCode, ok200, moved_permanently301, bad_request400, not_found404,
  http_version_not_supported505, phrase, code_of, default_type,
}
use wuduo.Http.Response.Writing.{append_all-Extends, header_text, join}
use wuduo.Http.Response.Printing.{length-length_text, text_of, append_to-Extends, decimal-le}

page-le : (code : StatusCode) → length (join (error_page code)) ≤ 200
unfolding phrase digits code_of
page-le ok200 = omega arith
page-le moved_permanently301 = omega arith
page-le bad_request400 = omega arith
page-le not_found404 = omega arith
page-le http_version_not_supported505 = omega arith

pub head-le : (code : StatusCode) → length (status_text code) + length (phrase code) ≤ 100
unfolding phrase digits code_of
head-le ok200 = omega arith
head-le moved_permanently301 = omega arith
head-le bad_request400 = omega arith
head-le not_found404 = omega arith
head-le http_version_not_supported505 = omega arith

pub length_of_parts :
    (a b c d e f g : Bytes)
    → length ((a ++ (b ++ (c ++ (d ++ (e ++ f))))) ++ g)
      ≡ length a + length b + length c + length d + length e + length f + length g
length_of_parts a b c d e f g = omega (arith, length-append {0})

-- The response of an error, with the page as its body.
abbrev pub IsError : StatusCode → HttpResponse → HttpResponse → Type 0
IsError code r r' =
    (r'.status_code ≡ code)
    × (r'.phrase ≡ phrase code)
    × (r'.headers ≡ assign (codes "Content-Type") default_type r.headers)
    × (r'.close_connection ≡ r.close_connection)
    × Holds r'.entity_body (join (error_page code))

module _ (arrange : List (Bytes × Bytes) → List (Bytes × Bytes)) where
  text-le :
      (code : StatusCode) (r r' : HttpResponse)
      → IsError code r r'
      → length (text_of arrange r') ≤ 700 + length (header_text (arrange r'.headers))
  text-le code r r' e =
      let n : ℕ = length (peek r'.entity_body) in
      omega (
        arith,
        ap length e.4.1,
        page-le code,
        head-le code,
        ap (λ c. length (status_text c)) e.0,
        ap length e.1,
        decimal-le 2 n (omega (arith, ap length e.4.1, page-le code)),
        length_of_parts (status_text r'.status_code) r'.phrase cr_lf (length_text n)
            (header_text (arrange r'.headers)) cr_lf (peek r'.entity_body),
        length-length_text n,
      )

  -- `error_message_with` returns for any response, whatever was in its body: the response after it has
  -- the status code with its phrase, the default content type and the page of the error as its body,
  -- and the buffer that it returns holds exactly the text of that response. It is enough that the
  -- headers take less than 2^62 bytes.
  pub error_message_with-IsError :
      (r : HttpResponse) (code : StatusCode)
      → IsValid r.entity_body
      → length (header_text (arrange (assign (codes "Content-Type") default_type r.headers)))
        ≤ 2 ^ 62
      → (r' : HttpResponse) × (buffer : Buffer) × (error_message_with arrange r code
          ≡ ok (r', buffer))
        × IsError code r r'
        × Holds buffer (text_of arrange r')
  unfolding error_message_with set_status_code set_content_type add_header retrieve_all
      Buffer.create
  error_message_with-IsError r code v small =
      let emptied = Parts-Holds (retrieve_all-Parts v) in
      let (body, done, held, w) =
        append_all-Extends (error_page code) (retrieve_all r.entity_body)
          (emptied.0, omega (arith, page-le code)) in
      let r' : HttpResponse = record (set_content_type (set_status_code r code) default_type) {
        entity_body = body;
      } in
      let is : IsError code r r' = (
        refl,
        refl,
        refl,
        refl,
        (held.0, held.1 ∙ ap (λ xs. xs ++ join (error_page code)) emptied.1),
      ) in
      let fresh = Parts-Holds (create-Parts initial_size (omega arith)) in
      let (buffer, written, all, w') =
        append_to-Extends arrange r' (Buffer.create initial_size) held.0
          (omega (arith, ap length is.4.1, page-le code))
          (fresh.0, omega (arith, text-le code r r' is, small)) in
      (
        r',
        buffer,
        rw (done, written) refl,
        is,
        (all.0, all.1 ∙ ap (λ xs. xs ++ text_of arrange r') fresh.1),
      )
