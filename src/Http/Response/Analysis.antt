-- ===== src/Http/Response/Analysis.antt =====
-- What `HttpResponse::analyse` answers a request with, for a file that is read to its end.
use wuduo.Prelude.{
  ℕ, ◌^◌, ◌≤◌, ◌<◌, ◌≡◌, refl, ap, ◌∙◌, Bool, none, some, List, [], ◌∷◌, ◌++◌, map, length, arith,
  ok, if◌then◌else◌,
}
use wuduo.Buffer
use wuduo.Buffer.{Bytes, Buffer, peek, initial_size, received}
use wuduo.Buffer.Edits.{create-Parts}
use wuduo.Buffer.Contents.{Holds, Parts-Holds}
use wuduo.Http.Text.{codes}
use wuduo.Http.Request.{HttpRequest, is_close_connection}
use wuduo.Http.Response.{
  status_text, length_text, cr_lf, HttpResponse, set_content_type, set_close_connection, add_header,
  assign, type_of_path, analyse, opened,
}
use wuduo.Http.Response.Writing.{HasRoom, header_text, join}
use wuduo.Http.Response.Printing.{text_of, append_to-Extends, decimal-le, length-length_text}
use wuduo.Http.Response.ErrorPage.{length_of_parts, head-le}
use wuduo.Http.Response.File.{Deliver, read_file-whole, read_file-goes_on}

-- The headers that `analyse` leaves, from those of the response.
abbrev pub headers_with : Bytes → Bool → List (Bytes × Bytes) → List (Bytes × Bytes)
headers_with path close headers =
    assign (codes "Content-Type") (type_of_path path)
      (assign (codes "Connection") (if close then codes "close" else codes "keep-alive") headers)

abbrev pub headers_for : HttpRequest → List (Bytes × Bytes) → List (Bytes × Bytes)
headers_for request = headers_with request.request_line.path (is_close_connection request)

-- The response of a file with these contents.
abbrev pub IsFile : HttpRequest → Bytes → HttpResponse → HttpResponse → Type 0
IsFile request contents r r' =
    (r'.status_code ≡ r.status_code)
    × (r'.phrase ≡ r.phrase)
    × (r'.headers ≡ headers_for request r.headers)
    × (r'.close_connection ≡ is_close_connection request)
    × Holds r'.entity_body contents

module _ (arrange : List (Bytes × Bytes) → List (Bytes × Bytes)) (r : HttpResponse)
    (request : HttpRequest) where
  -- If the answers of `readv` make up the file, whose size `fstat` told, however they cut it, then
  -- `analyse` on a response with an empty body returns: the response after it keeps its status, has
  -- the content type of the path, the connection header of the request and the file's contents as its
  -- body, and the buffer that it returns holds exactly the text of that response. It is enough that the
  -- file has less than 10^13 bytes, the phrase at most 100 and the headers at most 2^62.
  pub analyse-IsFile :
      (first : Bytes) (chunks : List Bytes)
      → Holds r.entity_body []
      → HasRoom r.entity_body (length (first ++ join chunks))
      → Deliver r.entity_body (first ∷ chunks)
      → length (first ++ join chunks) < 10 ^ 13
      → length r.phrase ≤ 100
      → length (header_text (arrange (headers_for request r.headers))) ≤ 2 ^ 62
      → (r' : HttpResponse) × (buffer : Buffer) × (analyse arrange r request
            (opened (length (first ++ join chunks)) (map received (first ∷ chunks)))
          ≡ some (ok (r', buffer)))
        × IsFile request (first ++ join chunks) r r'
        × Holds buffer (text_of arrange r')
  unfolding analyse set_content_type set_close_connection add_header
  analyse-IsFile first chunks held room d small short few =
      let contents : Bytes = first ++ join chunks in
      let (body, done, is) =
        read_file-whole chunks first r.entity_body contents (ap (λ xs. xs ++ contents) held.1) room
          d in
      let r' : HttpResponse = record r {
        headers = headers_for request r.headers;
        close_connection = is_close_connection request;
        entity_body = body;
      } in
      let fresh = Parts-Holds (create-Parts initial_size (omega arith)) in
      let size : length (peek body) ≡ length contents = ap length is.1 in
      let (buffer, written, all, w) =
        append_to-Extends arrange r' (Buffer.create initial_size) is.0 (omega (arith, size, small))
          (
            fresh.0,
            unfold Buffer.create in
                omega (
                  arith,
                  length_of_parts (status_text r.status_code) r.phrase cr_lf
                      (length_text (length (peek body)))
                      (header_text (arrange (headers_for request r.headers))) cr_lf (peek body),
                  length-length_text (length (peek body)),
                  decimal-le 12 (length (peek body)) (omega (arith, size, small)),
                  head-le r.status_code,
                  short,
                  few,
                  size,
                  small,
                ),
          ) in
      (
        r',
        buffer,
        rw (done, analyse) (rw written refl),
        (refl, refl, refl, refl, is),
        (all.0, all.1 ∙ ap (λ xs. xs ++ text_of arrange r') fresh.1),
      )

  -- If the file turns out shorter than the size that `fstat` told, so that `readv` delivers fewer
  -- bytes and then 0 forever, `analyse` on a response with an empty body never returns: however many
  -- answers it is given, it goes on.
  pub analyse_of_truncated :
      (chunks : List Bytes) (st_size : ℕ)
      → Holds r.entity_body []
      → HasRoom r.entity_body (length (join chunks))
      → Deliver r.entity_body chunks
      → length (join chunks) < st_size
      → analyse arrange r request (opened st_size (map received chunks)) ≡ none
  unfolding analyse set_content_type set_close_connection add_header
  analyse_of_truncated chunks st_size held room d h =
      rw
        (
          read_file-goes_on chunks r.entity_body st_size room d
              (omega (arith, ap length held.1, h)),
          analyse,
        )
        refl
