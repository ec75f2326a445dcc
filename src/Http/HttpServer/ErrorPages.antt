-- ===== src/Http/HttpServer/ErrorPages.antt =====
-- `send_error_page` and `handle_error` of wuduo/http/http_server.cpp, which write to the socket
-- themselves. An error code is not below zero.
use wuduo.Prelude.{ℕ, Option, List, [], ◌∷◌, ◌++◌, take, Outcome}
use wuduo.Buffer.{Bytes}
use wuduo.Reactor.Channel.{Kernel}
use wuduo.Tcp.{Connection, taken, force_close}
use wuduo.Tcp.Lifecycle.{Inv, Keeps, force_close-Keeps}
use wuduo.Http.Text.{codes}
use wuduo.Http.Number.{to_decimal}

-- The four parts that are written. The title is in UTF-8.
abbrev pub page_parts : ℕ → Bytes → List Bytes
page_parts error_code short_msg =
    (codes "HTTP/1.1 " ++ (to_decimal error_code ++ (codes " " ++ (short_msg ++ codes "\r\n"))))
    ∷ codes "Content-Type: text/html;charset=utf-8 \r\n\r\n"
    ∷ (codes "<html><title>"
        ++ (229 ∷ 135 ∷ 186 ∷ 233 ∷ 148 ∷ 153 ∷ 228 ∷ 186 ∷ 134 ∷ codes "~</title>"))
    ∷ (codes "<body><h1>ERROR<hr /></h1><p>"
        ++ (to_decimal error_code ++ (codes ", " ++ (short_msg ++ codes "</p></body></html>"))))
    ∷ []

-- What `writev` is given.
abbrev pub gather : List Bytes → Bytes
gather [] = []
gather (part ∷ parts) = part ++ gather parts

module _ {k : Kernel} where
  -- `writev` takes a part of it, or fails, which is only logged.
  unfoldable pub send_error_page : Connection k → ℕ → Bytes → Option ℕ → Connection k
  send_error_page c error_code short_msg answer =
      let page = gather (page_parts error_code short_msg) in
      record c { sent = c.sent ++ take (taken answer page) page }

  unfoldable pub handle_error : Connection k → ℕ → Bytes → Option ℕ → Outcome (Connection k)
  handle_error c error_code short_msg answer =
      force_close (send_error_page c error_code short_msg answer)

  -- An error closes the connection, whatever of its page was written, and keeps its invariant.
  handle_error-Keeps :
      (c : Connection k) (error_code : ℕ) (short_msg : Bytes) (answer : Option ℕ)
      → Inv c
      → Keeps (handle_error c error_code short_msg answer)
  unfolding handle_error send_error_page
  handle_error-Keeps c error_code short_msg answer v =
      force_close-Keeps (send_error_page c error_code short_msg answer)
        (record { in_valid = v.in_valid; out_valid = v.out_valid; in_state = v.in_state })
