-- ===== src/Http/Status.antt =====
-- `StatusCode` and `MimeType` of wuduo/http/http_response.h and wuduo/http/http_response.cpp. The map of
-- types is an association list; its look-up inserts nothing, since both keys it is asked for are there.
use wuduo.Prelude.{ℕ, none, some, List, [], ◌∷◌}
use wuduo.Buffer.{Bytes}
use wuduo.Http.Text.{codes}
use wuduo.Http.Request.{find_header}

pub data StatusCode : Type 0 where
  ok200 moved_permanently301 bad_request400 not_found404 http_version_not_supported505 : StatusCode

unfoldable pub phrase : StatusCode → Bytes
phrase ok200 = codes "OK"
phrase moved_permanently301 = codes "Moved Permanentyly"
phrase bad_request400 = codes "Bad Request"
phrase not_found404 = codes "Not Found"
phrase http_version_not_supported505 = codes "HTTP Version Not Supported"

abbrev pub default_type : Bytes
default_type = codes "text/html;charset=utf-8"

abbrev pub types : List (Bytes × Bytes)
types =
    (codes ".html", default_type)
    ∷ (codes ".avi", codes "video/x-msvideo")
    ∷ (codes ".bmp", codes "image/bmp")
    ∷ (codes ".c", codes "text/plain")
    ∷ (codes ".doc", codes "application/msword")
    ∷ (codes ".gif", codes "image/gif")
    ∷ (codes ".gz", codes "application/x-gzip")
    ∷ (codes ".htm", codes "text/html")
    ∷ (codes ".ico", codes "image/x-icon")
    ∷ (codes ".jpg", codes "image/jpeg")
    ∷ (codes ".png", codes "image/png")
    ∷ (codes ".txt", codes "text/plain")
    ∷ (codes ".mp3", codes "audio/mp3")
    ∷ (codes ".mp4", codes "video/mp4")
    ∷ (codes "default", default_type)
    ∷ []

-- `MimeType::from(suffix)`
unfoldable pub type_from : Bytes → Bytes
type_from suffix = elim (find_header suffix types) [ none ↦ default_type | some t ↦ t ]

unfoldable pub code_of : StatusCode → ℕ
code_of ok200 = 200
code_of moved_permanently301 = 301
code_of bad_request400 = 400
code_of not_found404 = 404
code_of http_version_not_supported505 = 505
