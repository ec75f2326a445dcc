-- ===== src/Http/Response/File.antt =====
-- The loop of `HttpResponse::analyse` that reads a file.
use wuduo.Prelude.{
  ℕ, ◌+◌, ◌≤◌, ◌<◌, ◌≡◌, refl, sym, ap, ◌∙◌, Bool, true, inl, inr, Option, none, some, List, [],
  ◌∷◌, ◌++◌, map, length, length-append, arith, append_assoc, append-nil, Bool-cases, ltb, ltb→lt,
  ltb→le, lt→ltb, ==_iff, Outcome, ok, abort,
}
use wuduo.Buffer.{Bytes, Buffer, peek, readable_bytes, read_fd, Received, received, Returned, count}
use wuduo.Buffer.Invariant.{IsValid, length-peek}
use wuduo.Buffer.Contents.{Holds}
use wuduo.Buffer.Io.{Delivers, Reads, read_fd-Reads}
use wuduo.Http.Response.{read_file}
use wuduo.Http.Response.Writing.{HasRoom, join}

-- Each answer of `readv` is within the room that it was given.
abbrev pub Deliver : Buffer → List Bytes → Type 0
Deliver b [] = Unit {0}
Deliver b (xs ∷ rest) =
    Delivers b (received xs)
    × ((b' : Buffer) → read_fd b (received xs) ≡ ok (count (length xs), b') → Deliver b' rest)

-- One answer, where there is room.
chunk_held :
    (b : Buffer) (xs : Bytes) (o : Outcome (Returned × Buffer))
    → HasRoom b (length xs)
    → Reads b (received xs) o
    → (b' : Buffer) × (o ≡ ok (count (length xs), b'))
      × Holds b' (peek b ++ xs)
      × (b'.writer_index ≤ b.writer_index + length xs)
chunk_held b xs (ok (r, b')) h d = (b', ap (λ x. ok (x, b')) d.0, d.1, d.2)
chunk_held b xs (abort f) h d = absurd (omega (arith, h.1, d.0))

-- The body's size after the answers.
room_after :
    (b : Buffer) (xs ys : Bytes) (b' : Buffer)
    → IsValid b'
    → HasRoom b (length (xs ++ ys))
    → b'.writer_index ≤ b.writer_index + length xs
    → HasRoom b' (length ys)
room_after b xs ys b' v h w = (v, omega (arith, length-append xs ys, h.1, w))

-- The file was read, and the body holds these bytes.
abbrev pub ReadsWhole : Bytes → Option (Outcome (Bool × Buffer)) → Type 0
ReadsWhole contents o = (body : Buffer) × (o ≡ some (ok (true, body))) × Holds body contents

no_bytes : (xs : Bytes) → length xs ≡ 0 → xs ≡ []
no_bytes [] h = refl
no_bytes (x ∷ xs) h = absurd (omega (arith, h))

-- A round of the loop after which the loop ends, or goes on as given.
round-ReadsWhole :
    (contents first rest : Bytes) (b : Buffer) (later : List Received)
    → peek b ++ (first ++ rest) ≡ contents
    → HasRoom b (length (first ++ rest))
    → Delivers b (received first)
    → ((b' : Buffer)
        → read_fd b (received first) ≡ ok (count (length first), b')
        → Holds b' (peek b ++ first)
        → b'.writer_index ≤ b.writer_index + length first
        → 0 < length rest
        → ReadsWhole contents (read_file (length contents) b' later))
    → ReadsWhole contents (read_file (length contents) b (received first ∷ later))
unfolding read_file
round-ReadsWhole contents first rest b later e room d go_on =
    let parts = length-append first rest in
    let total : length (peek b) + length first + length rest ≡ length contents =
      omega (arith, ap length e, parts, length-append (peek b) (first ++ rest)) in
    let (b', read, held, w) =
      chunk_held b first (read_fd b (received first)) (room.0, omega (arith, room.1, parts))
        (read_fd-Reads b (received first) room.0 d) in
    let size : readable_bytes b' ≡ length (peek b) + length first =
      omega (arith, length-peek held.0, ap length held.1, length-append (peek b) first) in
    rw (read, read_file)
      (elim (Bool-cases (ltb (readable_bytes b') (length contents))) [
        | inl short ↦ rw short (
            go_on b' read held w
              (omega (arith, size, total, ltb→lt (readable_bytes b') (length contents) short)))
        | inr whole ↦
            let none_left : rest ≡ [] =
              no_bytes rest
                (omega (arith, size, total, ltb→le (readable_bytes b') (length contents) whole)) in
            let same : peek b' ≡ contents =
              held.1
              ∙ ap (λ xs. peek b ++ xs)
                  (sym (append-nil first) ∙ ap (λ xs. first ++ xs) (sym none_left))
              ∙ e in
            rw
              (
                whole,
                (==_iff (readable_bytes b') (length contents)).1
                    (omega (arith, size, total, ap length none_left)),
              )
              (b', refl, (held.0, same))
      ])

pub read_file-whole :
    (chunks : List Bytes) (first : Bytes) (b : Buffer) (contents : Bytes)
    → peek b ++ (first ++ join chunks) ≡ contents
    → HasRoom b (length (first ++ join chunks))
    → Deliver b (first ∷ chunks)
    → ReadsWhole contents (read_file (length contents) b (map received (first ∷ chunks)))
read_file-whole [] first b contents e room d =
    round-ReadsWhole contents first [] b [] e room d.0
      (λ b' read held w more. absurd (omega (arith, more)))
read_file-whole (second ∷ chunks) first b contents e room d =
    round-ReadsWhole contents first (second ++ join chunks) b (map received (second ∷ chunks)) e
      room d.0
      (λ b' read held w more.
        read_file-whole chunks second b' contents
          (ap (λ xs. xs ++ (second ++ join chunks)) held.1
            ∙ append_assoc (peek b) first (second ++ join chunks)
            ∙ e)
          (room_after b first (second ++ join chunks) b' held.0 room w) (d.1 b' read))

-- A file that has become shorter: `readv` answers 0 from some point on, or the bytes run out.
pub read_file-goes_on :
    (chunks : List Bytes) (b : Buffer) (st_size : ℕ)
    → HasRoom b (length (join chunks))
    → Deliver b chunks
    → length (peek b) + length (join chunks) < st_size
    → read_file st_size b (map received chunks) ≡ none
unfolding read_file
read_file-goes_on [] b st_size room d h = refl
read_file-goes_on (first ∷ chunks) b st_size room d h =
    let parts = length-append first (join chunks) in
    let (b', read, held, w) =
      chunk_held b first (read_fd b (received first)) (room.0, omega (arith, room.1, parts))
        (read_fd-Reads b (received first) room.0 d.0) in
    let size : readable_bytes b' ≡ length (peek b) + length first =
      omega (arith, length-peek held.0, ap length held.1, length-append (peek b) first) in
    rw (read, read_file, lt→ltb (readable_bytes b') st_size (omega (arith, size, parts, h)))
      (read_file-goes_on chunks b' st_size (room_after b first (join chunks) b' held.0 room w)
        (d.1 b' read) (omega (arith, parts, h, ap length held.1, length-append (peek b) first)))
