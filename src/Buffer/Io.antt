-- ===== src/Buffer/Io.antt =====
-- What `Buffer::read_fd` does with the bytes that `readv` delivers.
use wuduo.Prelude.{
  ℕ, ◌+◌, ◌≤◌, ◌<◌, ◌≡◌, refl, subst, inl, inr, ◌++◌, length, take, drop, arith, leb, Bool-cases,
  length-take, length-drop, take-append-drop, take_all, max_size, Outcome, ok, abort, ◌>>=◌,
  length_error, leb→le, leb→lt, append_assoc,
}
use wuduo.Buffer.{
  Buffer, Bytes, peek, writable_bytes, append, has_written, write_at_end, Received, failed,
  received, Returned, minus_one, count, read_fd, extra_size,
}
use wuduo.Buffer.Invariant.{IsValid}
use wuduo.Buffer.Contents.{Holds}
use wuduo.Buffer.Growth.{Appends, append-Appends, has_written-write_at_end}

-- `readv` delivers at most what the two ranges hold.
abbrev pub Delivers : Buffer → Received → Type 0
Delivers b (failed errno) = Unit {0}
Delivers b (received xs) = length xs ≤ writable_bytes b + extra_size

abbrev pub Reads : Buffer → Received → Outcome (Returned × Buffer) → Type 0
Reads b (failed errno) (ok (r, b')) = (r ≡ minus_one errno) × (b' ≡ b)
Reads b (failed errno) (abort f) = ⊥
Reads b (received xs) (ok (r, b')) =
    (r ≡ count (length xs))
    × Holds b' (peek b ++ xs)
    × (b'.writer_index ≤ b.writer_index + length xs)
Reads b (received xs) (abort f) = (max_size < b.writer_index + length xs) × (f ≡ length_error)

overflow-Reads :
    (b full : Buffer) (xs : Bytes) (n : ℕ) (r : Outcome Buffer)
    → peek full ++ drop n xs ≡ peek b ++ xs
    → full.writer_index + length (drop n xs) ≡ b.writer_index + length xs
    → Appends full (drop n xs) r
    → Reads b (received xs) (r >>= λ b'. ok (count (length xs), b'))
overflow-Reads b full xs n (ok b') e w h = (refl, rw (← e) h.0, omega (arith, w, h.1))
overflow-Reads b full xs n (abort f) e w h = (omega (arith, w, h.0), h.1)

-- `read_fd` on a valid buffer returns what `readv` answers: on an error it leaves the buffer as it
-- was; otherwise the buffer is valid and holds the bytes delivered behind those it held, in order,
-- also where they spill over into the extra array, and its write index has moved by no more. No
-- assertion fails, and a `length_error` ends the call only where the string would grow past its limit.
pub read_fd-Reads : (b : Buffer) (r : Received) → IsValid b → Delivers b r → Reads b r (read_fd b r)
unfolding read_fd
read_fd-Reads b (failed errno) v d = (refl, refl)
read_fd-Reads b (received xs) v d =
    let n : ℕ = writable_bytes b in
    elim (Bool-cases (leb (length xs) n)) [
      | inl small ↦
          let (c, e, held, _, w) = has_written-write_at_end b xs v (leb→le (length xs) n small) in
          rw (small, take_all n xs (leb→le (length xs) n small))
            (rw e (refl, held, omega (arith, w)))
      | inr large ↦
          let full_size : length (take n xs) ≡ n =
            omega (arith, length-take n xs, leb→lt (length xs) n large) in
          let (c, e, held, _, w) =
            has_written-write_at_end b (take n xs) v (omega (arith, full_size)) in
          let e' : has_written (write_at_end b (take n xs)) n ≡ ok c =
            subst (λ k. has_written (write_at_end b (take n xs)) k ≡ ok c) full_size e in
          rw (large, e')
            (overflow-Reads b c xs n (append c (drop n xs))
              (rw (held.1, append_assoc (peek b) (take n xs) (drop n xs), take-append-drop n xs)
                refl)
              (omega (arith, w, full_size, length-drop n xs, leb→lt (length xs) n large))
              (append-Appends c (drop n xs) held.0 (omega (arith, d, length-drop n xs))))
    ]
