-- ===== src/Buffer/Growth.antt =====
-- How `Buffer` makes room, and what it appends, on every way that the call can end.
use wuduo.Prelude.{
  ℕ, ◌+◌, ◌-◌, ◌≤◌, ◌<◌, ◌≡◌, refl, inl, inr, ◌++◌, length, arith, ltb, leb, Bool-cases, max_size,
  Outcome, ok, abort, require, ◌>>=◌, length_error, ltb→lt, ltb→le, le→leb, add_size,
}
use wuduo.Buffer.{
  Buffer, Bytes, cheap_prepend, peek, readable_bytes, writable_bytes, resize, make_space,
  ensure_writable_bytes, has_written, append, write_at_end,
}
use wuduo.Buffer.Invariant.{IsValid, length-Parts, IsValid-Parts, length-peek}
use wuduo.Buffer.Edits.{Parts-write, Parts-resize, Parts-rotate, length-overwrite, length-resized}
use wuduo.Buffer.Contents.{Holds, Parts-Holds}

-- Room for `count` bytes more, with what is held unchanged, no further to the right.
abbrev pub MakesRoom : Buffer → ℕ → Outcome Buffer → Type 0
MakesRoom b count (ok b') =
    Holds b' (peek b) × (count ≤ writable_bytes b') × (b'.writer_index ≤ b.writer_index)
MakesRoom b count (abort f) = (max_size < b.writer_index + count) × (f ≡ length_error)

make_space-MakesRoom :
    (b : Buffer) (count : ℕ)
    → IsValid b
    → count ≤ max_size
    → writable_bytes b < count
    → MakesRoom b count (make_space b count)
unfolding make_space
make_space-MakesRoom b count v small short =
    let p = IsValid-Parts v in
    let needed : ℕ = add_size b.writer_index count in
    let room : ℕ = add_size (writable_bytes b) b.reader_index in
    elim (Bool-cases (ltb room (add_size count cheap_prepend))) [
      | inr roomy ↦
          let above : cheap_prepend < b.reader_index = omega (
            arith,
            ltb→le room (add_size count cheap_prepend) roomy,
            v.ordered,
            v.in_string,
            v.addressable,
          ) in
          rw roomy (
            Parts-Holds (
                Parts-rotate (add_size cheap_prepend (readable_bytes b)) p
                  (omega (arith, length-peek v, v.ordered, v.in_string, v.addressable))
                  (omega (arith, above))),
            omega (
              arith,
              ltb→le room (add_size count cheap_prepend) roomy,
              length-overwrite b.bytes (peek b) cheap_prepend,
              length-peek v,
              above,
              v.ordered,
              v.in_string,
              v.addressable,
            ),
            omega (arith, above, v.ordered, v.in_string, v.addressable),
          )
      | inl tight ↦ rw tight (elim (Bool-cases (ltb max_size needed)) [
        | inl long ↦
            rw (long, resize)
              (omega (arith, ltb→lt max_size needed long, v.in_string, v.addressable), refl)
        | inr fits ↦
            let longer : length b.bytes ≤ needed = omega (arith, v.in_string, v.addressable) in
            rw (fits, resize)
              (
                Parts-Holds (Parts-resize needed p longer (ltb→le max_size needed fits)),
                omega (
                  arith,
                  length-resized b.bytes needed longer,
                  v.in_string,
                  v.addressable,
                  ltb→le max_size needed fits,
                ),
                omega arith,
              )
      ])
    ]

ensured-MakesRoom :
    (b : Buffer) (count : ℕ) (r : Outcome Buffer)
    → MakesRoom b count r
    → MakesRoom b count (r >>= λ b'. (require (leb count (writable_bytes b')) >>= λ _. ok b'))
ensured-MakesRoom b count (ok b') h = rw (le→leb count (writable_bytes b') h.1) h
ensured-MakesRoom b count (abort f) h = h

-- `ensure_writable_bytes(count)` on a valid buffer keeps the bytes held and leaves a valid buffer
-- with room for `count` more, so its assertion never fails; it ends in a `length_error` only when the
-- bytes up to `writer_index` and `count` more exceed what a string can hold.
pub ensure_writable_bytes-MakesRoom :
    (b : Buffer) (count : ℕ)
    → IsValid b
    → count ≤ max_size
    → MakesRoom b count (ensure_writable_bytes b count)
unfolding ensure_writable_bytes
ensure_writable_bytes-MakesRoom b count v small = elim (Bool-cases (ltb (writable_bytes b) count)) [
  | inl short ↦ rw short (
      ensured-MakesRoom b count (make_space b count)
        (make_space-MakesRoom b count v small (ltb→lt (writable_bytes b) count short)))
  | inr roomy ↦ rw roomy (
      ensured-MakesRoom b count (ok b)
        ((v, refl), ltb→le (writable_bytes b) count roomy, omega arith))
]

abbrev pub Appends : Buffer → Bytes → Outcome Buffer → Type 0
Appends b xs (ok b') = Holds b' (peek b ++ xs) × (b'.writer_index ≤ b.writer_index + length xs)
Appends b xs (abort f) = (max_size < b.writer_index + length xs) × (f ≡ length_error)

-- A write of bytes for which there is room.
pub has_written-write_at_end :
    (b : Buffer) (xs : Bytes)
    → IsValid b
    → length xs ≤ writable_bytes b
    → (b' : Buffer) × (has_written (write_at_end b xs) (length xs) ≡ ok b')
      × Holds b' (peek b ++ xs)
      × (writable_bytes b' ≡ writable_bytes b - length xs)
      × (b'.writer_index ≡ b.writer_index + length xs)
unfolding has_written
has_written-write_at_end b xs v h =
    let p = IsValid-Parts v in
    let same =
      length-overwrite b.bytes xs b.writer_index (omega (arith, v.in_string, v.addressable)) in
    (
      record (write_at_end b xs) { writer_index = add_size b.writer_index (length xs) },
      rw (le→leb (length xs) (writable_bytes (write_at_end b xs)) (omega (arith, same))),
      Parts-Holds (
          Parts-write xs (add_size b.writer_index (length xs)) p
            (omega (arith, v.in_string, v.addressable))
            (omega (arith, p.writer_at, length-Parts p, v.addressable))),
      omega (arith, same, v.in_string, v.addressable),
      omega (arith, v.in_string, v.addressable),
    )

appended-Appends :
    (b : Buffer) (xs : Bytes) (r : Outcome Buffer)
    → MakesRoom b (length xs) r
    → Appends b xs (r >>= λ b'. has_written (write_at_end b' xs) (length xs))
appended-Appends b xs (ok b') h =
    let (c, e, held, _, w) = has_written-write_at_end b' xs h.0.0 h.1 in
    rw e (rw (← h.0.1) held, omega (arith, w, h.2))
appended-Appends b xs (abort f) h = h

-- `append` on a valid buffer puts the bytes behind those held and leaves a valid buffer, whether it
-- rotates, grows or finds room; it ends otherwise only by the `length_error` of a string that would
-- grow past its limit.
pub append-Appends :
    (b : Buffer) (xs : Bytes) → IsValid b → length xs ≤ max_size → Appends b xs (append b xs)
unfolding append
append-Appends b xs v small =
    appended-Appends b xs (ensure_writable_bytes b (length xs))
      (ensure_writable_bytes-MakesRoom b (length xs) v small)
