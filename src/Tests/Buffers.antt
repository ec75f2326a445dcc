-- ===== src/Tests/Buffers.antt =====
-- wuduo/buffer.h at small buffers.
use wuduo.Prelude.{◌≡◌, refl, [], ◌∷◌, arith, ok, abort, assertion, List}
use wuduo.Buffer.{
  Buffer, peek, append, ensure_writable_bytes, make_space, has_written, Op, appends, retrieves,
  unwrites, run, read_fd, received,
}
use wuduo.Buffer.Queue
use wuduo.Buffer.Invariant.{IsValid}
use wuduo.Buffer.Io.{Reads, read_fd-Reads}
use wuduo.Buffer.History.{contents, run_refines}

-- Room for four bytes, two held at the very end, two already read.
abbrev used_up : Buffer
used_up = record {
  bytes = 0 ∷ 0 ∷ 0 ∷ 0 ∷ 0 ∷ 0 ∷ 0 ∷ 0 ∷ 1 ∷ 2 ∷ 3 ∷ 4 ∷ [];
  reader_index = 10;
  writer_index = 12;
}

used_up-IsValid : IsValid used_up
used_up-IsValid = omega arith

-- Two bytes more fit after a rotation, three do not.
append_rotates :
    append used_up (5 ∷ 6 ∷ [])
    ≡ ok (record {
      bytes = 0 ∷ 0 ∷ 0 ∷ 0 ∷ 0 ∷ 0 ∷ 0 ∷ 0 ∷ 3 ∷ 4 ∷ 5 ∷ 6 ∷ [];
      reader_index = 8;
      writer_index = 12;
    })
unfolding append ensure_writable_bytes make_space has_written
append_rotates = refl

append_grows :
    append used_up (5 ∷ 6 ∷ 7 ∷ [])
    ≡ ok (record {
      bytes = 0 ∷ 0 ∷ 0 ∷ 0 ∷ 0 ∷ 0 ∷ 0 ∷ 0 ∷ 1 ∷ 2 ∷ 3 ∷ 4 ∷ 5 ∷ 6 ∷ 7 ∷ [];
      reader_index = 10;
      writer_index = 15;
    })
unfolding append ensure_writable_bytes make_space has_written
append_grows = refl

-- Both bytes spill into the extra array.
read_fd-Reads_example :
    Reads used_up (received (5 ∷ 6 ∷ [])) (read_fd used_up (received (5 ∷ 6 ∷ [])))
read_fd-Reads_example = read_fd-Reads used_up (received (5 ∷ 6 ∷ [])) used_up-IsValid (omega arith)

abbrev history : List Op
history = appends (5 ∷ 6 ∷ []) ∷ retrieves 3 ∷ unwrites 1 ∷ retrieves 1 ∷ []

run_refines_example : contents (run used_up history) ≡ abort assertion
unfolding Queue.run peek
run_refines_example =
    run_refines history used_up 12 used_up-IsValid (omega arith) (omega arith) (omega arith)
