-- ===== src/Buffer.antt =====
-- `Buffer` of wuduo/buffer.h and wuduo/buffer.cpp: bytes that are read at one index and written at
-- another, over a `std::string`. A failed `assert` and the `length_error` of `resize` are faults.
-- `readv` is the kernel's: what it delivers is an argument of `read_fd`.
pub mod Invariant
pub mod Edits
pub mod Contents
pub mod Growth
pub mod Io
pub mod Queue
pub mod History
use wuduo.Prelude.{
  ℕ, ◌+◌, ◌-◌, if◌then◌else◌, ltb, leb, ◌==◌, List, [], ◌∷◌, ◌++◌, length, take, drop, replicate,
  Outcome, ok, abort, length_error, require, ◌>>=◌, ◌>>◌, add_size, sub_size, max_size,
}

abbrev pub Bytes : Type 0
Bytes = List ℕ

pub record Buffer : Type 0 where
  pub bytes : Bytes
  pub reader_index : ℕ
  pub writer_index : ℕ

abbrev pub cheap_prepend : ℕ
cheap_prepend = 8

abbrev pub initial_size : ℕ
initial_size = 1024

-- `Buffer{size}`
unfoldable pub create : ℕ → Buffer
create size = record {
  bytes = replicate (add_size cheap_prepend size) 0;
  reader_index = cheap_prepend;
  writer_index = cheap_prepend;
}

abbrev pub readable_bytes : Buffer → ℕ
readable_bytes b = sub_size b.writer_index b.reader_index

abbrev pub writable_bytes : Buffer → ℕ
writable_bytes b = sub_size (length b.bytes) b.writer_index

abbrev pub prependable_bytes : Buffer → ℕ
prependable_bytes b = b.reader_index

-- The bytes of `[peek(), peek() + readable_bytes())`.
unfoldable pub peek : Buffer → Bytes
peek b = take (readable_bytes b) (drop b.reader_index b.bytes)

unfoldable pub retrieve_all : Buffer → Buffer
retrieve_all b = record b { reader_index = cheap_prepend; writer_index = cheap_prepend }

unfoldable pub retrieve : Buffer → ℕ → Outcome Buffer
unfolding retrieve_all
retrieve b count = do
  require (leb count (readable_bytes b))
  if count == readable_bytes b
      then ok (retrieve_all b)
      else ok (record b { reader_index = add_size b.reader_index count })

unfoldable pub retrieve_all_as_string : Buffer → Bytes × Buffer
unfolding peek retrieve_all
retrieve_all_as_string b = (peek b, retrieve_all b)

-- `std::copy_n(data, count, begin + i)`, for a range inside the string.
abbrev pub overwrite : Bytes → ℕ → Bytes → Bytes
overwrite xs i data' = take i xs ++ (data' ++ drop (i + length data') xs)

-- `buffer_.resize(n)`
unfoldable pub resize : Buffer → ℕ → Outcome Buffer
resize b n =
    if ltb max_size n
    then abort length_error
    else ok (record b { bytes = take n b.bytes ++ replicate (n - length b.bytes) 0 })

-- The rotation reads its source before it is overwritten, as `std::copy` to the left does.
unfoldable pub make_space : Buffer → ℕ → Outcome Buffer
unfolding resize peek
make_space b count =
    if ltb (add_size (writable_bytes b) (prependable_bytes b)) (add_size count cheap_prepend)
    then resize b (add_size b.writer_index count)
    else ok (record {
      bytes = overwrite b.bytes cheap_prepend (peek b);
      reader_index = cheap_prepend;
      writer_index = add_size cheap_prepend (readable_bytes b);
    })

unfoldable pub ensure_writable_bytes : Buffer → ℕ → Outcome Buffer
ensure_writable_bytes b count = do
  b' ← if ltb (writable_bytes b) count then make_space b count else ok b
  require (leb count (writable_bytes b'))
  ok b'

unfoldable pub has_written : Buffer → ℕ → Outcome Buffer
has_written b count = do
  require (leb count (writable_bytes b))
  ok (record b { writer_index = add_size b.writer_index count })

unfoldable pub unwrite : Buffer → ℕ → Outcome Buffer
unwrite b count = do
  require (leb count (readable_bytes b))
  ok (record b { writer_index = sub_size b.writer_index count })

-- The copy to `begin_write()`.
abbrev pub write_at_end : Buffer → Bytes → Buffer
write_at_end b data' = record b { bytes = overwrite b.bytes b.writer_index data' }

unfoldable pub append : Buffer → Bytes → Outcome Buffer
append b data' = do
  b' ← ensure_writable_bytes b (length data')
  has_written (write_at_end b' data') (length data')

unfoldable pub prepend : Buffer → Bytes → Outcome Buffer
prepend b data' = do
  require (leb (length data') (prependable_bytes b))
  let front = sub_size b.reader_index (length data')
  ok (record b { bytes = overwrite b.bytes front data'; reader_index = front })

-- What `readv` answers: -1 with `errno`, or the bytes delivered.
pub data Received : Type 0 where
  failed : ℕ → Received
  received : Bytes → Received

-- What `read_fd` returns: -1 with the saved `errno`, or the number of bytes.
pub data Returned : Type 0 where
  minus_one : ℕ → Returned
  count : ℕ → Returned

-- `sizeof extrabuf`
abbrev pub extra_size : ℕ
extra_size = 65535

-- `readv` fills the free end of the buffer first, then `extrabuf`.
unfoldable pub read_fd : Buffer → Received → Outcome (Returned × Buffer)
read_fd b (failed errno) = ok (minus_one errno, b)
read_fd b (received data') = do
  let writable = writable_bytes b
  let filled = write_at_end b (take writable data')
  b' ←
      if leb (length data') writable
      then has_written filled (length data')
      else (has_written filled writable >>= λ full. append full (drop writable data'))
  ok (count (length data'), b')

-- The calls that a client of a buffer makes.
pub data Op : Type 0 where
  appends : Bytes → Op
  retrieves unwrites : ℕ → Op
  clears : Op

unfoldable pub step : Buffer → Op → Outcome Buffer
step b (appends data') = append b data'
step b (retrieves n) = retrieve b n
step b (unwrites n) = unwrite b n
step b clears = ok (retrieve_all b)

unfoldable pub run : Buffer → List Op → Outcome Buffer
run b [] = ok b
run b (op ∷ ops) = step b op >>= λ b'. run b' ops
