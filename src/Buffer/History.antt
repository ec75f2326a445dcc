-- ===== src/Buffer/History.antt =====
-- A buffer refines a queue of bytes, over any history of calls.
use wuduo.Prelude.{
  ℕ, ◌+◌, ◌≤◌, ◌≡◌, refl, sym, ap, List, [], ◌∷◌, length, arith, max_size, Outcome, ok, abort,
  ◌>>=◌, le→leb, lt→leb,
}
use wuduo.Buffer.{
  Buffer, Bytes, cheap_prepend, peek, append, retrieve, unwrite, retrieve_all, Op, appends,
  retrieves, unwrites, clears, step, run,
}
use wuduo.Buffer.Queue
use wuduo.Buffer.Invariant.{IsValid}
use wuduo.Buffer.Edits.{retrieve_all-Parts}
use wuduo.Buffer.Contents.{Retrieves, retrieve-Retrieves, Unwrites, unwrite-Unwrites, Parts-Holds}
use wuduo.Buffer.Growth.{Appends, append-Appends}

-- How a run ends, as its client sees it.
abbrev pub contents : Outcome Buffer → Outcome Bytes
contents (ok b) = ok (peek b)
contents (abort f) = abort f

-- The bytes that a history appends.
abbrev pub volume : List Op → ℕ
volume [] = 0
volume (appends xs ∷ ops) = length xs + volume ops
volume (_ ∷ ops) = volume ops

abbrev added : Op → ℕ
added (appends xs) = length xs
added _ = 0

-- One call: the queue ends as the buffer does, and the write index stays below the bytes used.
abbrev Steps : Buffer → ℕ → Op → Outcome Buffer → Type 0
Steps b used op (ok b') =
    IsValid b' × (b'.writer_index ≤ used + added op) × (Queue.step (peek b) op ≡ ok (peek b'))
Steps b used op (abort f) = Queue.step (peek b) op ≡ abort f

module _ (b : Buffer) (used : ℕ) (above : b.writer_index ≤ used) where
  append-Steps :
      (xs : Bytes) (r : Outcome Buffer)
      → used + length xs ≤ max_size
      → Appends b xs r
      → Steps b used (appends xs) r
  append-Steps xs (ok b') room h = (h.0.0, omega (arith, h.1, above), ap ok (sym h.0.1))
  append-Steps xs (abort f) room h = absurd (omega (arith, h.0, room, above))

  retrieve-Steps :
      (n : ℕ) (r : Outcome Buffer)
      → ((b' : Buffer) → r ≡ ok b' → b'.writer_index ≤ used)
      → Retrieves b n r
      → Steps b used (retrieves n) r
  retrieve-Steps n (ok b') low h =
      (h.1.0, omega (arith, low b' refl), rw (le→leb n (length (peek b)) h.0) (ap ok (sym h.1.1)))
  retrieve-Steps n (abort f) low h = rw (lt→leb n (length (peek b)) h.0) (ap abort (sym h.1))

  unwrite-Steps :
      (n : ℕ) (r : Outcome Buffer)
      → ((b' : Buffer) → r ≡ ok b' → b'.writer_index ≤ used)
      → Unwrites b n r
      → Steps b used (unwrites n) r
  unwrite-Steps n (ok b') low h =
      (h.1.0, omega (arith, low b' refl), rw (le→leb n (length (peek b)) h.0) (ap ok (sym h.1.1)))
  unwrite-Steps n (abort f) low h = rw (lt→leb n (length (peek b)) h.0) (ap abort (sym h.1))

writer-retrieve :
    (b b' : Buffer) (n used : ℕ)
    → b.writer_index ≤ used
    → cheap_prepend ≤ used
    → retrieve b n ≡ ok b'
    → b'.writer_index ≤ used
unfolding retrieve
writer-retrieve b b' n used h k e = ground arith

writer-unwrite :
    (b b' : Buffer) (n used : ℕ)
    → IsValid b
    → b.writer_index ≤ used
    → unwrite b n ≡ ok b'
    → b'.writer_index ≤ used
unfolding unwrite
writer-unwrite b b' n used v h e = ground arith

step-Steps :
    (b : Buffer) (used : ℕ) (op : Op)
    → IsValid b
    → b.writer_index ≤ used
    → cheap_prepend ≤ used
    → used + added op ≤ max_size
    → Steps b used op (step b op)
unfolding step
step-Steps b used (appends xs) v h k room =
    append-Steps b used h xs (append b xs) room (append-Appends b xs v (omega (arith, room)))
step-Steps b used (retrieves n) v h k room =
    retrieve-Steps b used h n (retrieve b n) (λ b'. writer-retrieve b b' n used h k)
      (retrieve-Retrieves b n v)
step-Steps b used (unwrites n) v h k room =
    unwrite-Steps b used h n (unwrite b n) (λ b'. writer-unwrite b b' n used v h)
      (unwrite-Unwrites b n v)
step-Steps b used clears v h k room =
    let held = Parts-Holds (retrieve_all-Parts v) in
    (held.0, unfold retrieve_all in omega (arith, k), ap ok (sym held.1))

bind-Steps :
    (b : Buffer) (used : ℕ) (op : Op) (ops : List Op) (r : Outcome Buffer)
    → Steps b used op r
    → ((b' : Buffer)
        → IsValid b'
        → b'.writer_index ≤ used + added op
        → contents (run b' ops) ≡ Queue.run (peek b') ops)
    → contents (r >>= λ b'. run b' ops) ≡ (Queue.step (peek b) op >>= λ ys. Queue.run ys ops)
bind-Steps b used op ops (ok b') h later = rw h.2 (later b' h.0 h.1)
bind-Steps b used op ops (abort f) h later = rw h

volume-cons : (op : Op) (ops : List Op) → volume (op ∷ ops) ≡ added op + volume ops
volume-cons (appends xs) ops = refl
volume-cons (retrieves n) ops = omega arith
volume-cons (unwrites n) ops = omega arith
volume-cons clears ops = omega arith

-- Any history of `append`, `retrieve`, `unwrite` and `retrieve_all` on a valid buffer ends as it does
-- on a queue of the bytes held: with the same contents, or with the failed assertion at the same
-- call. It is enough that what is appended fits into a string behind the bytes used at the start.
pub run_refines :
    (ops : List Op) (b : Buffer) (used : ℕ)
    → IsValid b
    → b.writer_index ≤ used
    → cheap_prepend ≤ used
    → used + volume ops ≤ max_size
    → contents (run b ops) ≡ Queue.run (peek b) ops
unfolding run Queue.run
run_refines [] b used v h k room = refl
run_refines (op ∷ ops) b used v h k room =
    let total = volume-cons op ops in
    bind-Steps b used op ops (step b op) (step-Steps b used op v h k (omega (arith, total, room)))
      (λ b' v' w.
        run_refines ops b' (used + added op) v' w (omega (arith, k)) (omega (arith, total, room)))
