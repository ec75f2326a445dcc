-- ===== src/Buffer/Contents.antt =====
-- What each operation of `Buffer` does to the bytes held, on every way that the call can end.
use wuduo.Prelude.{
  ℕ, ◌-◌, ◌≤◌, ◌<◌, ◌≡◌, refl, sym, subst, inl, inr, [], ◌++◌, length, take, drop, arith, leb, ◌==◌,
  Bool-cases, length-take, length-drop, take-append-drop, drop_all, Outcome, ok, abort, assertion,
  leb→le, leb→lt, ==_iff, add_size, sub_size,
}
use wuduo.Buffer.{Buffer, Bytes, peek, readable_bytes, unwrite, prepend, retrieve}
use wuduo.Buffer.Invariant.{IsValid, Parts, Parts-IsValid, peek-Parts, IsValid-Parts, length-peek}
use wuduo.Buffer.Edits.{retrieve_all-Parts, Parts-skip, Parts-unwrite, Parts-prepend}

-- A valid buffer that holds these bytes.
abbrev pub Holds : Buffer → Bytes → Type 0
Holds b xs = IsValid b × (peek b ≡ xs)

pub Parts-Holds : {b : Buffer} {xs : Bytes} → Parts b xs → Holds b xs
Parts-Holds p = (Parts-IsValid p, peek-Parts p)

pub Holds-Parts : {b : Buffer} {xs : Bytes} → IsValid b → peek b ≡ xs → Parts b xs
Holds-Parts {b} v e = subst (Parts b) e (IsValid-Parts v)

abbrev pub Retrieves : Buffer → ℕ → Outcome Buffer → Type 0
Retrieves b count (ok b') = (count ≤ length (peek b)) × Holds b' (drop count (peek b))
Retrieves b count (abort f) = (length (peek b) < count) × (f ≡ assertion)

-- `retrieve(count)` on a valid buffer drops exactly the first `count` bytes held and leaves a valid
-- buffer, or fails its assertion, which it does only when fewer than `count` bytes are held.
pub retrieve-Retrieves : (b : Buffer) (count : ℕ) → IsValid b → Retrieves b count (retrieve b count)
unfolding retrieve
retrieve-Retrieves b count v = elim (Bool-cases (leb count (readable_bytes b))) [
  | inr few ↦ rw few (omega (arith, length-peek v, leb→lt count (readable_bytes b) few), refl)
  | inl enough ↦
      let within : count ≤ length (peek b) =
        omega (arith, length-peek v, leb→le count (readable_bytes b) enough) in
      rw enough (elim (Bool-cases (count == readable_bytes b)) [
        | inl whole ↦
            let none_left : drop count (peek b) ≡ [] =
              drop_all count (peek b)
                (omega (arith, length-peek v, (==_iff count (readable_bytes b)).0 whole)) in
            rw (whole, none_left) (within, Parts-Holds (retrieve_all-Parts v))
        | inr part ↦ rw part (
          within,
          Parts-Holds (
              Parts-skip (take count (peek b)) (add_size b.reader_index count)
                (omega (arith, length-peek v, length-take count (peek b), v.addressable))
                (Holds-Parts v (sym (take-append-drop count (peek b))))),
        )
      ])
]

retrieve_of_Retrieves :
    (b : Buffer) (n : ℕ) (r : Outcome Buffer)
    → n ≤ length (peek b)
    → Retrieves b n r
    → (b' : Buffer) × (r ≡ ok b') × Holds b' (drop n (peek b))
retrieve_of_Retrieves b n (ok b') h k = (b', refl, k.1)
retrieve_of_Retrieves b n (abort f) h k = absurd (omega (arith, k.0, h))

-- Of bytes that are held, `retrieve` does not fail.
pub retrieve_total :
    (b : Buffer) (n : ℕ)
    → IsValid b
    → n ≤ length (peek b)
    → (b' : Buffer) × (retrieve b n ≡ ok b') × Holds b' (drop n (peek b))
retrieve_total b n v h = retrieve_of_Retrieves b n (retrieve b n) h (retrieve-Retrieves b n v)

-- The bytes given up by `unwrite`.
abbrev pub Unwrites : Buffer → ℕ → Outcome Buffer → Type 0
Unwrites b count (ok b') =
    (count ≤ length (peek b)) × Holds b' (take (length (peek b) - count) (peek b))
Unwrites b count (abort f) = (length (peek b) < count) × (f ≡ assertion)

-- `unwrite(count)` on a valid buffer drops exactly the last `count` bytes held and leaves a valid
-- buffer, or fails its assertion, which it does only when fewer than `count` bytes are held.
pub unwrite-Unwrites : (b : Buffer) (count : ℕ) → IsValid b → Unwrites b count (unwrite b count)
unfolding unwrite
unwrite-Unwrites b count v = elim (Bool-cases (leb count (readable_bytes b))) [
  | inr few ↦ rw few (omega (arith, length-peek v, leb→lt count (readable_bytes b) few), refl)
  | inl enough ↦
      let within : count ≤ length (peek b) =
        omega (arith, length-peek v, leb→le count (readable_bytes b) enough) in
      let keep : ℕ = length (peek b) - count in
      rw enough (
        within,
        Parts-Holds (
            Parts-unwrite (drop keep (peek b)) (sub_size b.writer_index count)
              (omega (arith, length-peek v, length-drop keep (peek b), v.addressable))
              (Holds-Parts v (sym (take-append-drop keep (peek b))))),
      )
]

abbrev pub Prepends : Buffer → Bytes → Outcome Buffer → Type 0
Prepends b xs (ok b') = (length xs ≤ b.reader_index) × Holds b' (xs ++ peek b)
Prepends b xs (abort f) = (b.reader_index < length xs) × (f ≡ assertion)

-- `prepend` on a valid buffer puts the bytes before those held and leaves a valid buffer, or fails
-- its assertion, which it does only when more bytes are given than `prependable_bytes()`.
pub prepend-Prepends : (b : Buffer) (xs : Bytes) → IsValid b → Prepends b xs (prepend b xs)
unfolding prepend
prepend-Prepends b xs v = elim (Bool-cases (leb (length xs) b.reader_index)) [
  | inr few ↦ rw few (leb→lt (length xs) b.reader_index few, refl)
  | inl enough ↦
      let within : length xs ≤ b.reader_index = leb→le (length xs) b.reader_index enough in
      rw enough (
        within,
        Parts-Holds (
            Parts-prepend xs (sub_size b.reader_index (length xs)) (IsValid-Parts v)
              (omega (arith, v.addressable, v.in_string, v.ordered))),
      )
]
