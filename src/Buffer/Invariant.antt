-- ===== src/Buffer/Invariant.antt =====
-- The representation invariant of `Buffer`, and the string cut at its two indices.
use wuduo.Prelude.{
  ℕ, zero, suc, [], ◌∷◌, ◌+◌, ◌≤◌, ◌≡◌, refl, sym, ap, ◌∙◌, ◌++◌, length, take, drop, arith,
  length-append, length-take, length-drop, take-append-drop, drop_append, take_append, max_size,
}
use wuduo.Buffer.{Buffer, Bytes, cheap_prepend, peek, overwrite, readable_bytes}

pub record IsValid (b : Buffer) : Type 0 where
  pub ordered : b.reader_index ≤ b.writer_index
  pub in_string : b.writer_index ≤ length b.bytes
  pub has_front : cheap_prepend ≤ length b.bytes
  pub addressable : length b.bytes ≤ max_size

-- The string is what stands before `reader_index`, what is held, and what is free.
pub record Parts (b : Buffer) (held : Bytes) : Type 0 where
  pub front : Bytes
  pub rest : Bytes
  pub cut : b.bytes ≡ front ++ (held ++ rest)
  pub reader_at : b.reader_index ≡ length front
  pub writer_at : b.writer_index ≡ length front + length held
  pub front_room : cheap_prepend ≤ length b.bytes
  pub fits : length b.bytes ≤ max_size

pub length-Parts :
    {b : Buffer} {held : Bytes} (p : Parts b held)
    → length b.bytes ≡ length p.front + length held + length p.rest
length-Parts {held = held} p =
    ap length p.cut
    ∙ omega (arith, length-append p.front (held ++ p.rest), length-append held p.rest)

-- Such a buffer is valid, and holds what the parts say.
pub Parts-IsValid : {b : Buffer} {held : Bytes} → Parts b held → IsValid b
Parts-IsValid p = record {
  ordered = omega (arith, p.reader_at, p.writer_at);
  in_string = omega (arith, p.writer_at, length-Parts p);
  has_front = p.front_room;
  addressable = p.fits;
}

pub peek-Parts : {b : Buffer} {held : Bytes} → Parts b held → peek b ≡ held
unfolding peek
peek-Parts {b} {held} p =
    rw (p.cut, drop_append b.reader_index p.front (held ++ p.rest) p.reader_at)
      (take_append (readable_bytes b) held p.rest
        (omega (arith, p.reader_at, p.writer_at, length-Parts p, p.fits)))

-- A valid buffer has such parts.
pub IsValid-Parts : {b : Buffer} → IsValid b → Parts b (peek b)
unfolding peek
IsValid-Parts {b} v = record {
  front = take b.reader_index b.bytes;
  rest = drop (readable_bytes b) (drop b.reader_index b.bytes);
  cut =
      sym (take-append-drop b.reader_index b.bytes)
      ∙ ap (◌++◌ (take b.reader_index b.bytes))
          (sym (take-append-drop (readable_bytes b) (drop b.reader_index b.bytes)));
  reader_at = omega (arith, length-take b.reader_index b.bytes);
  writer_at = omega (
    arith,
    length-take b.reader_index b.bytes,
    length-take (readable_bytes b) (drop b.reader_index b.bytes),
    length-drop b.reader_index b.bytes,
  );
  front_room = v.has_front;
  fits = v.addressable;
}

pub length-peek : {b : Buffer} → IsValid b → length (peek b) ≡ readable_bytes b
length-peek {b} v =
    let p = IsValid-Parts v in omega (arith, p.reader_at, p.writer_at, length-Parts p, p.fits)

drop_nil : (n : ℕ) → drop {A = ℕ} n [] ≡ []
drop_nil zero = refl
drop_nil (suc n) = refl

drop-add : (m n : ℕ) (xs : Bytes) → drop (m + n) xs ≡ drop n (drop m xs)
drop-add zero n xs = ap (λ k. drop k xs) (omega arith)
drop-add (suc m) n [] = drop_nil (suc m + n) ∙ sym (drop_nil n)
drop-add (suc m) n (x ∷ xs) =
    let e : suc m + n ≡ suc (m + n) = omega arith in rw e (drop-add m n xs)

-- Overwriting from the end of `before` on.
pub overwrite_of_parts :
    (xs before rest data' : Bytes) (i : ℕ)
    → xs ≡ before ++ rest
    → i ≡ length before
    → overwrite xs i data' ≡ before ++ (data' ++ drop (length data') rest)
overwrite_of_parts xs before rest data' i e h = rw (
  e,
  drop-add i (length data') (before ++ rest),
  take_append i before rest h,
  drop_append i before rest h,
)
