-- ===== src/Buffer/Edits.antt =====
-- The edits that the operations of `Buffer` make, on the three parts of its string.
use wuduo.Prelude.{
  ℕ, suc, ◌+◌, ◌-◌, ◌≤◌, ◌≡◌, refl, sym, ap, ◌∙◌, [], ◌++◌, length, take, drop, replicate, arith,
  length-append, length-take, length-drop, length-replicate, take-append-drop, take_all,
  drop_append, append_assoc, max_size, add_size,
}
use wuduo.Buffer.{Buffer, Bytes, cheap_prepend, overwrite, create, retrieve_all}
use wuduo.Buffer.Invariant.{IsValid, Parts, length-Parts, overwrite_of_parts}

pub create-Parts : (size : ℕ) → cheap_prepend + size ≤ max_size → Parts (create size) []
unfolding create
create-Parts size h = record {
  front = replicate cheap_prepend 0;
  rest = replicate size 0;
  cut =
      let e : add_size cheap_prepend size ≡ suc (suc (suc (suc (suc (suc (suc (suc size))))))) =
        omega arith in
      rw e;
  reader_at = refl;
  writer_at = refl;
  front_room = omega (arith, length-replicate {A = ℕ} (add_size cheap_prepend size) 0);
  fits = omega (arith, length-replicate {A = ℕ} (add_size cheap_prepend size) 0);
}

pub retrieve_all-Parts : {b : Buffer} → IsValid b → Parts (retrieve_all b) []
unfolding retrieve_all
retrieve_all-Parts {b} v = record {
  front = take cheap_prepend b.bytes;
  rest = drop cheap_prepend b.bytes;
  cut = sym (take-append-drop cheap_prepend b.bytes);
  reader_at = omega (arith, length-take cheap_prepend b.bytes, v.has_front);
  writer_at = omega (arith, length-take cheap_prepend b.bytes, v.has_front);
  front_room = v.has_front;
  fits = v.addressable;
}

pub length-overwrite :
    (xs data' : Bytes) (i : ℕ)
    → i + length data' ≤ length xs
    → length (overwrite xs i data') ≡ length xs
length-overwrite xs data' i h = omega (
  arith,
  length-append (take i xs) (data' ++ drop (i + length data') xs),
  length-append data' (drop (i + length data') xs),
  length-take i xs,
  length-drop (i + length data') xs,
)

pub length-resized :
    (xs : Bytes) (n : ℕ) → length xs ≤ n → length (take n xs ++ replicate (n - length xs) 0) ≡ n
length-resized xs n h = omega (
  arith,
  length-append (take n xs) (replicate (n - length xs) 0),
  length-take n xs,
  length-replicate {A = ℕ} (n - length xs) 0,
)

module _ {b : Buffer} {xs : Bytes} where
  -- Reading past `ys` in front.
  pub Parts-skip :
      (ys : Bytes) (i : ℕ)
      → i ≡ b.reader_index + length ys
      → Parts b (ys ++ xs)
      → Parts (record b { reader_index = i }) xs
  Parts-skip ys i e p = record {
    front = p.front ++ ys;
    rest = p.rest;
    cut = p.cut ∙ rw (append_assoc ys xs p.rest, append_assoc p.front ys (xs ++ p.rest));
    reader_at = omega (arith, p.reader_at, length-append p.front ys);
    writer_at = omega (arith, p.writer_at, length-append p.front ys, length-append ys xs);
    front_room = p.front_room;
    fits = p.fits;
  }

  -- Giving up `ys` at the end.
  pub Parts-unwrite :
      (ys : Bytes) (i : ℕ)
      → i + length ys ≡ b.writer_index
      → Parts b (xs ++ ys)
      → Parts (record b { writer_index = i }) xs
  Parts-unwrite ys i e p = record {
    front = p.front;
    rest = ys ++ p.rest;
    cut = p.cut ∙ rw (append_assoc xs ys p.rest);
    reader_at = p.reader_at;
    writer_at = omega (arith, p.writer_at, length-append xs ys);
    front_room = p.front_room;
    fits = p.fits;
  }

  -- Writing `ys` into the free end.
  pub Parts-write :
      (ys : Bytes) (i : ℕ) (p : Parts b xs)
      → i ≡ b.writer_index + length ys
      → length ys ≤ length p.rest
      → Parts
          (record b { bytes = overwrite b.bytes b.writer_index ys; writer_index = i })
          (xs ++ ys)
  Parts-write ys i p e h = record {
    front = p.front;
    rest = drop (length ys) p.rest;
    cut =
        overwrite_of_parts b.bytes (p.front ++ xs) p.rest ys b.writer_index
          (p.cut ∙ sym (append_assoc p.front xs p.rest))
          (omega (arith, p.writer_at, length-append p.front xs))
        ∙ rw (
          append_assoc p.front xs (ys ++ drop (length ys) p.rest),
          append_assoc xs ys (drop (length ys) p.rest),
        );
    reader_at = p.reader_at;
    writer_at = omega (arith, p.writer_at, length-append xs ys);
    front_room = omega (arith, same, p.front_room);
    fits = omega (arith, same, p.fits);
  }
    where
      same : length (overwrite b.bytes b.writer_index ys) ≡ length b.bytes
      same = length-overwrite b.bytes ys b.writer_index (omega (arith, p.writer_at, length-Parts p))

  -- Writing `ys` just before what is held.
  pub Parts-prepend :
      (ys : Bytes) (i : ℕ) (p : Parts b xs)
      → i + length ys ≡ b.reader_index
      → Parts (record b { bytes = overwrite b.bytes i ys; reader_index = i }) (ys ++ xs)
  Parts-prepend ys i p e = record {
    front = take i p.front;
    rest = p.rest;
    cut =
        overwrite_of_parts b.bytes (take i p.front) (drop i p.front ++ (xs ++ p.rest)) ys i
          (p.cut
            ∙ rw (
              ← append_assoc (take i p.front) (drop i p.front) (xs ++ p.rest),
              take-append-drop i p.front,
            ))
          (omega (arith, p.reader_at, length-take i p.front))
        ∙ rw (
          drop_append (length ys) (drop i p.front) (xs ++ p.rest)
              (omega (arith, p.reader_at, length-drop i p.front)),
          append_assoc ys xs p.rest,
        );
    reader_at = omega (arith, p.reader_at, length-take i p.front);
    writer_at = omega (arith, p.reader_at, p.writer_at, length-take i p.front, length-append ys xs);
    front_room = omega (arith, same, p.front_room);
    fits = omega (arith, same, p.fits);
  }
    where
      same : length (overwrite b.bytes i ys) ≡ length b.bytes
      same = length-overwrite b.bytes ys i (omega (arith, p.reader_at, length-Parts p))

  -- A longer string.
  pub Parts-resize :
      (n : ℕ) (p : Parts b xs)
      → length b.bytes ≤ n
      → n ≤ max_size
      → Parts (record b { bytes = take n b.bytes ++ replicate (n - length b.bytes) 0 }) xs
  Parts-resize n p h k = record {
    front = p.front;
    rest = p.rest ++ replicate (n - length b.bytes) 0;
    cut = rw (take_all n b.bytes h) (
        ap (λ t. t ++ replicate (n - length b.bytes) 0) p.cut
        ∙ rw (
          append_assoc p.front (xs ++ p.rest) (replicate (n - length b.bytes) 0),
          append_assoc xs p.rest (replicate (n - length b.bytes) 0),
        ));
    reader_at = p.reader_at;
    writer_at = p.writer_at;
    front_room = omega (arith, length-resized b.bytes n h, p.front_room);
    fits = omega (arith, length-resized b.bytes n h);
  }

  -- What is held, moved to the start behind the reserved front.
  pub Parts-rotate :
      (i : ℕ) (p : Parts b xs)
      → i ≡ cheap_prepend + length xs
      → cheap_prepend ≤ b.reader_index
      → Parts
          (record {
            bytes = overwrite b.bytes cheap_prepend xs;
            reader_index = cheap_prepend;
            writer_index = i;
          })
          xs
  Parts-rotate i p e h = record {
    front = take cheap_prepend p.front;
    rest = drop (length xs) (drop cheap_prepend p.front ++ (xs ++ p.rest));
    cut =
        overwrite_of_parts b.bytes (take cheap_prepend p.front)
          (drop cheap_prepend p.front ++ (xs ++ p.rest)) xs cheap_prepend
          (p.cut
            ∙ rw (
              ← append_assoc (take cheap_prepend p.front) (drop cheap_prepend p.front)
                  (xs ++ p.rest),
              take-append-drop cheap_prepend p.front,
            ))
          (omega (arith, p.reader_at, length-take cheap_prepend p.front));
    reader_at = omega (arith, p.reader_at, length-take cheap_prepend p.front);
    writer_at = omega (arith, p.reader_at, length-take cheap_prepend p.front);
    front_room = omega (arith, same, p.front_room);
    fits = omega (arith, same, p.fits);
  }
    where
      same : length (overwrite b.bytes cheap_prepend xs) ≡ length b.bytes
      same =
          length-overwrite b.bytes xs cheap_prepend
            (omega (arith, p.reader_at, p.writer_at, length-Parts p))
