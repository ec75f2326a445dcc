-- ===== src/Http/Response/Writing.antt =====
-- Several texts appended to a buffer with room for them all.
use wuduo.Prelude.{
  ℕ, ◌+◌, ◌≤◌, ◌≡◌, refl, sym, ap, ◌∙◌, List, [], ◌∷◌, ◌++◌, append_assoc, append-nil, length,
  length-append, arith, max_size, Outcome, ok, abort, ◌>>=◌,
}
use wuduo.Buffer.{Bytes, Buffer, peek, append}
use wuduo.Buffer.Invariant.{IsValid}
use wuduo.Buffer.Contents.{Holds}
use wuduo.Buffer.Growth.{Appends, append-Appends}
use wuduo.Http.Text.{codes}
use wuduo.Http.Response.{append_headers, append_all, cr_lf}

-- A valid buffer whose string can grow by so many bytes.
abbrev pub HasRoom : Buffer → ℕ → Type 0
HasRoom b n = IsValid b × (b.writer_index + n ≤ max_size)

-- The call returns, with these bytes behind those that were held.
abbrev pub Extends : Buffer → Bytes → Outcome Buffer → Type 0
Extends b xs r =
    (b' : Buffer) × (r ≡ ok b')
    × Holds b' (peek b ++ xs)
    × (b'.writer_index ≤ b.writer_index + length xs)

Extends-Appends :
    (b : Buffer) (xs : Bytes) (r : Outcome Buffer)
    → HasRoom b (length xs)
    → Appends b xs r
    → Extends b xs r
Extends-Appends b xs (ok b') h a = (b', refl, a.0, a.1)
Extends-Appends b xs (abort f) h a = absurd (omega (arith, h.1, a.0))

pub append-Extends : (b : Buffer) (xs : Bytes) → HasRoom b (length xs) → Extends b xs (append b xs)
append-Extends b xs h =
    Extends-Appends b xs (append b xs) h (append-Appends b xs h.0 (omega (arith, h.1)))

-- One call after another.
pub >>=-Extends :
    (b : Buffer) (xs ys : Bytes) (r : Outcome Buffer) (next : Buffer → Outcome Buffer)
    → HasRoom b (length (xs ++ ys))
    → Extends b xs r
    → ((b' : Buffer) → HasRoom b' (length ys) → Extends b' ys (next b'))
    → Extends b (xs ++ ys) (r >>= next)
>>=-Extends b xs ys r next h (b₁, e, held, w) later =
    let total = length-append xs ys in
    let (b₂, e', held', w') = later b₁ (held.0, omega (arith, total, w, h.1)) in
    (
      b₂,
      rw e e',
      (held'.0, held'.1 ∙ ap (λ zs. zs ++ ys) held.1 ∙ append_assoc (peek b) xs ys),
      omega (arith, total, w, w'),
    )

-- A call of `append`, and what follows.
pub append_then :
    (b : Buffer) (xs ys : Bytes) (next : Buffer → Outcome Buffer)
    → HasRoom b (length (xs ++ ys))
    → ((b' : Buffer) → HasRoom b' (length ys) → Extends b' ys (next b'))
    → Extends b (xs ++ ys) (append b xs >>= next)
append_then b xs ys next h later =
    >>=-Extends b xs ys (append b xs) next h
      (append-Extends b xs (h.0, omega (arith, h.1, length-append xs ys))) later

pub nothing_more : (b : Buffer) → HasRoom b 0 → Extends b [] (ok b)
nothing_more b h = (b, refl, (h.0, sym (append-nil (peek b))), omega arith)

abbrev pub header_text : List (Bytes × Bytes) → Bytes
header_text [] = []
header_text ((k, v) ∷ rest) = k ++ (codes ": " ++ (v ++ (cr_lf ++ header_text rest)))

pub append_headers-Extends :
    (hs : List (Bytes × Bytes)) (b : Buffer)
    → HasRoom b (length (header_text hs))
    → Extends b (header_text hs) (append_headers b hs)
append_headers-Extends [] b h = nothing_more b h
append_headers-Extends ((k, v) ∷ rest) b h = append_then b k _ _ h λ b₁ h₁.
    append_then b₁ (codes ": ") _ _ h₁ λ b₂ h₂. append_then b₂ v _ _ h₂ λ b₃ h₃.
      append_then b₃ cr_lf (header_text rest) (λ b₄. append_headers b₄ rest) h₃
        (append_headers-Extends rest)

abbrev pub join : List Bytes → Bytes
join [] = []
join (text ∷ rest) = text ++ join rest

pub append_all-Extends :
    (texts : List Bytes) (b : Buffer)
    → HasRoom b (length (join texts))
    → Extends b (join texts) (append_all b texts)
append_all-Extends [] b h = nothing_more b h
append_all-Extends (text ∷ rest) b h =
    append_then b text (join rest) (λ b'. append_all b' rest) h (append_all-Extends rest)
