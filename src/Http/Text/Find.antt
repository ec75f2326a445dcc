-- ===== src/Http/Text/Find.antt =====
-- What the searches of `std::string_view` find.
use mathlib.Core.Option
use wuduo.Prelude.{
  ℕ, zero, suc, ◌+◌, ◌≤◌, ◌≡◌, ◌≢◌, refl, ap, subst, true, ◌&&◌, Option, none, some, [], ◌∷◌, ◌++◌,
  ◌==◌, length, take, drop, arith, Bool-cases, inl, inr, ◌↔◌, ==_iff, ==_refl,
}
use wuduo.Buffer.{Bytes}
use wuduo.Http.Text.{equal, find_char, find_cr_lf, carriage_return, line_feed}

pub equal_iff : (xs ys : Bytes) → (equal xs ys ≡ true) ↔ (xs ≡ ys)
unfolding equal
equal_iff (x ∷ xs) (y ∷ ys) = ground (arith, equal_iff xs ys)
equal_iff _ _ = ground arith

pub equal_refl : (xs : Bytes) → equal xs xs ≡ true
equal_refl xs = (equal_iff xs xs).1 refl

-- The byte occurs nowhere.
abbrev pub Lacks : ℕ → Bytes → Type 0
Lacks c [] = Unit {0}
Lacks c (x ∷ xs) = (x ≢ c) × Lacks c xs

pub Lacks-append : (c : ℕ) (xs ys : Bytes) → Lacks c xs → Lacks c ys → Lacks c (xs ++ ys)
Lacks-append c [] ys h k = k
Lacks-append c (x ∷ xs) ys h k = (h.0, Lacks-append c xs ys h.1 k)

pub Lacks-of_append : (c : ℕ) (xs ys : Bytes) → Lacks c (xs ++ ys) → Lacks c xs × Lacks c ys
Lacks-of_append c [] ys h = (tt, h)
Lacks-of_append c (x ∷ xs) ys h = let (l, r) = Lacks-of_append c xs ys h.1 in ((h.0, l), r)

pub Lacks-take : (c n : ℕ) (xs : Bytes) → Lacks c xs → Lacks c (take n xs)
Lacks-take c zero xs h = tt
Lacks-take c (suc n) [] h = tt
Lacks-take c (suc n) (x ∷ xs) h = (h.0, Lacks-take c n xs h.1)

pub Lacks-drop : (c n : ℕ) (xs : Bytes) → Lacks c xs → Lacks c (drop n xs)
Lacks-drop c zero xs h = h
Lacks-drop c (suc n) [] h = tt
Lacks-drop c (suc n) (x ∷ xs) h = Lacks-drop c n xs h.1

abbrev pub FindsChar : ℕ → Bytes → Option ℕ → Type 0
FindsChar c xs none = Lacks c xs
FindsChar c xs (some n) = Lacks c (take n xs) × (xs ≡ take n xs ++ (c ∷ drop (suc n) xs))

map-FindsChar :
    (c x : ℕ) (xs : Bytes) (r : Option ℕ)
    → x ≢ c
    → FindsChar c xs r
    → FindsChar c (x ∷ xs) (Option.map suc r)
map-FindsChar c x xs none ne h = (ne, h)
map-FindsChar c x xs (some n) ne h = ((ne, h.0), ap (◌∷◌ x) h.1)

-- `find(c)` answers the first place of `c`, and `npos` only where there is none.
pub find_char-FindsChar : (c : ℕ) (xs : Bytes) → FindsChar c xs (find_char c xs)
unfolding find_char
find_char-FindsChar c [] = tt
find_char-FindsChar c (x ∷ xs) = elim (Bool-cases (x == c)) [
  | inl hit ↦ rw hit (tt, ap (λ k. k ∷ xs) ((==_iff x c).0 hit))
  | inr miss ↦
      rw miss (map-FindsChar c x xs (find_char c xs) (λ e. ground arith) (find_char-FindsChar c xs))
]

pub find_char_append :
    (c : ℕ) (xs ys : Bytes) → Lacks c xs → find_char c (xs ++ (c ∷ ys)) ≡ some (length xs)
unfolding find_char
find_char_append c [] ys h = rw (==_refl c)
find_char_append c (x ∷ xs) ys h = ground (arith, find_char_append c xs ys h.1)

pub find_char-none : (c : ℕ) (xs : Bytes) → Lacks c xs → find_char c xs ≡ none
unfolding find_char
find_char-none c [] h = refl
find_char-none c (x ∷ xs) h = ground (arith, find_char-none c xs h.1)

pub find_char-some :
    (c n : ℕ) (xs : Bytes)
    → find_char c xs ≡ some n
    → Lacks c (take n xs) × (xs ≡ take n xs ++ (c ∷ drop (suc n) xs))
find_char-some c n xs e = subst (FindsChar c xs) e (find_char-FindsChar c xs)

pub find_char-Lacks : (c : ℕ) (xs : Bytes) → find_char c xs ≡ none → Lacks c xs
find_char-Lacks c xs e = subst (FindsChar c xs) e (find_char-FindsChar c xs)

abbrev pub cr_lf : Bytes
cr_lf = carriage_return ∷ line_feed ∷ []

pub find_cr_lf_append :
    (xs ys : Bytes)
    → Lacks carriage_return xs
    → find_cr_lf (xs ++ (carriage_return ∷ line_feed ∷ ys)) ≡ some (length xs)
unfolding find_cr_lf
find_cr_lf_append [] ys h = refl
find_cr_lf_append (x ∷ []) ys h = ground (arith, find_cr_lf_append [] ys tt, h.0)
find_cr_lf_append (x ∷ y ∷ xs) ys h = ground (arith, find_cr_lf_append (y ∷ xs) ys h.1, h.0)

find_cr_lf-le-shift :
    (n : ℕ) (r : Option ℕ) (size : ℕ)
    → Option.map suc r ≡ some n
    → ((m : ℕ) → r ≡ some m → m + 2 ≤ size)
    → n + 2 ≤ suc size
find_cr_lf-le-shift n none size e h = absurd (cc)
find_cr_lf-le-shift n (some m) size e h = ground (arith, h m refl)

-- What `find("\r\n")` finds lies, with its two bytes, inside the text.
pub find_cr_lf-le : (xs : Bytes) (n : ℕ) → find_cr_lf xs ≡ some n → n + 2 ≤ length xs
unfolding find_cr_lf
find_cr_lf-le [] n e = absurd (cc)
find_cr_lf-le (x ∷ []) n e = absurd (cc)
find_cr_lf-le (x ∷ y ∷ xs) n e = elim (Bool-cases ((x == carriage_return) && (y == line_feed))) [
  | inl hit ↦ ground arith
  | inr miss ↦
      find_cr_lf-le-shift n (find_cr_lf (y ∷ xs)) (length (y ∷ xs)) (ground arith)
        (find_cr_lf-le (y ∷ xs))
]
