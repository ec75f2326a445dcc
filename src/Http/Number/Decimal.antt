-- ===== src/Http/Number/Decimal.antt =====
-- Decimal numbers as they are printed, and read back by `std::stoll`.
use wuduo.Prelude.{
  ℕ, zero, suc, ◌+◌, ◌-◌, ◌*◌, ◌/◌, ◌%◌, ◌^◌, ◌≤◌, ◌<◌, ◌≡◌, refl, sym, ap, subst, ◌∙◌, true, false,
  inl, inr, some, [], ◌∷◌, ◌++◌, length, length-append, ltb, ◌==◌, arith, Bool-cases, ltb→lt,
  ltb→le, lt→ltb, le→ltb, le→leb,
}
use wuduo.Buffer.{Bytes}
use wuduo.Http.Number.{
  is_digit, is_space, skip_spaces, read_digits, starts_with_digit, split_sign, stoll, digits,
  to_decimal,
}

abbrev AreDigits : Bytes → Type 0
AreDigits [] = Unit {0}
AreDigits (c ∷ cs) = (is_digit c ≡ true) × AreDigits cs

AreDigits-append : (xs ys : Bytes) → AreDigits xs → AreDigits ys → AreDigits (xs ++ ys)
AreDigits-append [] ys h k = k
AreDigits-append (x ∷ xs) ys h k = (h.0, AreDigits-append xs ys h.1 k)

is_digit-add : (d : ℕ) → d < 10 → is_digit (b'0' + d) ≡ true
is_digit-add d h = ground arith

digits-AreDigits : (fuel n : ℕ) → AreDigits (digits fuel n)
unfolding digits
digits-AreDigits zero n = tt
digits-AreDigits (suc fuel) n = elim (Bool-cases (ltb n 10)) [
  | inl one ↦ rw one (is_digit-add n (ltb→lt n 10 one), tt)
  | inr more ↦ rw more (
      AreDigits-append (digits fuel (n / 10)) _ (digits-AreDigits fuel (n / 10))
        (is_digit-add (n % 10) (omega arith), tt))
]

read_digits-append :
    (value : ℕ) (xs ys : Bytes)
    → AreDigits xs
    → read_digits value (xs ++ ys) ≡ read_digits (read_digits value xs) ys
unfolding read_digits
read_digits-append value [] ys h = refl
read_digits-append value (x ∷ xs) ys h =
    rw h.0 (read_digits-append (value * 10 + (x - b'0')) xs ys h.1)

read_one : (value d : ℕ) → d < 10 → read_digits value ((b'0' + d) ∷ []) ≡ value * 10 + d
unfolding read_digits
read_one value d h = rw (is_digit-add d h) (omega arith)

read_digits-digits : (fuel n : ℕ) → n < fuel → read_digits 0 (digits fuel n) ≡ n
unfolding digits
read_digits-digits zero n h = absurd (omega arith)
read_digits-digits (suc fuel) n h = elim (Bool-cases (ltb n 10)) [
  | inl one ↦ rw one (read_one 0 n (ltb→lt n 10 one) ∙ omega arith)
  | inr more ↦
      let below = ltb→le n 10 more in
      rw more (
        read_digits-append 0 (digits fuel (n / 10)) _ (digits-AreDigits fuel (n / 10))
        ∙ ap (λ v. read_digits v ((b'0' + n % 10) ∷ []))
            (read_digits-digits fuel (n / 10) (omega (arith, h, below)))
        ∙ read_one (n / 10) (n % 10) (omega arith)
        ∙ omega arith)
]

digits-cons : (fuel n : ℕ) → n < fuel → (c : ℕ) × (cs : Bytes) × (digits fuel n ≡ c ∷ cs)
unfolding digits
digits-cons zero n h = absurd (omega arith)
digits-cons (suc fuel) n h = elim (Bool-cases (ltb n 10)) [
  | inl one ↦ rw one (b'0' + n, [], refl)
  | inr more ↦
      let (c, cs, e) = digits-cons fuel (n / 10) (omega (arith, h, ltb→le n 10 more)) in
      rw (more, e) (c, cs ++ (b'0' + n % 10) ∷ [], refl)
]

-- A text of digits has no spaces in front, and no sign.
stoll_of_digits :
    (xs : Bytes) (c : ℕ) (cs : Bytes)
    → xs ≡ c ∷ cs
    → is_digit c ≡ true
    → read_digits 0 xs ≤ 2 ^ 63 - 1
    → stoll xs ≡ some (false, read_digits 0 xs)
unfolding stoll skip_spaces
stoll_of_digits xs c cs e d h =
    let plain : is_space c ≡ false = ground arith in
    let not_minus : (c == b'-') ≡ false = ground arith in
    let not_plus : (c == b'+') ≡ false = ground arith in
    let front : split_sign (skip_spaces xs) ≡ (false, xs) =
      ap (λ s. split_sign (skip_spaces s)) e
      ∙ rw (plain, not_minus, not_plus) refl
      ∙ ap (λ s. (false, s)) (sym e) in
    let digit : starts_with_digit xs ≡ true = ap starts_with_digit e ∙ d in
    rw (front, digit, le→leb (read_digits 0 xs) (2 ^ 63 - 1) h) refl

-- `std::stoll` reads back every number that `std::to_string` prints of the range of `long long`.
pub stoll-to_decimal : (n : ℕ) → n < 2 ^ 63 → stoll (to_decimal n) ≡ some (false, n)
stoll-to_decimal n h =
    let (c, cs, e) = digits-cons (suc n) n (omega arith) in
    let back = read_digits-digits (suc n) n (omega arith) in
    let all = digits-AreDigits (suc n) n in
    stoll_of_digits (to_decimal n) c cs e (subst AreDigits e all).0 (omega (arith, back, h))
    ∙ ap (λ m. some (false, m)) back

-- How long the text is.
abbrev pub power10 : ℕ → ℕ
power10 zero = 1
power10 (suc k) = 10 * power10 k

pub length-digits-le : (k fuel n : ℕ) → n < power10 (suc k) → length (digits fuel n) ≤ suc k
unfolding digits
length-digits-le k zero n h = omega arith
length-digits-le zero (suc fuel) n h = rw (lt→ltb n 10 (omega (arith, h))) (omega arith)
length-digits-le (suc k) (suc fuel) n h = elim (Bool-cases (ltb n 10)) [
  | inl one ↦ rw one (omega arith)
  | inr more ↦ rw more (
      omega (
        arith,
        length-append (digits fuel (n / 10)) ((b'0' + n % 10) ∷ []),
        length-digits-le k fuel (n / 10) (omega (arith, h)),
      ))
]

power10_pos : (k : ℕ) → 0 < power10 k
power10_pos zero = omega arith
power10_pos (suc k) = omega (arith, power10_pos k)

pub lt-length-digits : (k fuel n : ℕ) → n < fuel → power10 k ≤ n → k < length (digits fuel n)
unfolding digits
lt-length-digits k zero n w h = absurd (omega arith)
lt-length-digits zero (suc fuel) n w h =
    let (c, cs, e) = digits-cons (suc fuel) n w in omega (arith, ap length e)
lt-length-digits (suc k) (suc fuel) n w h = rw (le→ltb n 10 (omega (arith, h, power10_pos k))) (
    omega (
      arith,
      length-append (digits fuel (n / 10)) ((b'0' + n % 10) ∷ []),
      lt-length-digits k fuel (n / 10) (omega (arith, w, h, power10_pos k)) (omega (arith, h)),
    ))
