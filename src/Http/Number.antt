-- ===== src/Http/Number.antt =====
-- `std::stoll`, as wuduo/http uses it on a header, and `std::to_string` of a number.
pub mod Decimal
use wuduo.Prelude.{
  ◌++◌, ◌/◌, ◌%◌, zero, suc, ℕ, ◌+◌, ◌*◌, ◌-◌, ◌^◌, Bool, true, false, ◌&&◌, ◌||◌, Option, none,
  some, [], ◌∷◌, ◌==◌, leb, ltb, if◌then◌else◌,
}
use wuduo.Buffer.{Bytes}

-- `isspace`
abbrev pub is_space : ℕ → Bool
is_space c = (c == 32) || (leb 9 c && leb c 13)

abbrev pub is_digit : ℕ → Bool
is_digit c = leb b'0' c && leb c b'9'

unfoldable pub skip_spaces : Bytes → Bytes
skip_spaces [] = []
skip_spaces (c ∷ cs) = if is_space c then skip_spaces cs else c ∷ cs

-- The digits in front, behind the value read so far.
unfoldable pub read_digits : ℕ → Bytes → ℕ
read_digits value [] = value
read_digits value (c ∷ cs) =
    let rest = read_digits (value * 10 + (c - b'0')) cs in if is_digit c then rest else value

abbrev pub starts_with_digit : Bytes → Bool
starts_with_digit [] = false
starts_with_digit (c ∷ cs) = is_digit c

-- A sign and the text behind it.
abbrev pub split_sign : Bytes → Bool × Bytes
split_sign [] = (false, [])
split_sign (c ∷ cs) =
    if c == b'-' then (true, cs) else if c == b'+' then (false, cs) else (false, c ∷ cs)

-- `std::stoll(s)`: whether it is below zero, and how far from zero. `none` is the exception, for a
-- text that does not start with a number and for a number out of the range of `long long`.
unfoldable pub stoll : Bytes → Option (Bool × ℕ)
stoll s =
    let (negative, digits) = split_sign (skip_spaces s) in
    if starts_with_digit digits
    then (if leb (read_digits 0 digits) (if negative then 2 ^ 63 else 2 ^ 63 - 1)
        then some (negative && ltb 0 (read_digits 0 digits), read_digits 0 digits)
        else none)
    else none

-- The decimal digits of a number, the last one first told apart.
unfoldable pub digits : ℕ → ℕ → Bytes
digits zero n = []
digits (suc fuel) n =
    let front = digits fuel (n / 10) in
    if ltb n 10 then (b'0' + n) ∷ [] else front ++ (b'0' + n % 10) ∷ []

-- `std::to_string(n)`, and `%d` and `%zd` of a number that is not below zero.
abbrev pub to_decimal : ℕ → Bytes
to_decimal n = digits (suc n) n
