-- ===== src/Http/Text.antt =====
-- The parts of `std::string_view` that wuduo/http uses, on lists of bytes.
pub mod Find
use Prim.Native.Char.{code}
use Prim.Native.String.{String}
use mathlib.Core.Option
use wuduo.Prelude.{
  ℕ, suc, Bool, true, false, ◌&&◌, Option, none, some, List, [], ◌∷◌, ◌==◌, if◌then◌else◌,
}
use wuduo.Buffer.{Bytes}

-- The bytes of an ASCII literal.
abbrev pub codes : String → Bytes
codes String.[] = []
codes (String.◌∷◌ c s) = code c ∷ codes s

abbrev pub space : ℕ
space = 32

abbrev pub carriage_return : ℕ
carriage_return = 13

abbrev pub line_feed : ℕ
line_feed = 10

-- `s == t`
unfoldable pub equal : Bytes → Bytes → Bool
equal [] [] = true
equal [] (y ∷ ys) = false
equal (x ∷ xs) [] = false
equal (x ∷ xs) (y ∷ ys) = (x == y) && equal xs ys

-- `s.find(c)`; `npos` is `none`.
unfoldable pub find_char : ℕ → Bytes → Option ℕ
find_char c [] = none
find_char c (x ∷ xs) = if x == c then some 0 else Option.map suc (find_char c xs)

abbrev pub starts_with_cr_lf : Bytes → Bool
starts_with_cr_lf (x ∷ y ∷ xs) = (x == carriage_return) && (y == line_feed)
starts_with_cr_lf _ = false

-- `s.find("\r\n")`
unfoldable pub find_cr_lf : Bytes → Option ℕ
find_cr_lf [] = none
find_cr_lf (x ∷ xs) = if starts_with_cr_lf (x ∷ xs) then some 0 else Option.map suc (find_cr_lf xs)

-- `s.find_first_not_of(' ')`
unfoldable pub find_not_space : Bytes → Option ℕ
find_not_space [] = none
find_not_space (x ∷ xs) = if x == space then Option.map suc (find_not_space xs) else some 0

-- `s.find_last_of(c)`
unfoldable pub find_last : ℕ → Bytes → Option ℕ
find_last c [] = none
find_last c (x ∷ xs) = elim (find_last c xs) [
  | some n ↦ some (suc n)
  | none ↦ if x == c then some 0 else none
]
