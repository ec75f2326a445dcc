-- ===== src/Prelude/Sizes.antt =====
-- `size_t` of a 64-bit target: sums and differences are taken modulo 2^64.
use Prim.Native.Nat.{ℕ, ◌+◌, ◌-◌, ◌%◌, ◌^◌, ◌≤◌, ◌<◌}
use mathlib.Core.Path.{◌≡◌}
use native.Mathlib.Omega.{arith}

abbrev pub add_size : ℕ → ℕ → ℕ
add_size a b = (a + b) % 2 ^ 64

abbrev pub sub_size : ℕ → ℕ → ℕ
sub_size a b = (a + 2 ^ 64 - b) % 2 ^ 64

-- No object is longer than PTRDIFF_MAX; `std::string::resize` past it throws `std::length_error`.
abbrev pub max_size : ℕ
max_size = 2 ^ 63 - 1

pub add_size_lem : (a b : ℕ) → a + b < 2 ^ 64 → add_size a b ≡ a + b
add_size_lem a b h = omega arith

pub sub_size_lem : (a b : ℕ) → b ≤ a → a < 2 ^ 64 → sub_size a b ≡ a - b
sub_size_lem a b h k = omega arith
