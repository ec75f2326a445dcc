-- ===== src/Http/Context/Length.antt =====
-- The length of a body, as a header gives it.
use wuduo.Prelude.{ℕ, ◌^◌, ◌<◌, ◌≡◌, refl, some}
use wuduo.Http.Number.{to_decimal}
use wuduo.Http.Number.Decimal.{stoll-to_decimal}
use wuduo.Http.Context.{content_length}

-- Every length that `std::to_string` prints of the range of `long long`, as the response prints its own,
-- is read back by the parser as the length of a body.
pub content_length-to_decimal : (n : ℕ) → n < 2 ^ 63 → content_length (to_decimal n) ≡ some n
unfolding content_length
content_length-to_decimal n h = rw (stoll-to_decimal n h, content_length) refl
