-- ===== src/Http/Request/Headers.antt =====
-- The headers of `HttpRequest`, as `add_header_from` adds and `get_header` finds them.
use wuduo.Prelude.{
  ℕ, zero, suc, ◌≡◌, ◌≢◌, refl, Bool, true, false, Option, none, some, [], ◌∷◌, ◌++◌, if◌then◌else◌,
  length, drop, arith, take_append,
}
use wuduo.Buffer.{Bytes}
use wuduo.Http.Text.{space, equal, find_not_space}
use wuduo.Http.Text.Find.{Lacks, find_char_append, find_char-none}
use wuduo.Http.Request.{HttpRequest, find_header, get_header, emplace, add_header_from}

-- `n` spaces.
abbrev pub spaces : ℕ → Bytes
spaces zero = []
spaces (suc n) = space ∷ spaces n

find_not_space_append :
    (n c : ℕ) (cs : Bytes) → c ≢ space → find_not_space (spaces n ++ (c ∷ cs)) ≡ some n
unfolding find_not_space
find_not_space_append zero c cs h = ground arith
find_not_space_append (suc n) c cs h = rw (find_not_space_append n c cs h)

drop-spaces : (n : ℕ) (xs : Bytes) → drop n (spaces n ++ xs) ≡ xs
drop-spaces zero xs = refl
drop-spaces (suc n) xs = drop-spaces n xs

find_not_space-none : (n : ℕ) → find_not_space (spaces n) ≡ none
unfolding find_not_space
find_not_space-none zero = refl
find_not_space-none (suc n) = rw (find_not_space-none n)

drop_past : (xs : Bytes) (c : ℕ) (ys : Bytes) → drop (suc (length xs)) (xs ++ (c ∷ ys)) ≡ ys
drop_past [] c ys = refl
drop_past (x ∷ xs) c ys = drop_past xs c ys

-- The line that `add_header_from` reads as this key and value.
abbrev pub header_line : Bytes → ℕ → Bytes → Bytes
header_line key n value = key ++ (b':' ∷ (spaces n ++ value))

add_header_from-emplace :
    (r : HttpRequest) (key : Bytes) (n c : ℕ) (value : Bytes)
    → Lacks b':' key
    → c ≢ space
    → add_header_from r (header_line key n (c ∷ value)) ≡ (
      (emplace key (c ∷ value) r.headers).0,
      record r { headers = (emplace key (c ∷ value) r.headers).1 },
    )
unfolding add_header_from
add_header_from-emplace r key n c value h ne = rw (
  find_char_append b':' key (spaces n ++ (c ∷ value)) h,
  add_header_from,
  drop_past key b':' (spaces n ++ (c ∷ value)),
  find_not_space_append n c value ne,
  drop_past key b':' (spaces n ++ (c ∷ value)),
  drop-spaces n (c ∷ value),
  take_append (length key) key (b':' ∷ (spaces n ++ (c ∷ value))) refl,
)

-- What adding a header does, by what `get_header` finds under its key before.
abbrev pub Adds : HttpRequest → Bytes → Bytes → Option Bytes → Bool × HttpRequest → Type 0
Adds r key value none (added, r') =
    (added ≡ true)
    × (r'.request_line ≡ r.request_line)
    × ((j : Bytes) → get_header r' j ≡ (if equal key j then some value else get_header r j))
Adds r key value (some old) (added, r') = (added ≡ false) × (r' ≡ r)

emplace-Adds :
    (r : HttpRequest) (key value : Bytes) (old : Option Bytes)
    → get_header r key ≡ old
    → Adds r key value old
        ((emplace key value r.headers).0, record r { headers = (emplace key value r.headers).1 })
unfolding get_header emplace find_header
emplace-Adds r key value none e = rw (e, emplace) (refl, refl, λ j. refl)
emplace-Adds r key value (some old) e = rw (e, emplace) (refl, refl)

-- A line of a key without a colon, a colon, any number of spaces and a value is added under its key
-- if the key is new: `get_header` then finds the value there, and every other header as before. If
-- the key is there already, the call answers `false` and the request stays as it was.
pub add_header_from-Adds :
    (r : HttpRequest) (key : Bytes) (n c : ℕ) (value : Bytes)
    → Lacks b':' key
    → c ≢ space
    → Adds r key (c ∷ value) (get_header r key) (add_header_from r (header_line key n (c ∷ value)))
add_header_from-Adds r key n c value h ne =
    rw (add_header_from-emplace r key n c value h ne)
      (emplace-Adds r key (c ∷ value) (get_header r key) refl)

-- A line with no colon, or with only spaces behind its colon, is refused and changes nothing.
pub add_header_from_refuses :
    (r : HttpRequest) (key : Bytes) (n : ℕ)
    → Lacks b':' key
    → (add_header_from r key ≡ (false, r))
      × (add_header_from r (key ++ (b':' ∷ spaces n)) ≡ (false, r))
unfolding add_header_from
add_header_from_refuses r key n h = (
  rw (find_char-none b':' key h, add_header_from),
  rw (
    find_char_append b':' key (spaces n) h,
    add_header_from,
    drop_past key b':' (spaces n),
    find_not_space-none n,
  ),
)
