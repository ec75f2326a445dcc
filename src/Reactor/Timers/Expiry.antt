-- ===== src/Reactor/Timers/Expiry.antt =====
-- What expires, and what stays in the timer queue.
use wuduo.Prelude.{
  ℕ, ◌≤◌, ◌<◌, ◌≡◌, refl, ap, inl, inr, true, false, List, [], ◌∷◌, ◌++◌, arith, Bool-cases,
}
use wuduo.Reactor.Timers.{
  Entry, before, TimerQueue, emplace, uintptr_max, split_before, get_expired,
}

abbrev pub All : (Entry → Type 0) → List Entry → Type 0
All P [] = Unit {0}
All P (x ∷ xs) = P x × All P xs

-- In the order of the set, from an entry on.
abbrev pub Ordered : List Entry → Type 0
Ordered [] = Unit {0}
Ordered (x ∷ xs) = All (λ y. before x y ≡ true) xs × Ordered xs

-- An address is below the bound that `get_expired` pairs with the time.
abbrev pub Addressed : List Entry → Type 0
Addressed xs = All (λ x. x.timer < uintptr_max) xs

abbrev bound : ℕ → Entry
bound now = record { when = now; timer = uintptr_max }

expired_iff :
    (now : ℕ) (x : Entry) → x.timer < uintptr_max → before x (bound now) ≡ true → x.when ≤ now
expired_iff now x h b = ground arith

valid_iff :
    (now : ℕ) (x : Entry) → x.timer < uintptr_max → before x (bound now) ≡ false → now < x.when
valid_iff now x h b = ground arith

later :
    (now : ℕ) (x : Entry) (xs : List Entry)
    → now < x.when
    → All (λ y. before x y ≡ true) xs
    → All (λ y. now < y.when) xs
later now x [] h a = tt
later now x (y ∷ ys) h a = (after a.0, later now x ys h a.1)
  where
    after : before x y ≡ true → now < y.when
    after b = ground arith

-- The entries up to a time, and those behind it.
abbrev pub SplitAt : ℕ → List Entry → List Entry × List Entry → Type 0
SplitAt now xs (expired, valid) =
    (expired ++ valid ≡ xs)
    × All (λ x. x.when ≤ now) expired
    × All (λ x. now < x.when) valid
    × Ordered valid

split-SplitAt :
    (now : ℕ) (xs : List Entry)
    → Ordered xs
    → Addressed xs
    → SplitAt now xs (split_before (bound now) xs)
unfolding split_before
split-SplitAt now [] o a = (refl, tt, tt, tt)
split-SplitAt now (x ∷ xs) o a =
    let (whole, early, late, ordered) = split-SplitAt now xs o.1 a.1 in
    elim (Bool-cases (before x (bound now))) [
      | inl b ↦ rw b (ap (◌∷◌ x) whole, (expired_iff now x a.0 b, early), late, ordered)
      | inr b ↦
          rw b (refl, tt, (valid_iff now x a.0 b, later now x xs (valid_iff now x a.0 b) o.0), o)
    ]

-- `get_expired` on a queue in order takes out exactly the timers whose time is not after `now`, in the
-- order of their times, leaves exactly those whose time is after it, in order, and does not touch
-- the timer. An address is less than `UINTPTR_MAX`.
pub get_expired-SplitAt :
    (now : ℕ) (q : TimerQueue)
    → Ordered q.timers
    → Addressed q.timers
    → SplitAt now q.timers ((get_expired now q).0, (get_expired now q).1.timers)
      × ((get_expired now q).1.settings ≡ q.settings)
unfolding get_expired
get_expired-SplitAt now q o a = (split-SplitAt now q.timers o a, refl)

before_trans : (a b c : Entry) → before a b ≡ true → before b c ≡ true → before a c ≡ true
before_trans a b c h k = ground arith

ahead_of_rest :
    (e x : Entry) (xs : List Entry)
    → before e x ≡ true
    → All (λ y. before x y ≡ true) xs
    → All (λ y. before e y ≡ true) xs
ahead_of_rest e x [] h a = tt
ahead_of_rest e x (y ∷ ys) h a = (before_trans e x y h a.0, ahead_of_rest e x ys h a.1)

emplace_after :
    (x e : Entry) (xs : List Entry)
    → before x e ≡ true
    → All (λ y. before x y ≡ true) xs
    → All (λ y. before x y ≡ true) (emplace e xs)
unfolding emplace
emplace_after x e [] h a = (h, tt)
emplace_after x e (y ∷ ys) h a = elim (Bool-cases (before e y)) [
  | inl b ↦ rw b (h, a)
  | inr b ↦ elim (Bool-cases (before y e)) [
    | inl c ↦ rw (b, c) (a.0, emplace_after x e ys h a.1)
    | inr c ↦ rw (b, c) a
  ]
]

pub emplace-Ordered : (e : Entry) (xs : List Entry) → Ordered xs → Ordered (emplace e xs)
unfolding emplace
emplace-Ordered e [] o = (tt, tt)
emplace-Ordered e (x ∷ xs) o = elim (Bool-cases (before e x)) [
  | inl b ↦ rw b ((b, ahead_of_rest e x xs b o.0), o)
  | inr b ↦ elim (Bool-cases (before x e)) [
    | inl c ↦ rw (b, c) (emplace_after x e xs c o.0, emplace-Ordered e xs o.1)
    | inr c ↦ rw (b, c) o
  ]
]
