-- ===== src/Prelude/Faults.antt =====
-- How a call ends in the default build, where `assert` is on: with a result; with the end of the
-- process, by a failed assertion, an exception that nothing catches or `std::terminate`; or with
-- undefined behaviour, by a read past the end of an array or the use of a freed object.
use mathlib.Core.Bool.{Bool, true, false}
use mathlib.Core.Path.{◌≡◌, refl}

pub data Fault : Type 0 where
  assertion length_error runtime_error out_of_bounds use_after_free terminate : Fault

pub data Outcome {ℓ} (A : Type ℓ) : Type ℓ where
  ok : A → Outcome A
  abort : Fault → Outcome A

-- What follows a call is run only if the call returned.
infixl 5 ◌>>=◌
abbrev pub ◌>>=◌ {ℓ ℓ'} : {R : Type ℓ} {S : Type ℓ'} → Outcome R → (R → Outcome S) → Outcome S
ok result >>= next = next result
abort fault >>= next = abort fault

infixl 5 ◌>>◌
abbrev pub ◌>>◌ {ℓ'} : {S : Type ℓ'} → Outcome (Unit {0}) → Outcome S → Outcome S
first >> second = first >>= λ done. second

-- `assert(test)`
abbrev pub require : Bool → Outcome (Unit {0})
require true = ok tt
require false = abort assertion

pub bind_alike {ℓ ℓ'} :
    {R : Type ℓ} {S : Type ℓ'} (o : Outcome R) (f g : R → Outcome S)
    → ((r : R) → f r ≡ g r)
    → (o >>= f) ≡ (o >>= g)
bind_alike (ok result) f g h = h result
bind_alike (abort fault) f g h = refl

pub bind_assoc {ℓ ℓ' ℓ''} :
    {R : Type ℓ} {S : Type ℓ'} {T : Type ℓ''} (o : Outcome R) (f : R → Outcome S)
    (g : S → Outcome T)
    → (o >>= λ r. f r >>= g) ≡ (o >>= f >>= g)
bind_assoc (ok result) f g = refl
bind_assoc (abort fault) f g = refl
