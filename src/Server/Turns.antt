-- ===== src/Server/Turns.antt =====
-- The loops of the pool take turns.
use wuduo.Prelude.{
  ℕ, zero, suc, ◌%◌, ◌<◌, ◌≡◌, refl, ap, ◌∙◌, true, Option, some, List, ◌∷◌, get_elem?, arith,
  Outcome, ok,
}
use wuduo.Server.{EventLoopThreadPool, started_loops, next_loop}
use native.Mathlib.Nat.{mod-lt}

pub get_elem?-started_loops :
    (n i : ℕ) (thread : ℕ → ℕ) → i < n → get_elem? (started_loops n thread) i ≡ some (thread i)
get_elem?-started_loops zero i thread h = absurd (omega (arith, h))
get_elem?-started_loops (suc n) zero thread h = refl
get_elem?-started_loops (suc n) (suc i) thread h =
    get_elem?-started_loops n i (λ j. thread (suc j)) (omega (arith, h))

-- A pool that was started with these threads, and is about to give out this one's loop.
pub record IsAt (thread : ℕ → ℕ) (i : ℕ) (p : EventLoopThreadPool) : Type 0 where
  pub is_started : p.started ≡ true
  pub by_thread : p.workers ≡ started_loops p.num_threads thread
  pub at : p.next ≡ i
  pub in_range : i < p.num_threads

abbrev pub Turns :
    (ℕ → ℕ) → ℕ → EventLoopThreadPool → Outcome (Option ℕ × EventLoopThreadPool) → Type 0
Turns thread i p r =
    (p' : EventLoopThreadPool) × (r ≡ ok (some (thread i), p'))
    × IsAt thread (suc i % p.num_threads) p'

picks :
    (p : EventLoopThreadPool) (w : ℕ) (ws : List ℕ)
    → p.started ≡ true
    → p.workers ≡ w ∷ ws
    → next_loop p ≡ ok (get_elem? p.workers p.next, record p { next = suc p.next % p.num_threads })
unfolding next_loop
picks p w ws s e = simp (s, e)

next_loop_of :
    (thread : ℕ → ℕ) (i n : ℕ) (p : EventLoopThreadPool)
    → p.num_threads ≡ suc n
    → IsAt thread i p
    → Turns thread i p (next_loop p)
next_loop_of thread i n p e v =
    let p' : EventLoopThreadPool = record p { next = suc p.next % p.num_threads } in
    let whole : p.workers ≡ started_loops (suc n) thread =
      v.by_thread ∙ ap (λ m. started_loops m thread) e in
    let found : get_elem? p.workers p.next ≡ some (thread i) =
      ap (λ ws. get_elem? ws p.next) v.by_thread
      ∙ ap (get_elem? (started_loops p.num_threads thread)) v.at
      ∙ get_elem?-started_loops p.num_threads i thread v.in_range in
    (
      p',
      picks p (thread 0) (started_loops n (λ j. thread (suc j))) v.is_started whole
          ∙ ap (λ o. ok (o, p')) found,
      record {
        is_started = v.is_started;
        by_thread = v.by_thread;
        at = ap (λ j. suc j % p.num_threads) v.at;
        in_range = mod-lt (suc i) (omega (arith, v.in_range));
      },
    )

size_of : (n i : ℕ) → i < n → (m : ℕ) × (n ≡ suc m)
size_of zero i h = absurd (omega (arith, h))
size_of (suc n) i h = (n, refl)

-- A started pool with at least one thread gives out the loop of the thread whose turn it is, which is
-- always one of its threads, and passes the turn on to the next one, from the last back to the first.
pub next_loop-Turns :
    (thread : ℕ → ℕ) (i : ℕ) (p : EventLoopThreadPool)
    → IsAt thread i p
    → Turns thread i p (next_loop p)
next_loop-Turns thread i p v =
    let (n, e) = size_of p.num_threads i v.in_range in next_loop_of thread i n p e v
