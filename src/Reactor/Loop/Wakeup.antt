-- ===== src/Reactor/Loop/Wakeup.antt =====
-- No pending task is forgotten while the loop's thread blocks.
use wuduo.Prelude.{
  ℕ, zero, suc, ◌<◌, ◌≡◌, refl, sym, subst, ◌∙◌, ◌⊎◌, inl, inr, Bool, true, false, ◌||◌, Option,
  none, some, List, [], ◌∷◌, ◌++◌, if◌then◌else◌, arith,
}
use wuduo.Reactor.Loop.{
  Phase, polling, handling, doing, left, EventLoop, entered, Action, moves, reads_wakeup, quits,
  Effect, sets_quit, wakes, pushes, begin, advance, take_if_any, take_effect, take_effects, go_on,
  goes_on, queues, runs, other_quits, other_runs, act, loop, run_in_loop, ask_to_quit, take_tasks,
  do_task, finish_tasks,
}

abbrev is_waking : List Effect → Bool
is_waking (wakes ∷ es) = true
is_waking _ = false

-- A call of another thread that has done all but to wake the loop.
abbrev pub about_to_wake : List (List Effect) → Bool
about_to_wake [] = false
about_to_wake (es ∷ calls) = is_waking es || about_to_wake calls

-- Nothing is pending, or `epoll_wait` will return, or another thread is about to make it return.
abbrev pub Heard : List ℕ → ℕ → List (List Effect) → Type 0
Heard pending wakeups others = (pending ≡ []) ⊎ ((0 < wakeups) ⊎ (about_to_wake others ≡ true))

abbrev HeardIn : EventLoop → Type 0
HeardIn l = Heard l.pending_tasks l.wakeups l.others

-- Behind each push comes a wake-up.
abbrev Proper : List Effect → Type 0
Proper [] = Unit {0}
Proper (wakes ∷ es) = Proper es
Proper (sets_quit ∷ es) = Proper es
Proper (pushes task ∷ es) = (is_waking es ≡ true) × Proper es

abbrev AllProper : List (List Effect) → Type 0
AllProper [] = Unit {0}
AllProper (es ∷ calls) = Proper es × AllProper calls

AllProper-append :
    (calls : List (List Effect)) (es : List Effect)
    → AllProper calls
    → Proper es
    → AllProper (calls ++ es ∷ [])
AllProper-append [] es v h = (h, tt)
AllProper-append (c ∷ calls) es (v, vs) h = (v, AllProper-append calls es vs h)

about_to_wake-append :
    (calls : List (List Effect)) (es : List Effect)
    → about_to_wake calls ≡ true
    → about_to_wake (calls ++ es ∷ []) ≡ true
about_to_wake-append [] es h = absurd (ground (arith, h))
about_to_wake-append (c ∷ calls) es h = ground (arith, about_to_wake-append calls es, h)

-- What an effect leaves behind.
abbrev Advanced : List (List Effect) → Option Effect × List (List Effect) → Type 0
Advanced calls (some (pushes task), calls') = (about_to_wake calls' ≡ true) × AllProper calls'
Advanced calls (some wakes, calls') = AllProper calls'
Advanced calls (some sets_quit, calls') =
    (about_to_wake calls ≡ true → about_to_wake calls' ≡ true) × AllProper calls'
Advanced calls (none, calls') =
    (about_to_wake calls ≡ true → about_to_wake calls' ≡ true) × AllProper calls'

advance-Advanced :
    (n : ℕ) (calls : List (List Effect)) → AllProper calls → Advanced calls (advance n calls)
advance-Advanced n [] v = (λ h. h, tt)
advance-Advanced zero ([] ∷ calls) v = (λ h. h, v)
advance-Advanced zero ((wakes ∷ es) ∷ calls) v = v
advance-Advanced zero ((sets_quit ∷ es) ∷ calls) v = (λ h. ground (arith, h), v)
advance-Advanced zero ((pushes task ∷ es) ∷ calls) ((h, v), vs) = (ground (arith, h), (v, vs))
advance-Advanced (suc n) (es ∷ calls) (v, vs) =
    behind (advance n calls) (advance-Advanced n calls vs)
  where
    behind :
        (r : Option Effect × List (List Effect))
        → Advanced calls r
        → Advanced (es ∷ calls) (let (e, calls') = r in (e, es ∷ calls'))
    behind (some (pushes task), calls') (h, w) = (ground (arith, h), (v, w))
    behind (some wakes, calls') w = (v, w)
    behind (some sets_quit, calls') (h, w) = (λ k. ground (arith, h, k), (v, w))
    behind (none, calls') (h, w) = (λ k. ground (arith, h, k), (v, w))

abbrev pub InPhase : Phase → EventLoop → Type 0
InPhase polling l = HeardIn l × (l.doing_pending_tasks ≡ false)
InPhase handling l = l.doing_pending_tasks ≡ false
InPhase (doing ts) l = HeardIn l × (l.doing_pending_tasks ≡ true)
InPhase left l = l.doing_pending_tasks ≡ false

abbrev pub Awake : EventLoop → Type 0
Awake l = InPhase l.phase l × AllProper l.others

module _ (l : EventLoop) where
  still : (p : Phase) → l.phase ≡ p → InPhase p l → AllProper l.others → Awake l
  still p e v w = (subst (λ q. InPhase q l) (sym e) v, w)

  -- After what happened elsewhere, whatever the phase.
  kept :
      (p : Phase) (l' : EventLoop)
      → l.phase ≡ p
      → InPhase p l
      → l'.phase ≡ l.phase
      → l'.doing_pending_tasks ≡ l.doing_pending_tasks
      → (HeardIn l → HeardIn l')
      → AllProper l'.others
      → Awake l'
  kept p l' e v same d h w = (subst (λ q. InPhase q l') (sym (same ∙ e)) (by_phase p v), w)
    where
      by_phase : (q : Phase) → InPhase q l → InPhase q l'
      by_phase polling u = (h u.0, d ∙ u.1)
      by_phase handling u = d ∙ u
      by_phase (doing ts) u = (h u.0, d ∙ u.1)
      by_phase left u = d ∙ u

  wakes_on :
      (calls : List (List Effect))
      → (about_to_wake l.others ≡ true → about_to_wake calls ≡ true)
      → HeardIn l
      → Heard l.pending_tasks l.wakeups calls
  wakes_on calls h (inl e) = inl e
  wakes_on calls h (inr (inl w)) = inr (inl w)
  wakes_on calls h (inr (inr b)) = inr (inr (h b))

  begin-Awake :
      (p : Phase) (es : List Effect)
      → l.phase ≡ p
      → InPhase p l
      → AllProper l.others
      → Proper es
      → Awake (begin es l)
  begin-Awake p es e v w h =
      kept p (begin es l) e v refl refl
        (wakes_on (l.others ++ es ∷ []) (about_to_wake-append l.others es))
        (AllProper-append l.others es w h)

  go_on-Awake :
      (p : Phase) (n : ℕ) → l.phase ≡ p → InPhase p l → AllProper l.others → Awake (go_on n l)
  unfolding go_on take_effect
  go_on-Awake p n e v w = after (advance n l.others) (advance-Advanced n l.others w)
    where
      after :
          (r : Option Effect × List (List Effect))
          → Advanced l.others r
          → Awake (let (x, calls) = r in take_if_any x (record l { others = calls }))
      after (none, calls) (h, w') = kept p _ e v refl refl (wakes_on calls h) w'
      after (some sets_quit, calls) (h, w') = kept p _ e v refl refl (wakes_on calls h) w'
      after (some (pushes task), calls) (h, w') = kept p _ e v refl refl (λ u. inr (inr h)) w'
      after (some wakes, calls) w' = kept p _ e v refl refl (λ u. inr (inl (omega arith))) w'

  polling-Awake :
      (a : Action)
      → l.phase ≡ polling
      → InPhase polling l
      → AllProper l.others
      → Awake (act polling a l)
  unfolding act run_in_loop ask_to_quit take_effect take_effects take_tasks
  polling-Awake (other_runs task) e v w = begin-Awake polling _ e v w (refl, tt)
  polling-Awake other_quits e v w = begin-Awake polling _ e v w tt
  polling-Awake (goes_on n) e v w = go_on-Awake polling n e v w
  polling-Awake moves e v w = (v.1, w)
  polling-Awake reads_wakeup e v w = still polling e v w
  polling-Awake quits e v w = still polling e v w
  polling-Awake (queues task) e v w = still polling e v w
  polling-Awake (runs task) e v w = still polling e v w

  handling-Awake :
      (a : Action)
      → l.phase ≡ handling
      → InPhase handling l
      → AllProper l.others
      → Awake (act handling a l)
  unfolding act run_in_loop ask_to_quit take_effect take_effects take_tasks
  handling-Awake (other_runs task) e v w = begin-Awake handling _ e v w (refl, tt)
  handling-Awake other_quits e v w = begin-Awake handling _ e v w tt
  handling-Awake (goes_on n) e v w = go_on-Awake handling n e v w
  handling-Awake moves e v w = ((inl refl, refl), w)
  handling-Awake reads_wakeup e v w = rw e (v, w)
  handling-Awake quits e v w = rw e (v, w)
  handling-Awake (queues task) e v w = rw (e, v) (refl, w)
  handling-Awake (runs task) e v w = rw e (v, w)

  doing-Awake :
      (ts : List ℕ) (a : Action)
      → l.phase ≡ doing ts
      → InPhase (doing ts) l
      → AllProper l.others
      → Awake (act (doing ts) a l)
  unfolding act run_in_loop ask_to_quit take_effect take_effects do_task finish_tasks
  doing-Awake [] moves e v w = done l.quit
    where
      done :
          (b : Bool)
          → Awake (record l { phase = if b then left else polling; doing_pending_tasks = false })
      done true = (refl, w)
      done false = ((v.0, refl), w)
  doing-Awake (t ∷ ts) moves e v w = (v, w)
  doing-Awake ts (other_runs task) e v w = begin-Awake (doing ts) _ e v w (refl, tt)
  doing-Awake ts other_quits e v w = begin-Awake (doing ts) _ e v w tt
  doing-Awake ts (goes_on n) e v w = go_on-Awake (doing ts) n e v w
  doing-Awake ts reads_wakeup e v w = still (doing ts) e v w
  doing-Awake ts quits e v w = rw e (v, w)
  doing-Awake ts (queues task) e v w = rw (e, v.1) ((inr (inl (omega arith)), refl), w)
  doing-Awake ts (runs task) e v w = rw e (v, w)

  left-Awake :
      (a : Action) → l.phase ≡ left → InPhase left l → AllProper l.others → Awake (act left a l)
  unfolding act run_in_loop ask_to_quit take_effect take_effects take_tasks
  left-Awake (other_runs task) e v w = begin-Awake left _ e v w (refl, tt)
  left-Awake other_quits e v w = begin-Awake left _ e v w tt
  left-Awake (goes_on n) e v w = go_on-Awake left n e v w
  left-Awake moves e v w = still left e v w
  left-Awake reads_wakeup e v w = still left e v w
  left-Awake quits e v w = still left e v w
  left-Awake (queues task) e v w = still left e v w
  left-Awake (runs task) e v w = still left e v w

act-Awake :
    (p : Phase) (a : Action) (l : EventLoop)
    → l.phase ≡ p
    → InPhase p l
    → AllProper l.others
    → Awake (act p a l)
act-Awake polling a l e v w = polling-Awake l a e v w
act-Awake handling a l e v w = handling-Awake l a e v w
act-Awake (doing ts) a l e v w = doing-Awake l ts a e v w
act-Awake left a l e v w = left-Awake l a e v w

loop-Awake : (as' : List Action) (l : EventLoop) → Awake l → Awake (loop l as')
loop-Awake [] l v = v
loop-Awake (a ∷ as') l v = loop-Awake as' (act l.phase a l) (act-Awake l.phase a l refl v.0 v.1)

-- Whatever the handlers, the tasks and other threads do, and in whatever order, from the entry of
-- `loop` on, with nothing queued before: when the loop's thread is in `epoll_wait`, no task is
-- pending, or the counter of `wakeupfd_` is positive, so that `epoll_wait` returns, or a call of
-- another thread that has pushed its task is at its wake-up. The push and the wake-up of such a call
-- are two steps, with anything between them.
pub no_lost_wakeup :
    (actions : List Action)
    → (loop entered actions).phase ≡ polling
    → Heard
        (loop entered actions).pending_tasks
        (loop entered actions).wakeups
        (loop entered actions).others
no_lost_wakeup actions e =
    (subst (λ q. InPhase q (loop entered actions)) e
      (loop-Awake actions entered ((inl refl, refl), tt)).0).0
