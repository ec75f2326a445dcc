-- ===== src/Server/Lifetime/Steps.antt =====
-- What the single steps of a connection of wuduo/tcp_connection.cpp make of its stage.
use wuduo.Prelude.{suc, ◌-◌, ◌≡◌, inl, inr, refl, ap, ◌∙◌, true, false, [], ltb, arith, Bool-cases}
use wuduo.Tcp.{State, connecting, connected, disconnecting, disconnected, is_connecting}
use wuduo.Server.Lifetime.{
  IoTask, destroys, holds, waiting, handling, doing, Life, is_held, is_open, queue,
}
use wuduo.Server.Lifetime.Stages.{
  ends-append, any_holds-append, Inv, Stage, unborn, served, dying, dead,
}

pub drop-Stage : (l : Life) → Stage l → Stage (record l { users = l.users - 1 })
drop-Stage l (unborn s i r a f q) = unborn s i r a f q
drop-Stage l (served s i r c f q q') = served s i r c f q q'
drop-Stage l (dying s i r a f q) = dying s i r a f q
drop-Stage l (dead s i r a q q' h) = dead s i r a q q' (λ g. h (ground (arith, g)))

pub take-Stage : (l : Life) → is_held l ≡ true → Stage l → Stage (record l { users = suc l.users })
take-Stage l e (unborn s i r a f q) = unborn s i r a f q
take-Stage l e (served s i r c f q q') = served s i r c f q q'
take-Stage l e (dying s i r a f q) = dying s i r a f q
take-Stage l e (dead s i r a q q' h) = dead s i r a q q' (λ g. h e)

-- It is erased once.
pub removed : (l : Life) → Stage l → ltb 0 l.removals ≡ true → l.in_set ≡ true
removed l (served s i r c f q q') e = i
removed l (unborn s i r a f q) e = i
removed l (dying s i r a f q) e = absurd (ground (arith, r, e))
removed l (dead s i r a q q' h) e = absurd (ground (arith, r, e))

pub remove-Stage :
    (l : Life)
    → ltb 0 l.removals ≡ true
    → Stage l
    → Stage (queue destroys (record l { removals = l.removals - 1; in_set = false }))
remove-Stage l e (served s i r c f q q') =
    dying (closed l.state s (ground (arith, r, e))) refl (ground (arith, r, e))
      (c (ground (arith, r, e))) f (inl (q, ends-append l.io_tasks q'))
  where
    closed : (s : State) → is_connecting s ≡ false → is_open s ≡ false → s ≡ disconnected
    closed connecting h n = absurd (cc)
    closed connected h n = absurd (cc)
    closed disconnecting h n = absurd (cc)
    closed disconnected h n = refl
remove-Stage l e (unborn s i r a f q) = absurd (ground (arith, r, e))
remove-Stage l e (dying s i r a f q) = absurd (ground (arith, r, e))
remove-Stage l e (dead s i r a q q' h) = absurd (ground (arith, r, e))

-- A task of a user's call, which the state allows.
pub queue-Stage :
    (l : Life) (t : IoTask) (s' : State)
    → is_open l.state ≡ true
    → is_open s' ≡ true
    → holds t ≡ false
    → Stage l
    → Stage (queue t (record l { state = s' }))
queue-Stage l t s' o o' n (served s i r c f q q') =
    served (past s' o') i (ground (arith, r, o, o')) (λ n. absurd (cc)) f q
      (any_holds-append l.io_tasks t ∙ ground (arith, q', n))
  where
    past : (s : State) → is_open s ≡ true → is_connecting s ≡ false
    past connecting h = absurd (cc)
    past connected h = refl
    past disconnecting h = refl
    past disconnected h = refl
queue-Stage l t s' o o' n (unborn s i r a f q) = absurd (ground (arith, s, o))
queue-Stage l t s' o o' n (dying s i r a f q) = absurd (ground (arith, s, o))
queue-Stage l t s' o o' n (dead s i r a q q' h) = absurd (ground (arith, s, o))

pub poll-Stage :
    (l : Life) → Stage l → Stage (record l { phase = handling; active = is_open l.state })
poll-Stage l (unborn s i r a f q) = unborn s i r (ap is_open s) f q
poll-Stage l (served s i r c f q q') = served s i r (λ n. n) f q q'
poll-Stage l (dying s i r a f q) = dying s i r (ap is_open s) f q
poll-Stage l (dead s i r a q q' h) = dead s i r (ap is_open s) q q' h

-- The tasks are taken.
pub dump-Stage :
    (l : Life)
    → l.running ≡ []
    → Stage l
    → Stage (record l { phase = doing; active = false; running = l.io_tasks; io_tasks = [] })
dump-Stage l e (unborn s i r a f (inl (q, q'))) = unborn s i r refl f (inr (refl, q))
dump-Stage l e (unborn s i r a f (inr (q, q'))) = absurd (cc)
dump-Stage l e (served s i r c f q q') = served s i r (λ n. refl) f q' refl
dump-Stage l e (dying s i r a f (inl (q, q'))) = dying s i r refl f (inr (q', refl))
dump-Stage l e (dying s i r a f (inr (q, q'))) = absurd (ground (arith, q, e))
dump-Stage l e (dead s i r a q q' h) = dead s i r refl refl q (λ g. h (ground (arith, g, q, q')))

pub end-Stage : (l : Life) → Stage l → Stage (record l { phase = waiting; dumped = [] })
end-Stage l (unborn s i r a f q) = unborn s i r a f q
end-Stage l (served s i r c f q q') = served s i r c f q q'
end-Stage l (dying s i r a f q) = dying s i r a f q
end-Stage l (dead s i r a q q' h) = dead s i r a q q' (λ g. h (ground (arith, g)))

pub clear-Inv : (l : Life) → Inv l → Inv (record l { active = false })
clear-Inv l (v, p) = (clear l v, record { handlers = inr refl; tasks = p.tasks })
  where
    clear : (l : Life) → Stage l → Stage (record l { active = false })
    clear l (unborn s i r a f q) = unborn s i r refl f q
    clear l (served s i r c f q q') = served s i r (λ n. refl) f q q'
    clear l (dying s i r a f q) = dying s i r refl f q
    clear l (dead s i r a q q' h) = dead s i r refl q q' (λ g. h g)

-- A report is of a connection that is open.
pub active_is_open : (l : Life) → Stage l → l.active ≡ true → is_open l.state ≡ true
active_is_open l (served s i r c f q q') e = elim (Bool-cases (is_open l.state)) [
  | inl o ↦ o
  | inr o ↦ absurd (ground (arith, c o, e))
]
active_is_open l (unborn s i r a f q) e = absurd (cc)
active_is_open l (dying s i r a f q) e = absurd (cc)
active_is_open l (dead s i r a q q' h) e = absurd (cc)
