-- ===== src/Server/Lifetime/Tasks.antt =====
-- The moves of the loop of a connection of wuduo/tcp_connection.cpp: its handlers, and then the tasks
-- that were queued, as in `EventLoop::do_pending_tasks`.
use wuduo.Prelude.{
  subst, ◌≡◌, ◌⊎◌, inl, inr, refl, sym, ap, ◌∙◌, Bool, true, false, List, [], ◌∷◌, if◌then◌else◌,
  arith, Outcome, ok, require, ◌>>=◌,
}
use wuduo.Tcp.{connected, disconnected, is_connecting, is_connected}
use wuduo.Server.Lifetime.{
  IoTask, establishes, destroys, sends, shuts_write, closes, holds, any_holds, Phase, waiting,
  handling, doing, Life, touch, run_task, is_doing, move,
}
use wuduo.Server.Lifetime.Stages.{
  ends, Stage, unborn, served, dying, dead, Phased, Inv, Good, touch_lem, close_if_open-Inv,
}
use wuduo.Server.Lifetime.Steps.{poll-Stage, dump-Stage, end-Stage}

pub touch-Good :
    (l : Life) (next : Life → Outcome Life)
    → l.freed ≡ false
    → Good (next l)
    → Good (touch l >>= next)
touch-Good l next f h = subst (λ o. Good (o >>= next)) (sym (touch_lem l f)) h

pub require-Good : (b : Bool) (r : Outcome Life) → b ≡ true → Good r → Good (require b >>= λ _. r)
require-Good b r e h = subst (λ b. Good (require b >>= λ _. r)) (sym e) h

-- The next of the tasks that run: one that holds nothing, the first, or the last.
abbrev next : IoTask → List IoTask → Life → Life
next t rest l = record l { running = rest; dumped = t ∷ l.dumped }

plain-Stage :
    (t : IoTask) (rest : List IoTask) (l : Life)
    → l.running ≡ t ∷ rest
    → holds t ≡ false
    → Stage l
    → Stage (next t rest l) × (l.freed ≡ false)
plain-Stage t rest l e n (unborn s i r a f (inl (q, q'))) = absurd (cc)
plain-Stage t rest l e n (unborn s i r a f (inr (q, q'))) = absurd (ground (arith, q', e, n))
plain-Stage t rest l e n (served s i r c f q q') =
    (served s i r c f (ground (arith, e, n, q)) q', f)
plain-Stage t rest l e n (dying s i r a f (inl (q, q'))) =
    (dying s i r a f (inl (ground (arith, e, n, q), q')), f)
plain-Stage t rest l e n (dying s i r a f (inr (q, q'))) =
    (dying s i r a f (inr (past t n (sym (ap ends e) ∙ q), q')), f)
  where
    past : (t : IoTask) → holds t ≡ false → ends (t ∷ rest) ≡ true → ends rest ≡ true
    past establishes h n = absurd (cc)
    past destroys h n = absurd (cc)
    past sends h n = n
    past shuts_write h n = n
    past closes h n = n
plain-Stage t rest l e n (dead s i r a q q' h) = absurd (cc)

first-Stage :
    (rest : List IoTask) (l : Life)
    → l.running ≡ establishes ∷ rest
    → Stage l
    → Stage (record (next establishes rest l) { state = connected })
      × ((l.freed ≡ false) × (is_connecting l.state ≡ true))
first-Stage rest l e (unborn s i r a f (inl (q, q'))) = absurd (cc)
first-Stage rest l e (unborn s i r a f (inr (q, q'))) = (
  served refl i r (λ n. absurd (cc)) f (ground (arith, q', e)) (ap any_holds q),
  (f, ap is_connecting s),
)
first-Stage rest l e (served s i r c f q q') = absurd (ground (arith, q, e))
first-Stage rest l e (dying s i r a f (inl (q, q'))) = absurd (ground (arith, q, e))
first-Stage rest l e (dying s i r a f (inr (q, q'))) = absurd (ground (arith, q, e))
first-Stage rest l e (dead s i r a q q' h) = absurd (cc)

last-Stage :
    (rest : List IoTask) (l : Life)
    → l.running ≡ destroys ∷ rest
    → Stage l
    → Stage (next destroys rest l) × ((l.freed ≡ false) × (is_connected l.state ≡ false))
last-Stage rest l e (unborn s i r a f (inl (q, q'))) = absurd (cc)
last-Stage rest l e (unborn s i r a f (inr (q, q'))) = absurd (ground (arith, q', e))
last-Stage rest l e (served s i r c f q q') = absurd (ground (arith, q, e))
last-Stage rest l e (dying s i r a f (inl (q, q'))) = absurd (ground (arith, q, e))
last-Stage rest l e (dying s i r a f (inr (q, q'))) =
    (dead s i r a q' (only rest (sym (ap ends e) ∙ q)) (λ g. f), (f, ap is_connected s))
  where
    only : (rest : List IoTask) → ends (destroys ∷ rest) ≡ true → rest ≡ []
    only [] h = refl
    only (t ∷ ts) h = absurd (ground (arith, h))
last-Stage rest l e (dead s i r a q q' h) = absurd (cc)

keeps_doing :
    (t : IoTask) (rest : List IoTask) (l : Life)
    → l.phase ≡ doing
    → Phased l
    → Phased (next t rest l) × (l.active ≡ false)
keeps_doing t rest l e i = (record { handlers = i.handlers; tasks = inl e }, quiet i.handlers)
  where
    quiet : (l.phase ≡ handling) ⊎ (l.active ≡ false) → l.active ≡ false
    quiet (inl h) = absurd (ground (arith, h, e))
    quiet (inr a) = a

run_task-Good :
    (t : IoTask) (rest : List IoTask) (l : Life)
    → l.phase ≡ doing
    → l.running ≡ t ∷ rest
    → Inv l
    → Good (run_task t (next t rest l))
unfolding run_task
run_task-Good establishes rest l p e (v, i) =
    let (v', (f, s)) = first-Stage rest l e v in
    let (j, a) = keeps_doing establishes rest l p i in
    touch-Good (next establishes rest l) _ f (
      require-Good (is_connecting l.state) _ s
        (v', record { handlers = j.handlers; tasks = j.tasks }))
run_task-Good destroys rest l p e (v, i) =
    let (v', (f, n)) = last-Stage rest l e v in
    touch-Good (next destroys rest l) _ f (
      subst
        (λ b. Good (
          ok (
            if b
            then record (next destroys rest l) { state = disconnected }
            else next destroys rest l)))
        (sym n) (v', (keeps_doing destroys rest l p i).0))
run_task-Good sends rest l p e (v, i) =
    let (v', f) = plain-Stage sends rest l e refl v in
    subst Good (sym (touch_lem (next sends rest l) f)) (v', (keeps_doing sends rest l p i).0)
run_task-Good shuts_write rest l p e (v, i) =
    let (v', f) = plain-Stage shuts_write rest l e refl v in
    subst Good (sym (touch_lem (next shuts_write rest l) f))
      (v', (keeps_doing shuts_write rest l p i).0)
run_task-Good closes rest l p e (v, i) =
    let (v', f) = plain-Stage closes rest l e refl v in
    let (j, a) = keeps_doing closes rest l p i in
    touch-Good (next closes rest l) _ f (close_if_open-Inv (next closes rest l) a (v', j))

-- No task runs outside of a turn of the tasks.
no_tasks : (l : Life) (p : Phase) → l.phase ≡ p → is_doing p ≡ false → Phased l → l.running ≡ []
no_tasks l p e n i = case_of i.tasks
  where
    case_of : (l.phase ≡ doing) ⊎ (l.running ≡ []) → l.running ≡ []
    case_of (inl d) = absurd (ground (arith, d, e, n))
    case_of (inr q) = q

pub move-Good :
    (p : Phase) (ts : List IoTask) (l : Life)
    → l.phase ≡ p
    → l.running ≡ ts
    → Inv l
    → Good (move p ts l)
unfolding move
move-Good waiting ts l p e (v, i) =
    (poll-Stage l v, record { handlers = inl refl; tasks = inr (no_tasks l waiting p refl i) })
move-Good handling ts l p e (v, i) = (
  dump-Stage l (no_tasks l handling p refl i) v,
  record { handlers = inr refl; tasks = inl refl },
)
move-Good doing [] l p e (v, i) =
    (end-Stage l v, record { handlers = inr (keeps_doing establishes [] l p i).1; tasks = inr e })
move-Good doing (t ∷ rest) l p e h = run_task-Good t rest l p e h
