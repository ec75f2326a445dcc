-- ===== src/Server/Lifetime/Stages.antt =====
-- How far a connection of wuduo/tcp_connection.cpp is, and what each step makes of that.
use wuduo.Prelude.{
  ◌≡◌, ◌⊎◌, inl, inr, refl, Bool, true, false, not, ◌&&◌, ◌||◌, List, [], ◌∷◌, ◌++◌, if◌then◌else◌,
  ltb, arith, Bool-cases, Outcome, ok, abort,
}
use wuduo.Tcp.{connecting, disconnected, is_connecting}
use wuduo.Server.Lifetime.{
  IoTask, establishes, destroys, sends, shuts_write, closes, holds, any_holds, handling, doing,
  Life, is_held, release, is_open, handle_close, close_if_open, touch,
}

abbrev pub is_destroys : IoTask → Bool
is_destroys destroys = true
is_destroys _ = false

abbrev pub is_empty : List IoTask → Bool
is_empty [] = true
is_empty (t ∷ ts) = false

-- Tasks that hold nothing, and then the one that destroys.
abbrev pub ends : List IoTask → Bool
ends [] = false
ends (t ∷ ts) = (is_destroys t && is_empty ts) || (not (holds t) && ends ts)

pub ends-append : (ts : List IoTask) → any_holds ts ≡ false → ends (ts ++ destroys ∷ []) ≡ true
ends-append [] h = refl
ends-append (t ∷ ts) h = ground (arith, ends-append ts)

pub any_holds_of_ends : (ts : List IoTask) → ends ts ≡ true → any_holds ts ≡ true
any_holds_of_ends [] h = absurd (cc)
any_holds_of_ends (destroys ∷ ts) h = refl
any_holds_of_ends (establishes ∷ ts) h = refl
any_holds_of_ends (sends ∷ ts) h = any_holds_of_ends ts h
any_holds_of_ends (shuts_write ∷ ts) h = any_holds_of_ends ts h
any_holds_of_ends (closes ∷ ts) h = any_holds_of_ends ts h

pub any_holds-append :
    (ts : List IoTask) (t : IoTask) → any_holds (ts ++ t ∷ []) ≡ (any_holds ts || holds t)
any_holds-append [] t = ground arith
any_holds-append (x ∷ ts) t = ground (arith, any_holds-append ts t)

-- How far a connection is: before it is established; while the server has it; when its last task is
-- queued, and nothing behind it; and behind that.
pub data Stage (l : Life) : Type 0 where
  unborn :
      l.state ≡ connecting
      → l.in_set ≡ true
      → l.removals ≡ 0
      → l.active ≡ false
      → l.freed ≡ false
      → ((l.io_tasks ≡ establishes ∷ []) × (l.running ≡ []))
        ⊎ ((l.io_tasks ≡ []) × (l.running ≡ establishes ∷ []))
      → Stage l
  served :
      is_connecting l.state ≡ false
      → l.in_set ≡ true
      → l.removals ≡ (if is_open l.state then 0 else 1)
      → (is_open l.state ≡ false → l.active ≡ false)
      → l.freed ≡ false
      → any_holds l.running ≡ false
      → any_holds l.io_tasks ≡ false
      → Stage l
  dying :
      l.state ≡ disconnected
      → l.in_set ≡ false
      → l.removals ≡ 0
      → l.active ≡ false
      → l.freed ≡ false
      → ((any_holds l.running ≡ false) × (ends l.io_tasks ≡ true))
        ⊎ ((ends l.running ≡ true) × (l.io_tasks ≡ []))
      → Stage l
  dead :
      l.state ≡ disconnected
      → l.in_set ≡ false
      → l.removals ≡ 0
      → l.active ≡ false
      → l.io_tasks ≡ []
      → l.running ≡ []
      → (is_held l ≡ true → l.freed ≡ false)
      → Stage l

-- The handlers and the tasks of a turn do not overlap.
pub record Phased (l : Life) : Type 0 where
  pub handlers : (l.phase ≡ handling) ⊎ (l.active ≡ false)
  pub tasks : (l.phase ≡ doing) ⊎ (l.running ≡ [])

abbrev pub Inv : Life → Type 0
Inv l = Stage l × Phased l

-- It returns, in a state that keeps the invariant.
abbrev pub Good : Outcome Life → Type 0
Good (ok l) = Inv l
Good (abort f) = ⊥

pub release-Stage : (l : Life) → Stage l → Stage (release l)
release-Stage l (unborn s i r a f q) = unborn s i r a (ground (arith, i, f)) q
release-Stage l (served s i r c f q q') = served s i r c (ground (arith, i, f)) q q'
release-Stage l (dying s i r a f (inl (q, e))) =
    dying s i r a (ground (arith, any_holds_of_ends l.io_tasks e, f)) (inl (q, e))
release-Stage l (dying s i r a f (inr (e, q))) =
    dying s i r a (ground (arith, any_holds_of_ends l.running e, f)) (inr (e, q))
release-Stage l (dead s i r a q q' h) = dead s i r a q q' (λ g. ground (arith, g, h g))

-- A user's reference, or a place in the list of active channels, keeps the connection.
pub kept_by_user : (l : Life) → Stage l → ltb 0 l.users ≡ true → l.freed ≡ false
kept_by_user l (unborn s i r a f q) u = f
kept_by_user l (served s i r c f q q') u = f
kept_by_user l (dying s i r a f q) u = f
kept_by_user l (dead s i r a q q' h) u = h (ground (arith, u))

pub kept_by_turn : (l : Life) → Stage l → l.active ≡ true → l.freed ≡ false
kept_by_turn l (unborn s i r a f q) u = f
kept_by_turn l (served s i r c f q q') u = f
kept_by_turn l (dying s i r a f q) u = f
kept_by_turn l (dead s i r a q q' h) u = absurd (cc)

pub touch_lem : (l : Life) → l.freed ≡ false → touch l ≡ ok l
touch_lem l f = simp f

pub handle_close-Stage :
    (l : Life) → Stage l → l.active ≡ false → is_open l.state ≡ true → Stage (handle_close l)
handle_close-Stage l (served s i r c f q q') a o =
    served refl i (ground (arith, r, o)) (λ n. a) f q q'
handle_close-Stage l (unborn s i r a f q) _ o = absurd (ground (arith, s, o))
handle_close-Stage l (dying s i r a f q) _ o = absurd (ground (arith, s, o))
handle_close-Stage l (dead s i r a q q' h) _ o = absurd (ground (arith, s, o))

pub close_if_open-Inv : (l : Life) → l.active ≡ false → Inv l → Inv (close_if_open l)
close_if_open-Inv l a (v, p) = elim (Bool-cases (is_open l.state)) [
  | inl o ↦ rw o (handle_close-Stage l v a o, record { handlers = p.handlers; tasks = p.tasks })
  | inr o ↦ rw o (v, p)
]
