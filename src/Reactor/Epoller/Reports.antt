-- ===== src/Reactor/Epoller/Reports.antt =====
-- What a turn of wuduo/event_loop.cpp does with what the kernel reports, and how large the array of
-- wuduo/epoller.cpp grows.
use wuduo.Prelude.{
  ℕ, ◌*◌, ◌≤◌, ◌≡◌, ◌≢◌, ◌⊎◌, refl, sym, ap, subst, ◌∙◌, inl, inr, Option, none, some, List, [],
  ◌∷◌, ◌++◌, append-nil, append_assoc, length, ◌==◌, Outcome, ok, abort, ◌>>=◌, bind_alike,
  bind_assoc, arith, Bool-cases,
}
use wuduo.Reactor.Channel.{Events}
use wuduo.Reactor.Epoller.{
  Report, Epoller, default_size, set_revents, take_reports, resize_if_full, wait, handle_all, turn,
  turns,
}

abbrev reports_of : Option (List Report) → List Report
reports_of none = []
reports_of (some rs) = rs

abbrev ptrs : List Report → List ℕ
ptrs [] = []
ptrs (r ∷ rs) = r.ptr ∷ ptrs rs

abbrev Absent : ℕ → List Report → Type 0
Absent p [] = Unit {0}
Absent p (r ∷ rs) = (p ≢ r.ptr) × Absent p rs

-- The interest list has one entry for a channel, so that it is reported once.
abbrev pub Distinct : List Report → Type 0
Distinct [] = Unit {0}
Distinct (r ∷ rs) = Absent r.ptr rs × Distinct rs

-- Each report is read from its own channel.
abbrev Marked : Epoller → List Report → Type 0
Marked e [] = Unit {0}
Marked e (r ∷ rs) = (e.revents r.ptr ≡ r.events) × Marked e rs

take_reports-kept :
    (rs : List Report) (acc : List ℕ) (e : Epoller) (p : ℕ)
    → Absent p rs
    → (take_reports rs acc e).1.revents p ≡ e.revents p
take_reports-kept [] acc e p a = refl
take_reports-kept (r ∷ rs) acc e p (n, a) =
    take_reports-kept rs (acc ++ r.ptr ∷ []) (set_revents r.ptr r.events e) p a ∙ ground (arith, n)

take_reports-Marked :
    (rs : List Report) (acc : List ℕ) (e : Epoller)
    → Distinct rs
    → Marked (take_reports rs acc e).1 rs
take_reports-Marked [] acc e d = tt
take_reports-Marked (r ∷ rs) acc e (a, d) = (
  take_reports-kept rs (acc ++ r.ptr ∷ []) (set_revents r.ptr r.events e) r.ptr a ∙ ground arith,
  take_reports-Marked rs (acc ++ r.ptr ∷ []) (set_revents r.ptr r.events e) d,
)

take_reports-ptrs :
    (rs : List Report) (acc : List ℕ) (e : Epoller) → (take_reports rs acc e).0 ≡ acc ++ ptrs rs
take_reports-ptrs [] acc e = sym (append-nil acc)
take_reports-ptrs (r ∷ rs) acc e =
    take_reports-ptrs rs (acc ++ r.ptr ∷ []) (set_revents r.ptr r.events e)
    ∙ append_assoc acc (r.ptr ∷ []) (ptrs rs)

take_reports-size :
    (rs : List Report) (acc : List ℕ) (e : Epoller) → (take_reports rs acc e).1.size ≡ e.size
take_reports-size [] acc e = refl
take_reports-size (r ∷ rs) acc e =
    take_reports-size rs (acc ++ r.ptr ∷ []) (set_revents r.ptr r.events e)

resize-Marked :
    (rs : List Report) (n : ℕ) (e : Epoller) → Marked e rs → Marked (resize_if_full n e) rs
resize-Marked rs n e m = elim (Bool-cases (n == e.size)) [ inl b ↦ rw b m | inr b ↦ rw b m ]

-- What `wait` gives.
abbrev Waited : List Report → List ℕ × Epoller → Type 0
Waited rs (active_channels, e) = (active_channels ≡ ptrs rs) × Marked e rs

wait-Waited :
    (answer : Option (List Report)) (e : Epoller)
    → Distinct (reports_of answer)
    → Waited (reports_of answer) (wait answer e)
unfolding wait
wait-Waited none e d = (refl, tt)
wait-Waited (some []) e d = (refl, tt)
wait-Waited (some (r ∷ rs)) e d = (
  take_reports-ptrs (r ∷ rs) [] e,
  resize-Marked (r ∷ rs) (length (r ∷ rs)) (take_reports (r ∷ rs) [] e).1
      (take_reports-Marked (r ∷ rs) [] e d),
)

-- The default size or more, and no more than that or half as much again as was ever reported at once.
abbrev pub Sized : ℕ → Epoller → Type 0
Sized most e = (default_size ≤ e.size) × ((e.size ≤ default_size) ⊎ (2 * e.size ≤ 3 * most))

resize-Sized :
    (n most : ℕ) (e : Epoller) → n ≤ most → Sized most e → Sized most (resize_if_full n e)
resize-Sized n most e h (low, high) = elim (Bool-cases (n == e.size)) [
  | inl b ↦ rw b (ground arith, inr (ground arith))
  | inr b ↦ rw b (low, high)
]

wait-Sized :
    (answer : Option (List Report)) (most : ℕ) (e : Epoller)
    → length (reports_of answer) ≤ most
    → Sized most e
    → Sized most (wait answer e).1
unfolding wait
wait-Sized none most e h z = z
wait-Sized (some []) most e h z = z
wait-Sized (some (r ∷ rs)) most e h z =
    resize-Sized (length (r ∷ rs)) most (take_reports (r ∷ rs) [] e).1 h (
      subst (λ n. (default_size ≤ n) × ((n ≤ default_size) ⊎ (2 * n ≤ 3 * most)))
        (sym (take_reports-size (r ∷ rs) [] e)) z)

module _ {ℓ} {S : Type ℓ} (handle_events : ℕ → Events → S → Outcome S)
    (do_pending_tasks : S → Outcome S) where
  -- Each report by itself, in order.
  abbrev pub handle_reports : List Report → S → Outcome S
  handle_reports [] s = ok s
  handle_reports (r ∷ rs) s = handle_events r.ptr r.events s >>= handle_reports rs

  -- The turns without an epoller.
  abbrev pub handle_turns : List (Option (List Report)) → S → Outcome S
  handle_turns [] s = ok s
  handle_turns (answer ∷ answers) s =
      handle_reports (reports_of answer) s >>= do_pending_tasks >>= handle_turns answers

  handle_all-ptrs :
      (rs : List Report) (e : Epoller) (s : S)
      → Marked e rs
      → handle_all handle_events do_pending_tasks e (ptrs rs) s ≡ handle_reports rs s
  handle_all-ptrs [] e s m = refl
  handle_all-ptrs (r ∷ rs) e s (m, ms) =
      ap
        (λ events.
          handle_events r.ptr events s >>= handle_all handle_events do_pending_tasks e (ptrs rs))
        m
      ∙ bind_alike (handle_events r.ptr r.events s) _ _ (λ s'. handle_all-ptrs rs e s' ms)

  -- What the kernel may answer in each turn.
  abbrev pub Fits : ℕ → List (Option (List Report)) → Type 0
  Fits most [] = Unit {0}
  Fits most (answer ∷ answers) =
      Distinct (reports_of answer) × ((length (reports_of answer) ≤ most) × Fits most answers)

  -- The same end, with the array in bounds.
  abbrev pub Ends : ℕ → Outcome (Epoller × S) → Outcome S → Type ℓ
  Ends most (ok (e, s)) reference = (reference ≡ ok s) × Sized most e
  Ends most (abort fault) reference = reference ≡ abort fault

  turn_lem :
      (answer : Option (List Report)) (e : Epoller) (s : S)
      → Distinct (reports_of answer)
      → turn handle_events do_pending_tasks answer (e, s) ≡ (
          handle_reports (reports_of answer) s >>= do_pending_tasks >>= λ s'.
          ok ((wait answer e).1, s'))
  unfolding turn
  turn_lem answer e s d =
      let (same, marked) = wait-Waited answer e d in
      let handled : handle_all handle_events do_pending_tasks (wait answer e).1 (wait answer e).0 s
          ≡ handle_reports (reports_of answer) s =
        ap (λ ptrs. handle_all handle_events do_pending_tasks (wait answer e).1 ptrs s) same
        ∙ handle_all-ptrs (reports_of answer) (wait answer e).1 s marked in
      rw handled (bind_assoc (handle_reports (reports_of answer) s) do_pending_tasks _)

  -- However many turns the loop makes, and whatever `epoll_wait` answers, -1 included, in each of them
  -- every report is handed to its own channel once, in order and with its own events, and then the
  -- pending tasks are done; the first call that does not return ends it. The array for the reports
  -- keeps its first size or more, and at most that or half as much again as the largest report. A
  -- channel is reported once in a turn.
  pub turns-Ends :
      (answers : List (Option (List Report))) (most : ℕ) (e : Epoller) (s : S)
      → Fits most answers
      → Sized most e
      → Ends most (turns handle_events do_pending_tasks answers (e, s)) (handle_turns answers s)
  unfolding turns
  turns-Ends [] most e s fits z = (refl, z)
  turns-Ends (answer ∷ answers) most e s (d, (few, fits)) z = rw (turn_lem answer e s d) (
      go (handle_reports (reports_of answer) s >>= do_pending_tasks)
        (λ s'. turns-Ends answers most (wait answer e).1 s' fits (wait-Sized answer most e few z)))
    where
      go :
          (o : Outcome S)
          → ((s' : S)
              → Ends most
                  (turns handle_events do_pending_tasks answers ((wait answer e).1, s'))
                  (handle_turns answers s'))
          → Ends most
              (o
                >>= (λ s'. ok ((wait answer e).1, s'))
                >>= turns handle_events do_pending_tasks answers)
              (o >>= handle_turns answers)
      go (ok s') rest = rest s'
      go (abort fault) rest = refl
