-- ===== src/Tests/Epollers.antt =====
-- wuduo/epoller.cpp and the turns of wuduo/event_loop.cpp at small reports.
use wuduo.Prelude.{
  ℕ, ◌≡◌, refl, true, inl, none, some, List, [], ◌∷◌, ◌++◌, Option, Outcome, ok, arith,
}
use wuduo.Reactor.Channel.{Events, no_events}
use wuduo.Reactor.Epoller.{Report, Epoller, default_size, turns}
use wuduo.Reactor.Epoller.Reports.{Fits, Ends, handle_turns, turns-Ends}

abbrev report : ℕ → Report
report ptr = record { ptr = ptr; events = record no_events { epollin = true } }

abbrev two_turns : List (Option (List Report))
two_turns = some (report 7 ∷ report 3 ∷ []) ∷ none ∷ some (report 7 ∷ []) ∷ []

abbrev note : ℕ → Events → List ℕ → Outcome (List ℕ)
note ptr events s = ok (s ++ ptr ∷ [])

abbrev note_turn : List ℕ → Outcome (List ℕ)
note_turn s = ok (s ++ 0 ∷ [])

abbrev new_epoller : Epoller
new_epoller = record { size = default_size; revents = λ ptr. no_events }

two_turns-Fits : Fits note note_turn 2 two_turns
two_turns-Fits = (
  ((λ e. absurd (omega (arith, e)), tt), (tt, tt)),
  (omega arith, (tt, (omega arith, ((tt, tt), (omega arith, tt))))),
)

two_turns_end : handle_turns note note_turn two_turns [] ≡ ok (7 ∷ 3 ∷ 0 ∷ 0 ∷ 7 ∷ 0 ∷ [])
two_turns_end = refl

turns-Ends_example :
    Ends note note_turn 2
      (turns note note_turn two_turns (new_epoller, []))
      (handle_turns note note_turn two_turns [])
turns-Ends_example =
    turns-Ends note note_turn two_turns 2 new_epoller [] two_turns-Fits
      (omega arith, inl (omega arith))
