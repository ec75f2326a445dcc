-- ===== src/Reactor/Epoller.antt =====
-- `Epoller::wait` of wuduo/epoller.cpp and the turns of `EventLoop::loop` of wuduo/event_loop.cpp, which
-- hand what was reported to the channels. A channel is known by its address. What `epoll_wait` answers
-- is an argument, `none` for -1; what the channels' callbacks and the pending tasks do is a parameter.
pub mod Reports
use wuduo.Prelude.{
  ℕ, ◌*◌, ◌/◌, Bool, true, false, Option, none, some, List, [], ◌∷◌, ◌++◌, length, if◌then◌else◌,
  ◌==◌, Outcome, ok, ◌>>=◌,
}
use wuduo.Reactor.Channel.{Events}

-- An `epoll_event`.
pub record Report : Type 0 where
  pub ptr : ℕ
  pub events : Events

-- The size of `events_`, and `revents_` of each channel.
pub record Epoller : Type 0 where
  pub size : ℕ
  pub revents : ℕ → Events

-- `kDefaultEventsOutputSize`
abbrev pub default_size : ℕ
default_size = 128

-- `Channel::set_revents`
abbrev pub set_revents : ℕ → Events → Epoller → Epoller
set_revents ptr events e = record e {
  revents = λ other. if other == ptr then events else e.revents other;
}

-- The loop of `wait`, with the list of active channels so far.
abbrev pub take_reports : List Report → List ℕ → Epoller → List ℕ × Epoller
take_reports [] active_channels e = (active_channels, e)
take_reports (r ∷ rs) active_channels e =
    take_reports rs (active_channels ++ r.ptr ∷ []) (set_revents r.ptr r.events e)

-- `events_.resize(1.5 * max_events)`, if all of it was used.
abbrev pub resize_if_full : ℕ → Epoller → Epoller
resize_if_full num_ready e = if num_ready == e.size then record e { size = 3 * e.size / 2 } else e

unfoldable pub wait : Option (List Report) → Epoller → List ℕ × Epoller
wait none e = ([], e)
wait (some []) e = ([], e)
wait (some (r ∷ rs)) e =
    let (active_channels, e') = take_reports (r ∷ rs) [] e in
    (active_channels, resize_if_full (length (r ∷ rs)) e')

module _ {ℓ} {S : Type ℓ} (handle_events : ℕ → Events → S → Outcome S)
    (do_pending_tasks : S → Outcome S) where
  -- `for (auto channel : active_channels)`; a channel's `revents_` is set by `wait` alone.
  abbrev pub handle_all : Epoller → List ℕ → S → Outcome S
  handle_all e [] s = ok s
  handle_all e (ptr ∷ ptrs) s = handle_events ptr (e.revents ptr) s >>= handle_all e ptrs

  -- The body of the loop.
  unfoldable pub turn : Option (List Report) → Epoller × S → Outcome (Epoller × S)
  turn answer (e, s) =
      let (active_channels, e') = wait answer e in
      handle_all e' active_channels s >>= λ s'. do_pending_tasks s' >>= λ s''. ok (e', s'')

  unfoldable pub turns : List (Option (List Report)) → Epoller × S → Outcome (Epoller × S)
  turns [] l = ok l
  turns (answer ∷ answers) l = turn answer l >>= turns answers
