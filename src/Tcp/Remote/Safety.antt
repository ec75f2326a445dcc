-- ===== src/Tcp/Remote/Safety.antt =====
-- Calls of other threads, at any time and in any number, fail no assertion either.
use wuduo.Prelude.{
  none, some, ◌≤◌, ◌≡◌, true, false, Option, List, [], ◌∷◌, length, Outcome, ok, abort,
  length_error, max_size,
}
use wuduo.Reactor.Channel.{Channel, Kernel}
use wuduo.Tcp.{is_connecting}
use wuduo.Tcp.Lifecycle.{is_open, Inv}
use wuduo.Tcp.Handlers.{Fits}
use wuduo.Tcp.Remote.{
  Task, sends_in_loop, Shared, RemoteCall, sets, queues, asks, sends, Happening, here, elsewhere,
  next_task,
}

abbrev pub AllFit : List Task → Type 0
AllFit [] = Unit {0}
AllFit (sends_in_loop xs ∷ rest) = (length xs ≤ max_size) × AllFit rest
AllFit (_ ∷ rest) = AllFit rest

-- What is sent is a C++ string or array.
abbrev pub CallFits : RemoteCall → Type 0
CallFits (sends xs) = length xs ≤ max_size
CallFits (asks a) = Unit {0}

-- The task that is taken out, and the others.
abbrev PartsFit : Option (Task × List Task) → Type 0
PartsFit none = Unit {0}
PartsFit (some (t, rest)) = AllFit (t ∷ []) × AllFit rest

module _ {k : Kernel} where
  -- Established, with its invariant, and with tasks that send C++ strings.
  pub record IsSafe (s : Shared k) : Type 0 where
    pub inv : Inv s.conn
    pub past : is_connecting s.conn.state ≡ false
    pub fit : AllFit s.tasks
    pub fit_later : AllFit s.to_queue

  -- The only way for the process to end.
  abbrev pub KeepsSafe : Outcome (Shared k) → Type 0
  KeepsSafe (ok s) = IsSafe s
  KeepsSafe (abort f) = f ≡ length_error

  abbrev pub Can : Shared k → Happening → Type 0
  Can s (here e) = Fits s.conn e
  Can s (elsewhere a) = CallFits a
  -- The connection was not closed since the test.
  Can s (sets n) = is_open s.conn.state ≡ true
  Can s (queues n) = Unit {0}
  Can s (next_task answer) = Unit {0}
