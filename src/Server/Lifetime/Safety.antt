-- ===== src/Server/Lifetime/Safety.antt =====
-- No history uses a connection of wuduo/tcp_connection.cpp that is freed, nor fails an assertion.
use wuduo.Prelude.{◌≡◌, Bool, true, false, ◌||◌, List, [], ◌∷◌}
use wuduo.Tcp.{disconnected}
use wuduo.Server.Lifetime.{Life, Action, handler_force_closes}

-- `handler_force_closes`
abbrev pub is_foreign : Action → Bool
is_foreign handler_force_closes = true
is_foreign _ = false

abbrev pub has_foreign : List Action → Bool
has_foreign [] = false
has_foreign (a ∷ as') = is_foreign a || has_foreign as'

-- Nothing is left that could use it.
abbrev pub Gone : Life → Type 0
Gone l =
    (l.state ≡ disconnected)
    × ((l.in_set ≡ false) × ((l.active ≡ false) × ((l.io_tasks ≡ []) × (l.running ≡ []))))
