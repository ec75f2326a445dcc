-- ===== src/Server/Lifetime/Twice.antt =====
-- A connection of wuduo/tcp_connection.cpp that is closed twice in one turn.
use wuduo.Prelude.{◌≡◌, true, false, [], ◌∷◌, ltb, arith, abort, assertion}
use wuduo.Server.Lifetime.{
  handling, Life, is_open, peer_closed, handles, handler_force_closes, removes, act, run,
}

-- When another handler has closed a connection that is still in the list of active channels, and the
-- peer's end of file is read by the connection's own handler, the connection is removed a second time,
-- and `remove_connection` fails its assertion.
pub closed_twice_aborts :
    (l : Life)
    → l.phase ≡ handling
    → l.active ≡ true
    → l.freed ≡ false
    → is_open l.state ≡ true
    → l.in_set ≡ true
    → l.removals ≡ 0
    → ltb 0 l.users ≡ true
    → run (handler_force_closes ∷ handles peer_closed ∷ removes ∷ removes ∷ []) l ≡ abort assertion
unfolding run act
closed_twice_aborts l p a f o i r u = ground arith
