-- ===== src/Server/Acceptor.antt =====
-- `Acceptor` of wuduo/acceptor.h and wuduo/acceptor.cpp, in the thread of its loop. What `accept4`
-- answers is an argument. A failed `listen` or `accept4` is only logged.
pub mod Listening
use wuduo.Prelude.{
  ℕ, Bool, true, false, not, ◌||◌, Option, none, some, List, [], ◌∷◌, ◌++◌, Outcome, ok, abort,
  require, ◌>>=◌,
}
use wuduo.Reactor.Channel
use wuduo.Reactor.Channel.{Channel, Kernel, enable_reading}

pub record Acceptor (k : Kernel) : Type 0 where
  pub channel : Channel
  pub listening : Bool
  pub kernel : k.State

module _ {k : Kernel} where
  -- The constructor, over a socket.
  unfoldable pub create : ℕ → k.State → Acceptor k
  create acceptfd s = record { channel = Channel.create acceptfd; listening = false; kernel = s }

  unfoldable pub listen : Acceptor k → Outcome (Acceptor k)
  listen a = require (not a.listening) >>= λ _. enable_reading k a.kernel a.channel >>= λ (s, ch).
      ok (record { channel = ch; listening = true; kernel = s })

  -- The members are destroyed behind `::close(acceptfd_)`; of those the channel may fail.
  unfoldable pub destroy : Acceptor k → Outcome (Unit {0})
  destroy a = Channel.destroy k a.kernel a.channel >>= λ _. ok tt

-- The connections that `accept4` has to give, by their descriptors, and then the -1 that ends the
-- loop. The callback acts on the state of its owner; without one the descriptor is closed.
unfoldable pub on_incoming_connection {ℓ} :
    {S : Type ℓ} → Option (ℕ → S → Outcome S) → (ℕ → S → S) → List ℕ → S → Outcome S
on_incoming_connection callback close [] s = ok s
on_incoming_connection (some callback) close (fd ∷ fds) s =
    callback fd s >>= on_incoming_connection (some callback) close fds
on_incoming_connection none close (fd ∷ fds) s = on_incoming_connection none close fds (close fd s)
