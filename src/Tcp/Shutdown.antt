-- ===== src/Tcp/Shutdown.antt =====
-- A shutdown that is asked for while bytes are pending.
use wuduo.Prelude.{
  ◌≡◌, ◌∙◌, refl, sym, ap, subst, true, ℕ, Option, List, [], ◌∷◌, Outcome, ok, abort, ◌>>=◌,
}
use wuduo.Buffer.{peek}
use wuduo.Reactor.Channel.{Kernel, is_writing}
use wuduo.Tcp.{Connection, connected, disconnecting, shutdown, handle_write}
use wuduo.Tcp.Lifecycle.{Inv, is_open, when_open}
use wuduo.Tcp.Stream.{Drains, handle_write-Drains}

module _ {k : Kernel} where
  -- The channel is ready for writing as often as there are answers.
  unfoldable pub write_all : Connection k → List (Option ℕ) → Outcome (Connection k)
  write_all c [] = ok c
  write_all c (a ∷ as') = handle_write c a >>= λ c'. write_all c' as'

  then-Drains :
      (c : Connection k) (r : Outcome (Connection k)) (as' : List (Option ℕ))
      → Drains c r
      → ((c' : Connection k) → Inv c' → Drains c' (write_all c' as'))
      → Drains c (r >>= λ c'. write_all c' as')
  then-Drains c (ok c') as' d h = onward (write_all c' as') (h c' d.0)
    where
      onward : (r : Outcome (Connection k)) → Drains c' r → Drains c r
      onward (ok c'') e = (e.0, e.1 ∙ d.1, e.2 ∙ d.2, e.3 ∙ d.3)
      onward (abort f) e = e
  then-Drains c (abort f) as' d h = d

  write_all-Drains : (as' : List (Option ℕ)) (c : Connection k) → Inv c → Drains c (write_all c as')
  unfolding write_all
  write_all-Drains [] c v = (v, refl, refl, refl)
  write_all-Drains (a ∷ as') c v =
      then-Drains c (handle_write c a) as' (handle_write-Drains c a v)
        (λ c' v'. write_all-Drains as' c' v')

  -- How the writes after a shutdown end: no byte is lost, and no call is made.
  abbrev pub HalfClosed : Connection k → Outcome (Connection k) → Type 0
  HalfClosed c r = Drains (record c { state = disconnecting }) r

  shutdown-ok :
      (c : Connection k)
      → c.state ≡ connected
      → is_writing c.channel ≡ true
      → shutdown c ≡ ok (record c { state = disconnecting })
  unfolding shutdown
  shutdown-ok c e busy = simp (e, busy)

  -- If `shutdown` is called on a connected connection while bytes are pending, it returns with the state
  -- `disconnecting` and without a call, and however many times the channel is then ready for writing
  -- and whatever `write` answers, the handlers return, no byte is lost, the state stays
  -- `disconnecting`, and no call is made: the socket's sending side is never shut down.
  pub shutdown_while_writing :
      (c : Connection k) (answers : List (Option ℕ))
      → Inv c
      → c.state ≡ connected
      → is_writing c.channel ≡ true
      → HalfClosed c (shutdown c >>= λ c'. write_all c' answers)
  shutdown_while_writing c answers v e busy =
      let c' : Connection k = record c { state = disconnecting } in
      let live =
        when_open c.state c.channel (peek c.output_buffer) c.effects (ap is_open e) v.in_state in
      subst (λ r. HalfClosed c (r >>= λ c''. write_all c'' answers)) (sym (shutdown-ok c e busy))
        (write_all-Drains answers c'
          (record { in_valid = v.in_valid; out_valid = v.out_valid; in_state = live }))
