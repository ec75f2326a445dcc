-- ===== src/Tcp/Stream.antt =====
-- The bytes of a connection's stream: those that `write` took, then those that are pending.
use wuduo.Prelude.{
  ◌≤◌, ℕ, ◌<◌, ◌≡◌, refl, sym, ap, ◌∙◌, Bool, true, false, Option, none, some, List, ◌++◌,
  if◌then◌else◌, ltb, ◌==◌, length, take, drop, arith, Outcome, ok, abort, ◌>>=◌, lt→ltb, le→ltb,
  ==_iff, take-append-drop, append_assoc,
}
use wuduo.Buffer.{Bytes, peek, readable_bytes}
use wuduo.Buffer.Invariant.{length-peek}
use wuduo.Buffer.Contents.{retrieve_total}
use wuduo.Reactor.Channel.{is_none, has_none_events, Channel, Kernel, is_writing}
use wuduo.Reactor.Channel.Registered.{disable_writing_registered}
use wuduo.Tcp.{
  Effect, State, connecting, connected, disconnecting, disconnected, is_disconnecting, Connection,
  taken, shutdown, handle_write,
}
use wuduo.Tcp.Lifecycle.{InState, is_open, when_open, to_open, Inv}

pub open_of_events :
    (s : State) (ch : Channel) (pending : Bytes) (es : List Effect)
    → InState s ch pending es
    → has_none_events ch ≡ false
    → is_open s ≡ true
unfolding is_none
open_of_events connecting ch pending es v h = absurd (ground arith)
open_of_events connected ch pending es v h = refl
open_of_events disconnecting ch pending es v h = refl
open_of_events disconnected ch pending es v h = absurd (ground arith)

some_of_writing : (ch : Channel) → is_writing ch ≡ true → has_none_events ch ≡ false
unfolding is_none
some_of_writing ch h = ground arith

taken-le : (answer : Option ℕ) (xs : Bytes) → taken answer xs ≤ length xs
taken-le none xs = omega arith
taken-le (some n) xs = omega arith

pos_of_ne : (n : ℕ) → (n == 0) ≡ false → 0 < n
pos_of_ne n h = ground arith

rejoin : (s p q : Bytes) (n : ℕ) → q ≡ drop n p → (s ++ take n p) ++ q ≡ s ++ p
rejoin s p q n h = rw (h, append_assoc s (take n p) (drop n p), take-append-drop n p) refl

module _ {k : Kernel} where
  -- A handler that only moves pending bytes to the socket.
  abbrev pub Drains : Connection k → Outcome (Connection k) → Type 0
  Drains c (ok c') =
      Inv c'
      × (c'.state ≡ c.state)
      × (c'.effects ≡ c.effects)
      × (c'.sent ++ peek c'.output_buffer ≡ c.sent ++ peek c.output_buffer)
  Drains c (abort f) = ⊥

  if_Drains :
      (c : Connection k) (b : Bool) (x y : Outcome (Connection k))
      → (b ≡ true → Drains c x)
      → (b ≡ false → Drains c y)
      → Drains c (if b then x else y)
  if_Drains c true x y f g = f refl
  if_Drains c false x y f g = g refl

  -- `shutdown` from `handle_write` is for a state in which it does nothing.
  nothing_left : (c : Connection k) → is_disconnecting c.state ≡ true → shutdown c ≡ ok c
  unfolding shutdown
  nothing_left c h = ground arith

  finish-Drains :
      (c : Connection k) (r : Outcome (Connection k))
      → Drains c r
      → Drains c (r >>= λ c'. if is_disconnecting c'.state then shutdown c' else ok c')
  finish-Drains c (ok c') d =
      if_Drains c (is_disconnecting c'.state) _ _ (λ h. rw (nothing_left c' h) d) (λ _. d)
  finish-Drains c (abort f) d = d

  -- `handle_write` on a connection that keeps the invariant returns, keeps the invariant, the state and
  -- the calls made so far, and moves pending bytes to the socket in order: what was sent followed by
  -- what is pending stays the same, whatever `write` answers.
  pub handle_write-Drains :
      (c : Connection k) (answer : Option ℕ) → Inv c → Drains c (handle_write c answer)
  unfolding handle_write
  handle_write-Drains c answer v =
      let pending = peek c.output_buffer in
      let wrote : ℕ = taken answer pending in
      let idle : Drains c (ok c) = (v, refl, refl, refl) in
      if_Drains c (is_writing c.channel) _ _
        (λ busy.
          if_Drains c (ltb 0 wrote) _ _
            (λ some_bytes.
              let e =
                open_of_events c.state c.channel pending c.effects v.in_state
                  (some_of_writing c.channel busy) in
              let (live, n) = when_open c.state c.channel pending c.effects e v.in_state in
              let (buf, done, held) =
                retrieve_total c.output_buffer wrote v.out_valid (taken-le answer pending) in
              let (s, quiet) = disable_writing_registered k c.kernel c.channel live.0 live.1 in
              let size = length-peek held.0 in
              let same = rejoin c.sent pending (peek buf) wrote held.1 in
              rw done (
                finish-Drains c _ (
                  if_Drains c (readable_bytes buf == 0) _ _
                    (λ drained. rw quiet (
                      record {
                        in_valid = v.in_valid;
                        out_valid = held.0;
                        in_state =
                            to_open c.state _ (peek buf) c.effects e
                              (
                                live.0,
                                live.1,
                                sym (
                                    le→ltb 0 (length (peek buf)) (
                                      omega
                                        (arith, size, (==_iff (readable_bytes buf) 0).0 drained))),
                              )
                              n;
                      },
                      refl,
                      refl,
                      same,
                    ))
                    (λ more. (
                      record {
                        in_valid = v.in_valid;
                        out_valid = held.0;
                        in_state =
                            to_open c.state c.channel (peek buf) c.effects e
                              (
                                live.0,
                                live.1,
                                busy
                                    ∙ sym (
                                        lt→ltb 0 (length (peek buf)) (
                                          pos_of_ne (length (peek buf))
                                            (ap (λ t. t == 0) size ∙ more))),
                              )
                              n;
                      },
                      refl,
                      refl,
                      same,
                    )))))
            (λ _. idle))
        (λ _. idle)
