-- ===== src/Tcp/Lifecycle.antt =====
-- The invariant of a connection through its life.
use wuduo.Prelude.{
  ℕ, suc, ◌≡◌, refl, ap, Bool, true, false, inl, inr, List, [], ◌∷◌, if◌then◌else◌, ltb, length,
  arith, Outcome, ok, abort, length_error, ◌||◌, Bool-cases,
}
use wuduo.Buffer.{Bytes, peek}
use wuduo.Buffer.Invariant.{IsValid}
use wuduo.Reactor.Channel.{Channel, Kernel, no_events, is_none, is_writing}
use wuduo.Reactor.Channel.Registered.{disable_all_registered}
use wuduo.Tcp.{
  State, connecting, connected, disconnecting, disconnected, Effect, close_callback, Connection,
  is_connected, is_disconnecting, stop_events, handle_close, force_close, shutdown,
}

abbrev pub closes : List Effect → ℕ
closes [] = 0
closes (close_callback ∷ es) = suc (closes es)
closes (_ ∷ es) = closes es

-- Registered and reading, and waiting to write exactly if something is pending.
abbrev pub IsLive : Channel → Bytes → Type 0
IsLive ch pending =
    (ch.in_interest_list ≡ true)
    × (ch.events.epollin ≡ true)
    × (is_writing ch ≡ ltb 0 (length pending))

abbrev pub InState : State → Channel → Bytes → List Effect → Type 0
InState connecting ch pending es = (ch.events ≡ no_events) × (closes es ≡ 0)
InState connected ch pending es = IsLive ch pending × (closes es ≡ 0)
InState disconnecting ch pending es = IsLive ch pending × (closes es ≡ 0)
InState disconnected ch pending es = (ch.events ≡ no_events) × (closes es ≡ 1)

abbrev pub is_open : State → Bool
is_open s = is_connected s || is_disconnecting s

pub when_open :
    (s : State) (ch : Channel) (pending : Bytes) (es : List Effect)
    → is_open s ≡ true
    → InState s ch pending es
    → IsLive ch pending × (closes es ≡ 0)
when_open connecting ch pending es h v = absurd (cc)
when_open connected ch pending es h v = v
when_open disconnecting ch pending es h v = v
when_open disconnected ch pending es h v = absurd (cc)

pub to_open :
    (s : State) (ch : Channel) (pending : Bytes) (es : List Effect)
    → is_open s ≡ true
    → IsLive ch pending
    → closes es ≡ 0
    → InState s ch pending es
to_open connecting ch pending es h l n = absurd (cc)
to_open connected ch pending es h l n = (l, n)
to_open disconnecting ch pending es h l n = (l, n)
to_open disconnected ch pending es h l n = absurd (cc)

pub open_of_connected : (s : State) → is_connected s ≡ true → is_open s ≡ true
open_of_connected connected h = refl
open_of_connected connecting h = absurd (cc)
open_of_connected disconnecting h = absurd (cc)
open_of_connected disconnected h = absurd (cc)

module _ {k : Kernel} where
  pub record Inv (c : Connection k) : Type 0 where
    pub in_valid : IsValid c.in_buffer
    pub out_valid : IsValid c.output_buffer
    pub in_state : InState c.state c.channel (peek c.output_buffer) c.effects

  -- A call keeps the invariant, and no assertion fails in it.
  abbrev pub Keeps : Outcome (Connection k) → Type 0
  Keeps (ok c) = Inv c
  Keeps (abort f) = f ≡ length_error

  pub if_Keeps :
      (b : Bool) (x y : Outcome (Connection k))
      → (b ≡ true → Keeps x)
      → (b ≡ false → Keeps y)
      → Keeps (if b then x else y)
  if_Keeps true x y f g = f refl
  if_Keeps false x y f g = g refl

  pub stop_events-live :
      (c : Connection k)
      → c.channel.in_interest_list ≡ true
      → c.channel.events.epollin ≡ true
      → (s : k.State) × (b : Bool) × (stop_events c
          ≡ ok (record c {
            channel = record { fd = c.channel.fd; events = no_events; in_interest_list = b };
            kernel = s;
          }))
  unfolding stop_events
  stop_events-live c h e =
      let (s, b, done) = disable_all_registered k c.kernel c.channel h in
      let some_event : is_none c.channel.events ≡ false = unfold is_none in ground arith in
      (s, b, rw (some_event, done))

  pub close-Keeps : (c : Connection k) → is_open c.state ≡ true → Inv c → Keeps (handle_close c)
  unfolding handle_close
  close-Keeps c e v =
      let (live, unclosed) =
        when_open c.state c.channel (peek c.output_buffer) c.effects e v.in_state in
      let (s, b, done) = stop_events-live (record c { state = disconnected }) live.0 live.1 in
      rw (e, done)
        (record {
          in_valid = v.in_valid;
          out_valid = v.out_valid;
          in_state = (refl, ap suc unclosed);
        })

  pub force_close-Keeps : (c : Connection k) → Inv c → Keeps (force_close c)
  unfolding force_close
  force_close-Keeps c v = elim (Bool-cases (is_open c.state)) [
    | inl e ↦ rw e (
        close-Keeps (record c { state = disconnecting }) refl
          (record {
            in_valid = v.in_valid;
            out_valid = v.out_valid;
            in_state = when_open c.state c.channel (peek c.output_buffer) c.effects e v.in_state;
          }))
    | inr e ↦ rw e v
  ]

  pub shutdown-Keeps : (c : Connection k) → Inv c → Keeps (shutdown c)
  unfolding shutdown
  shutdown-Keeps c v = elim (Bool-cases (is_connected c.state)) [
    | inl e ↦
        let live =
          when_open c.state c.channel (peek c.output_buffer) c.effects (open_of_connected c.state e)
            v.in_state in
        rw e (
          if_Keeps (is_writing c.channel) _ _
            (λ _. record { in_valid = v.in_valid; out_valid = v.out_valid; in_state = live })
            (λ _. record { in_valid = v.in_valid; out_valid = v.out_valid; in_state = live }))
    | inr e ↦ rw e v
  ]
