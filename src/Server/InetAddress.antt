-- ===== src/Server/InetAddress.antt =====
-- `InetAddress` of wuduo/inet_address.h and wuduo/inet_address.cpp. The byte order functions and the
-- text of an address are the C library's: parameters, with what their manual pages say on a host that
-- keeps the lowest byte first.
use wuduo.Prelude.{
  ℕ, ◌+◌, ◌*◌, ◌^◌, ◌<◌, ◌≡◌, ap, Bool, true, false, if◌then◌else◌, Option, none, some, arith,
}

-- The `uint32_t` with these bytes in memory.
abbrev pub word : ℕ → ℕ → ℕ → ℕ → ℕ
word a b c d = a + 2 ^ 8 * b + 2 ^ 16 * c + 2 ^ 24 * d

pub record Network : Type 1 where
  pub htobe16 : ℕ → ℕ
  pub be16toh : ℕ → ℕ
  pub htobe32 : ℕ → ℕ
  pub Text : Type 0
  -- The number with an address's bytes in memory, which is not set for another text; and its text.
  pub inet_pton : Text → Option ℕ
  pub inet_ntop : ℕ → Text
  pub be16toh-htobe16 : (n : ℕ) → n < 2 ^ 16 → be16toh (htobe16 n) ≡ n
  pub htobe32_swaps :
      (a b c d : ℕ)
      → a < 2 ^ 8
      → b < 2 ^ 8
      → c < 2 ^ 8
      → d < 2 ^ 8
      → htobe32 (word a b c d) ≡ word d c b a
  pub inet_pton-inet_ntop : (n : ℕ) → n < 2 ^ 32 → inet_pton (inet_ntop n) ≡ some n

-- `sockaddr_in`
pub record InetAddress : Type 0 where
  pub sin_family : ℕ
  pub sin_port : ℕ
  pub s_addr : ℕ

abbrev pub af_inet : ℕ
af_inet = 2

-- `INADDR_LOOPBACK` and `INADDR_ANY`
abbrev pub inaddr_loopback : ℕ
inaddr_loopback = 2130706433

abbrev pub inaddr_any : ℕ
inaddr_any = 0

-- `local_from` and `peer_from`; `getsockname` and `getpeername` answer -1 by `none`, which leaves zeros.
abbrev pub name_from : Option InetAddress → InetAddress
name_from none = record { sin_family = 0; sin_port = 0; s_addr = 0 }
name_from (some address) = address

module _ (k : Network) where
  open k use {htobe16, be16toh, htobe32, Text, inet_pton, inet_ntop}

  unfoldable pub from_port : ℕ → Bool → InetAddress
  from_port port loopback = record {
    sin_family = af_inet;
    sin_port = htobe16 port;
    s_addr = htobe32 (if loopback then inaddr_loopback else inaddr_any);
  }

  -- `unset` is what `ip_address_number` holds before `inet_pton`.
  unfoldable pub from_text : ℕ → Text → ℕ → InetAddress
  from_text port ip_address unset = record {
    sin_family = af_inet;
    sin_port = htobe16 port;
    s_addr = htobe32 (elim (inet_pton ip_address) [ none ↦ unset | some number ↦ number ]);
  }

  unfoldable pub port_of : InetAddress → ℕ
  port_of address = be16toh address.sin_port

  unfoldable pub ip_of : InetAddress → Text
  ip_of address = inet_ntop address.s_addr

  own_address :
      (loopback : Bool)
      → htobe32 (if loopback then inaddr_loopback else inaddr_any)
        ≡ (if loopback then word 127 0 0 1 else word 0 0 0 0)
  own_address true =
      k.htobe32_swaps 1 0 0 127 (omega arith) (omega arith) (omega arith) (omega arith)
  own_address false =
      k.htobe32_swaps 0 0 0 0 (omega arith) (omega arith) (omega arith) (omega arith)

  -- An address reads its port back. Made from a port alone, it is 127.0.0.1 or 0.0.0.0 as asked; made
  -- from the text of the address a.b.c.d, it reads back the text of d.c.b.a.
  pub ip_of-from_text :
      (port a b c d unset : ℕ) (loopback : Bool)
      → port < 2 ^ 16
      → a < 2 ^ 8
      → b < 2 ^ 8
      → c < 2 ^ 8
      → d < 2 ^ 8
      → (port_of (from_port port loopback) ≡ port)
        × (ip_of (from_port port loopback)
            ≡ inet_ntop (if loopback then word 127 0 0 1 else word 0 0 0 0))
        × (port_of (from_text port (inet_ntop (word a b c d)) unset) ≡ port)
        × (ip_of (from_text port (inet_ntop (word a b c d)) unset) ≡ inet_ntop (word d c b a))
  unfolding from_port from_text port_of ip_of
  ip_of-from_text port a b c d unset loopback hp ha hb hc hd =
      let read : port_of (from_port port loopback) ≡ port = k.be16toh-htobe16 port hp in
      (
        read,
        ap inet_ntop (own_address loopback),
        read,
        rw (k.inet_pton-inet_ntop (word a b c d) (omega (arith, ha, hb, hc, hd)))
            (ap inet_ntop (k.htobe32_swaps a b c d ha hb hc hd)),
      )
