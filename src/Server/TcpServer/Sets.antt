-- ===== src/Server/TcpServer/Sets.antt =====
-- The connections of a server, as its set and the queues hold them.
use wuduo.Prelude.{
  ℕ, zero, suc, ◌%◌, ◌≤◌, ◌<◌, ◌≡◌, inl, inr, refl, true, false, ◌||◌, none, some, List, [], ◌∷◌,
  ◌++◌, if◌then◌else◌, ◌==◌, length, get_elem?, arith, Bool-cases, ==_iff,
}
use wuduo.Server.TcpServer.{ConnectionPtr, num_threads, contains, erase}

get_elem?_append_some :
    (xs ys : List ℕ) (n x : ℕ) → get_elem? xs n ≡ some x → get_elem? (xs ++ ys) n ≡ some x
get_elem?_append_some [] ys n x h = ground (arith, h)
get_elem?_append_some (a ∷ xs) ys zero x h = h
get_elem?_append_some (a ∷ xs) ys (suc n) x h = get_elem?_append_some xs ys n x h

pub get_elem?_append_one :
    (xs : List ℕ) (y n : ℕ)
    → get_elem? (xs ++ y ∷ []) n ≡ (if n == length xs then some y else get_elem? xs n)
get_elem?_append_one [] y zero = ground arith
get_elem?_append_one [] y (suc n) = ground arith
get_elem?_append_one (a ∷ xs) y zero = ground arith
get_elem?_append_one (a ∷ xs) y (suc n) = ground (arith, get_elem?_append_one xs y n)

pub get_elem?_below : (xs : List ℕ) (n x : ℕ) → get_elem? xs n ≡ some x → n < length xs
get_elem?_below [] n x h = absurd (cc)
get_elem?_below (a ∷ xs) zero x h = omega arith
get_elem?_below (a ∷ xs) (suc n) x h = omega (arith, get_elem?_below xs n x h)

pub get_elem?-length : (xs : List ℕ) → get_elem? xs (length xs) ≡ none
get_elem?-length [] = refl
get_elem?-length (a ∷ xs) = get_elem?-length xs

module _ (thread : ℕ → ℕ) where
  -- The connection with this number, for this socket.
  abbrev pub nth : ℕ → ℕ → ConnectionPtr
  nth id sockfd = record { id = id; io_loop = thread (id % num_threads); sockfd = sockfd }

  -- A connection for one of the sockets that were accepted.
  pub record IsConn (fds : List ℕ) (c : ConnectionPtr) : Type 0 where
    pub is_nth : c ≡ nth c.id c.sockfd
    pub accepted : get_elem? fds c.id ≡ some c.sockfd

  -- A set of connections, the latest first.
  abbrev pub Listed : List ℕ → ℕ → List ConnectionPtr → Type 0
  Listed fds bound [] = Unit {0}
  Listed fds bound (c ∷ cs) = (c.id < bound) × IsConn fds c × Listed fds c.id cs

  -- Different connections, all of this set.
  abbrev pub Queued : List ℕ → List ConnectionPtr → List ConnectionPtr → Type 0
  Queued fds cs [] = Unit {0}
  Queued fds cs (r ∷ rs) =
      (contains r.id cs ≡ true) × IsConn fds r × (contains r.id rs ≡ false) × Queued fds cs rs

  pub IsConn-append :
      (fds more : List ℕ) (c : ConnectionPtr) → IsConn fds c → IsConn (fds ++ more) c
  IsConn-append fds more c h = record {
    is_nth = h.is_nth;
    accepted = get_elem?_append_some fds more c.id c.sockfd h.accepted;
  }

  pub Listed_append :
      (fds more : List ℕ) (bound : ℕ) (cs : List ConnectionPtr)
      → Listed fds bound cs
      → Listed (fds ++ more) bound cs
  Listed_append fds more bound [] h = tt
  Listed_append fds more bound (c ∷ cs) (below, is, rest) =
      (below, IsConn-append fds more c is, Listed_append fds more c.id cs rest)

  Listed_raise :
      (fds : List ℕ) (bound bound' : ℕ) (cs : List ConnectionPtr)
      → bound ≤ bound'
      → Listed fds bound cs
      → Listed fds bound' cs
  Listed_raise fds bound bound' [] up h = tt
  Listed_raise fds bound bound' (c ∷ cs) up (below, is, rest) = (omega (arith, up, below), is, rest)

  pub contains_above :
      (fds : List ℕ) (bound n : ℕ) (cs : List ConnectionPtr)
      → Listed fds bound cs
      → bound ≤ n
      → contains n cs ≡ false
  contains_above fds bound n [] h up = refl
  contains_above fds bound n (c ∷ cs) (below, is, rest) up =
      ground (arith, contains_above fds c.id n cs rest (omega (arith, below, up)), below, up)

  pub record Erases (fds : List ℕ) (bound id : ℕ) (cs : List ConnectionPtr) : Type 0 where
    pub one : (erase id cs).0 ≡ 1
    pub keeps : Listed fds bound (erase id cs).1
    pub contains_after :
        (n : ℕ) → contains n (erase id cs).1 ≡ (if n == id then false else contains n cs)

  pub erase-Erases :
      (fds : List ℕ) (bound id : ℕ) (cs : List ConnectionPtr)
      → Listed fds bound cs
      → contains id cs ≡ true
      → Erases fds bound id cs
  erase-Erases fds bound id [] h there = absurd (ground (arith, there))
  erase-Erases fds bound id (c ∷ cs) (below, is, rest) there = elim (Bool-cases (c.id == id)) [
    | inl same ↦
        let gone = contains_above fds c.id id cs rest (omega (arith, (==_iff c.id id).0 same)) in
        record {
          one = simp same;
          keeps = rw same (Listed_raise fds c.id bound cs (omega (arith, below)) rest);
          contains_after = λ n. ground (arith, same, gone);
        }
    | inr other ↦
        let v = erase-Erases fds c.id id cs rest (ground (arith, other, there)) in
        record {
          one = rw other v.one;
          keeps = rw other (below, is, v.keeps);
          contains_after = λ n. ground (arith, other, v.contains_after n);
        }
  ]

  pub Queued-erase :
      (fds : List ℕ) (cs cs' rs : List ConnectionPtr) (id : ℕ)
      → ((n : ℕ) → contains n cs' ≡ (if n == id then false else contains n cs))
      → contains id rs ≡ false
      → Queued fds cs rs
      → Queued fds cs' rs
  Queued-erase fds cs cs' [] id after apart h = tt
  Queued-erase fds cs cs' (r ∷ rs) id after apart (there, is, once, rest) = (
    ground (arith, after r.id, apart, there),
    is,
    once,
    Queued-erase fds cs cs' rs id after (ground (arith, apart)) rest,
  )

  pub Queued-insert :
      (fds more : List ℕ) (cs rs : List ConnectionPtr) (c : ConnectionPtr)
      → Queued fds cs rs
      → Queued (fds ++ more) (c ∷ cs) rs
  Queued-insert fds more cs [] c h = tt
  Queued-insert fds more cs (r ∷ rs) c (there, is, once, rest) = (
    ground (arith, there),
    IsConn-append fds more r is,
    once,
    Queued-insert fds more cs rs c rest,
  )

  pub contains_append_one :
      (n : ℕ) (rs : List ConnectionPtr) (c : ConnectionPtr)
      → contains n (rs ++ c ∷ []) ≡ (contains n rs || (c.id == n))
  contains_append_one n [] c = ground arith
  contains_append_one n (r ∷ rs) c = ground (arith, contains_append_one n rs c)

  pub Queued-append :
      (fds : List ℕ) (cs rs : List ConnectionPtr) (c : ConnectionPtr)
      → Queued fds cs rs
      → contains c.id cs ≡ true
      → IsConn fds c
      → contains c.id rs ≡ false
      → Queued fds cs (rs ++ c ∷ [])
  Queued-append fds cs [] c h there is apart = (there, is, refl, tt)
  Queued-append fds cs (r ∷ rs) c (there', is', once, rest) there is apart = (
    there',
    is',
    ground (arith, contains_append_one r.id rs c, once, apart),
    Queued-append fds cs rs c rest there is (ground (arith, apart)),
  )
