-- ===== src/Server/TcpServer/Invariant.antt =====
-- What a server has done for each of its connections, and that a new connection and a removed one keep
-- it so.
use wuduo.Prelude.{
  ltb, ◌&&◌, not, ◌<◌, ℕ, suc, ◌%◌, ◌≡◌, refl, sym, ap, ap₂, subst, ◌∙◌, Bool, true, false, ◌||◌,
  Option, none, some, List, [], ◌∷◌, ◌++◌, if◌then◌else◌, ◌==◌, length, length-append, get_elem?,
  arith, Bool-cases, inl, inr, ==_iff, ==_refl, Outcome, ok,
}
use wuduo.Server.{EventLoopThreadPool, next_loop, started_loops}
use wuduo.Server.Turns.{get_elem?-started_loops}
use wuduo.Server.TcpServer.{
  ConnectionPtr, establishes, destroys, Task, TcpServer, num_threads, contains, new_connection,
}
use wuduo.Server.TcpServer.Sets.{
  get_elem?_append_one, get_elem?-length, nth, IsConn, Listed, Listed_append, contains_above,
  Queued, Queued-insert,
}
use native.Mathlib.Nat.{mod-lt}

-- What was queued for the connection with this number, in order.
abbrev pub tasks_of : ℕ → List Task → List Task
tasks_of n [] = []
tasks_of n (t ∷ ts) = let rest = tasks_of n ts in if t.conn.id == n then t ∷ rest else rest

tasks_of-append :
    (n : ℕ) (ts : List Task) (t : Task)
    → tasks_of n (ts ++ t ∷ [])
      ≡ (if t.conn.id == n then tasks_of n ts ++ t ∷ [] else tasks_of n ts)
tasks_of-append n [] t = ground arith
tasks_of-append n (x ∷ ts) t = ground (arith, tasks_of-append n ts t)

module _ (base : ℕ) (thread : ℕ → ℕ) where
  abbrev pub pool_after : ℕ → EventLoopThreadPool
  pool_after n = record {
    base_loop = base;
    num_threads = num_threads;
    started = true;
    next = n % num_threads;
    workers = started_loops num_threads thread;
  }

  next_loop_turn :
      (n : ℕ) → next_loop (pool_after n) ≡ ok (some (thread (n % num_threads)), pool_after (suc n))
  unfolding next_loop
  next_loop_turn n =
      let next : suc (n % 4) % 4 ≡ suc n % 4 = omega arith in
      rw (get_elem?-started_loops 4 (n % 4) thread (mod-lt n (omega arith)), next) refl

  -- What is queued for a connection by its socket, if it has one, and by whether the server has it.
  abbrev pub expected : ℕ → Option ℕ → Bool → List Task
  expected n none held = []
  expected n (some sockfd) held =
      record { conn = nth thread n sockfd; duty = establishes }
      ∷ (if held then [] else record { conn = nth thread n sockfd; duty = destroys } ∷ [])

  -- A server that was handed these sockets, and whose connections with these numbers have closed.
  pub record Inv (fds : List ℕ) (closed : ℕ → Bool) (s : TcpServer) : Type 0 where
    pub pool : s.event_loop_thread_pool ≡ pool_after (length fds)
    pub count : s.made ≡ length fds
    pub listed : Listed thread fds (length fds) s.connections
    pub queued : Queued thread fds s.connections s.removals
    pub tasks_are :
        (n : ℕ) → tasks_of n s.tasks ≡ expected n (get_elem? fds n) (contains n s.connections)
    pub known : (n : ℕ) → closed n ≡ true → n < length fds
    pub waits : (n : ℕ) → contains n s.removals ≡ true → closed n ≡ true
    pub held :
        (n : ℕ)
        → contains n s.connections
          ≡ (ltb n (length fds) && (not (closed n) || contains n s.removals))

  abbrev pub Ends : List ℕ → (ℕ → Bool) → Outcome TcpServer → Type 0
  Ends fds closed r = (s : TcpServer) × (r ≡ ok s) × Inv fds closed s

  tasks_after_accept :
      (fd : ℕ) (fds : List ℕ) (closed : ℕ → Bool) (s : TcpServer)
      → Inv fds closed s
      → (m : ℕ)
      → tasks_of m
          (s.tasks ++ record { conn = nth thread (length fds) fd; duty = establishes } ∷ [])
        ≡ expected m (get_elem? (fds ++ fd ∷ []) m) ((length fds == m) || contains m s.connections)
  tasks_after_accept fd fds closed s v m =
      let n = length fds in
      let t : Task = record { conn = nth thread n fd; duty = establishes } in
      elim (Bool-cases (n == m)) [
        | inl same ↦
            let e = (==_iff n m).0 same in
            let before : tasks_of n s.tasks ≡ [] =
              v.tasks_are n
              ∙ ap (λ o. expected n o (contains n s.connections)) (get_elem?-length fds) in
            subst
              (λ j.
                tasks_of j (s.tasks ++ t ∷ [])
                ≡ expected j (get_elem? (fds ++ fd ∷ []) j) ((n == j) || contains j s.connections))
              e
              (rw (tasks_of-append n s.tasks t, get_elem?_append_one fds fd n, ==_refl n, before)
                refl)
        | inr other ↦
            let other' : (m == n) ≡ false = ground (arith, other) in
            rw (tasks_of-append m s.tasks t, get_elem?_append_one fds fd m, other, other')
              (v.tasks_are m)
      ]

  pub new_connection-Ends :
      (fd : ℕ) (fds : List ℕ) (closed : ℕ → Bool) (s : TcpServer)
      → Inv fds closed s
      → Ends (fds ++ fd ∷ []) closed (new_connection fd s)
  unfolding new_connection
  new_connection-Ends fd fds closed s v =
      let n = length fds in
      let c : ConnectionPtr = nth thread n fd in
      let s' : TcpServer = record {
        event_loop_thread_pool = pool_after (suc n);
        connections = c ∷ s.connections;
        made = suc n;
        tasks = s.tasks ++ record { conn = c; duty = establishes } ∷ [];
        removals = s.removals;
      } in
      let fresh = contains_above thread fds n n s.connections v.listed (omega arith) in
      let longer : suc n ≡ length (fds ++ fd ∷ []) = omega (arith, length-append fds (fd ∷ [])) in
      (
        s',
        rw (v.pool, next_loop_turn n, v.count, fresh) refl,
        record {
          pool = ap pool_after longer;
          count = longer;
          listed = rw (sym longer) (
            omega arith,
            record { is_nth = refl; accepted = get_elem?_append_one fds fd n ∙ ground arith },
            Listed_append thread fds (fd ∷ []) n s.connections v.listed,
          );
          queued = Queued-insert thread fds (fd ∷ []) s.connections s.removals c v.queued;
          tasks_are = tasks_after_accept fd fds closed s v;
          known = λ m h. omega (arith, v.known m h, longer);
          waits = v.waits;
          held = λ m. rw (sym longer) (ground (arith, v.held m, v.known m));
        },
      )

  pub tasks_after_removal :
      (fds : List ℕ) (closed : ℕ → Bool) (c : ConnectionPtr) (cs : List ConnectionPtr)
      (s : TcpServer)
      → Inv fds closed s
      → IsConn thread fds c
      → contains c.id s.connections ≡ true
      → ((m : ℕ) → contains m cs ≡ (if m == c.id then false else contains m s.connections))
      → (m : ℕ)
      → tasks_of m (s.tasks ++ record { conn = c; duty = destroys } ∷ [])
        ≡ expected m (get_elem? fds m) (contains m cs)
  tasks_after_removal fds closed c cs s v is there after m =
      let t : Task = record { conn = c; duty = destroys } in
      let t' : Task = record { conn = nth thread c.id c.sockfd; duty = destroys } in
      let e : t ≡ t' = ap (λ conn. record { conn = conn; duty = destroys }) is.is_nth in
      elim (Bool-cases (c.id == m)) [
        | inl same ↦
            let before : tasks_of c.id s.tasks ≡ expected c.id (some c.sockfd) true =
              v.tasks_are c.id ∙ ap₂ (expected c.id) is.accepted there in
            subst
              (λ j. tasks_of j (s.tasks ++ t ∷ []) ≡ expected j (get_elem? fds j) (contains j cs))
              ((==_iff c.id m).0 same)
              (rw
                (
                  tasks_of-append c.id s.tasks t,
                  ==_refl c.id,
                  before,
                  is.accepted,
                  after c.id,
                  ==_refl c.id,
                )
                (ap (λ x. record { conn = nth thread c.id c.sockfd; duty = establishes } ∷ x ∷ [])
                  e))
        | inr other ↦
            let other' : (m == c.id) ≡ false = ground (arith, other) in
            rw (tasks_of-append m s.tasks t, other, after m, other') (v.tasks_are m)
      ]
