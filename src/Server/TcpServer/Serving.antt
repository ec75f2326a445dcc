-- ===== src/Server/TcpServer/Serving.antt =====
-- What a server does for each of its connections, over any history.
use wuduo.Prelude.{
  ◌⊎◌, ltb, ◌&&◌, not, ◌||◌, ◌==◌, Bool, true, false, ◌<◌, arith, Bool-cases, inl, inr, ℕ, ◌≡◌,
  refl, sym, subst, some, List, [], ◌∷◌, ◌++◌, append-nil, append_assoc, length, get_elem?,
  Bool-cases, inl, inr, ok,
}
use wuduo.Server
use wuduo.Server.{EventLoopThreadPool, next_loop, started_loops}
use wuduo.Server.Acceptor.{on_incoming_connection}
use wuduo.Server.TcpServer.{
  ConnectionPtr, destroys, TcpServer, create, start, contains, erase, new_connection,
  remove_connection, remove_in_loop, Event, accepts, closes, removes, next_removal, step, run,
}
use wuduo.Server.TcpServer.Sets.{
  erase-Erases, Queued, Queued-erase, Queued-append, contains_append_one, IsConn, get_elem?_below,
}
use wuduo.Server.TcpServer.Invariant.{
  tasks_of, expected, Inv, Ends, new_connection-Ends, tasks_after_removal,
}

-- The sockets that the acceptor found in a history.
abbrev pub accepted_in : List Event → List ℕ
accepted_in [] = []
accepted_in (accepts fds ∷ es) = fds ++ accepted_in es
accepted_in (e ∷ es) = accepted_in es

-- One more connection.
abbrev pub also : (ℕ → Bool) → ℕ → ℕ → Bool
also closed id n = closed n || (id == n)

-- The connections that have closed behind a history, where these have before it.
abbrev pub closed_after : (ℕ → Bool) → List Event → ℕ → Bool
closed_after closed [] = closed
closed_after closed (accepts new ∷ es) = closed_after closed es
closed_after closed (closes conn ∷ es) = closed_after (also closed conn.id) es
closed_after closed (removes ∷ es) = closed_after closed es

abbrev pub closed_in : List Event → ℕ → Bool
closed_in es = closed_after (λ n. false) es

-- A connection that calls its close callback is one of those that were made, and has not called it
-- before; where these sockets were accepted and these connections have closed before the history.
abbrev pub CloseOnce : (ℕ → ℕ) → List ℕ → (ℕ → Bool) → List Event → Type 0
CloseOnce thread fds closed [] = Unit {0}
CloseOnce thread fds closed (accepts new ∷ es) = CloseOnce thread (fds ++ new) closed es
CloseOnce thread fds closed (closes conn ∷ es) =
    IsConn thread fds conn
    × ((closed conn.id ≡ false) × CloseOnce thread fds (also closed conn.id) es)
CloseOnce thread fds closed (removes ∷ es) = CloseOnce thread fds closed es

module _ (base : ℕ) (thread : ℕ → ℕ) where
  accepts-Ends :
      (new fds : List ℕ) (closed : ℕ → Bool) (s : TcpServer)
      → Inv base thread fds closed s
      → Ends base thread
          (fds ++ new)
          closed
          (on_incoming_connection (some new_connection) (λ fd s'. s') new s)
  unfolding on_incoming_connection
  accepts-Ends [] fds closed s v =
      (s, refl, subst (λ l. Inv base thread l closed s) (sym (append-nil fds)) v)
  accepts-Ends (fd ∷ new) fds closed s v =
      let (s', e, v') = new_connection-Ends base thread fd fds closed s v in
      let (s'', e', v'') = accepts-Ends new (fds ++ fd ∷ []) closed s' v' in
      (s'', rw e e', subst (λ l. Inv base thread l closed s'') (append_assoc fds (fd ∷ []) new) v'')

  close-Inv :
      (fds : List ℕ) (closed : ℕ → Bool) (c : ConnectionPtr) (s : TcpServer)
      → Inv base thread fds closed s
      → IsConn thread fds c
      → closed c.id ≡ false
      → Inv base thread fds (also closed c.id) (remove_connection c s)
  unfolding remove_connection
  close-Inv fds closed c s v is new =
      let below : c.id < length fds = get_elem?_below fds c.id c.sockfd is.accepted in
      let there : contains c.id s.connections ≡ true = ground (arith, v.held c.id, new, below) in
      let apart : contains c.id s.removals ≡ false =
        apart_of (Bool-cases (contains c.id s.removals)) in
      record {
        pool = v.pool;
        count = v.count;
        listed = v.listed;
        queued = Queued-append thread fds s.connections s.removals c v.queued there is apart;
        tasks_are = v.tasks_are;
        known = λ n. λ h. ground (arith, v.known n, below, h);
        waits = λ n h. ground (arith, contains_append_one thread n s.removals c, v.waits n, h);
        held = λ n. ground (arith, contains_append_one thread n s.removals c, v.held n, new, below);
      }
    where
      apart_of :
          (contains c.id s.removals ≡ true) ⊎ (contains c.id s.removals ≡ false)
          → contains c.id s.removals ≡ false
      apart_of (inl waiting) = absurd (ground (arith, v.waits c.id waiting, new))
      apart_of (inr apart) = apart

  next_removal-Ends :
      (fds : List ℕ) (closed : ℕ → Bool) (rs : List ConnectionPtr) (s : TcpServer)
      → Inv base thread fds closed s
      → Queued thread fds s.connections rs
      → s.removals ≡ rs
      → Ends base thread fds closed (next_removal rs s)
  unfolding remove_in_loop
  next_removal-Ends fds closed [] s v q e = (s, refl, v)
  next_removal-Ends fds closed (c ∷ rs) s v (there, is, once, rest) e =
      let x = erase-Erases thread fds (length fds) c.id s.connections v.listed there in
      let left = (erase c.id s.connections).1 in
      (
        record s {
          connections = left;
          removals = rs;
          tasks = s.tasks ++ record { conn = c; duty = destroys } ∷ [];
        },
        rw x.one refl,
        record {
          pool = v.pool;
          count = v.count;
          listed = x.keeps;
          queued = Queued-erase thread fds s.connections left rs c.id x.contains_after once rest;
          known = v.known;
          waits = λ n h. v.waits n (ground (arith, e, h));
          held = λ n. ground (arith, x.contains_after n, v.held n, v.waits c.id, once, e);
          tasks_are =
              tasks_after_removal base thread fds closed c left s v is there x.contains_after;
        },
      )

  run-Ends :
      (es : List Event) (fds : List ℕ) (closed : ℕ → Bool) (s : TcpServer)
      → Inv base thread fds closed s
      → CloseOnce thread fds closed es
      → Ends base thread (fds ++ accepted_in es) (closed_after closed es) (run es s)
  unfolding run step
  run-Ends [] fds closed s v o =
      (s, refl, subst (λ l. Inv base thread l closed s) (sym (append-nil fds)) v)
  run-Ends (accepts new ∷ es) fds closed s v o =
      let (s', e, v') = accepts-Ends new fds closed s v in
      let (s'', e', v'') = run-Ends es (fds ++ new) closed s' v' o in
      (
        s'',
        rw e e',
        subst (λ l. Inv base thread l (closed_after closed es) s'')
            (append_assoc fds new (accepted_in es)) v'',
      )
  run-Ends (closes conn ∷ es) fds closed s v (is, (new, o)) =
      run-Ends es fds (also closed conn.id) (remove_connection conn s)
        (close-Inv fds closed conn s v is new) o
  run-Ends (removes ∷ es) fds closed s v o =
      let (s', e, v') = next_removal-Ends fds closed s.removals s v v.queued refl in
      let (s'', e', v'') = run-Ends es fds closed s' v' o in (s'', rw e e', v'')

  -- What a started server has done behind a history.
  pub record Served (es : List Event) (s : TcpServer) : Type 0 where
    pub tasks_are :
        (n : ℕ)
        → tasks_of n s.tasks
          ≡ expected base thread n (get_elem? (accepted_in es) n) (contains n s.connections)
    pub held :
        (n : ℕ)
        → contains n s.connections
          ≡ (ltb n (length (accepted_in es)) && (not (closed_in es n) || contains n s.removals))

  -- No history of a started server in which only connections that it made call the close callback,
  -- each of them once at most, fails an assertion. For the connection with each number, the server has
  -- queued that it is established, in the loop of the thread whose turn it was and for the socket with
  -- this number of those that were accepted, and behind that, if the server has it no longer, that it
  -- is destroyed, in the same loop; each of them once, and nothing for any other number. The server
  -- has the connections that were accepted and have not closed, and those whose removal is pending.
  pub run-Served :
      (es : List Event)
      → CloseOnce thread [] (λ n. false) es
      → (s : TcpServer) × (run es (start thread (create base)) ≡ ok s) × Served es s
  unfolding start Server.start
  run-Served es o =
      let (s, e, v) =
        run-Ends es [] (λ n. false) (start thread (create base))
          (record {
            pool = refl;
            count = refl;
            listed = tt;
            queued = tt;
            tasks_are = λ n. refl;
            known = λ n h. absurd (ground (arith, h));
            waits = λ n h. absurd (ground (arith, h));
            held = λ n. ground arith;
          })
          o in
      (s, e, record { tasks_are = v.tasks_are; held = v.held })
