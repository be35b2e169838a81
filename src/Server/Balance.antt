-- ===== src/Server/Balance.antt =====
-- Every connection that ends is replaced by a new accept.
use dokevi_network.Prelude.{
  ℕ, zero, suc, ◌+◌, ◌-◌, ◌%◌, ◌<◌, ◌≡◌, refl, sym, ap, ◌∙◌, List, [], ◌∷◌, ◌++◌, Bool, true, false,
  arith, Option, some, ok, length, length-append, All, subst,
}
use dokevi_network.Pool.{uint64}
use dokevi_network.Log.{LogManager}
use dokevi_network.Server.{
  Server, Connection, Event, accept_posted, connected, recv_posted, disconnected, written, closed,
  received, object_handled, Answer, Completion, lost, failed, accepted, sent, arrived, object_done,
  Round, find_connection, post_accept, ready_accept_ex, connect_handler, reset_socket,
  disconnect_handler, dispatch, thread_task,
}
use dokevi_network.Server.Accounts.{
  posted, posted-append, heard, heard_by, used_up, all_used_up, IsAbout, opens, InRange, IsFine,
  IsServed, IsValid, All-lookup, All-snoc,
}

module _ (log : LogManager) (allocate : ℕ → ℕ → Option ℕ) where
  -- Behind a step: the clients counted and the accepts posted, against the clients counted before and
  -- the accepts that have brought a connection.
  pub record Balanced (used opened : ℕ) (sizes : List (ℕ × ℕ)) (s s' : Server) (es : List Event)
      : Type 0 where
    pub valid : IsValid s'
    pub longer : length s'.connections ≡ length s.connections + opened
    pub equal : (s'.client_size + posted es) % uint64 ≡ (s.client_size + used) % uint64
    pub running : s'.shut_down ≡ s.shut_down
    pub handed : heard es ≡ sizes

  pub ready_lem :
      (a : Answer) (s : Server) (c : Connection) (v : IsServed s.listen_sockets s.port_alloc_map c)
      → a.created ≡ true
      → a.accepting ≡ true
      → ready_accept_ex log allocate a c.port s
        ≡ ok (
          record s {
            connections =
                s.connections
                ++ (record { port = c.port; client = allocate v.function (length s.connections) }
                    ∷ []);
          },
          accept_posted (length s.connections) ∷ [],
        )
  unfolding ready_accept_ex post_accept
  ready_lem a s c v fine fine' = ground (arith, v.listening, v.allocated)

  disconnect_lem :
      (a : Answer) (graceful : Bool) (n : ℕ) (s : Server)
      → ((f k : ℕ) → (client : ℕ) × (allocate f k ≡ some client))
      → IsValid s
      → n < length s.connections
      → a.created ≡ true
      → a.accepting ≡ true
      → (s' : Server) × (es : List Event) × (disconnect_handler log allocate a graceful n s
          ≡ ok (s', es))
        × Balanced 0 1 [] s s' es
        × (s'.client_size ≡ (s.client_size + uint64 - 1) % uint64)
  unfolding disconnect_handler reset_socket find_connection
  disconnect_lem a graceful n s total v lt fine fine' =
      let (c, at, served) =
        All-lookup (IsServed s.listen_sockets s.port_alloc_map) s.connections n v lt in
      let (k, given) = total served.function (length s.connections) in
      let new : Connection = record {
        port = c.port;
        client = allocate served.function (length s.connections);
      } in
      (
        record s {
          connections = s.connections ++ (new ∷ []);
          client_size = (s.client_size + uint64 - 1) % uint64;
        },
        closed n graceful ∷ accept_posted (length s.connections) ∷ disconnected n ∷ [],
        ground (arith, at, ready_lem a s c served fine fine', served.present),
        record {
          valid =
              All-snoc (IsServed s.listen_sockets s.port_alloc_map) s.connections new v (record {
                listening = served.listening;
                function = served.function;
                allocated = served.allocated;
                client = k;
                present = given;
              });
          longer = omega (arith, length-append s.connections (new ∷ []));
          equal = omega arith;
          running = refl;
          handed = refl;
        },
        refl,
      )

  connect_lem :
      (n : ℕ) (s : Server)
      → IsValid s
      → n < length s.connections
      → (s' : Server) × (es : List Event) × (connect_handler log allocate true n s ≡ ok (s', es))
        × Balanced 1 0 [] s s' es
  unfolding connect_handler find_connection
  connect_lem n s v lt =
      let (c, at, served) =
        All-lookup (IsServed s.listen_sockets s.port_alloc_map) s.connections n v lt in
      (
        record s { client_size = (s.client_size + 1) % uint64 },
        recv_posted n ∷ connected n ∷ [],
        ground (arith, at, served.present),
        record {
          valid = v;
          longer = omega arith;
          equal = omega arith;
          running = refl;
          handed = refl;
        },
      )

  same : (s : Server) (es : List Event) → IsValid s → posted es ≡ 0 → Balanced 0 0 (heard es) s s es
  same s es v none_posted = record {
    valid = v;
    longer = omega arith;
    equal = ap (λ k. (s.client_size + k) % uint64) none_posted;
    running = refl;
    handed = refl;
  }

  pub dispatch_lem :
      (c : Completion) (a : Answer) (s : Server)
      → ((f k : ℕ) → (client : ℕ) × (allocate f k ≡ some client))
      → IsValid s
      → IsAbout (length s.connections) c
      → a.created ≡ true
      → a.accepting ≡ true
      → (s' : Server) × (es : List Event) × (dispatch log allocate true a c s ≡ ok (s', es))
        × Balanced (used_up c) (opens c) (heard_by c) s s' es
  unfolding dispatch
  dispatch_lem (lost n) a s total v about fine fine' =
      let (s', es, run, b, _) = disconnect_lem a false n s total v about fine fine' in
      (s', es, run, b)
  dispatch_lem failed a s total v about fine fine' = (s, [], refl, same s [] v refl)
  dispatch_lem (accepted n) a s total v about fine fine' = connect_lem n s v about
  dispatch_lem (sent n) a s total v about fine fine' =
      (s, written n ∷ [], refl, same s (written n ∷ []) v refl)
  dispatch_lem (arrived n zero) a s total v about fine fine' =
      let (s', es, run, b, _) = disconnect_lem a true n s total v about fine fine' in
      (s', es, run, b)
  dispatch_lem (arrived n (suc k)) a s total v about fine fine' =
      (s, received n (suc k) ∷ [], ground arith, same s (received n (suc k) ∷ []) v refl)
  dispatch_lem object_done a s total v about fine fine' =
      (s, object_handled ∷ [], refl, same s (object_handled ∷ []) v refl)

  -- A failure with the error 64 on a connection whose accept is still pending takes one off the
  -- clients too: from 0 the count goes to -1.
  pub lost-pending :
      (n : ℕ) (a : Answer) (s : Server)
      → ((f k : ℕ) → (client : ℕ) × (allocate f k ≡ some client))
      → IsValid s
      → n < length s.connections
      → a.created ≡ true
      → a.accepting ≡ true
      → s.client_size ≡ 0
      → (s' : Server) × (es : List Event) × (dispatch log allocate true a (lost n) s ≡ ok (s', es))
        × (s'.client_size ≡ uint64 - 1)
  unfolding dispatch
  lost-pending n a s total v lt fine fine' nobody =
      let (s', es, run, _, count) = disconnect_lem a false n s total v lt fine fine' in
      (s', es, run, omega (arith, count, nobody))

  task-cons :
      (r : Round) (rs : List Round) (s : Server) {s' s'' : Server} {es es' : List Event}
      → s.shut_down ≡ false
      → dispatch log allocate r.associated r.answer r.completion s ≡ ok (s', es)
      → thread_task log allocate rs s' ≡ ok (s'', es')
      → thread_task log allocate (r ∷ rs) s ≡ ok (s'', es ++ es')
  unfolding thread_task
  task-cons r rs s on e f = ground (arith, on, e, f)

  -- However accepts that bring a connection, receives, sends, failures and ends follow one another, as
  -- long as _shutDown is not set, the connections are served, every completion is about a connection
  -- that there is, the operating system's calls succeed and the application gives every connection a
  -- client: an I/O thread goes through all completions without a fault, and (modulo 2 ^ 64) the clients
  -- counted at the end and the accepts posted on the way are together as many as the clients counted
  -- before and the accepts that have brought a connection. So whatever takes one off the clients posts
  -- an accept, also a failure with the error 64 of an accept that is still pending, which was not
  -- counted as a client.
  pub thread_task-balanced :
      (rs : List Round) (s : Server)
      → ((f k : ℕ) → (client : ℕ) × (allocate f k ≡ some client))
      → s.shut_down ≡ false
      → IsValid s
      → All IsFine rs
      → InRange (length s.connections) rs
      → (s' : Server) × (es : List Event) × (thread_task log allocate rs s ≡ ok (s', es))
        × IsValid s'
        × ((s'.client_size + posted es) % uint64 ≡ (s.client_size + all_used_up rs) % uint64)
  unfolding thread_task
  thread_task-balanced [] s total on v fine about = (s, [], refl, v, refl)
  thread_task-balanced (r ∷ rs) s total on v fine about =
      let (s', es, run, b) =
        dispatch_lem r.completion r.answer s total v about.0 fine.0.created fine.0.accepting in
      let (s'', es', run', v'', equal) =
        thread_task-balanced rs s' total (b.running ∙ on) b.valid fine.1
          (subst (λ n. InRange n rs) (sym b.longer) about.1) in
      (
        s'',
        es ++ es',
        task-cons r rs s on
            (ap (λ x. dispatch log allocate x r.answer r.completion s) fine.0.associated ∙ run)
            run',
        v'',
        omega (arith, posted-append es es', equal, b.equal),
      )
