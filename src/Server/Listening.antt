-- ===== src/Server/Listening.antt =====
-- SetListenPort of DokeviServer.cpp: a server gets the connections that the other theorems ask for.
use dokevi_network.Prelude.{
  ℕ, ◌+◌, ◌≡◌, ◌≢◌, refl, ap, ◌∙◌, inl, inr, List, [], ◌∷◌, ◌++◌, true, arith, Option, some, ok,
  ==_refl, ℕ_discrete, length, length-append, All, if◌then◌else◌, Bool-cases,
}
use dokevi_network.Log.{LogManager}
use dokevi_network.Server.{
  Server, Connection, Event, accept_posted, Answer, is_listening, find_alloc, set_alloc, ready_all,
  set_listen_port,
}
use dokevi_network.Server.Accounts.{posted, IsServed, IsValid, All-snoc}
use dokevi_network.Server.Balance.{ready_lem}

find_alloc-set_alloc :
    (port f : ℕ) (m : List (ℕ × ℕ)) → find_alloc port (set_alloc port f m) ≡ some f
unfolding find_alloc set_alloc
find_alloc-set_alloc port f [] = ground arith
find_alloc-set_alloc port f ((p, g) ∷ m) = ground (arith, find_alloc-set_alloc port f m)

find_alloc-set_alloc_ne :
    (port f q : ℕ) (m : List (ℕ × ℕ))
    → q ≢ port
    → find_alloc q (set_alloc port f m) ≡ find_alloc q m
unfolding find_alloc set_alloc
find_alloc-set_alloc_ne port f q [] h = ground arith
find_alloc-set_alloc_ne port f q ((p, g) ∷ m) h =
    ground (arith, find_alloc-set_alloc_ne port f q m h)

abbrev pub opened_on : ℕ → List ℕ → List ℕ
opened_on port ports = if is_listening port ports then ports else port ∷ ports

is_listening-opened : (port : ℕ) (ports : List ℕ) → is_listening port (opened_on port ports) ≡ true
unfolding is_listening
is_listening-opened port ports = elim (Bool-cases (is_listening port ports)) [
  | inl already ↦ rw (already, already)
  | inr closed ↦ rw (closed, ==_refl port)
]

is_listening-opened_also :
    (port q : ℕ) (ports : List ℕ)
    → is_listening q ports ≡ true
    → is_listening q (opened_on port ports) ≡ true
unfolding is_listening
is_listening-opened_also port q ports h = ground arith

-- A connection that is served stays so when a port gets a function.
IsServed-set_alloc :
    (port f : ℕ) (ports : List ℕ) (m : List (ℕ × ℕ)) (c : Connection)
    → IsServed ports m c
    → IsServed (opened_on port ports) (set_alloc port f m) c
IsServed-set_alloc port f ports m c v = elim (ℕ_discrete c.port port) [
  | yes same ↦ record {
    listening = is_listening-opened_also port c.port ports v.listening;
    function = f;
    allocated = ap (λ q. find_alloc q (set_alloc port f m)) same ∙ find_alloc-set_alloc port f m;
    client = v.client;
    present = v.present;
  }
  | no other ↦ record {
    listening = is_listening-opened_also port c.port ports v.listening;
    function = v.function;
    allocated = find_alloc-set_alloc_ne port f c.port m other ∙ v.allocated;
    client = v.client;
    present = v.present;
  }
]

All-set_alloc :
    (port f : ℕ) (ports : List ℕ) (m : List (ℕ × ℕ)) (cs : List Connection)
    → All (IsServed ports m) cs
    → All (IsServed (opened_on port ports) (set_alloc port f m)) cs
All-set_alloc port f ports m [] h = tt
All-set_alloc port f ports m (c ∷ cs) h =
    (IsServed-set_alloc port f ports m c h.0, All-set_alloc port f ports m cs h.1)

-- Sockets are made and AcceptEx succeeds.
abbrev pub IsAccepted : Answer → Type 0
IsAccepted a = (a.created ≡ true) × (a.accepting ≡ true)

-- Behind some more accepts on `port`.
pub record Accepts (port f count : ℕ) (s s' : Server) (es : List Event) : Type 0 where
  pub valid : IsValid s'
  pub listening : is_listening port s'.listen_sockets ≡ true
  pub allocated : find_alloc port s'.port_alloc_map ≡ some f
  pub longer : length s'.connections ≡ length s.connections + count
  pub each : posted es ≡ count
  pub uncounted : s'.client_size ≡ s.client_size
  pub running : s'.shut_down ≡ s.shut_down

module _ (log : LogManager) (allocate : ℕ → ℕ → Option ℕ)
    (total : (f k : ℕ) → (client : ℕ) × (allocate f k ≡ some client)) (port f : ℕ) where
  ready_all_lem :
      (as' : List Answer) (s : Server)
      → IsValid s
      → is_listening port s.listen_sockets ≡ true
      → find_alloc port s.port_alloc_map ≡ some f
      → All IsAccepted as'
      → (s' : Server) × (es : List Event) × (ready_all log allocate as' port s ≡ ok (s', es))
        × Accepts port f (length as') s s' es
  unfolding ready_all
  ready_all_lem [] s v on given fine = (
    s,
    [],
    refl,
    record {
      valid = v;
      listening = on;
      allocated = given;
      longer = omega arith;
      each = refl;
      uncounted = refl;
      running = refl;
    },
  )
  ready_all_lem (a ∷ as') s v on given fine =
      let (k, client) = total f (length s.connections) in
      let new : Connection = record { port = port; client = allocate f (length s.connections) } in
      let served : IsServed s.listen_sockets s.port_alloc_map new = record {
        listening = on;
        function = f;
        allocated = given;
        client = k;
        present = client;
      } in
      let (s', es, run, later) =
        ready_all_lem as' (record s { connections = s.connections ++ (new ∷ []) })
          (All-snoc (IsServed s.listen_sockets s.port_alloc_map) s.connections new v served) on
          given fine.1 in
      (
        s',
        accept_posted (length s.connections) ∷ es,
        rw (ready_lem log allocate a s new served fine.0.0 fine.0.1, run),
        record {
          valid = later.valid;
          listening = later.listening;
          allocated = later.allocated;
          longer = omega (arith, later.longer, length-append s.connections (new ∷ []));
          each = omega (arith, later.each);
          uncounted = later.uncounted;
          running = later.running;
        },
      )

  -- When every connection is served, its calls of the operating system succeed and the application
  -- gives every connection a client, SetListenPort returns and posts one accept for each of the
  -- inMaxConnections. The port is open then, with the function given as its own, also if it had
  -- another one, every connection, old or new, is served, and no client is counted.
  pub set_listen_port-Accepts :
      (as' : List Answer) (s : Server)
      → IsValid s
      → All IsAccepted as'
      → (s' : Server) × (es : List Event) × (set_listen_port log allocate true true as' port f s
          ≡ ok (s', es))
        × Accepts port f (length as') s s' es
  unfolding set_listen_port
  set_listen_port-Accepts as' s v fine =
      let (s', es, run, after) =
        ready_all_lem as'
          (record s {
            port_alloc_map = set_alloc port f s.port_alloc_map;
            listen_sockets = opened_on port s.listen_sockets;
          })
          (All-set_alloc port f s.listen_sockets s.port_alloc_map s.connections v)
          (is_listening-opened port s.listen_sockets) (find_alloc-set_alloc port f s.port_alloc_map)
          fine in
      (
        s',
        es,
        run,
        record {
          valid = after.valid;
          listening = after.listening;
          allocated = after.allocated;
          longer = after.longer;
          each = after.each;
          uncounted = after.uncounted;
          running = after.running;
        },
      )
