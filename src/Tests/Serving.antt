-- ===== src/Tests/Serving.antt =====
-- The server, the queue and the settings at concrete runs.
use dokevi_network.Prelude.{
  ℕ, ◌+◌, ◌%◌, ◌≡◌, refl, List, [], ◌∷◌, ◌++◌, arith, true, false, Option, some, ok, All,
}
use dokevi_network.Pool.{uint64}
use dokevi_network.Log.{new_log_manager}
use dokevi_network.Server.{
  Server, Event, Round, Completion, accepted, arrived, is_listening, find_alloc, set_listen_port,
  thread_task,
}
use dokevi_network.Server.Accounts.{posted, IsServed, IsFine, IsValid}
use dokevi_network.Server.Balance.{thread_task-balanced}
use dokevi_network.Server.Listening.{Accepts, set_listen_port-Accepts}
use dokevi_network.Config.Cache.{get_all, get_all-read}
use dokevi_network.Queue as Q
use dokevi_network.Queue.{Queue, push, pop, is_empty}
use dokevi_network.Queue.Fifo.{Holds, init-Holds, put, take_first, run, expected, run-expected}

-- Every connection is given client 9.
abbrev pub allocate : ℕ → ℕ → Option ℕ
allocate f n = some 9

-- Two accepts are pending on port 80.
abbrev pub server : Server
server = record {
  shut_down = false;
  port_alloc_map = (80, 5) ∷ [];
  listen_sockets = 80 ∷ [];
  client_size = 0;
  connections = record { port = 80; client = some 9 } ∷ record { port = 80; client = some 9 } ∷ [];
}

on_port : IsServed (80 ∷ []) ((80, 5) ∷ []) (record { port = 80; client = some 9 })
unfolding is_listening find_alloc
on_port = record { listening = refl; function = 5; allocated = refl; client = 9; present = refl }

pub server-IsValid : IsValid server
server-IsValid = (on_port, (on_port, tt))

abbrev pub succeeding : Completion → Round
succeeding c = record {
  completion = c;
  associated = true;
  answer = record { created = true; accepting = true };
}

pub succeeding-IsFine : (c : Completion) → IsFine (succeeding c)
succeeding-IsFine c = record { associated = refl; created = refl; accepting = refl }

-- A client comes, sends seven bytes and leaves; then the new connection is taken.
abbrev rounds : List Round
rounds =
    succeeding (accepted 0)
    ∷ succeeding (arrived 0 7)
    ∷ succeeding (arrived 0 0)
    ∷ succeeding (accepted 2)
    ∷ []

rounds-IsFine : All IsFine rounds
rounds-IsFine = (
  succeeding-IsFine (accepted 0),
  (
    succeeding-IsFine (arrived 0 7),
    (succeeding-IsFine (arrived 0 0), (succeeding-IsFine (accepted 2), tt)),
  ),
)

thread_task-balanced_example :
    (s' : Server) × (es : List Event) × (thread_task new_log_manager allocate rounds server
      ≡ ok (s', es))
    × IsValid s'
    × ((s'.client_size + posted es) % uint64 ≡ 2)
thread_task-balanced_example =
    thread_task-balanced new_log_manager allocate rounds server (λ f k. (9, refl)) refl
      server-IsValid rounds-IsFine (omega arith, (omega arith, (omega arith, (omega arith, tt))))

-- Port 80 gets a new function, 6, and two more connections.
set_listen_port-Accepts_example :
    (s' : Server) × (es : List Event) × (set_listen_port new_log_manager allocate true true
        (record { created = true; accepting = true }
          ∷ record { created = true; accepting = true }
          ∷ [])
        80
        6
        server
      ≡ ok (s', es))
    × Accepts 80 6 2 server s' es
set_listen_port-Accepts_example =
    set_listen_port-Accepts new_log_manager allocate (λ f k. (9, refl)) 80 6
      (record { created = true; accepting = true }
        ∷ record { created = true; accepting = true }
        ∷ [])
      server server-IsValid ((refl, refl), ((refl, refl), tt))

abbrev empty_queue : Queue ℕ
empty_queue = Q.init 0 4

run-expected_example :
    (q' : Queue ℕ) × (run new_log_manager
        (put 7 ∷ put 8 ∷ take_first ∷ put 9 ∷ take_first ∷ [])
        empty_queue
      ≡ ok (7 ∷ 8 ∷ [], q'))
    × Holds q' (9 ∷ [])
unfolding Q.init expected
run-expected_example =
    run-expected new_log_manager (put 7 ∷ put 8 ∷ take_first ∷ put 9 ∷ take_first ∷ []) empty_queue
      [] (7 ∷ 8 ∷ []) (9 ∷ []) (init-Holds 0 4) (omega arith) (omega arith) refl

-- A file in which the value of a name is the section followed by the name.
abbrev file : List ℕ → List ℕ → List ℕ
file section name = section ++ name

-- The second call of the same setting is answered by the cache.
get_all-read_example :
    (get_all file (((1 ∷ []), (2 ∷ [])) ∷ ((1 ∷ []), (3 ∷ [])) ∷ ((1 ∷ []), (2 ∷ [])) ∷ []) []).0
    ≡ (1 ∷ 2 ∷ []) ∷ (1 ∷ 3 ∷ []) ∷ (1 ∷ 2 ∷ []) ∷ []
get_all-read_example =
    get_all-read file (((1 ∷ []), (2 ∷ [])) ∷ ((1 ∷ []), (3 ∷ [])) ∷ ((1 ∷ []), (2 ∷ [])) ∷ []) []
      tt
