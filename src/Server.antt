-- ===== src/Server.antt =====
-- DokeviServer.cpp: the ports, the connections and the dispatch of completions. A connection is named
-- by its place in the order of creation. What the operating system answers is an argument, what it
-- is asked to do and the calls of the application's handlers are events. RecvPacket and
-- OnWriteCallback, which the handlers call, are those of Receive and Send and only events here.
-- A list of answers stands for inMaxConnections calls. C++ exceptions of handlers are not modelled.
pub mod Accounts
pub mod Balance
pub mod Listening
pub mod Sockets
pub mod Isolation
pub mod Delivery
pub mod Workers
use dokevi_network.Prelude.{
  ℕ, ◌+◌, ◌-◌, ◌%◌, List, [], ◌∷◌, ◌++◌, Bool, true, false, not, Option, none, some, Result, ok,
  err, overrun, null_deref, ◌>>=◌, ◌>>◌, ◌==◌, if◌then◌else◌, length, get_elem?,
}
use dokevi_network.Pool.{uint64}
use dokevi_network.Log.{LogManager, log_critical}

-- A TCPSocket for a connection: its port, and the client that the application made for it.
pub record Connection : Type 0 where
  pub port : ℕ
  pub client : Option ℕ

pub record Server : Type 0 where
  pub shut_down : Bool
  -- The allocating function of each port, by a number.
  pub port_alloc_map : List (ℕ × ℕ)
  pub listen_sockets : List ℕ
  -- A `long long`, as its 64-bit pattern.
  pub client_size : ℕ
  pub connections : List Connection

pub data Event : Type 0 where
  accept_posted connected recv_posted disconnected written : (connection : ℕ) → Event
  closed : (connection : ℕ) → (graceful : Bool) → Event
  received : (connection : ℕ) → (size : ℕ) → Event
  object_handled : Event

-- Whether the new socket is valid, and whether AcceptEx succeeds or is pending.
pub record Answer : Type 0 where
  pub created : Bool
  pub accepting : Bool

unfoldable pub find_alloc : ℕ → List (ℕ × ℕ) → Option ℕ
find_alloc port [] = none
find_alloc port ((p, f) ∷ m) = if port == p then some f else find_alloc port m

unfoldable pub is_listening : ℕ → List ℕ → Bool
is_listening port [] = false
is_listening port (p ∷ ps) = if port == p then true else is_listening port ps

-- _portAllocMap[port] = f
unfoldable pub set_alloc : ℕ → ℕ → List (ℕ × ℕ) → List (ℕ × ℕ)
set_alloc port f [] = (port, f) ∷ []
set_alloc port f ((p, g) ∷ m) =
    let rest = set_alloc port f m in if port == p then (port, f) ∷ m else (p, g) ∷ rest

-- The constructor of TCPSocket goes on behind its LOG_CRITICAL.
abbrev pub checked : LogManager → Bool → Result (Unit {0})
checked log fine = if fine then ok tt else log_critical log

unfoldable pub find_connection : ℕ → Server → Result Connection
find_connection n s = elim (get_elem? s.connections n) [ none ↦ err overrun | some c ↦ ok c ]

-- `allocate f n` is what the application's function f gives for connection n.
module _ (log : LogManager) (allocate : ℕ → ℕ → Option ℕ) where
  -- ReadyAcceptEx once the port has been found.
  unfoldable pub post_accept : Answer → ℕ → ℕ → Server → Result (Server × List Event)
  post_accept a port f s =
      let n = length s.connections in
      let s' : Server = record s {
        connections = s.connections ++ (record { port = port; client = allocate f n } ∷ []);
      } in
      checked log a.created
      >> (if a.accepting then ok (s', accept_posted n ∷ []) else log_critical log >> ok (s', []))

  unfoldable pub ready_accept_ex : Answer → ℕ → Server → Result (Server × List Event)
  ready_accept_ex a port s =
      if is_listening port s.listen_sockets
      then elim (find_alloc port s.port_alloc_map) [
        | none ↦ log_critical log >> ok (s, [])
        | some f ↦ post_accept a port f s
      ]
      else log_critical log >> ok (s, [])

  unfoldable pub ready_all : List Answer → ℕ → Server → Result (Server × List Event)
  ready_all [] port s = ok (s, [])
  ready_all (a ∷ as') port s = ready_accept_ex a port s >>= λ (s', es).
      ready_all as' port s' >>= λ (s'', es'). ok (s'', es ++ es')

  -- Results of Bind and Listen are not used.
  unfoldable pub set_listen_port :
      Bool → Bool → List Answer → ℕ → ℕ → Server → Result (Server × List Event)
  set_listen_port created associated as' port f s =
      let s' : Server = record s { port_alloc_map = set_alloc port f s.port_alloc_map } in
      checked log created
      >> (if associated
          then ready_all as' port (record s' {
            listen_sockets =
                if is_listening port s.listen_sockets
                then s.listen_sockets
                else port ∷ s.listen_sockets;
          })
          else log_critical log >> ok (s', []))

  unfoldable pub connect_handler : Bool → ℕ → Server → Result (Server × List Event)
  connect_handler associated n s =
      if associated
      then (find_connection n s >>= λ c. elim c.client [
        | none ↦ err null_deref
        | some k ↦ ok (
          record s { client_size = (s.client_size + 1) % uint64 },
          recv_posted n ∷ connected n ∷ [],
        )
      ])
      else log_critical log >> ok (s, [])

  -- TCPSocket::ResetSocket with `callConnectionHandler`; the linger options are what `graceful` sets.
  unfoldable pub reset_socket : Answer → Bool → ℕ → Server → Result (Server × List Event)
  reset_socket a graceful n s = find_connection n s >>= λ c.
      ready_accept_ex a c.port s >>= λ (s', es). ok (s', closed n graceful ∷ es)

  unfoldable pub disconnect_handler : Answer → Bool → ℕ → Server → Result (Server × List Event)
  disconnect_handler a graceful n s = find_connection n s >>= λ c.
      reset_socket a graceful n s >>= λ (s', es). elim c.client [
        | none ↦ ok (s', es)
        | some k ↦ ok (
          record s' { client_size = (s'.client_size + uint64 - 1) % uint64 },
          es ++ (disconnected n ∷ []),
        )
      ]

-- What GetQueuedCompletionStatus brings.
pub data Completion : Type 0 where
  -- It fails: with a message and the error 64, or otherwise.
  lost : (connection : ℕ) → Completion
  failed : Completion
  accepted sent : (connection : ℕ) → Completion
  arrived : (connection : ℕ) → (size : ℕ) → Completion
  object_done : Completion

-- A completion, with the operating system's answers to the calls that it may cause.
pub record Round : Type 0 where
  pub completion : Completion
  pub associated : Bool
  pub answer : Answer

module _ (log : LogManager) (allocate : ℕ → ℕ → Option ℕ) where
  unfoldable pub dispatch : Bool → Answer → Completion → Server → Result (Server × List Event)
  dispatch associated a (lost n) s = disconnect_handler log allocate a false n s
  dispatch associated a failed s = ok (s, [])
  dispatch associated a (accepted n) s = connect_handler log allocate associated n s
  dispatch associated a (arrived n size) s =
      let gone = disconnect_handler log allocate a true n s in
      if size == 0 then gone else ok (s, received n size ∷ [])
  dispatch associated a (sent n) s = ok (s, written n ∷ [])
  dispatch associated a object_done s = ok (s, object_handled ∷ [])

  -- ThreadTask for the completions that come until it stops.
  unfoldable pub thread_task : List Round → Server → Result (Server × List Event)
  thread_task [] s = ok (s, [])
  thread_task (r ∷ rs) s =
      if s.shut_down
      then ok (s, [])
      else dispatch r.associated r.answer r.completion s >>= λ (s', es).
          thread_task rs s' >>= λ (s'', es'). ok (s'', es ++ es')
