-- ===== src/Server/Sockets.antt =====
-- The dispatch of DokeviServer.cpp with the receiving half of every socket behind it: RecvHandler
-- calls RecvPacket of the socket that the completion is about, and ReadyAcceptEx makes a new one.
-- RecvPacket(0) of ConnectHanadler is the event recv_posted of the server, and changes no socket.
use dokevi_network.Prelude.{
  ℕ, zero, suc, ◌+◌, ◌-◌, List, [], ◌∷◌, ◌++◌, map, Option, none, some, Result, ok, err, overrun,
  ◌>>=◌, if◌then◌else◌, length, get_elem?, set,
}
use dokevi_network.Log.{LogManager}
use dokevi_network.Receive
use dokevi_network.Receive.{Receiver, new_receiver, recv_completion}
use dokevi_network.Server.{Server, Event, received, Round, dispatch}

pub record Sockets : Type 0 where
  pub server : Server
  pub receivers : List Receiver

-- A completion, with what stands in the buffer of the socket that it is about.
pub record Input : Type 0 where
  pub round : Round
  pub buffer : List ℕ

-- What a socket has called, with its place.
abbrev pub Call : Type 0
Call = ℕ × Receive.Event

unfoldable pub recv_handler :
    ℕ → Receive.Completion → List Receiver → Result (List Receiver × List Call)
recv_handler n c rs = elim (get_elem? rs n) [
  | none ↦ err overrun
  | some r ↦ recv_completion c r >>= λ (r', es). ok (set rs n r', map (λ e. (n, e)) es)
]

-- What the events of a dispatch are for the sockets.
unfoldable pub recv_all : List ℕ → List Event → List Receiver → Result (List Receiver × List Call)
recv_all buffer [] rs = ok (rs, [])
recv_all buffer (received n size ∷ es) rs = do
  (rs', calls) ← recv_handler n (record { buffer = buffer; transferred = size }) rs
  (rs'', calls') ← recv_all buffer es rs'
  ok (rs'', calls ++ calls')
recv_all buffer (_ ∷ es) rs = recv_all buffer es rs

-- The memory of new sockets: `fill k` is that of the k-th.
unfoldable pub new_receivers : (ℕ → ℕ) → ℕ → List Receiver
new_receivers fill zero = []
new_receivers fill (suc n) = new_receiver (fill 0) ∷ new_receivers (λ k. fill (suc k)) n

-- One socket for each connection that has been made.
abbrev pub opened : (ℕ → ℕ) → ℕ → List Receiver → List Receiver
opened fill n rs = rs ++ new_receivers (λ k. fill (k + length rs)) (n - length rs)

module _ (log : LogManager) (allocate : ℕ → ℕ → Option ℕ) (fill : ℕ → ℕ) where
  unfoldable pub sockets_step : Input → Sockets → Result (Sockets × List Call)
  sockets_step i s = do
    (server, es) ←
        dispatch log allocate i.round.associated i.round.answer i.round.completion s.server
    (rs, calls) ← recv_all i.buffer es s.receivers
    ok (record { server = server; receivers = opened fill (length server.connections) rs }, calls)

  -- ThreadTask, as in the server.
  unfoldable pub sockets_task : List Input → Sockets → Result (Sockets × List Call)
  sockets_task [] s = ok (s, [])
  sockets_task (i ∷ is) s = if s.server.shut_down then ok (s, []) else (do
    (s', calls) ← sockets_step i s
    (s'', calls') ← sockets_task is s'
    ok (s'', calls ++ calls'))
