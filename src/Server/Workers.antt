-- ===== src/Server/Workers.antt =====
-- The I/O threads of DokeviServer.cpp, any number of them, between the accesses to what they share:
-- ThreadTask takes one completion, and ConnectHanadler, RecvHandler with RecvPacket of TCPSocket.cpp,
-- and DisconnectHandler then make their calls one by one. A connection is named by its place in the
-- order of creation; every call of the operating system succeeds, and the application gives every
-- connection a client. A receive completes once for each WSARecv, and an accept once for each
-- AcceptEx. SendHandler and OnIOHandler change nothing here.
pub mod Alone
pub mod Order
pub mod Count
use dokevi_network.Prelude.{
  ℕ, suc, ◌+◌, ◌-◌, ◌%◌, ◌<◌, ◌≡◌, List, [], ◌∷◌, Bool, true, false, ◌==◌, ltb, if◌then◌else◌,
}
use dokevi_network.Pool.{uint64}

-- The calls of the application's handlers.
pub data Call : Type 0 where
  connected packet disconnected : (connection : ℕ) → Call

pub record Shared : Type 0 where
  -- How many sockets have been made.
  pub made : ℕ
  -- The connections with an accept, and with a receive, that has not completed.
  pub accepting : ℕ → Bool
  pub asked : ℕ → Bool
  -- The newest first.
  pub calls : List Call
  pub client_size : ℕ

-- Where a thread stands: in GetQueuedCompletionStatus, or in a handler in front of its next call.
pub data Worker : Type 0 where
  idle counting uncounting : Worker
  connecting introducing receiving closing leaving : (connection : ℕ) → Worker

abbrev pub mark : (ℕ → Bool) → ℕ → Bool → ℕ → Bool
mark f n b m = if n == m then b else f m

pub data Move (s : Shared) (w : Worker) : Shared → Worker → Type 0 where
  -- ConnectHanadler: RecvPacket(0), ConnectedHandler, and the count.
  accept :
      (n : ℕ)
      → w ≡ idle
      → s.accepting n ≡ true
      → Move s w (record s { accepting = mark s.accepting n false }) (connecting n)
  ask_first :
      (n : ℕ)
      → w ≡ connecting n
      → Move s w (record s { asked = mark s.asked n true }) (introducing n)
  introduce :
      (n : ℕ) → w ≡ introducing n → Move s w (record s { calls = connected n ∷ s.calls }) counting
  count_in : w ≡ counting → Move s w (record s { client_size = (s.client_size + 1) % uint64 }) idle
  -- RecvHandler: the packets that are complete, and WSARecv.
  arrive :
      (n : ℕ)
      → w ≡ idle
      → s.asked n ≡ true
      → Move s w (record s { asked = mark s.asked n false }) (receiving n)
  hand_on :
      (n : ℕ) → w ≡ receiving n → Move s w (record s { calls = packet n ∷ s.calls }) (receiving n)
  ask_again : (n : ℕ) → w ≡ receiving n → Move s w (record s { asked = mark s.asked n true }) idle
  -- A receive of 0 bytes, or one that fails with the error 64; an accept and a send that fail with it.
  end_receive :
      (n : ℕ)
      → w ≡ idle
      → s.asked n ≡ true
      → Move s w (record s { asked = mark s.asked n false }) (closing n)
  end_accept :
      (n : ℕ)
      → w ≡ idle
      → s.accepting n ≡ true
      → Move s w (record s { accepting = mark s.accepting n false }) (closing n)
  end_send : (n : ℕ) → w ≡ idle → n < s.made → Move s w s (closing n)
  -- A receive, or an accept, that fails otherwise.
  lose_receive :
      (n : ℕ)
      → w ≡ idle
      → s.asked n ≡ true
      → Move s w (record s { asked = mark s.asked n false }) idle
  lose_accept :
      (n : ℕ)
      → w ≡ idle
      → s.accepting n ≡ true
      → Move s w (record s { accepting = mark s.accepting n false }) idle
  -- DisconnectHandler: ReadyAcceptEx, DisconnectedHandler, and the count.
  replace :
      (n : ℕ)
      → w ≡ closing n
      → Move s w
          (record s { made = suc s.made; accepting = mark s.accepting s.made true })
          (leaving n)
  part :
      (n : ℕ) → w ≡ leaving n → Move s w (record s { calls = disconnected n ∷ s.calls }) uncounting
  count_out :
      w ≡ uncounting
      → Move s w (record s { client_size = (s.client_size + uint64 - 1) % uint64 }) idle

pub record System : Type 0 where
  pub shared : Shared
  pub workers : ℕ → Worker

abbrev pub update : (ℕ → Worker) → ℕ → Worker → ℕ → Worker
update f i w j = if i == j then w else f j

-- SetListenPort has made `k` sockets.
abbrev pub start : ℕ → System
start k = record {
  shared = record {
    made = k;
    accepting = λ n. ltb n k;
    asked = λ n. false;
    calls = [];
    client_size = 0;
  };
  workers = λ i. idle;
}

-- The states that `threads` I/O threads reach.
pub data Reach (threads k : ℕ) : System → Type 0 where
  begin : Reach threads k (start k)
  next :
      {s : System} (i : ℕ) {l : Shared} {w : Worker}
      → Reach threads k s
      → i < threads
      → Move s.shared (s.workers i) l w
      → Reach threads k (record { shared = l; workers = update s.workers i w })
