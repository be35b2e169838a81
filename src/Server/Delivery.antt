-- ===== src/Server/Delivery.antt =====
-- What each connection's PacketHandler is given when the completions of all of them are dispatched.
use dokevi_network.Prelude.{
  ℕ, zero, suc, ◌+◌, ◌-◌, ◌≤◌, ◌<◌, ◌≡◌, refl, sym, ◌∙◌, List, [], ◌∷◌, ◌++◌, map, false, arith,
  Option, some, ok, length, concat, length-append, All, subst,
}
use dokevi_network.Log.{LogManager}
use dokevi_network.Framing.{Frames, Partial}
use dokevi_network.Framing.Reassembly.{feed_all, Returns, IsSmall, Returns-append}
use dokevi_network.Receive as R
use dokevi_network.Receive.{recv_completion}
use dokevi_network.Receive.Rounds as Rounds
use dokevi_network.Receive.Delivery.{deliveries, sized, server_reader, server_delivers}
use dokevi_network.Server.{Completion, lost, failed, accepted, sent, arrived, object_done}
use dokevi_network.Server.Accounts.{IsValid, IsFine, IsAbout, InRange, opens, heard_by}
use dokevi_network.Server.Balance.{dispatch_lem}
use dokevi_network.Server.Sockets.{
  Sockets, Input, Call, opened, new_receivers, sockets_step, sockets_task,
}
use dokevi_network.Server.Isolation.{
  addressed, arrivals, calls_of, at, Parted, Parted-append, Parted-Returns, Parted-opened,
  recv_all_lem, length-new_receivers,
}

-- A running server with a socket for each connection.
pub record IsReady (s : Sockets) : Type 0 where
  pub valid : IsValid s.server
  pub running : s.server.shut_down ≡ false
  pub paired : length s.receivers ≡ length s.server.connections

heard_by-about : (n : ℕ) (c : Completion) → IsAbout n c → All (λ p. p.0 < n) (heard_by c)
heard_by-about n (lost m) h = tt
heard_by-about n failed h = tt
heard_by-about n (accepted m) h = tt
heard_by-about n (sent m) h = tt
heard_by-about n (arrived m zero) h = tt
heard_by-about n (arrived m (suc k)) h = (h, tt)
heard_by-about n object_done h = tt

-- The completions `cs` of one connection bring the frames `fs`, and then `rest`, in receives that
-- fit behind an unfinished frame.
pub record IsStream (m : ℕ) (cs : List R.Completion) (r : R.Receiver) (fs : List (List ℕ))
    (rest : List ℕ) : Type 0 where
  pub valid : Rounds.IsValid r
  pub partial : Partial (Rounds.contents r)
  pub small : All (IsSmall server_reader m) cs
  pub framed : Frames (Rounds.contents r ++ concat (map R.received cs)) fs rest
  pub short : All (λ f. length f ≤ m) fs
  pub last : length rest < m

-- What a connection's PacketHandler has been given, and what its socket keeps.
abbrev pub Gives : List (List ℕ) → List ℕ → R.Receiver × List R.Event → Type 0
Gives fs rest o = (deliveries o.1 ≡ map sized fs) × (Rounds.contents o.0 ≡ rest)

-- Each connection for itself.
stream_lem :
    (m : ℕ) (cs : List R.Completion) (r : R.Receiver) (fs : List (List ℕ)) (rest : List ℕ)
    → 4 ≤ m
    → IsStream m cs r fs rest
    → (o : R.Receiver × List R.Event) × (feed_all recv_completion cs r ≡ ok o) × Gives fs rest o
stream_lem m cs r fs rest four v =
    let (r', es, run, seen, _, now) =
      server_delivers m cs r fs rest four v.valid v.partial v.small v.framed v.short v.last in
    ((r', es), run, (seen, now))

module _ (log : LogManager) (allocate : ℕ → ℕ → Option ℕ) (fill : ℕ → ℕ)
    (total : (f k : ℕ) → (client : ℕ) × (allocate f k ≡ some client)) where
  -- One completion has been dispatched.
  abbrev Steps : Input → Sockets → Type 0
  Steps i s =
      (s' : Sockets) × (calls : List Call) × (sockets_step log allocate fill i s ≡ ok (s', calls))
      × IsReady s'
      × (length s'.server.connections ≡ length s.server.connections + opens i.round.completion)
      × Parted fill (λ n. addressed n i.buffer (heard_by i.round.completion)) s.receivers
          s'.receivers calls

  step_lem :
      (i : Input) (s : Sockets)
      → IsReady s
      → IsFine i.round
      → IsAbout (length s.server.connections) i.round.completion
      → ((n : ℕ)
          → Returns recv_completion
              (addressed n i.buffer (heard_by i.round.completion))
              (at fill s.receivers n))
      → Steps i s
  unfolding sockets_step
  step_lem i s ready fine about h =
      let (server, es, run, b) =
        dispatch_lem log allocate i.round.completion i.round.answer s.server total ready.valid about
          fine.created fine.accepting in
      let (rs, calls, run', same, parted) =
        recv_all_lem fill i.buffer es s.receivers
          (subst (All (λ p. p.0 < length s.receivers)) (sym b.handed) (
            heard_by-about (length s.receivers) i.round.completion
              (subst (λ k. IsAbout k i.round.completion) (sym ready.paired) about)))
          (subst
            (λ l.
              (n : ℕ) → Returns recv_completion (addressed n i.buffer l) (at fill s.receivers n))
            (sym b.handed) h) in
      (
        record { server = server; receivers = opened fill (length server.connections) rs },
        calls,
        rw (fine.associated, run, run'),
        record {
          valid = b.valid;
          running = b.running ∙ ready.running;
          paired = omega (
            arith,
            length-append rs
                (new_receivers (λ k. fill (k + length rs)) (length server.connections - length rs)),
            length-new_receivers (λ k. fill (k + length rs))
                (length server.connections - length rs),
            same,
            ready.paired,
            b.longer,
          );
        },
        b.longer,
        Parted-opened fill (length server.connections) (
            subst (λ l. Parted fill (λ n. addressed n i.buffer l) s.receivers rs calls) b.handed
              parted),
      )

  task-cons :
      (i : Input) (is : List Input) (s : Sockets) {s' s'' : Sockets} {calls calls' : List Call}
      → s.server.shut_down ≡ false
      → sockets_step log allocate fill i s ≡ ok (s', calls)
      → sockets_task log allocate fill is s' ≡ ok (s'', calls')
      → sockets_task log allocate fill (i ∷ is) s ≡ ok (s'', calls ++ calls')
  unfolding sockets_task
  task-cons i is s on a b = ground (arith, on, a, b)

  task_lem :
      (is : List Input) (s : Sockets)
      → IsReady s
      → All (λ i. IsFine i.round) is
      → InRange (length s.server.connections) (map (λ i. i.round) is)
      → ((n : ℕ) → Returns recv_completion (arrivals n is) (at fill s.receivers n))
      → (s' : Sockets) × (calls : List Call) × (sockets_task log allocate fill is s
          ≡ ok (s', calls))
        × IsReady s'
        × Parted fill (λ n. arrivals n is) s.receivers s'.receivers calls
  unfolding sockets_task feed_all
  task_lem [] s ready fine about h = (s, [], refl, ready, record { each = λ n. refl })
  task_lem (i ∷ is) s ready fine about h =
      let (s', calls, run, ready', longer, parted) =
        step_lem i s ready fine.0 about.0 (λ n. first n) in
      let (s'', calls', run', ready'', parted') =
        task_lem is s' ready' fine.1
          (subst (λ k. InRange k (map (λ i. i.round) is)) (sym longer) about.1)
          (Parted-Returns fill (λ n. arrivals n is) parted h) in
      (
        s'',
        calls ++ calls',
        task-cons i is s ready.running run run',
        ready'',
        Parted-append fill parted parted',
      )
    where
      first :
          (n : ℕ)
          → Returns recv_completion
              (addressed n i.buffer (heard_by i.round.completion))
              (at fill s.receivers n)
      first n =
          let (r, es, run, _) =
            Returns-append recv_completion (addressed n i.buffer (heard_by i.round.completion))
              (arrivals n is) (at fill s.receivers n) (h n) in
          ((r, es), run)

  -- However the completions of all connections are interleaved: when the server runs with a socket
  -- for each connection, the operating system's calls succeed, the application gives every connection
  -- a client, the completions are about connections that there are, and the receives of each
  -- connection bring frames of at most `m` bytes and fit behind an unfinished one, then ThreadTask
  -- goes through all completions without a fault, the PacketHandler of each connection is given
  -- exactly the frames of that connection, once, whole and in order, and its socket keeps what is no
  -- whole frame yet.
  pub sockets_task-delivers :
      (m : ℕ) (is : List Input) (s : Sockets) (fs : ℕ → List (List ℕ)) (rest : ℕ → List ℕ)
      → 4 ≤ m
      → IsReady s
      → All (λ i. IsFine i.round) is
      → InRange (length s.server.connections) (map (λ i. i.round) is)
      → ((n : ℕ) → IsStream m (arrivals n is) (at fill s.receivers n) (fs n) (rest n))
      → (s' : Sockets) × (calls : List Call) × (sockets_task log allocate fill is s
          ≡ ok (s', calls))
        × IsReady s'
        × ((n : ℕ) → Gives (fs n) (rest n) (at fill s'.receivers n, calls_of n calls))
  sockets_task-delivers m is s fs rest four ready fine about streams =
      let (s', calls, run, ready', parted) =
        task_lem is s ready fine about (λ n. ((delivered n).0, (delivered n).1)) in
      (
        s',
        calls,
        run,
        ready',
        λ n.
            let (o, own, gives) = delivered n in
            let each = parted.each n in
            let same : o ≡ (at fill s'.receivers n, calls_of n calls) = cc in
            subst (Gives (fs n) (rest n)) same gives,
      )
    where
      delivered :
          (n : ℕ)
          → (o : R.Receiver × List R.Event) × (feed_all recv_completion
                (arrivals n is)
                (at fill s.receivers n)
              ≡ ok o)
            × Gives (fs n) (rest n) o
      delivered n =
          stream_lem m (arrivals n is) (at fill s.receivers n) (fs n) (rest n) four (streams n)
