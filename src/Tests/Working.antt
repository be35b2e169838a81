-- ===== src/Tests/Working.antt =====
-- The I/O threads of a server with one pending accept.
use dokevi_network.Prelude.{ℕ, ◌+◌, ◌%◌, ◌≡◌, refl, [], ◌∷◌, arith, false}
use dokevi_network.Server.Workers.{
  connected, packet, idle, introducing, accept, ask_first, introduce, count_in, arrive, hand_on,
  end_receive, replace, part, count_out, System, Reach, begin, next,
}
use dokevi_network.Pool.{uint64}
use dokevi_network.Server.Workers.Count.{ins, outs, client_size-calls}
use dokevi_network.Server.Workers.Alone.{holds, recv_packet_alone}
use dokevi_network.Server.Workers.Order.{InOrder, one_thread-InOrder, two_threads-early}

-- Thread 0 is about to call ConnectedHandler while thread 1 has the first receive.
abbrev first_receive : (s : System) × Reach 2 1 s
first_receive = (
  _,
  next 1 (next 0 (next 0 begin (omega arith) (accept 0 refl refl)) (omega arith) (ask_first 0 refl))
      (omega arith) (arrive 0 refl refl),
)

recv_packet_alone_example :
    (holds 0 (first_receive.0.workers 0) ≡ 0)
    × (first_receive.0.shared.asked 0 ≡ false)
    × (first_receive.0.shared.accepting 0 ≡ false)
recv_packet_alone_example =
    recv_packet_alone 0 2 1 0 first_receive.1 (omega arith) (omega arith) (λ e. omega (arith, e))
      refl

-- One thread takes the accept, and then a packet.
abbrev one_packet : (s : System) × Reach 1 1 s
one_packet = (
  _,
  next 0
      (next 0
        (next 0
          (next 0
            (next 0 (next 0 begin (omega arith) (accept 0 refl refl)) (omega arith)
              (ask_first 0 refl))
            (omega arith) (introduce 0 refl))
          (omega arith) (count_in refl))
        (omega arith) (arrive 0 refl refl))
      (omega arith) (hand_on 0 refl),
)

one_thread-InOrder_example : InOrder 0 (packet 0 ∷ connected 0 ∷ [])
one_thread-InOrder_example = one_thread-InOrder 0 one_packet.1

two_threads-early_example :
    (s' : System) × Reach 2 1 s'
    × (s'.shared.calls ≡ packet 0 ∷ [])
    × (s'.workers 0 ≡ introducing 0)
two_threads-early_example =
    two_threads-early 0 0 1 begin (omega arith) (omega arith) (λ e. omega (arith, e)) refl refl refl

-- Thread 0 has taken the accept, and thread 1 the end of the connection.
abbrev come_and_gone : (s : System) × Reach 2 1 s
come_and_gone = (
  _,
  next 1
      (next 1
        (next 1
          (next 1
            (next 0
              (next 0
                (next 0 (next 0 begin (omega arith) (accept 0 refl refl)) (omega arith)
                  (ask_first 0 refl))
                (omega arith) (introduce 0 refl))
              (omega arith) (count_in refl))
            (omega arith) (end_receive 0 refl refl))
          (omega arith) (replace 0 refl))
        (omega arith) (part 0 refl))
      (omega arith) (count_out refl),
)

all_idle : (i : ℕ) → come_and_gone.0.workers i ≡ idle
all_idle i = ground arith

client_size-calls_example :
    (come_and_gone.0.shared.client_size + outs come_and_gone.0.shared.calls) % uint64
    ≡ ins come_and_gone.0.shared.calls % uint64
client_size-calls_example = client_size-calls 2 come_and_gone.1 all_idle
