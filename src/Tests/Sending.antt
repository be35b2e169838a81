-- ===== src/Tests/Sending.antt =====
-- TCPSocket::Send at concrete messages.
use dokevi_network.Prelude.{
  ℕ, ◌≡◌, ◌+◌, ◌≤◌, List, true, refl, sym, ap, ◌∙◌, [], ◌∷◌, arith, none, some, ok, err, overrun,
  false, replicate, length, length-replicate, get_elem?-replicate,
}
use dokevi_network.Log.{new_log_manager}
use dokevi_network.Pool.{init}
use dokevi_network.Pool.Order.{init-IsValid}
use dokevi_network.Packet.{
  Packet, PoolName, p64, p128, p256, p512, p1024, p2048, p4096, pool, choose, init_packet_selector,
}
use dokevi_network.Send.{Sender, Event, send}
use dokevi_network.Send.Idle.{IsReady, send-overrun}
use dokevi_network.Send.Chain.{Holds}
use dokevi_network.Send.Grow.{wire}
use dokevi_network.Send.Burst.{IsFitting}
use dokevi_network.Send.Delivery.{Request, HasRoom}
use dokevi_network.Send.Bursts.{run_bursts, run_bursts-delivers, new_sender-Holds}

abbrev fresh : ℕ → Packet
fresh n = record {
  buffer = replicate n 0;
  immediate_send = false;
  is_sending = false;
  size = 0;
  remain_size = n;
  max_size = n;
  next = none;
}

-- A new socket.
abbrev idle_socket : Sender
idle_socket = record {
  sending_packet = none;
  last_packet = none;
  packets = init_packet_selector fresh;
}

socket-IsReady : (n : ℕ) → choose n ≡ some p64 → IsReady n p64 idle_socket
unfolding init_packet_selector init
socket-IsReady n chosen = record {
  idle = refl;
  empty = refl;
  chosen = chosen;
  pooled = record { valid = init-IsValid 64 (fresh 64) 1000 (omega arith); placed = refl };
  room = omega arith;
  arrays = λ i a e.
      ap (λ (b : Packet). length b.buffer) (sym (get_elem?-replicate 1000 i (fresh 64) e))
      ∙ length-replicate {A = ℕ} 64 0;
}

choose-2 : choose 2 ≡ some p64
unfolding choose
choose-2 = refl

choose-61 : choose 61 ≡ some p64
unfolding choose
choose-61 = refl

fitting : (d : List ℕ) → choose (length d) ≡ some p64 → length d + 4 ≤ 64 → IsFitting d
fitting d chosen fits = record { kind = p64; chosen = chosen; fits = fits }

room : (n : ℕ) → n ≤ 1000 → HasRoom n idle_socket
unfolding init_packet_selector init
room n h p64 = omega (arith, h)
room n h p128 = omega (arith, h)
room n h p256 = omega (arith, h)
room n h p512 = omega (arith, h)
room n h p1024 = omega (arith, h)
room n h p2048 = omega (arith, h)
room n h p4096 = omega (arith, h)

-- Four messages before the first completion, the third of them on its own, and then one more.
abbrev bursts : List (List Request)
bursts =
    ((7 ∷ 8 ∷ [], false) ∷ (1 ∷ [], false) ∷ (2 ∷ [], true) ∷ (3 ∷ [], false) ∷ [])
    ∷ ((9 ∷ [], false) ∷ [])
    ∷ []

run_bursts-delivers_example :
    (s' : Sender) × (es : List Event) × (run_bursts new_log_manager bursts idle_socket
      ≡ ok (s', es))
    × (wire es
        ≡ 2 ∷ 0 ∷ 0 ∷ 0 ∷ 7 ∷ 8 ∷ 1 ∷ 0 ∷ 0 ∷ 0 ∷ 1 ∷ 1 ∷ 0 ∷ 0 ∷ 0 ∷ 2 ∷ 1 ∷ 0 ∷ 0 ∷ 0 ∷ 3 ∷ 1 ∷ 0
          ∷ 0 ∷ 0 ∷ 9 ∷ [])
    × Holds s' []
    × ((j : PoolName) → (pool j s'.packets).used ≡ (pool j idle_socket.packets).used)
unfolding choose
run_bursts-delivers_example =
    run_bursts-delivers new_log_manager bursts idle_socket
      (new_sender-Holds fresh (λ n. length-replicate {A = ℕ} n 0))
      (
        (
          (
            fitting (7 ∷ 8 ∷ []) refl (omega arith),
            (
              fitting (1 ∷ []) refl (omega arith),
              (fitting (2 ∷ []) refl (omega arith), (fitting (3 ∷ []) refl (omega arith), tt)),
            ),
          ),
          room 4 (omega arith),
        ),
        (((fitting (9 ∷ []) refl (omega arith), tt), room 1 (omega arith)), tt),
      )

-- 61 bytes go to a packet of 64, and their length takes four more.
send-overrun_example : send new_log_manager (replicate 61 1) false idle_socket ≡ err overrun
send-overrun_example =
    send-overrun new_log_manager (replicate 61 1) false idle_socket p64
      (socket-IsReady 61 choose-61) (omega arith)
