-- ===== src/Tests/Queueing.antt =====
-- A Send between two completions, at concrete packets.
use dokevi_network.Prelude.{
  ℕ, zero, suc, ◌≡◌, refl, ap, sym, ◌∙◌, List, [], ◌∷◌, arith, none, some, ok, false, true,
  replicate, length, length-replicate, get_elem?,
}
use dokevi_network.Log.{new_log_manager}
use dokevi_network.Pool.{Pool, indicate}
use dokevi_network.Packet.{
  Packet, PacketSelector, PoolName, p64, p128, p256, p512, p1024, p2048, p4096, pool, choose,
  init_packet_selector,
}
use dokevi_network.Packet.Heap.{IsSound}
use dokevi_network.Send.{Sender, wsa_send, send, on_write_callback}
use dokevi_network.Send.Chain.{Entry, at, Holds}
use dokevi_network.Send.Bursts.{new_pool-IsSound}
use dokevi_network.Send.Crossed.{Sends, callback-send_crosses}
use dokevi_network.Send.Reissue.{FollowsItself, callback-send_reissues}
use dokevi_network.Bytes.{uint_of_bytes}
use dokevi_network.Client
use dokevi_network.Client.{Client, new_client, deserialize_packet, get_protocol}
use dokevi_network.Client.Rounds.{IsValid, contents, new_client-IsValid_iff}
use dokevi_network.Client.Delivery.{deliveries}
use dokevi_network.Reply.{send-deserialize_packet}

abbrev fresh : ℕ → Packet
fresh n = record {
  buffer = replicate n 0;
  immediate_send = false;
  is_sending = false;
  size = 0;
  remain_size = n;
  max_size = n;
  next = none;
}

-- The messages 5 and 6, each of one byte; the first of them is being sent.
abbrev first_packet : Packet
first_packet = record {
  buffer = 1 ∷ 0 ∷ 0 ∷ 0 ∷ 5 ∷ replicate 59 0;
  immediate_send = true;
  is_sending = true;
  size = 5;
  remain_size = 59;
  max_size = 64;
  next = some (at (p64, 1));
}

abbrev second_packet : Packet
second_packet = record {
  buffer = 1 ∷ 0 ∷ 0 ∷ 0 ∷ 6 ∷ replicate 59 0;
  immediate_send = true;
  is_sending = false;
  size = 5;
  remain_size = 59;
  max_size = 64;
  next = none;
}

-- Pools of which two packets of the smallest class are out.
abbrev two_out : Packet → Packet → Pool Packet
two_out a b = record {
  used = 2;
  queue_size = 3;
  block = 64;
  memory = a ∷ b ∷ fresh 64 ∷ [];
  memory_indicate = indicate 64 0 3;
}

abbrev pools : Packet → Packet → PacketSelector
pools a b = record (init_packet_selector fresh) { packet64 = two_out a b }

abbrev socket : Sender
socket = record {
  sending_packet = some (at (p64, 0));
  last_packet = some (at (p64, 1));
  packets = pools first_packet second_packet;
}

abbrev first : Entry
first = record { key = (p64, 0); packet = first_packet }

abbrev second : Entry
second = record { key = (p64, 1); packet = second_packet }

module _ (a b : Packet) (la : length a.buffer ≡ 64) (lb : length b.buffer ≡ 64) where
  two_out-IsSound : IsSound p64 (two_out a b)
  two_out-IsSound = record {
    pooled = record {
      valid = record { sized = refl; within = omega arith; small = omega arith; indicated = refl };
      placed = refl;
    };
    arrays = arrays;
  }
    where
      the_same : {c d : Packet} → some c ≡ some d → c ≡ d
      the_same e = cc

      arrays :
          (i : ℕ) (c : Packet) → get_elem? (two_out a b).memory i ≡ some c → length c.buffer ≡ 64
      arrays zero c e = ap (λ (p : Packet). length p.buffer) (sym (the_same e)) ∙ la
      arrays (suc zero) c e = ap (λ (p : Packet). length p.buffer) (sym (the_same e)) ∙ lb
      arrays (suc (suc zero)) c e =
          ap (λ (p : Packet). length p.buffer) (sym (the_same e)) ∙ length-replicate {A = ℕ} 64 0
      arrays (suc (suc (suc i))) c e = cc

  sounds : (k : PoolName) → IsSound k (pool k (pools a b))
  unfolding init_packet_selector
  sounds p64 = two_out-IsSound
  sounds p128 = new_pool-IsSound p128 fresh (λ n. length-replicate {A = ℕ} n 0)
  sounds p256 = new_pool-IsSound p256 fresh (λ n. length-replicate {A = ℕ} n 0)
  sounds p512 = new_pool-IsSound p512 fresh (λ n. length-replicate {A = ℕ} n 0)
  sounds p1024 = new_pool-IsSound p1024 fresh (λ n. length-replicate {A = ℕ} n 0)
  sounds p2048 = new_pool-IsSound p2048 fresh (λ n. length-replicate {A = ℕ} n 0)
  sounds p4096 = new_pool-IsSound p4096 fresh (λ n. length-replicate {A = ℕ} n 0)

long : length (5 ∷ 0 ∷ 0 ∷ 0 ∷ 0 ∷ replicate {A = ℕ} 59 0) ≡ 64
long = omega (arith, length-replicate {A = ℕ} 59 0)

socket-Holds : Holds socket (first ∷ second ∷ [])
socket-Holds = record {
  first = refl;
  last = refl;
  apart = (((λ q n. omega (arith, n)), tt), (tt, tt));
  counted = λ j. ground arith;
  sound = sounds first_packet second_packet long long;
  placed = (refl, (refl, tt));
  good = (
    record { sized = omega (arith, length-replicate {A = ℕ} 59 0); filled = refl; capacity = refl },
    (
      record {
        sized = omega (arith, length-replicate {A = ℕ} 59 0);
        filled = refl;
        capacity = refl;
      },
      tt,
    ),
  );
  linked = (refl, (refl, tt));
  first_sent = refl;
}

callback-send_reissues_example :
    (s' : Sender) × (s'' : Sender) × (on_write_callback new_log_manager socket
      ≡ ok (s', wsa_send (1 ∷ 0 ∷ 0 ∷ 0 ∷ 6 ∷ []) ∷ []))
    × (send new_log_manager (7 ∷ 8 ∷ []) true s' ≡ ok (s'', []))
    × FollowsItself (p64, 1) (7 ∷ 8 ∷ []) s''
unfolding choose
callback-send_reissues_example =
    callback-send_reissues new_log_manager socket first second (7 ∷ 8 ∷ []) socket-Holds refl refl
      refl (omega arith)

-- The same packets, each the only one of a socket of its own.
abbrev lone_packet : Packet
lone_packet = record first_packet { next = none }

abbrev other_packet : Packet
other_packet = record second_packet { is_sending = true }

abbrev one : Sender
one = record {
  sending_packet = some (at (p64, 0));
  last_packet = some (at (p64, 0));
  packets = pools lone_packet other_packet;
}

abbrev other : Sender
other = record one { sending_packet = some (at (p64, 1)); last_packet = some (at (p64, 1)) }

one-Holds : Holds one (record { key = (p64, 0); packet = lone_packet } ∷ [])
one-Holds = record {
  first = refl;
  last = refl;
  apart = (tt, tt);
  counted = λ j. ground arith;
  sound = sounds lone_packet other_packet long long;
  placed = (refl, tt);
  good = (record { sized = long; filled = refl; capacity = refl }, tt);
  linked = (refl, tt);
  first_sent = refl;
}

other-Holds : Holds other (record { key = (p64, 1); packet = other_packet } ∷ [])
other-Holds = record {
  first = refl;
  last = refl;
  apart = (tt, tt);
  counted = λ j. ground arith;
  sound = sounds lone_packet other_packet long long;
  placed = (refl, tt);
  good = (record { sized = long; filled = refl; capacity = refl }, tt);
  linked = (refl, tt);
  first_sent = refl;
}

callback-send_crosses_example :
    (one' : Sender) × (one'' : Sender) × (on_write_callback new_log_manager one ≡ ok (one', []))
    × (send new_log_manager (7 ∷ 8 ∷ []) false one'
        ≡ ok (one'', wsa_send (2 ∷ 0 ∷ 0 ∷ 0 ∷ 7 ∷ 8 ∷ []) ∷ []))
    × Sends (p64, 1) (7 ∷ 8 ∷ []) one''
    × (some (at (p64, 1)) ≡ one''.sending_packet)
unfolding choose
callback-send_crosses_example =
    callback-send_crosses new_log_manager one other
      (record { key = (p64, 0); packet = lone_packet })
      (record { key = (p64, 1); packet = other_packet }) (7 ∷ 8 ∷ []) false one-Holds other-Holds
      refl refl refl refl (omega arith)

-- Protocol 3 with six bytes: the client is given the first two, and waits for 101058054 bytes more.
abbrev six_bytes : List ℕ
six_bytes = 3 ∷ 0 ∷ 0 ∷ 0 ∷ 7 ∷ 8 ∷ 6 ∷ 6 ∷ 6 ∷ 6 ∷ []

abbrev idle : Sender
idle = record {
  sending_packet = none;
  last_packet = none;
  packets = pools lone_packet other_packet;
}

send-deserialize_packet_example :
    (s' : Sender) × (bytes : List ℕ) × (c' : Client) × (es : List Client.Event) × (send
        new_log_manager six_bytes true idle
      ≡ ok (s', wsa_send bytes ∷ []))
    × (deserialize_packet bytes (new_client 0 false) ≡ ok (c', es))
    × (deliveries es ≡ (get_protocol bytes, 7 ∷ 8 ∷ [], 10) ∷ [])
    × IsValid c'
    × (contents c' ≡ 6 ∷ 6 ∷ 6 ∷ 6 ∷ [])
unfolding choose new_client uint_of_bytes
send-deserialize_packet_example =
    send-deserialize_packet six_bytes (omega arith) new_log_manager p64 true idle
      (new_client 0 false) (sounds lone_packet other_packet long long) refl refl (omega arith) refl
      (omega arith) (omega arith) ((new_client-IsValid_iff 0 false).1 refl) refl
