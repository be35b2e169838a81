-- ===== src/Send/Grow.antt =====
-- One call of Send: what is queued behind it.
use mathlib.Core.List.{append-nil}
use dokevi_network.Prelude.{
  ℕ, ◌+◌, ◌≤◌, ◌≡◌, refl, ◌∙◌, List, [], ◌∷◌, ◌++◌, Bool, true, arith, none, some, ok, Result,
  length, take, read_at_lem,
}
use dokevi_network.Packet.{Packet, PacketSelector, PoolName, bytes_of, pool, store}
use dokevi_network.Send.{Sender, Event, wsa_send, enqueue, server_send}
use dokevi_network.Send.Message.{message}
use dokevi_network.Send.Chain.{Key, at, Entry, keys, one_if, count, IsGood, pending, Holds, IsOut}
use dokevi_network.Send.Write.{Changed, store-Changed, used-store, queue_size-store, Changed-twice}
use dokevi_network.Send.Fresh.{Fresh, Allocated}

-- The bytes that WSASend is given.
abbrev pub wire : List Event → List ℕ
wire [] = []
wire (wsa_send bytes ∷ es) = bytes ++ wire es

-- A call that leaves the packets of another queue, with more text than before.
pub record After (s : Sender) (q : List Entry) (more : List ℕ) (r : Result (Sender × List Event))
    : Type 0 where
  pub sender : Sender
  pub events : List Event
  pub queue : List Entry
  pub run : r ≡ ok (sender, events)
  pub holds : Holds sender queue
  pub out : IsOut sender (keys queue)
  pub text : wire events ++ pending queue ≡ pending q ++ more
  pub used : (j : PoolName) → (pool j sender.packets).used ≤ (pool j s.packets).used + 1
  pub balance :
      (j : PoolName)
      → (pool j sender.packets).used + count j (keys q)
        ≡ (pool j s.packets).used + count j (keys queue)
  pub queue_size :
      (j : PoolName) → (pool j sender.packets).queue_size ≡ (pool j s.packets).queue_size
  pub short : length queue ≤ length q + 1

pub server_send_lem :
    (a : Packet)
    → a.size ≤ length a.buffer
    → server_send a ≡ ok (wsa_send (take a.size a.buffer) ∷ [])
unfolding server_send
server_send_lem a h = rw (read_at_lem a.buffer a.size h) refl

pub one_if_self : (k : PoolName) → one_if k k ≡ 1
one_if_self k = ground arith

pub one_if_le : (j k : PoolName) → one_if j k ≤ 1
one_if_le j k = ground arith

module _ (d : List ℕ) (s : Sender) (k : PoolName) (a : Packet) (packets : PacketSelector)
    (f : Fresh k d a) (v : Allocated k s.packets packets) where
  abbrev key : Key
  key = (k, (pool k s.packets).used)

  -- The packet, as it is stored with another state of `is_sending`.
  abbrev as_sending : Bool → Entry
  as_sending b = record { key = key; packet = record a { is_sending = b } }

  as_sending-IsGood : (b : Bool) → IsGood (as_sending b)
  as_sending-IsGood b = record { sized = f.sized; filled = f.filled; capacity = f.capacity }

  abbrev behind : Packet → PacketSelector
  behind c = store (at key) c packets

  pub behind-Changed :
      (c : Packet) → length c.buffer ≡ bytes_of k → Changed s.packets (behind c) key c
  behind-Changed c sized =
      Changed-twice v.changed
        (store-Changed key v.first c packets v.changed.sound v.changed.here sized)

  pub used-behind :
      (j : PoolName) (c : Packet) → (pool j (behind c)).used ≡ (pool j s.packets).used + one_if j k
  used-behind j c = used-store j key c packets ∙ v.used j

  pub enqueue-idle :
      s.sending_packet ≡ none
      → enqueue (at key) a (record s { packets = packets })
        ≡ ok (
          record {
            sending_packet = some (at key);
            last_packet = some (at key);
            packets = behind (record a { is_sending = true });
          },
          wsa_send (message d) ∷ [],
        )
  unfolding enqueue
  enqueue-idle idle =
      let sent =
        server_send_lem (record a { is_sending = true }) (omega (arith, f.filled, f.sized)) in
      rw (idle, sent, f.text) refl

  -- The first packet of a socket is sent at once.
  pub enqueue-After_idle :
      Holds s [] → After s [] (message d) (enqueue (at key) a (record s { packets = packets }))
  enqueue-After_idle h =
      let a' : Packet = record a { is_sending = true } in
      let c = behind-Changed a' f.sized in
      record {
        sender = record {
          sending_packet = some (at key);
          last_packet = some (at key);
          packets = behind a';
        };
        events = wsa_send (message d) ∷ [];
        queue = as_sending true ∷ [];
        run = enqueue-idle h.first;
        holds = record {
          first = refl;
          last = refl;
          apart = (tt, tt);
          counted = λ j. omega (arith, used-behind j a');
          sound = c.sound;
          placed = (c.here, tt);
          good = (as_sending-IsGood true, tt);
          linked = (f.alone, tt);
          first_sent = refl;
        };
        out = (omega (arith, used-behind k a', one_if_self k), tt);
        text = append-nil (message d ++ []) ∙ append-nil (message d);
        used = λ j. omega (arith, used-behind j a', one_if_le j k);
        balance = λ j. omega (arith, used-behind j a');
        queue_size = λ j. queue_size-store j key a' packets ∙ v.queue_size j;
        short = omega arith;
      }
