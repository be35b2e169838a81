-- ===== src/Send/Fresh.antt =====
-- The packet that Send takes for a message, and the list behind it.
use dokevi_network.Prelude.{
  ℕ, ◌+◌, ◌-◌, ◌%◌, ◌<◌, ◌≤◌, ◌≡◌, ◌≢◌, refl, sym, ap, subst, ◌∙◌, List, Bool, arith, none, some,
  length, take,
}
use dokevi_network.Bytes.{word}
use dokevi_network.Log.{LogManager}
use dokevi_network.Packet.{Packet, PacketSelector, PoolName, bytes_of, pool, choose, release}
use dokevi_network.Packet.RoundTrip.{load_lem, alloc_packet_lem}
use dokevi_network.Packet.Heap.{
  IsSound, put, used-put_self, used-put_ne, queue_size-put, name_discrete,
}
use dokevi_network.Send.{Sender, send_new, enqueue}
use dokevi_network.Send.Message.{message, write_message_lem}
use dokevi_network.Send.Idle.{bytes_of_le, length-release}
use dokevi_network.Send.Chain.{Key, at, one_if}
use dokevi_network.Send.Write.{Changed, put-Changed}

-- A new packet with the message, for pool `k`.
pub record Fresh (k : PoolName) (d : List ℕ) (a : Packet) : Type 0 where
  pub sized : length a.buffer ≡ bytes_of k
  pub filled : a.size + a.remain_size ≡ bytes_of k
  pub capacity : a.max_size ≡ bytes_of k
  pub alone : a.next ≡ none
  pub text : take a.size a.buffer ≡ message d

-- What AllocPacket leaves behind: the place is the next of its pool, whose count goes up.
pub record Allocated (k : PoolName) (s s' : PacketSelector) : Type 0 where
  pub first : Packet
  pub changed : Changed s s' (k, (pool k s).used) first
  pub used : (j : PoolName) → (pool j s').used ≡ (pool j s).used + one_if j k
  pub queue_size : (j : PoolName) → (pool j s').queue_size ≡ (pool j s).queue_size

bytes_of_ne : (j k : PoolName) → j ≢ k → one_if j k ≡ 0
bytes_of_ne j k n = ground arith

used-alloc :
    (j k : PoolName) (a : Packet) (s : PacketSelector)
    → (pool j (put k (pool k s).used a ((pool k s).used + 1) s)).used ≡ (pool j s).used + one_if j k
used-alloc j k a s = elim (name_discrete j k) [
  | yes e ↦
      subst
        (λ l.
          (pool l (put k (pool k s).used a ((pool k s).used + 1) s)).used
          ≡ (pool l s).used + one_if l k)
        (sym e) (used-put_self k (pool k s).used a ((pool k s).used + 1) s ∙ ground arith)
  | no n ↦
      omega (arith, used-put_ne j k (pool k s).used a ((pool k s).used + 1) s n, bytes_of_ne j k n)
]

module _ (log : LogManager) (d : List ℕ) (immediate : Bool) (s : Sender) (k : PoolName)
    (sound : (j : PoolName) → IsSound j (pool j s.packets)) (chosen : choose (length d) ≡ some k)
    (fits : length d + 4 ≤ bytes_of k)
    (room : (pool k s.packets).used < (pool k s.packets).queue_size) where
  place : Key
  place = (k, (pool k s.packets).used)

  pub send_new-Fresh :
      (a : Packet) × (packets : PacketSelector) × (send_new log d immediate s
        ≡ enqueue (at (k, (pool k s.packets).used)) a (record s { packets = packets }))
      × Fresh k d a
      × Allocated k s.packets packets
  unfolding send_new release
  send_new-Fresh =
      let u = (pool k s.packets).used in
      let (was, here, run) =
        alloc_packet_lem log (length d) k s.packets (sound k).pooled chosen room in
      let a1 = release (bytes_of k) was in
      let packets = put k u a1 (u + 1) s.packets in
      let sized : length a1.buffer ≡ bytes_of k =
        length-release (bytes_of k) was ∙ (sound k).arrays u was here in
      let c : Changed s.packets packets (k, u) a1 =
        put-Changed (k, u) a1 (u + 1) s.packets sound
          (omega (arith, (sound k).pooled.valid.sized, room)) sized (omega (arith, room)) in
      let (b, wrote, same, text) = write_message_lem a1.buffer 0 d (omega (arith, sized, fits)) in
      let total : (length d + 4) % word ≡ length d + 4 = omega (arith, fits, bytes_of_le k) in
      (
        record a1 {
          buffer = b;
          immediate_send = immediate;
          size = (length d + 4) % word;
          remain_size = (a1.remain_size + word - (length d + 4) % word) % word;
        },
        packets,
        rw (run.0, load_lem k u packets c.here, wrote) refl,
        record {
          sized = same ∙ sized;
          filled = omega (arith, total, fits, bytes_of_le k);
          capacity = refl;
          alone = refl;
          text = ap (λ n. take n b) (omega (arith, total)) ∙ text;
        },
        record {
          first = a1;
          changed = c;
          used = λ j. used-alloc j k a1 s.packets;
          queue_size = λ j. queue_size-put j k u a1 (u + 1) s.packets;
        },
      )
