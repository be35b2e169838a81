-- ===== src/Send/Idle.antt =====
-- TCPSocket::Send on a socket that is sending nothing.
use dokevi_network.Prelude.{
  ℕ, ◌+◌, ◌-◌, ◌%◌, ◌≤◌, ◌<◌, ◌≡◌, refl, ◌∙◌, List, [], ◌∷◌, Bool, true, arith, none, some,
  get_elem?, length, length-set, take, ok, err, overrun, read_at_lem,
}
use dokevi_network.Bytes.{word}
use dokevi_network.Log.{LogManager}
use dokevi_network.Pool.{Pointer}
use dokevi_network.Packet.{
  Packet, PacketSelector, PoolName, bytes_of, pool, choose, release, load, store, alloc_packet,
}
use dokevi_network.Packet.RoundTrip.{IsPoolOf, packet_at, alloc_packet_lem, load_lem, handed_out}
use dokevi_network.Send.{
  Sender, Event, wsa_send, send, send_new, enqueue, server_send, write_message,
}
use dokevi_network.Send.Message.{message, write_message_lem, write_message_overrun}

-- Nothing is being sent, and the pool for a message of `n` bytes has a packet of its full size left.
pub record IsReady (n : ℕ) (k : PoolName) (s : Sender) : Type 0 where
  pub idle : s.sending_packet ≡ none
  pub empty : s.last_packet ≡ none
  pub chosen : choose n ≡ some k
  pub pooled : IsPoolOf k (pool k s.packets)
  pub room : (pool k s.packets).used < (pool k s.packets).queue_size
  pub arrays :
      (i : ℕ) (a : Packet)
      → get_elem? (pool k s.packets).memory i ≡ some a
      → length a.buffer ≡ bytes_of k

pub length-release : (n : ℕ) (a : Packet) → length (release n a).buffer ≡ length a.buffer
unfolding release
length-release n a = length-set a.buffer 0 0

pub four_le_bytes_of : (k : PoolName) → 4 ≤ bytes_of k
four_le_bytes_of k = ground arith

pub bytes_of_le : (k : PoolName) → bytes_of k ≤ 4096
bytes_of_le k = ground arith

pub send-new :
    (log : LogManager) (d : List ℕ) (immediate : Bool) (s : Sender)
    → s.last_packet ≡ none
    → send log d immediate s ≡ send_new log d immediate s
unfolding send
send-new log d immediate s e = ground arith

module _ (log : LogManager) (d : List ℕ) (immediate : Bool) (s : Sender) (k : PoolName)
    (v : IsReady (length d) k s) where
  -- The packet that Send works on, and the pools behind the call of AllocPacket.
  abbrev Given : Packet → Pointer → PacketSelector → Type 0
  Given a x packets =
      (alloc_packet log (length d) s.packets ≡ ok (some x, packets))
      × (load x packets ≡ ok a)
      × (length a.buffer ≡ bytes_of k)

  allocated : (a : Packet) × (x : Pointer) × (packets : PacketSelector) × Given a x packets
  allocated =
      let (a, was, run) = alloc_packet_lem log (length d) k s.packets v.pooled v.chosen v.room in
      (
        release (bytes_of k) a,
        packet_at k (pool k s.packets).used,
        _,
        (
          run.0,
          load_lem k (pool k s.packets).used _ (
              handed_out k s.packets _ (pool k s.packets).used (release (bytes_of k) a)
                ((pool k s.packets).used + 1) refl (omega (arith, v.pooled.valid.sized, v.room))),
          length-release (bytes_of k) a ∙ v.arrays _ a was,
        ),
      )

  overrun_from :
      {a : Packet} {x : Pointer} {packets : PacketSelector}
      → Given a x packets
      → write_message a.buffer 0 d ≡ err overrun
      → send_new log d immediate s ≡ err overrun
  unfolding send_new
  overrun_from (g, l, _) w = rw (g, l, w)

  -- On a socket that sends nothing and has nothing queued, where the pool for the message's size is
  -- sound and has a packet left, a message whose four bytes of length do not fit into a packet of that
  -- pool is written past the end of the packet.
  pub send-overrun : bytes_of k < length d + 4 → send log d immediate s ≡ err overrun
  send-overrun h =
      let (a, x, packets, g) = allocated in
      send-new log d immediate s v.empty
      ∙ overrun_from g (
          write_message_overrun a.buffer 0 d (omega (arith, g.2, four_le_bytes_of k))
            (omega (arith, g.2)))

  -- The packet behind the write, and as it is when it is handed to WSASend.
  abbrev filled : Packet → List ℕ → Packet
  filled a b = record a {
    buffer = b;
    immediate_send = immediate;
    size = (length d + 4) % word;
    remain_size = (a.remain_size + word - (length d + 4) % word) % word;
  }

  sent :
      (a : Packet) (b : List ℕ)
      → length d + 4 ≤ length b
      → length d + 4 < word
      → take (0 + 4 + length d) b ≡ message d
      → server_send (record (filled a b) { is_sending = true }) ≡ ok (wsa_send (message d) ∷ [])
  unfolding server_send
  sent a b fits small front =
      let same : (length d + 4) % word ≡ 0 + 4 + length d = omega arith in
      rw (same, read_at_lem b (0 + 4 + length d) (omega arith), front)

  enqueued :
      (x : Pointer) (a : Packet) (packets : PacketSelector) {es : List Event}
      → server_send (record a { is_sending = true }) ≡ ok es
      → enqueue x a (record s { packets = packets })
        ≡ ok (
          record {
            sending_packet = some x;
            last_packet = some x;
            packets = store x (record a { is_sending = true }) packets;
          },
          es,
        )
  unfolding enqueue
  enqueued x a packets e = ground (arith, v.idle)

  sent_from :
      {a : Packet} {x : Pointer} {packets : PacketSelector} (b : List ℕ)
      → Given a x packets
      → write_message a.buffer 0 d ≡ ok b
      → send_new log d immediate s ≡ enqueue x (filled a b) (record s { packets = packets })
  unfolding send_new
  sent_from b (g, l, _) w = rw (g, l, w)

  -- On a socket that is ready for it, a message that fits with its length is handed to WSASend at once: its length, then its bytes,
  -- and nothing else; and its packet is the one that is being sent.
  pub send-fits :
      length d + 4 ≤ bytes_of k
      → (x : Pointer) × (s' : Sender) × (send log d immediate s
          ≡ ok (s', wsa_send (message d) ∷ []))
        × (s'.sending_packet ≡ some x)
        × (s'.last_packet ≡ some x)
  send-fits h =
      let (a, x, packets, g) = allocated in
      let (b, w, same, front) = write_message_lem a.buffer 0 d (omega (arith, g.2)) in
      (
        x,
        _,
        send-new log d immediate s v.empty
            ∙ sent_from b g w
            ∙ enqueued x (filled a b) packets
                (sent a b (omega (arith, same, g.2)) (omega (arith, bytes_of_le k)) front),
        refl,
        refl,
      )
