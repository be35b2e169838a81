-- ===== src/Send.antt =====
-- The sending half of TCPSocket.cpp: Send and OnWriteCallback, which run under the socket's write
-- lock, with DokeviServer::Send. The packets form a list through `_next` from `_sendingPacket` to
-- `_lastPacket`. WSASend reports its outcome to the log only; what it is given is an event.
pub mod Message
pub mod Idle
pub mod Chain
pub mod Write
pub mod Fresh
pub mod Grow
pub mod Ends
pub mod Busy
pub mod Freed
pub mod Burst
pub mod Delivery
pub mod Bursts
pub mod Reissue
pub mod Crossed
use dokevi_network.Prelude.{
  ℕ, ◌+◌, ◌-◌, ◌%◌, List, [], ◌∷◌, ◌++◌, Bool, true, false, not, ◌&&◌, Option, none, some, Result,
  ok, err, null_deref, ◌>>=◌, ◌>>◌, leb, if◌then◌else◌, length, memcpy, read_at,
}
use dokevi_network.Bytes.{word, sizeof_uint, set_size_on_byte_array_front}
use dokevi_network.Log.{LogManager, log_critical}
use dokevi_network.Pool.{Pointer}
use dokevi_network.Packet.{Packet, PacketSelector, alloc_packet, free_packet, load, store}

pub record Sender : Type 0 where
  pub sending_packet : Option Pointer
  pub last_packet : Option Pointer
  pub packets : PacketSelector

pub data Event : Type 0 where
  wsa_send : (bytes : List ℕ) → Event

-- DokeviServer::Send hands `_size` bytes from `_buffer` on to WSASend.
unfoldable pub server_send : Packet → Result (List Event)
server_send a = do bytes ← read_at a.buffer 0 a.size; ok (wsa_send bytes ∷ [])

-- The size and then the data, from `pos` on.
unfoldable pub write_message : List ℕ → ℕ → List ℕ → Result (List ℕ)
write_message buffer pos in_data = do
  (sized, behind) ← set_size_on_byte_array_front buffer pos (length in_data)
  memcpy sized behind in_data

abbrev pub total_packet_size : List ℕ → ℕ
total_packet_size in_data = (length in_data + sizeof_uint) % word

-- The message behind those that the last packet holds already.
unfoldable pub append_to : Pointer → Packet → List ℕ → Sender → Result (Sender × List Event)
append_to l a in_data s = do
  buffer ← write_message a.buffer a.size in_data
  let total = total_packet_size in_data
  let a' = record a {
    buffer = buffer;
    size = (a.size + total) % word;
    remain_size = (a.remain_size + word - total) % word;
  }
  ok (record s { packets = store l a' s.packets }, [])

-- A new packet at the end of the list; it is sent at once if none is being sent.
unfoldable pub enqueue : Pointer → Packet → Sender → Result (Sender × List Event)
enqueue x a s = elim s.sending_packet [
  | none ↦
      let a' = record a { is_sending = true } in
      server_send a' >>= λ es.
      ok (
        record { sending_packet = some x; last_packet = some x; packets = store x a' s.packets },
        es,
      )
  | some _ ↦
      let packets = store x a s.packets in
      elim s.last_packet [
        | none ↦ err null_deref
        | some l ↦ load l packets >>= λ b. ok (
          record s { last_packet = some x; packets = store l (record b { next = some x }) packets },
          [],
        )
      ]
]

unfoldable pub send_new : LogManager → List ℕ → Bool → Sender → Result (Sender × List Event)
send_new log in_data immediate s = alloc_packet log (length in_data) s.packets >>= λ (x, packets).
    elim x [
      | none ↦ err null_deref
      | some x ↦ (do
        a ← load x packets
        buffer ← write_message a.buffer 0 in_data
        let total = total_packet_size in_data
        let a' = record a {
          buffer = buffer;
          immediate_send = immediate;
          size = total;
          remain_size = (a.remain_size + word - total) % word;
        }
        enqueue x a' (record s { packets = packets }))
    ]

unfoldable pub send : LogManager → List ℕ → Bool → Sender → Result (Sender × List Event)
send log in_data immediate s = elim s.last_packet [
  | none ↦ send_new log in_data immediate s
  | some l ↦ load l s.packets >>= λ a.
      if not a.is_sending
        && not a.immediate_send
        && leb (total_packet_size in_data) a.remain_size
        && not immediate
      then append_to l a in_data s
      else send_new log in_data immediate s
]

unfoldable pub on_write_callback : LogManager → Sender → Result (Sender × List Event)
on_write_callback log s = elim s.sending_packet [
  | none ↦ log_critical log >> err null_deref
  | some temp ↦ load temp s.packets >>= λ a. elim a.next [
    | none ↦ (do
      packets ← free_packet log temp s.packets
      ok (record { sending_packet = none; last_packet = none; packets = packets }, []))
    | some y ↦ (do
      b ← load y s.packets
      let b' = record b { is_sending = true }
      es ← server_send b'
      packets ← free_packet log temp (store y b' s.packets)
      ok (record s { sending_packet = some y; packets = packets }, es))
  ]
]
