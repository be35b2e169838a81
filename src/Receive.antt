-- ===== src/Receive.antt =====
-- The receiving half of TCPSocket.cpp and TCPSocket.h: RecvPacket, its buffers and its two steps.
-- _recvBuf.buf is `recv_buf`, which the operating system fills; _packetBuf is `packet_buf`.
-- The calls of _networkClient->PacketHandler and of WSARecv are the events that RecvPacket returns.
-- WSARecv reports its outcome to the log only, so the outcome is not an argument.
pub mod Rounds
pub mod Stream
pub mod Chunks
pub mod Delivery
pub mod Spins
use dokevi_network.Prelude.{
  ℕ, zero, suc, ◌+◌, ◌-◌, ◌*◌, ◌%◌, List, [], ◌∷◌, ◌++◌, Bool, true, false, Result, ok, err, spins,
  ◌>>=◌, leb, ltb, ◌==◌, if◌then◌else◌, take, replicate, memcpy, memmove, read_at,
}
use dokevi_network.Bytes.{word, sizeof_uint, get_size_in_byte_array}

-- MAX_PACKET_BUF_SIZE of pch.h
abbrev pub max_packet_buf_size : ℕ
max_packet_buf_size = 4096

pub data RecvStep : Type 0 where
  recv_len recv_body : RecvStep

pub record Receiver : Type 0 where
  pub recv_buf : List ℕ
  pub packet_buf : List ℕ
  pub recv_size : ℕ
  pub packet_size : ℕ
  pub recv_step : RecvStep

pub data Event : Type 0 where
  -- PacketHandler(size, data), with the bytes that `data` points to.
  packet_handler : (size : ℕ) → (bytes : List ℕ) → Event
  -- WSARecv has been asked for more.
  wsa_recv : Event

-- What the constructor sets up. The contents of the two new arrays do not matter; `fill` is them.
unfoldable pub new_receiver : ℕ → Receiver
new_receiver fill = record {
  recv_buf = replicate max_packet_buf_size fill;
  packet_buf = replicate max_packet_buf_size fill;
  recv_size = 0;
  packet_size = 0;
  recv_step = recv_len;
}

-- One round of `while (true)`: whether the loop goes on, the state and the calls made.
pub round_len : Receiver → Result (Bool × Receiver × List Event)
round_len r =
    if leb sizeof_uint r.recv_size
    then (do
      size ← get_size_in_byte_array r.packet_buf
      ok (true, record r { packet_size = size; recv_step = recv_body }, []))
    else ok (false, r, [])

-- _recvSize - _packetSize does not wrap where it is computed.
pub handle_packet : Receiver → Result (Bool × Receiver × List Event)
handle_packet r =
    let handled = packet_handler r.packet_size (take r.packet_size r.packet_buf) ∷ [] in
    let over_value = r.recv_size - r.packet_size in
    if ltb 0 over_value
    then (do
      buf ← memmove r.packet_buf r.packet_size over_value
      ok (
        true,
        record r { recv_step = recv_len; packet_buf = buf; recv_size = over_value },
        handled,
      ))
    else ok (false, record r { recv_step = recv_len; recv_size = 0 }, handled)

pub round_body : Receiver → Result (Bool × Receiver × List Event)
unfolding handle_packet
round_body r = if leb r.packet_size r.recv_size then handle_packet r else ok (false, r, [])

unfoldable pub round : Receiver → Result (Bool × Receiver × List Event)
unfolding round_len round_body
round r = elim r.recv_step [ recv_len ↦ round_len r | recv_body ↦ round_body r ]

unfoldable pub recv_loop : ℕ → Receiver → Result (Receiver × List Event)
recv_loop zero r = err spins
recv_loop (suc fuel) r = do
  (more, r', es) ← round r
  elim more [ false ↦ ok (r', es) | true ↦ recv_loop fuel r' >>= λ (r'', es'). ok (r'', es ++ es') ]

-- Each frame takes two rounds and at least one byte.
abbrev pub recv_fuel : Receiver → ℕ
recv_fuel r = 2 * r.recv_size + 3

unfoldable pub recv_packet : ℕ → Receiver → Result (Receiver × List Event)
recv_packet in_size r = if in_size == 0 then ok (r, wsa_recv ∷ []) else (do
  received ← read_at r.recv_buf 0 in_size
  buf ← memcpy r.packet_buf r.recv_size received
  let r' = record r { packet_buf = buf; recv_size = (r.recv_size + in_size) % word }
  (r'', es) ← recv_loop (recv_fuel r') r'
  ok (r'', es ++ (wsa_recv ∷ [])))

-- A completed WSARecv: what stands in _recvBuf.buf then, and how many bytes of it are new.
pub record Completion : Type 0 where
  pub buffer : List ℕ
  pub transferred : ℕ

abbrev pub received : Completion → List ℕ
received c = take c.transferred c.buffer

-- DokeviServer::RecvHandler for one completion; the operating system has filled the buffer.
unfoldable pub recv_completion : Completion → Receiver → Result (Receiver × List Event)
recv_completion c r = recv_packet c.transferred (record r { recv_buf = c.buffer })
