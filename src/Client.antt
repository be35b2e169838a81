-- ===== src/Client.antt =====
-- IndependentNetworkClient of NetworkClient.cpp and NetworkClient.h: the client's own sending and
-- its reassembly of what it receives. Calls of the virtual RecvHandler are events. The results of
-- `send` and `recv` come from the operating system and are arguments.
pub mod Wire
pub mod Rounds
pub mod Delivery
pub mod Stream
pub mod Session
pub mod Life
use dokevi_network.Prelude.{
  ℕ, zero, suc, ◌+◌, ◌-◌, ◌*◌, ◌%◌, ◌^◌, List, [], ◌∷◌, ◌++◌, Bool, true, false, not, ◌&&◌, ◌||◌,
  Result, ok, err, spins, overrun, ◌>>=◌, leb, ltb, ◌==◌, if◌then◌else◌, length, take, drop,
  replicate, memcpy, memmove, get_or,
}
use dokevi_network.Bytes.{word, sizeof_uint, bytes_of_uint, uint_of_bytes}
use dokevi_network.Receive.{max_packet_buf_size}

pub record Client : Type 0 where
  pub packet_buffer : List ℕ
  pub cur_offset : ℕ
  pub buffer_size : ℕ
  pub disconnect : Bool

-- The constructor sets _curOffset and the buffer; _bufferSize and _disconnect keep what the memory
-- held, which are the arguments.
unfoldable pub new_client : ℕ → Bool → Client
new_client held flag = record {
  packet_buffer = replicate max_packet_buf_size 0;
  cur_offset = 0;
  buffer_size = held;
  disconnect = flag;
}

pub data Event : Type 0 where
  -- RecvHandler(protocol, data, size): `rest` is what stands in the buffer from `data` on.
  recv_handler : (protocol : ℕ) → (rest : List ℕ) → (size : ℕ) → Event

-- A signed `char` as an unsigned int.
abbrev pub widened : ℕ → ℕ
widened c = if ltb c 128 then c else c + (word - 256)

-- (unsigned int)(*(inBuffer + sizeof(unsigned int))): one `char`, which is signed here.
unfoldable pub get_protocol : List ℕ → ℕ
get_protocol buffer = widened (get_or buffer sizeof_uint 0)

-- if (_bufferSize == 0 && _curOffset >= sizeof(unsigned int)) _bufferSize = …
unfoldable pub announce : Client → Client
announce c =
    if c.buffer_size == 0 && leb sizeof_uint c.cur_offset
    then record c { buffer_size = uint_of_bytes c.packet_buffer }
    else c

-- The body of the loop up to its last test.
unfoldable pub hand_over : Client → Result (Client × List Event)
hand_over c =
    let size = c.buffer_size in
    let event =
      recv_handler (get_protocol c.packet_buffer) (drop (2 * sizeof_uint) c.packet_buffer) size in
    let offset = c.cur_offset - size in
    memmove c.packet_buffer size offset >>= λ buf.
    ok (
      announce (record c { packet_buffer = buf; cur_offset = offset; buffer_size = 0 }),
      event ∷ [],
    )

-- while (_bufferSize <= _curOffset && _bufferSize != 0)
unfoldable pub deserialize_loop : ℕ → Client → Result (Client × List Event)
deserialize_loop zero c = err spins
deserialize_loop (suc fuel) c = elim (leb c.buffer_size c.cur_offset && not (c.buffer_size == 0)) [
  | false ↦ ok (c, [])
  | true ↦ hand_over c >>= λ (c', es). elim (leb c'.cur_offset sizeof_uint) [
    | true ↦ ok (c', es)
    | false ↦ deserialize_loop fuel c' >>= λ (c'', es'). ok (c'', es ++ es')
  ]
]

-- Each round takes a byte at least.
unfoldable pub deserialize_packet : List ℕ → Client → Result (Client × List Event)
deserialize_packet data_read c = do
  buf ← memcpy c.packet_buffer c.cur_offset data_read
  let offset = (c.cur_offset + length data_read) % word
  let c' = announce (record c { packet_buffer = buf; cur_offset = offset })
  if leb c'.cur_offset sizeof_uint then ok (c', []) else deserialize_loop (suc c'.cur_offset) c'

-- The packet that SendPacket builds in its own array of MAX_PACKET_BUF_SIZE bytes, and its length.
unfoldable pub build_packet : ℕ → List ℕ → Result (List ℕ × ℕ)
build_packet in_protocol in_packet =
    let packet_length = (length in_packet + sizeof_uint * 2) % word in
    do
      with_length ← memcpy (replicate max_packet_buf_size 0) 0 (bytes_of_uint packet_length)
      with_protocol ← memcpy with_length sizeof_uint (bytes_of_uint in_protocol)
      packet ← memcpy with_protocol (sizeof_uint * 2) in_packet
      ok (packet, packet_length)

-- One `send` takes that many bytes from the front of what it is given, or fails with -1.
pub data SendResult : Type 0 where
  took : ℕ → SendResult
  failed : SendResult

-- The value of the call, as SendCount adds it.
abbrev pub returned : SendResult → ℕ
returned (took k) = k
returned failed = word - 1

abbrev pub gone_out : SendResult → List ℕ → List ℕ
gone_out (took k) packet = take k packet
gone_out failed packet = []

-- do { SendCount += send(…, packet, packetLength, 0); } while (SendCount != packetLength), with what
-- each `send` answers, and the bytes that have gone out. With no answer left it is still waiting.
unfoldable pub send_loop : List SendResult → ℕ → List ℕ → ℕ → Result (List ℕ)
send_loop [] count packet n = err spins
send_loop (r ∷ rs) count packet n =
    let count' = (count + returned r) % word in
    elim (count' == n) [
      | true ↦ ok (gone_out r packet)
      | false ↦ send_loop rs count' packet n >>= λ more. ok (gone_out r packet ++ more)
    ]

unfoldable pub send_packet : List SendResult → ℕ → List ℕ → Result (List ℕ)
send_packet answers in_protocol in_packet = do
  (packet, packet_length) ← build_packet in_protocol in_packet
  send_loop answers 0 packet packet_length
