-- ===== src/Client/Wire.antt =====
-- What SendPacket puts on the wire, and what GetProtocol reads back.
use dokevi_network.Prelude.{
  ℕ, ◌+◌, ◌%◌, ◌≤◌, ◌<◌, ◌≡◌, sym, ap, ◌∙◌, List, ◌∷◌, ◌++◌, arith, length, take, ok, err, overrun,
  replicate, memcpy_lem, memcpy_overrun, splice, take-splice, length-splice, ◌-◌, ◌⊎◌, ◌↔◌,
  take-take, ap₂,
}
use dokevi_network.Bytes.{word, bytes_of_uint, uint_of_bytes-bytes_of_uint}
use dokevi_network.Framing.{IsFrame}
use dokevi_network.Receive.{max_packet_buf_size}
use dokevi_network.Client.{build_packet, send_loop, send_packet, SendResult, took, get_protocol}

-- A message as it should stand on the wire.
abbrev pub wire : ℕ → List ℕ → List ℕ
wire protocol payload = bytes_of_uint (length payload + 8) ++ (bytes_of_uint protocol ++ payload)

pub length-wire : (p : ℕ) (m : List ℕ) → length (wire p m) ≡ length m + 8
length-wire p m = omega arith

-- The message is one frame.
pub wire-IsFrame : (p : ℕ) (m : List ℕ) → length m + 8 < word → IsFrame (wire p m)
wire-IsFrame p m h = record {
  headed = omega arith;
  announced = uint_of_bytes-bytes_of_uint (length m + 8) (bytes_of_uint p ++ m) h ∙ omega arith;
}

-- SendPacket builds the message, if it fits its array.
pub build_packet_lem :
    (p : ℕ) (m : List ℕ)
    → length m + 8 ≤ max_packet_buf_size
    → (packet : List ℕ) × (build_packet p m ≡ ok (packet, length m + 8))
      × (take (length m + 8) packet ≡ wire p m)
      × (length packet ≡ max_packet_buf_size)
unfolding build_packet
build_packet_lem p m h = (
  third,
  rw (
    length-mod,
    memcpy_lem zeros 0 (bytes_of_uint (length m + 8)) (omega arith),
    memcpy_lem first 4 (bytes_of_uint p) (omega (arith, first-sized)),
    memcpy_lem second 8 m (omega (arith, second-sized)),
  ),
  ap (λ k. take k third) (omega arith)
      ∙ take-splice second 8 m (omega (arith, second-sized))
      ∙ ap (λ l. l ++ m)
          (take-splice first 4 (bytes_of_uint p) (omega (arith, first-sized))
            ∙ ap (λ l. l ++ bytes_of_uint p)
                (take-splice zeros 0 (bytes_of_uint (length m + 8)) (omega arith))),
  third-sized,
)
  where
    zeros : List ℕ
    zeros = replicate max_packet_buf_size 0

    first : List ℕ
    first = splice zeros 0 (bytes_of_uint (length m + 8))

    second : List ℕ
    second = splice first 4 (bytes_of_uint p)

    third : List ℕ
    third = splice second 8 m

    length-mod : (length m + 8) % word ≡ length m + 8
    length-mod = omega arith

    first-sized : length first ≡ max_packet_buf_size
    first-sized = length-splice zeros 0 (bytes_of_uint (length m + 8)) (omega arith)

    second-sized : length second ≡ max_packet_buf_size
    second-sized =
        length-splice first 4 (bytes_of_uint p) (omega (arith, first-sized)) ∙ first-sized

    third-sized : length third ≡ max_packet_buf_size
    third-sized = length-splice second 8 m (omega (arith, second-sized)) ∙ second-sized

-- A message of more than 4088 bytes, with its header below 2 ^ 32, is written past the end of the
-- array.
pub build_packet_overrun :
    (p : ℕ) (m : List ℕ)
    → max_packet_buf_size < length m + 8
    → length m + 8 < word
    → build_packet p m ≡ err overrun
unfolding build_packet
build_packet_overrun p m h small = rw (
  length-mod,
  memcpy_lem zeros 0 (bytes_of_uint (length m + 8)) (omega arith),
  memcpy_lem first 4 (bytes_of_uint p) (omega (arith, first-sized)),
  memcpy_overrun second 8 m (omega (arith, second-sized)),
)
  where
    zeros : List ℕ
    zeros = replicate max_packet_buf_size 0

    first : List ℕ
    first = splice zeros 0 (bytes_of_uint (length m + 8))

    second : List ℕ
    second = splice first 4 (bytes_of_uint p)

    length-mod : (length m + 8) % word ≡ length m + 8
    length-mod = omega arith

    first-sized : length first ≡ max_packet_buf_size
    first-sized = length-splice zeros 0 (bytes_of_uint (length m + 8)) (omega arith)

    second-sized : length second ≡ max_packet_buf_size
    second-sized =
        length-splice first 4 (bytes_of_uint p) (omega (arith, first-sized)) ∙ first-sized

send_loop_whole :
    (packet : List ℕ) (n : ℕ) (rs : List SendResult)
    → n < word
    → send_loop (took n ∷ rs) 0 packet n ≡ ok (take n packet)
unfolding send_loop
send_loop_whole packet n rs h = ground arith

send_loop_partial :
    (packet : List ℕ) (n k : ℕ) (rs : List SendResult)
    → n < word
    → 0 < k
    → k < n
    → send_loop (took k ∷ took (n - k) ∷ rs) 0 packet n ≡ ok (take k packet ++ take (n - k) packet)
unfolding send_loop
send_loop_partial packet n k rs h a b = ground arith

-- For a message of at most 4088 bytes, one `send` that takes the whole packet puts exactly the message on the wire.
pub send_packet_whole :
    (p : ℕ) (m : List ℕ) (rs : List SendResult)
    → length m + 8 ≤ max_packet_buf_size
    → send_packet (took (length m + 8) ∷ rs) p m ≡ ok (wire p m)
unfolding send_packet
send_packet_whole p m rs h =
    let (packet, built, front, _) = build_packet_lem p m h in
    rw (built, send_loop_whole packet (length m + 8) rs (omega arith)) (ap ok front)

-- For a message of at most 4088 bytes, a `send` that takes only a part makes the loop start again at the front of the packet: when the
-- second call brings the count to the length, it has put the front of the packet on the wire once
-- more.
pub send_packet_partial :
    (p : ℕ) (m : List ℕ) (k : ℕ) (rs : List SendResult)
    → length m + 8 ≤ max_packet_buf_size
    → 0 < k
    → k < length m + 8
    → send_packet (took k ∷ took (length m + 8 - k) ∷ rs) p m
      ≡ ok (take k (wire p m) ++ take (length m + 8 - k) (wire p m))
unfolding send_packet
send_packet_partial p m k rs h a b =
    let (packet, built, front, _) = build_packet_lem p m h in
    rw (built, send_loop_partial packet (length m + 8) k rs (omega arith) a b)
      (ap ok (
        ap₂ ◌++◌ (part packet k front (omega arith))
          (part packet (length m + 8 - k) front (omega arith))))
  where
    part :
        (packet : List ℕ) (j : ℕ)
        → take (length m + 8) packet ≡ wire p m
        → j ≤ length m + 8
        → take j packet ≡ take j (wire p m)
    part packet j front le = sym (take-take j (length m + 8) packet le) ∙ ap (take j) front

-- GetProtocol reads one byte of the protocol, as a signed one.
get_protocol-wire_iff :
    (p : ℕ) (m : List ℕ) → p < word → (get_protocol (wire p m) ≡ p) ↔ ((p < 128) ⊎ (word - 128 ≤ p))
unfolding get_protocol
get_protocol-wire_iff p m h = ground arith

-- For a message of at most 4088 bytes and a protocol number of 32 bits: SendPacket, of which one `send`
-- takes the whole packet, comes to its end, and GetProtocol gives back the number from what went on the
-- wire exactly for the numbers below 128 and the negative ones from -128 on.
pub send_packet-get_protocol_iff :
    (p : ℕ) (m : List ℕ) (rs : List SendResult)
    → p < word
    → length m + 8 ≤ max_packet_buf_size
    → (out : List ℕ) × (send_packet (took (length m + 8) ∷ rs) p m ≡ ok out)
      × ((get_protocol out ≡ p) ↔ ((p < 128) ⊎ (word - 128 ≤ p)))
send_packet-get_protocol_iff p m rs small h =
    (wire p m, send_packet_whole p m rs h, get_protocol-wire_iff p m small)
