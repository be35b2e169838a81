-- ===== src/Send/Message.antt =====
-- What TCPSocket::Send writes into a packet.
use mathlib.Core.List.{append_assoc}
use dokevi_network.Prelude.{
  ℕ, ◌+◌, ◌≤◌, ◌<◌, ◌≡◌, ap, ◌∙◌, List, ◌++◌, arith, length, take, ok, err, overrun, memcpy_lem,
  memcpy_overrun, splice, length-splice, take-splice,
}
use dokevi_network.Bytes.{bytes_of_uint, set_size_on_byte_array_front}
use dokevi_network.Send.{write_message}

-- A message as a packet holds it: its length, and then the message. The length does not count its
-- own four bytes.
abbrev pub message : List ℕ → List ℕ
message d = bytes_of_uint (length d) ++ d

module _ (buffer : List ℕ) (pos : ℕ) (d : List ℕ) where
  sized : List ℕ
  sized = splice buffer pos (bytes_of_uint (length d))

  written :
      pos + 4 ≤ length buffer
      → set_size_on_byte_array_front buffer pos (length d) ≡ ok (sized, pos + 4)
  unfolding set_size_on_byte_array_front sized
  written h = rw (memcpy_lem buffer pos (bytes_of_uint (length d)) h)

  length-sized : pos + 4 ≤ length buffer → length sized ≡ length buffer
  unfolding sized
  length-sized h = length-splice buffer pos (bytes_of_uint (length d)) h

  front :
      pos + 4 ≤ length buffer → take (pos + 4) sized ≡ take pos buffer ++ bytes_of_uint (length d)
  unfolding sized
  front h = take-splice buffer pos (bytes_of_uint (length d)) h

  -- A message that fits stands behind what the packet held up to `pos`.
  pub write_message_lem :
      pos + 4 + length d ≤ length buffer
      → (b : List ℕ) × (write_message buffer pos d ≡ ok b)
        × (length b ≡ length buffer)
        × (take (pos + 4 + length d) b ≡ take pos buffer ++ message d)
  unfolding write_message
  write_message_lem h = (
    splice sized (pos + 4) d,
    rw (written (omega arith)) (memcpy_lem sized (pos + 4) d (omega (arith, length-sized))),
    length-splice sized (pos + 4) d (omega (arith, length-sized)) ∙ length-sized (omega arith),
    take-splice sized (pos + 4) d (omega (arith, length-sized))
        ∙ ap (λ l. l ++ d) (front (omega arith))
        ∙ append_assoc (take pos buffer) (bytes_of_uint (length d)) d,
  )

  -- One that does not fit is written past the end of the packet.
  pub write_message_overrun :
      pos + 4 ≤ length buffer
      → length buffer < pos + 4 + length d
      → write_message buffer pos d ≡ err overrun
  unfolding write_message
  write_message_overrun room h =
      rw (written room) (memcpy_overrun sized (pos + 4) d (omega (arith, length-sized room)))
