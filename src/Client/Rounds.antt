-- ===== src/Client/Rounds.antt =====
-- The invariant of the client's reassembly, and what one round of DeserializePacket does to it.
use dokevi_network.Prelude.{
  ℕ, ◌-◌, ◌≤◌, ◌<◌, ◌≡◌, refl, ap, ◌∙◌, ◌⊎◌, inl, List, [], ◌∷◌, arith, length, take, drop, ok,
  length-take, memmove_lem, Bool, ◌↔◌, length-replicate,
}
use dokevi_network.Bytes.{uint_of_bytes, uint_of_bytes-take}
use dokevi_network.Receive.{max_packet_buf_size}
use dokevi_network.Client.{Client, recv_handler, get_protocol, announce, hand_over, new_client}

-- The bytes received and not yet handed over.
abbrev pub contents : Client → List ℕ
contents c = take c.cur_offset c.packet_buffer

-- _bufferSize is what the contents announce, or 0 as long as they are too short for that.
pub record IsValid (c : Client) : Type 0 where
  pub sized : length c.packet_buffer ≡ max_packet_buf_size
  pub fits : c.cur_offset ≤ max_packet_buf_size
  pub unknown : c.cur_offset < 4 → c.buffer_size ≡ 0
  pub announced : 4 ≤ c.cur_offset → c.buffer_size ≡ uint_of_bytes (contents c)

pub length-contents : {c : Client} → IsValid c → length (contents c) ≡ c.cur_offset
length-contents {c} v = omega (arith, length-take c.cur_offset c.packet_buffer, v.sized, v.fits)

pub contents-announce : (c : Client) → contents (announce c) ≡ contents c
unfolding announce
contents-announce c = ground arith

pub cur_offset-announce : (c : Client) → (announce c).cur_offset ≡ c.cur_offset
unfolding announce
cur_offset-announce c = ground arith

-- The size is read where it was not known, and kept where it was.
pub announce-IsValid :
    (c : Client)
    → length c.packet_buffer ≡ max_packet_buf_size
    → c.cur_offset ≤ max_packet_buf_size
    → (c.buffer_size ≡ 0) ⊎ ((4 ≤ c.cur_offset) × (c.buffer_size ≡ uint_of_bytes (contents c)))
    → IsValid (announce c)
unfolding announce
announce-IsValid c sized fits known =
    ground (arith, uint_of_bytes-take c.cur_offset c.packet_buffer)

-- A complete packet goes to RecvHandler, and what stands behind it moves to the front.
pub hand_over_lem :
    {c : Client}
    → IsValid c
    → 1 ≤ c.buffer_size
    → c.buffer_size ≤ c.cur_offset
    → (c' : Client) × (hand_over c
        ≡ ok (
          c',
          recv_handler (get_protocol c.packet_buffer) (drop 8 c.packet_buffer) c.buffer_size ∷ [],
        ))
      × IsValid c'
      × (contents c' ≡ drop c.buffer_size (contents c))
      × (c'.cur_offset ≡ c.cur_offset - c.buffer_size)
unfolding hand_over
hand_over_lem {c} v some_size whole =
    let (buf, moved, same, front) =
      memmove_lem c.packet_buffer c.buffer_size (c.cur_offset - c.buffer_size)
        (omega (arith, v.sized, v.fits)) in
    let c' = record c {
      packet_buffer = buf;
      cur_offset = c.cur_offset - c.buffer_size;
      buffer_size = 0;
    } in
    (
      announce c',
      rw moved,
      announce-IsValid c' (same ∙ v.sized) (omega (arith, v.fits)) (inl refl),
      contents-announce c'
          ∙ front
          ∙ ap (λ k. drop c.buffer_size (take k c.packet_buffer)) (omega arith),
      cur_offset-announce c',
    )

-- A new client is in order exactly when the memory it is built in holds 0 for _bufferSize, which the
-- constructor does not set.
pub new_client-IsValid_iff : (held : ℕ) (flag : Bool) → IsValid (new_client held flag) ↔ (held ≡ 0)
unfolding new_client
new_client-IsValid_iff held flag = (
  λ v. v.unknown (omega arith),
  λ e. record {
    sized = length-replicate {A = ℕ} max_packet_buf_size 0;
    fits = omega arith;
    unknown = λ _. e;
    announced = λ h. absurd (omega (arith, h));
  },
)
