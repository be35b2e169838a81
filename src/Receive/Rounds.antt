-- ===== src/Receive/Rounds.antt =====
-- The invariant of the receiving half, and what one round of RecvPacket's loop does to it.
use dokevi_network.Prelude.{
  ℕ, ◌-◌, ◌≤◌, ◌<◌, ◌≡◌, refl, ap, ◌∙◌, ◌⊎◌, inl, inr, List, [], ◌∷◌, arith, length, take, drop,
  true, false, ok, length-take, memmove_lem, length-replicate, ℕ,
}
use dokevi_network.Bytes.{uint_of_bytes, uint_of_bytes-take, get_size_lem}
use dokevi_network.Receive.{
  Receiver, RecvStep, recv_len, recv_body, max_packet_buf_size, packet_handler, round, new_receiver,
}

-- The bytes received and not yet handed on.
abbrev pub contents : Receiver → List ℕ
contents r = take r.recv_size r.packet_buf

-- Behind the first step stands the size that the contents announce.
abbrev pub IsStep : RecvStep → ℕ → List ℕ → Type 0
IsStep recv_len n s = Unit {0}
IsStep recv_body n s = (4 ≤ length s) × (n ≡ uint_of_bytes s)

pub record IsValid (r : Receiver) : Type 0 where
  pub sized : length r.packet_buf ≡ max_packet_buf_size
  pub fits : r.recv_size ≤ max_packet_buf_size
  pub stepped : IsStep r.recv_step r.packet_size (contents r)

pub length-contents : {r : Receiver} → IsValid r → length (contents r) ≡ r.recv_size
length-contents {r} v = omega (arith, length-take r.recv_size r.packet_buf, v.sized, v.fits)

pub uint-contents :
    {r : Receiver}
    → IsValid r
    → 4 ≤ r.recv_size
    → uint_of_bytes (contents r) ≡ uint_of_bytes r.packet_buf
uint-contents {r} v h = uint_of_bytes-take r.recv_size r.packet_buf h (omega (arith, v.sized))

-- The first step leaves the loop while fewer than four bytes are there.
pub round-len_stop :
    (r : Receiver) → r.recv_step ≡ recv_len → r.recv_size < 4 → round r ≡ ok (false, r, [])
unfolding round
round-len_stop r e h = ground arith

-- Otherwise it reads the announced size, and the second step is next.
pub round-len_go :
    {r : Receiver}
    → IsValid r
    → r.recv_step ≡ recv_len
    → 4 ≤ r.recv_size
    → let r' = record r { packet_size = uint_of_bytes (contents r); recv_step = recv_body } in
      (round r ≡ ok (true, r', [])) × IsValid r'
unfolding round
round-len_go {r} v e h = (
  ground (arith, uint-contents v h, get_size_lem r.packet_buf (omega (arith, v.sized))),
  record { sized = v.sized; fits = v.fits; stepped = (omega (arith, length-contents v), refl) },
)

-- The second step leaves the loop while the packet is not complete.
pub round-body_stop :
    (r : Receiver)
    → r.recv_step ≡ recv_body
    → r.recv_size < r.packet_size
    → round r ≡ ok (false, r, [])
unfolding round
round-body_stop r e h = ground arith

-- A packet that uses up the contents is handed on, and the loop is left with nothing received.
pub round-body_last :
    {r : Receiver}
    → IsValid r
    → r.recv_step ≡ recv_body
    → r.recv_size ≡ r.packet_size
    → let r' = record r { recv_step = recv_len; recv_size = 0 } in
      (round r
        ≡ ok (false, r', packet_handler r.packet_size (take r.packet_size r.packet_buf) ∷ []))
      × IsValid r'
unfolding round
round-body_last {r} v e h =
    (ground arith, record { sized = v.sized; fits = omega arith; stepped = tt })

-- A packet with bytes behind it is handed on, and those bytes are moved to the front.
pub round-body_more :
    {r : Receiver}
    → IsValid r
    → r.recv_step ≡ recv_body
    → r.packet_size < r.recv_size
    → (r' : Receiver) × (round r
        ≡ ok (true, r', packet_handler r.packet_size (take r.packet_size r.packet_buf) ∷ []))
      × IsValid r'
      × (r'.recv_step ≡ recv_len)
      × (contents r' ≡ drop r.packet_size (contents r))
unfolding round
round-body_more {r} v e h =
    let (buf, moved, same, front) =
      memmove_lem r.packet_buf r.packet_size (r.recv_size - r.packet_size)
        (omega (arith, v.sized, v.fits)) in
    (
      record r { recv_step = recv_len; packet_buf = buf; recv_size = r.recv_size - r.packet_size },
      ground (arith, moved),
      record { sized = same ∙ v.sized; fits = omega (arith, v.fits); stepped = tt },
      refl,
      front ∙ ap (λ k. drop r.packet_size (take k r.packet_buf)) (omega arith),
    )

pub RecvStep-cases : (s : RecvStep) → (s ≡ recv_len) ⊎ (s ≡ recv_body)
RecvStep-cases recv_len = inl refl
RecvStep-cases recv_body = inr refl

pub stepped-body :
    (step : RecvStep) (n : ℕ) (s : List ℕ)
    → step ≡ recv_body
    → IsStep step n s
    → (4 ≤ length s) × (n ≡ uint_of_bytes s)
stepped-body recv_len n s e h = cc
stepped-body recv_body n s e h = h

-- A new socket has received nothing.
pub new_receiver-IsValid :
    (fill : ℕ) → IsValid (new_receiver fill) × (contents (new_receiver fill) ≡ [])
unfolding new_receiver
new_receiver-IsValid fill = (
  record { sized = length-replicate max_packet_buf_size fill; fits = omega arith; stepped = tt },
  refl,
)
