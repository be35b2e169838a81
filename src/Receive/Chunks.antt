-- ===== src/Receive/Chunks.antt =====
-- RecvPacket for one completed receive, and for a stream that arrives in any pieces.
use dokevi_network.Prelude.{
  ℕ, ◌+◌, ◌*◌, ◌%◌, ◌≤◌, ◌<◌, ◌≡◌, sym, ap, ◌∙◌, List, [], ◌∷◌, ◌++◌, arith, length, take, subst,
  ok, err, overrun, splice, length-splice, take-splice, length-take, length-append, memcpy_lem,
  memcpy_overrun, read_at_lem, ==_ne,
}
use dokevi_network.Bytes.{uint_of_bytes-append, word}
use dokevi_network.Framing.{Frames}
use dokevi_network.Receive.{
  Receiver, RecvStep, recv_len, recv_body, wsa_recv, recv_packet, recv_fuel, max_packet_buf_size,
}
use dokevi_network.Receive.Rounds.{IsValid, IsStep, contents}
use dokevi_network.Receive.Stream.{handled, loop_lem, rounds_left}

IsStep-append : (st : RecvStep) (n : ℕ) (s d : List ℕ) → IsStep st n s → IsStep st n (s ++ d)
IsStep-append recv_len n s d h = tt
IsStep-append recv_body n s d h =
    (omega (arith, length-append s d, h.0), h.1 ∙ sym (uint_of_bytes-append s d h.0))

-- The state that the loop starts from.
abbrev pub joined : Receiver → ℕ → Receiver
joined r n = record r {
  packet_buf = splice r.packet_buf r.recv_size (take n r.recv_buf);
  recv_size = (r.recv_size + n) % word;
}

rounds-lt-fuel : (st : RecvStep) (k : ℕ) → rounds_left st k < 2 * k + 3
rounds-lt-fuel recv_len k = omega arith
rounds-lt-fuel recv_body k = omega arith

module _ (r : Receiver) (n : ℕ) (v : IsValid r) (some_bytes : 0 < n)
    (given : n ≤ length r.recv_buf) where
  pub length-received : length (take n r.recv_buf) ≡ n
  length-received = omega (arith, length-take n r.recv_buf, given)

  -- On a valid receiver, a receive of some bytes that does not fit behind those that are there is
  -- written past the end of _packetBuf.
  pub recv_packet_overrun : max_packet_buf_size < r.recv_size + n → recv_packet n r ≡ err overrun
  unfolding recv_packet
  recv_packet_overrun h = rw (
    ==_ne n 0 (omega arith),
    read_at_lem r.recv_buf n given,
    memcpy_overrun r.packet_buf r.recv_size (take n r.recv_buf)
        (omega (arith, length-received, v.sized)),
  )

  module _ (room : r.recv_size + n ≤ max_packet_buf_size) where
    pub contents-joined : contents (joined r n) ≡ contents r ++ take n r.recv_buf
    contents-joined =
        ap (λ k. take k (joined r n).packet_buf) (omega (arith, length-received))
        ∙ take-splice r.packet_buf r.recv_size (take n r.recv_buf)
            (omega (arith, length-received, v.sized))

    pub joined-IsValid : IsValid (joined r n)
    joined-IsValid = record {
      sized =
          length-splice r.packet_buf r.recv_size (take n r.recv_buf)
            (omega (arith, length-received, v.sized))
          ∙ v.sized;
      fits = omega arith;
      stepped =
          subst (IsStep r.recv_step r.packet_size) (sym contents-joined)
            (IsStep-append r.recv_step r.packet_size (contents r) (take n r.recv_buf) v.stepped);
    }

    -- RecvPacket hands on the frames that are complete now, and asks for more.
    pub recv_packet_lem :
        (fs : List (List ℕ)) (rest : List ℕ)
        → Frames (contents r ++ take n r.recv_buf) fs rest
        → (r' : Receiver) × (recv_packet n r ≡ ok (r', handled fs ++ (wsa_recv ∷ [])))
          × IsValid r'
          × (contents r' ≡ rest)
    unfolding recv_packet
    recv_packet_lem fs rest h =
        let (r', run, v', c) =
          loop_lem (recv_fuel (joined r n)) (joined r n) fs rest joined-IsValid
            (subst (λ s. Frames s fs rest) (sym contents-joined) h)
            (rounds-lt-fuel r.recv_step _) in
        (
          r',
          rw (
            ==_ne n 0 (omega arith),
            read_at_lem r.recv_buf n given,
            memcpy_lem r.packet_buf r.recv_size (take n r.recv_buf)
                (omega (arith, length-received, v.sized)),
            run,
          ),
          v',
          c,
        )
