-- ===== src/Client/Stream.antt =====
-- DeserializePacket for one piece of the stream, and for a stream that arrives in any pieces.
use dokevi_network.Prelude.{
  ℕ, suc, ◌+◌, ◌%◌, ◌≤◌, ◌<◌, ◌≡◌, refl, sym, ap, ◌∙◌, inl, inr, ◌⊎◌, List, [], ◌++◌, map, arith,
  if◌then◌else◌, leb, length, take, concat, All, ok, splice, length-splice, take-splice, memcpy_lem,
  dec_le, le→leb, lt→leb_false,
}
use dokevi_network.Bytes.{uint_of_bytes, uint_of_bytes-append, word}
use dokevi_network.Framing.{Frames, Partial}
use dokevi_network.Framing.Reassembly.{Reader, feed_all, feed_all_lem, IsSmall}
use dokevi_network.Receive.{max_packet_buf_size}
use dokevi_network.Client.{Client, Event, announce, deserialize_loop, deserialize_packet}
use dokevi_network.Client.Rounds.{
  IsValid, contents, length-contents, announce-IsValid, contents-announce,
}
use dokevi_network.Client.Delivery.{
  Delivery, delivery, deliveries, deliveries-append, HasHeader, no-Frames, loop_lem,
}

module _ (d : List ℕ) (c : Client) (v : IsValid c)
    (room : c.cur_offset + length d ≤ max_packet_buf_size) where
  -- The state behind the memcpy.
  joined : Client
  joined = record c {
    packet_buffer = splice c.packet_buffer c.cur_offset d;
    cur_offset = (c.cur_offset + length d) % word;
  }

  contents-joined : contents joined ≡ contents c ++ d
  unfolding joined
  contents-joined =
      ap (λ k. take k joined.packet_buffer) (omega arith)
      ∙ take-splice c.packet_buffer c.cur_offset d (omega (arith, v.sized))

  known :
      (joined.buffer_size ≡ 0)
      ⊎ ((4 ≤ joined.cur_offset) × (joined.buffer_size ≡ uint_of_bytes (contents joined)))
  unfolding joined
  known = elim (dec_le 4 c.cur_offset) [
    | no short ↦ inl (v.unknown (omega arith))
    | yes long ↦ inr (
      omega arith,
      v.announced long
          ∙ sym (uint_of_bytes-append (contents c) d (omega (arith, length-contents v)))
          ∙ ap uint_of_bytes (sym contents-joined),
    )
  ]

  announced-IsValid : IsValid (announce joined)
  unfolding joined
  announced-IsValid =
      announce-IsValid joined
        (length-splice c.packet_buffer c.cur_offset d (omega (arith, v.sized)) ∙ v.sized)
        (omega arith) known

  contents-announced : contents (announce joined) ≡ contents c ++ d
  contents-announced = contents-announce joined ∙ contents-joined

  started : deserialize_packet d c ≡ (
      if leb (announce joined).cur_offset 4
      then ok (announce joined, [])
      else deserialize_loop (suc (announce joined).cur_offset) (announce joined))
  unfolding deserialize_packet joined
  started = rw (memcpy_lem c.packet_buffer c.cur_offset d (omega (arith, v.sized)))

  -- DeserializePacket hands over the frames that are complete now, and keeps the rest.
  pub deserialize_packet_lem :
      (fs : List (List ℕ)) (rest : List ℕ)
      → Frames (contents c ++ d) fs rest
      → All HasHeader fs
      → (c' : Client) × (es : List Event) × (deserialize_packet d c ≡ ok (c', es))
        × (deliveries es ≡ map delivery fs)
        × IsValid c'
        × (contents c' ≡ rest)
  deserialize_packet_lem fs rest h good = elim (dec_le (announce joined).cur_offset 4) [
    | yes short ↦
        let (over, same) =
          no-Frames h
            (omega (arith, ap length contents-announced, length-contents announced-IsValid)) good in
        (
          announce joined,
          [],
          started ∙ rw (le→leb (announce joined).cur_offset 4 short),
          ap (map delivery) (sym over),
          announced-IsValid,
          contents-announced ∙ sym same,
        )
    | no long ↦
        let (c', es, run, seen, v', now) =
          loop_lem (suc (announce joined).cur_offset) (announce joined) announced-IsValid
            (omega arith) contents-announced h good (omega arith) in
        (
          c',
          es,
          started ∙ rw (lt→leb_false (announce joined).cur_offset 4 (omega arith)) run,
          seen,
          v',
          now,
        )
  ]

pub piece_lem :
    (d : List ℕ) (c : Client) (fs : List (List ℕ)) (rest : List ℕ)
    → IsValid c
    → Unit {0}
    → length (contents c) + length d ≤ max_packet_buf_size
    → Frames (contents c ++ d) fs rest
    → All HasHeader fs
    → (c' : Client) × (es : List Event) × (deserialize_packet d c ≡ ok (c', es))
      × (deliveries es ≡ map delivery fs)
      × IsValid c'
      × (contents c' ≡ rest)
piece_lem d c fs rest v _ room =
    deserialize_packet_lem d c v (omega (arith, length-contents v)) fs rest

-- DeserializePacket keeps the interface.
abbrev pub client_reader : Reader
client_reader = record {
  State = Client;
  Piece = List ℕ;
  Event = Event;
  Delivery = Delivery;
  IsValid = IsValid;
  contents = contents;
  bytes = λ d. d;
  IsPiece = λ d. Unit {0};
  Accepts = HasHeader;
  delivery = delivery;
  capacity = max_packet_buf_size;
  feed = deserialize_packet;
  deliveries = deliveries;
  deliveries-append = deliveries-append;
  deliveries-nil = refl;
  feed_lem = piece_lem;
}

-- For a client that is in order (its offset is within the buffer, and _bufferSize is 0 while fewer than
-- four bytes are there and the announced size from then on; the constructor, which leaves _bufferSize
-- unset, does not establish it) and has at most an unfinished frame buffered: however a stream of
-- frames of 8 to `m` bytes, with an unfinished rest below `m` bytes, where `m` is 4 or more, is cut into
-- pieces that fit behind an unfinished frame, DeserializePacket returns from each, RecvHandler is
-- given every frame once and in order, by its protocol byte, its payload and its size, and what is no
-- whole frame yet stays buffered.
pub client_delivers :
    (m : ℕ) (ds : List (List ℕ)) (c : Client) (fs : List (List ℕ)) (rest : List ℕ)
    → 4 ≤ m
    → IsValid c
    → Partial (contents c)
    → All (IsSmall client_reader m) ds
    → Frames (contents c ++ concat (map (λ d. d) ds)) fs rest
    → All (λ f. length f ≤ m) fs
    → All HasHeader fs
    → length rest < m
    → (c' : Client) × (es : List Event) × (feed_all deserialize_packet ds c ≡ ok (c', es))
      × (deliveries es ≡ map delivery fs)
      × IsValid c'
      × (contents c' ≡ rest)
client_delivers m = feed_all_lem client_reader m
