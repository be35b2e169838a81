-- ===== src/Tests/Receiving.antt =====
-- Framing and RecvPacket at concrete streams.
use dokevi_network.Prelude.{ℕ, ◌≡◌, ◌↔◌, refl, inl, List, [], ◌∷◌, ◌++◌, arith, ok}
use dokevi_network.Bytes.{uint_of_bytes}
use dokevi_network.Framing.{Frames, Frames-cons, IsFrame, stop}
use dokevi_network.Framing.Stuck.{Cuttable}
use dokevi_network.Framing.Reassembly.{feed_all}
use dokevi_network.Receive.{Receiver, Completion, Event, new_receiver, recv_packet, recv_completion}
use dokevi_network.Receive.Rounds.{IsValid, contents, new_receiver-IsValid}
use dokevi_network.Receive.Delivery.{filled-IsValid, deliveries, server_delivers}
use dokevi_network.Receive.Spins.{recv_packet_returns_iff}

-- A frame of five bytes, and what it takes to be one.
abbrev frame : List ℕ
frame = 5 ∷ 0 ∷ 0 ∷ 0 ∷ 9 ∷ []

-- It arrives in two pieces, the second with the start of another frame.
abbrev completions : List Completion
completions =
    record { buffer = 5 ∷ 0 ∷ 7 ∷ 7 ∷ []; transferred = 2 }
    ∷ record { buffer = 0 ∷ 0 ∷ 9 ∷ 6 ∷ []; transferred = 4 }
    ∷ []

frame-IsFrame : IsFrame frame
unfolding uint_of_bytes
frame-IsFrame = record { headed = omega arith; announced = refl }

one_frame : Frames (frame ++ (6 ∷ [])) (frame ∷ []) (6 ∷ [])
one_frame = Frames-cons frame (6 ∷ []) frame-IsFrame (stop (inl (omega arith)))

new-IsValid : IsValid (new_receiver 0)
new-IsValid = (new_receiver-IsValid 0).0

server_delivers_example :
    (r' : Receiver) × (es : List Event) × (feed_all recv_completion completions (new_receiver 0)
      ≡ ok (r', es))
    × (deliveries es ≡ (5, frame) ∷ [])
    × IsValid r'
    × (contents r' ≡ 6 ∷ [])
unfolding new_receiver
server_delivers_example =
    server_delivers 5 completions (new_receiver 0) (frame ∷ []) (6 ∷ []) (omega arith) new-IsValid
      (inl (omega arith))
      (((omega arith, omega arith), omega arith), (((omega arith, omega arith), omega arith), tt))
      one_frame (omega arith, tt) (omega arith)

-- Five of the six bytes in the buffer are new.
abbrev filled : Receiver
filled = record (new_receiver 0) { recv_buf = frame ++ (6 ∷ []) }

filled-ok : IsValid filled
filled-ok = filled-IsValid (frame ++ (6 ∷ [])) new-IsValid

recv_packet_returns_iff_example :
    ((r' : Receiver) × (es : List Event) × (recv_packet 6 filled ≡ ok (r', es)))
    ↔ Cuttable (contents filled ++ (frame ++ (6 ∷ [])))
unfolding new_receiver
recv_packet_returns_iff_example =
    recv_packet_returns_iff filled 6 filled-ok (omega arith) (omega arith) (omega arith)
