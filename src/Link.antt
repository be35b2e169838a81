-- ===== src/Link.antt =====
-- The client and the server together: SendPacket of NetworkClient.cpp, a stream that the network
-- cuts as it likes, and RecvPacket of TCPSocket.cpp.
use dokevi_network.Prelude.{
  ℕ, ◌+◌, ◌≤◌, ◌≡◌, refl, sym, inl, List, [], ◌∷◌, ◌++◌, map, arith, length, concat, subst, All,
  Result, ok, ◌>>=◌,
}
use dokevi_network.Framing.{Frames, IsFrame, Frames-concat, Partial}
use dokevi_network.Framing.Reassembly.{feed_all, IsSmall}
use dokevi_network.Receive.{
  Receiver, Event, Completion, received, recv_completion, max_packet_buf_size,
}
use dokevi_network.Receive.Rounds.{IsValid, contents}
use dokevi_network.Receive.Delivery.{deliveries, sized, server_reader, server_delivers}
use dokevi_network.Client.{send_packet, took}
use dokevi_network.Client.Wire.{wire, length-wire, wire-IsFrame, send_packet_whole}

-- A protocol number and a payload.
abbrev pub Message : Type 0
Message = ℕ × List ℕ

abbrev pub wires : List Message → List (List ℕ)
wires = map (λ m. wire m.0 m.1)

-- SendPacket for one message after another, where each `send` takes the whole packet.
unfoldable pub send_all : List Message → Result (List ℕ)
send_all [] = ok []
send_all ((p, m) ∷ ms) = do
  out ← send_packet (took (length m + 8) ∷ []) p m
  more ← send_all ms
  ok (out ++ more)

-- A message of at most `m` bytes with its header.
abbrev pub FitsIn : ℕ → Message → Type 0
FitsIn m (p, payload) = length payload + 8 ≤ m

pub send_all_lem :
    (m : ℕ) (ms : List Message)
    → m ≤ max_packet_buf_size
    → All (FitsIn m) ms
    → send_all ms ≡ ok (concat (wires ms))
unfolding send_all
send_all_lem m [] h fits = refl
send_all_lem m ((p, d) ∷ ms) h fits =
    rw (send_packet_whole p d [] (omega (arith, fits.0)), send_all_lem m ms h fits.1)

wires-IsFrame :
    (m : ℕ) (ms : List Message)
    → m ≤ max_packet_buf_size
    → All (FitsIn m) ms
    → All IsFrame (wires ms)
wires-IsFrame m [] h fits = tt
wires-IsFrame m ((p, d) ∷ ms) h fits =
    (wire-IsFrame p d (omega (arith, fits.0)), wires-IsFrame m ms h fits.1)

wires-le : (m : ℕ) (ms : List Message) → All (FitsIn m) ms → All (λ f. length f ≤ m) (wires ms)
wires-le m [] fits = tt
wires-le m ((p, d) ∷ ms) fits = (omega (arith, fits.0, length-wire p d), wires-le m ms fits.1)

-- A client sends messages of at most `m` bytes with SendPacket, where `m` is 4 to 4096 and counts the
-- header of 8 bytes, and each `send` takes the whole packet. Then, however the network cuts the stream
-- into receives that fit behind an unfinished message: RecvPacket of a valid server socket with
-- nothing buffered returns from each, PacketHandler gets exactly these messages, whole and in order,
-- and nothing stays buffered.
pub client_to_server :
    (m : ℕ) (ms : List Message) (cs : List Completion) (r : Receiver)
    → 4 ≤ m
    → m ≤ max_packet_buf_size
    → All (FitsIn m) ms
    → IsValid r
    → contents r ≡ []
    → All (IsSmall server_reader m) cs
    → send_all ms ≡ ok (concat (map received cs))
    → (r' : Receiver) × (es : List Event) × (feed_all recv_completion cs r ≡ ok (r', es))
      × (deliveries es ≡ map sized (wires ms))
      × IsValid r'
      × (contents r' ≡ [])
client_to_server m ms cs r four le fits v empty small network =
    server_delivers m cs r (wires ms) [] four v (subst Partial (sym empty) (inl (omega arith)))
      small
      (subst (λ s. Frames (s ++ concat (map received cs)) (wires ms) []) (sym empty)
        (subst (λ s. Frames s (wires ms) []) stream
          (Frames-concat (wires ms) (wires-IsFrame m ms le fits))))
      (wires-le m ms fits) (omega arith)
  where
    stream : concat (wires ms) ≡ concat (map received cs)
    stream = cc (send_all_lem m ms le fits)
