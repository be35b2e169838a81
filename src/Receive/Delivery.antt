-- ===== src/Receive/Delivery.antt =====
-- RecvPacket for a stream that arrives in any pieces: an instance of Framing.Reassembly.
use dokevi_network.Prelude.{
  ℕ, ◌+◌, ◌≤◌, ◌<◌, ◌≡◌, refl, ap, List, [], ◌∷◌, ◌++◌, map, arith, length, concat, All, ok,
  length-take, All-trivial,
}
use dokevi_network.Framing.{Frames, Partial}
use dokevi_network.Framing.Reassembly.{Reader, feed_all, feed_all_lem, IsSmall}
use dokevi_network.Receive.{
  Receiver, Event, packet_handler, wsa_recv, Completion, received, recv_completion,
  max_packet_buf_size,
}
use dokevi_network.Receive.Rounds.{IsValid, contents, length-contents}
use dokevi_network.Receive.Stream.{handled}
use dokevi_network.Receive.Chunks.{recv_packet_lem}

-- The packets handed to PacketHandler, with the sizes given.
abbrev pub deliveries : List Event → List (ℕ × List ℕ)
deliveries [] = []
deliveries (packet_handler n bytes ∷ es) = (n, bytes) ∷ deliveries es
deliveries (wsa_recv ∷ es) = deliveries es

-- A frame with its length.
abbrev pub sized : List ℕ → ℕ × List ℕ
sized f = (length f, f)

pub deliveries-append :
    (es es' : List Event) → deliveries (es ++ es') ≡ deliveries es ++ deliveries es'
deliveries-append [] es' = refl
deliveries-append (packet_handler n bytes ∷ es) es' =
    ap (λ l. (n, bytes) ∷ l) (deliveries-append es es')
deliveries-append (wsa_recv ∷ es) es' = deliveries-append es es'

deliveries-handled :
    (fs : List (List ℕ)) → deliveries (handled fs ++ (wsa_recv ∷ [])) ≡ map sized fs
deliveries-handled [] = refl
deliveries-handled (f ∷ fs) = ap (λ l. (length f, f) ∷ l) (deliveries-handled fs)

-- A completion brings some bytes, within its buffer.
abbrev pub IsCompletion : Completion → Type 0
IsCompletion c = (0 < c.transferred) × (c.transferred ≤ length c.buffer)

-- The invariant leaves _recvBuf.buf free.
pub filled-IsValid :
    {r : Receiver} (buf : List ℕ) → IsValid r → IsValid (record r { recv_buf = buf })
filled-IsValid buf v = record { sized = v.sized; fits = v.fits; stepped = v.stepped }

pub completion_lem :
    (c : Completion) (r : Receiver) (fs : List (List ℕ)) (rest : List ℕ)
    → IsValid r
    → IsCompletion c
    → length (contents r) + length (received c) ≤ max_packet_buf_size
    → Frames (contents r ++ received c) fs rest
    → All (λ f. Unit {0}) fs
    → (r' : Receiver) × (es : List Event) × (recv_completion c r ≡ ok (r', es))
      × (deliveries es ≡ map sized fs)
      × IsValid r'
      × (contents r' ≡ rest)
unfolding recv_completion
completion_lem c r fs rest v given room h _ =
    let (r', run, v', now) =
      recv_packet_lem (record r { recv_buf = c.buffer }) c.transferred (filled-IsValid c.buffer v)
        given.0 given.1
        (omega (arith, given, length-contents v, length-take c.transferred c.buffer)) fs rest h in
    (r', handled fs ++ (wsa_recv ∷ []), run, deliveries-handled fs, v', now)

-- RecvPacket keeps the interface.
abbrev pub server_reader : Reader
server_reader = record {
  State = Receiver;
  Piece = Completion;
  Event = Event;
  Delivery = ℕ × List ℕ;
  IsValid = IsValid;
  contents = contents;
  bytes = received;
  IsPiece = IsCompletion;
  Accepts = λ f. Unit {0};
  delivery = sized;
  capacity = max_packet_buf_size;
  feed = recv_completion;
  deliveries = deliveries;
  deliveries-append = deliveries-append;
  deliveries-nil = refl;
  feed_lem = completion_lem;
}

-- However a stream of frames of at most `m` bytes is cut into receives that fit behind an
-- unfinished frame, RecvPacket returns from each, PacketHandler is given every frame once, whole
-- and in order, with its length, and what is no whole frame yet stays buffered.
pub server_delivers :
    (m : ℕ) (cs : List Completion) (r : Receiver) (fs : List (List ℕ)) (rest : List ℕ)
    → 4 ≤ m
    → IsValid r
    → Partial (contents r)
    → All (IsSmall server_reader m) cs
    → Frames (contents r ++ concat (map received cs)) fs rest
    → All (λ f. length f ≤ m) fs
    → length rest < m
    → (r' : Receiver) × (es : List Event) × (feed_all recv_completion cs r ≡ ok (r', es))
      × (deliveries es ≡ map sized fs)
      × IsValid r'
      × (contents r' ≡ rest)
server_delivers m cs r fs rest four v p small h short last =
    feed_all_lem server_reader m cs r fs rest four v p small h short (All-trivial fs) last
