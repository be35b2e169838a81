-- ===== src/Tests/Talking.antt =====
-- The client, alone and with the server, at concrete messages.
use dokevi_network.Prelude.{
  ℕ, ◌-◌, ◌≤◌, ◌<◌, ◌≡◌, ◌↔◌, ◌⊎◌, refl, inl, List, [], ◌∷◌, ◌++◌, arith, ok, err, spins, false,
}
use dokevi_network.Bytes.{word}
use dokevi_network.Framing.{Frames, Frames-cons, stop}
use dokevi_network.Framing.Reassembly.{feed_all}
use dokevi_network.Receive.{Receiver, Completion, Event, new_receiver, recv_completion}
use dokevi_network.Receive.Rounds.{IsValid, contents, new_receiver-IsValid}
use dokevi_network.Receive.Delivery.{deliveries}
use dokevi_network.Client
use dokevi_network.Client.{
  Client, new_client, deserialize_packet, build_packet, send_packet, took, get_protocol,
}
use dokevi_network.Client.Rounds as ClientRounds
use dokevi_network.Client.Rounds.{new_client-IsValid_iff}
use dokevi_network.Client.Delivery as ClientDelivery
use dokevi_network.Client.Stream.{client_delivers}
use dokevi_network.Client.Session.{recv_thread, got, recv_thread-closed}
use dokevi_network.Client.Wire.{
  wire, wire-IsFrame, send_packet_partial, send_packet-get_protocol_iff,
}
use dokevi_network.Link.{Message, send_all_lem, client_to_server}

-- Protocol 3 with two bytes, and protocol 200 with none.
abbrev messages : List Message
messages = (3, 7 ∷ 8 ∷ []) ∷ (200, []) ∷ []

abbrev first : List ℕ
first = wire 3 (7 ∷ 8 ∷ [])

abbrev second : List ℕ
second = wire 200 []

-- The network cuts the 18 bytes behind the ninth.
abbrev completions : List Completion
completions =
    record { buffer = 10 ∷ 0 ∷ 0 ∷ 0 ∷ 3 ∷ 0 ∷ 0 ∷ 0 ∷ 7 ∷ []; transferred = 9 }
    ∷ record { buffer = 8 ∷ 8 ∷ 0 ∷ 0 ∷ 0 ∷ 200 ∷ 0 ∷ 0 ∷ 0 ∷ 1 ∷ []; transferred = 9 }
    ∷ []

client_to_server_example :
    (r' : Receiver) × (es : List Event) × (feed_all recv_completion completions (new_receiver 0)
      ≡ ok (r', es))
    × (deliveries es ≡ (10, first) ∷ (8, second) ∷ [])
    × IsValid r'
    × (contents r' ≡ [])
client_to_server_example =
    client_to_server 10 messages completions (new_receiver 0) (omega arith) (omega arith)
      (omega arith, (omega arith, tt)) (new_receiver-IsValid 0).0 (new_receiver-IsValid 0).1
      (((omega arith, omega arith), omega arith), (((omega arith, omega arith), omega arith), tt))
      (send_all_lem 10 messages (omega arith) (omega arith, (omega arith, tt)))

new-ok : ClientRounds.IsValid (new_client 0 false)
new-ok = (new_client-IsValid_iff 0 false).1 refl

frames : Frames (first ++ (6 ∷ [])) (first ∷ []) (6 ∷ [])
frames =
    Frames-cons first (6 ∷ []) (wire-IsFrame 3 (7 ∷ 8 ∷ []) (omega arith))
      (stop (inl (omega arith)))

-- The message in two pieces, with the first byte of another behind it.
abbrev pieces : List (List ℕ)
pieces = (10 ∷ 0 ∷ 0 ∷ []) ∷ (0 ∷ 3 ∷ 0 ∷ 0 ∷ 0 ∷ 7 ∷ 8 ∷ 6 ∷ []) ∷ []

client_delivers_example :
    (c' : Client) × (es : List Client.Event) × (feed_all deserialize_packet pieces
        (new_client 0 false)
      ≡ ok (c', es))
    × (ClientDelivery.deliveries es ≡ (3, 7 ∷ 8 ∷ [], 10) ∷ [])
    × ClientRounds.IsValid c'
    × (ClientRounds.contents c' ≡ 6 ∷ [])
unfolding new_client get_protocol
client_delivers_example =
    client_delivers 10 pieces (new_client 0 false) (first ∷ []) (6 ∷ []) (omega arith) new-ok
      (inl (omega arith)) ((tt, omega arith), ((tt, omega arith), tt)) frames (omega arith, tt)
      (omega arith, tt) (omega arith)

-- The second call sends the first six bytes again.
send_packet_partial_example :
    send_packet (took 4 ∷ took 6 ∷ []) 3 (7 ∷ 8 ∷ [])
    ≡ ok ((10 ∷ 0 ∷ 0 ∷ 0 ∷ []) ++ (10 ∷ 0 ∷ 0 ∷ 0 ∷ 3 ∷ 0 ∷ []))
send_packet_partial_example =
    send_packet_partial 3 (7 ∷ 8 ∷ []) 4 [] (omega arith) (omega arith) (omega arith)

send_packet-get_protocol_iff_example :
    (out : List ℕ) × (send_packet (took 9 ∷ []) 200 (5 ∷ []) ≡ ok out)
    × ((get_protocol out ≡ 200) ↔ ((200 < 128) ⊎ (word - 128 ≤ 200)))
send_packet-get_protocol_iff_example =
    send_packet-get_protocol_iff 200 (5 ∷ []) [] (omega arith) (omega arith)

-- A server that closes the connection at once.
recv_thread-closed_example :
    recv_thread (got [] ∷ got [] ∷ got [] ∷ []) (new_client 0 false) ≡ err spins
unfolding new_client
recv_thread-closed_example = recv_thread-closed 3 (new_client 0 false) new-ok (inl (omega arith))
