-- ===== src/Reply.antt =====
-- The server and the client together, in the other direction: what TCPSocket::Send (TCPSocket.cpp)
-- writes for a message, read by DeserializePacket (NetworkClient.cpp).
use dokevi_network.Prelude.{
  ℕ, suc, ◌+◌, ◌-◌, ◌≤◌, ◌<◌, ◌≡◌, refl, Bool, none, some, sym, ap, ◌∙◌, inr, List, [], ◌∷◌, ◌++◌,
  arith, length, take, drop, subst, ok, length-append, length-take, length-drop, take-drop,
  get_or-take,
}
use dokevi_network.Bytes.{bytes_of_uint, uint_of_bytes, uint_of_bytes-bytes_of_uint, word}
use dokevi_network.Framing.{Frames, stop, Frames-step}
use dokevi_network.Receive.{max_packet_buf_size}
use dokevi_network.Client.{Client, Event, deserialize_packet, get_protocol, widened}
use dokevi_network.Client.Rounds.{IsValid, contents, length-contents}
use dokevi_network.Client.Delivery.{Delivery, delivery, deliveries}
use dokevi_network.Client.Stream.{deserialize_packet_lem}
use dokevi_network.Log.{LogManager}
use dokevi_network.Packet.{
  PoolName, p64, p128, p256, p512, p1024, p2048, p4096, bytes_of, pool, choose,
}
use dokevi_network.Packet.Heap.{IsSound}
use dokevi_network.Send.{Sender, wsa_send, send}
use dokevi_network.Send.Crossed.{send-idle}
use dokevi_network.Send.Message.{message}

module _ (d : List ℕ) (long : 8 ≤ length d) where
  -- The reader counts four bytes of the message as its header.
  cut : drop (length d) (message d) ≡ drop (length d - 4) d
  cut = ap (λ k. drop k (message d)) split
    where
      split : length d ≡ suc (suc (suc (suc (length d - 4))))
      split = omega arith

  cut_payload : drop 8 (take (length d) (message d)) ≡ take (length d - 8) (drop 4 d)
  cut_payload =
      ap (λ k. drop 8 (take k (message d))) split ∙ sym (take-drop (length d - 8) 8 (message d))
    where
      split : length d ≡ 8 + (length d - 8)
      split = omega arith

  cut_Frames :
      length d < word
      → 4 < uint_of_bytes (drop (length d - 4) d)
      → Frames (message d) (take (length d) (message d) ∷ []) (drop (length d - 4) d)
  cut_Frames fits next =
      Frames-step (message d) (length d) _ _ (uint_of_bytes-bytes_of_uint (length d) d fits) refl
        cut (omega (arith, length-append (bytes_of_uint (length d)) d)) (omega arith)
        (omega (arith, length-append (bytes_of_uint (length d)) d))
        (stop (inr (omega (arith, length-drop (length d - 4) d))))

  length-cut : length (take (length d) (message d)) ≡ length d
  length-cut =
      omega (arith, length-take (length d) (message d), length-append (bytes_of_uint (length d)) d)

  cut_delivery :
      ◌≡◌ {A = Delivery}
        (delivery (take (length d) (message d)))
        (get_protocol (message d), take (length d - 8) (drop 4 d), length d)
  unfolding get_protocol
  cut_delivery = λ i. (
    ap widened (get_or-take (length d) 4 (message d) 0 (omega arith)) i,
    cut_payload i,
    length-cut i,
  )

  -- What the client makes of the bytes.
  message-deserialize_packet :
      (c : Client)
      → IsValid c
      → contents c ≡ []
      → length d + 4 ≤ max_packet_buf_size
      → 4 < uint_of_bytes (drop (length d - 4) d)
      → (c' : Client) × (es : List Event) × (deserialize_packet (message d) c ≡ ok (c', es))
        × (deliveries es
            ≡ (get_protocol (message d), take (length d - 8) (drop 4 d), length d) ∷ [])
        × IsValid c'
        × (contents c' ≡ drop (length d - 4) d)
  message-deserialize_packet c v empty room next =
      let (c', es, run, seen, v', now) =
        deserialize_packet_lem (message d) c v
          (omega
            (arith, length-contents v, ap length empty, length-append (bytes_of_uint (length d)) d))
          (take (length d) (message d) ∷ []) (drop (length d - 4) d)
          (subst
            (λ s.
              Frames (s ++ message d) (take (length d) (message d) ∷ []) (drop (length d - 4) d))
            (sym empty) (cut_Frames (omega arith) next))
          (omega (arith, length-cut), tt) in
      (c', es, run, seen ∙ ap (λ x. x ∷ []) cut_delivery, v', now)

  bytes_of-le : (k : PoolName) → bytes_of k ≤ max_packet_buf_size
  bytes_of-le p64 = omega arith
  bytes_of-le p128 = omega arith
  bytes_of-le p256 = omega arith
  bytes_of-le p512 = omega arith
  bytes_of-le p1024 = omega arith
  bytes_of-le p2048 = omega arith
  bytes_of-le p4096 = omega arith

  -- A message of 8 bytes or more, of which the last four read as a size above 4, is sent on a socket that
  -- has nothing queued, with sound pools and a packet left in the pool for the message's size, into
  -- which it fits with four bytes more: Send hands WSASend one run of bytes, and a valid client that
  -- has nothing buffered and is given these bytes takes them for a packet of the message's own length:
  -- RecvHandler is given the message without its first and its last four bytes, and the last four
  -- bytes stay buffered as the size of the next packet.
  pub send-deserialize_packet :
      (log : LogManager) (k : PoolName) (immediate : Bool) (s : Sender) (c : Client)
      → ((j : PoolName) → IsSound j (pool j s.packets))
      → s.sending_packet ≡ none
      → s.last_packet ≡ none
      → (pool k s.packets).used < (pool k s.packets).queue_size
      → choose (length d) ≡ some k
      → length d + 4 ≤ bytes_of k
      → 4 < uint_of_bytes (drop (length d - 4) d)
      → IsValid c
      → contents c ≡ []
      → (s' : Sender) × (bytes : List ℕ) × (c' : Client) × (es : List Event) × (send log d immediate
            s
          ≡ ok (s', wsa_send bytes ∷ []))
        × (deserialize_packet bytes c ≡ ok (c', es))
        × (deliveries es ≡ (get_protocol bytes, take (length d - 8) (drop 4 d), length d) ∷ [])
        × IsValid c'
        × (contents c' ≡ drop (length d - 4) d)
  send-deserialize_packet log k immediate s c sound idle empty room chosen fits next v none_left =
      let (s', sent, _) =
        send-idle log k (pool k s.packets).used d immediate s sound idle empty refl room chosen
          fits in
      let (c', es, read, seen, v', now) =
        message-deserialize_packet c v none_left (omega (arith, fits, bytes_of-le k)) next in
      (s', message d, c', es, sent, read, seen, v', now)
