-- ===== src/Send/Crossed.antt =====
-- Two sockets, whose packets come from the same pools.
use dokevi_network.Prelude.{
  ℕ, ◌+◌, ◌<◌, ◌≤◌, ◌≡◌, refl, sym, ap, subst, ◌∙◌, List, [], ◌∷◌, Bool, true, arith, none, some,
  ok, length, take,
}
use dokevi_network.Log.{LogManager}
use dokevi_network.Packet.{Packet, PoolName, bytes_of, pool, choose, load, store}
use dokevi_network.Packet.RoundTrip.{load_lem}
use dokevi_network.Packet.Heap.{IsSound}
use dokevi_network.Send.{Sender, wsa_send, send, on_write_callback}
use dokevi_network.Send.Message.{message}
use dokevi_network.Send.Idle.{send-new}
use dokevi_network.Send.Chain.{Key, at, Entry, Holds, one_if}
use dokevi_network.Send.Fresh.{send_new-Fresh}
use dokevi_network.Send.Grow.{enqueue-idle, behind-Changed, one_if_self}
use dokevi_network.Send.Freed.{free_packet-Released, callback-last}

-- The packet at `key` holds the message, and it is the one that the socket is sending.
pub record Sends (key : Key) (d : List ℕ) (s : Sender) : Type 0 where
  pub being_sent : s.sending_packet ≡ some (at key)
  pub packet : Packet
  pub loaded : load (at key) s.packets ≡ ok packet
  pub text : take packet.size packet.buffer ≡ message d

-- Send on an idle socket takes the place that its pool comes to next.
pub send-idle :
    (log : LogManager) (k : PoolName) (i : ℕ) (d : List ℕ) (immediate : Bool) (s : Sender)
    → ((j : PoolName) → IsSound j (pool j s.packets))
    → s.sending_packet ≡ none
    → s.last_packet ≡ none
    → (pool k s.packets).used ≡ i
    → i < (pool k s.packets).queue_size
    → choose (length d) ≡ some k
    → length d + 4 ≤ bytes_of k
    → (s' : Sender) × (send log d immediate s ≡ ok (s', wsa_send (message d) ∷ []))
      × Sends (k, i) d s'
send-idle log k i d immediate s sound idle empty used room chosen fits =
    let (a, packets, run, f, g) =
      send_new-Fresh log d immediate s k sound chosen fits (omega (arith, used, room)) in
    let same : ◌≡◌ {A = Key} (k, (pool k s.packets).used) (k, i) = ap (λ n. (k, n)) used in
    let b : Packet = record a { is_sending = true } in
    let c = behind-Changed d s k a packets f g b f.sized in
    (
      _,
      send-new log d immediate s empty ∙ run ∙ enqueue-idle d s k a packets f g idle,
      record {
        being_sent = ap (λ q. some (at q)) same;
        packet = b;
        loaded =
            ap (λ q. load (at q) (store (at (k, (pool k s.packets).used)) b packets)) (sym same)
            ∙ load_lem k (pool k s.packets).used (store (at (k, (pool k s.packets).used)) b packets)
                c.here;
        text = f.text;
      },
    )

-- Two sockets have queued a packet each, of one pool, and the one of `other` is the one that the pool
-- has handed out last. After the completion of `one`, its next Send of a message that fits a packet
-- of that pool is written into the packet of `other`, which is still being sent, and both sockets are
-- sending that packet then.
pub callback-send_crosses :
    (log : LogManager) (one other : Sender) (e f : Entry) (d : List ℕ) (immediate : Bool)
    → Holds one (e ∷ [])
    → Holds other (f ∷ [])
    → other.packets ≡ one.packets
    → e.key.0 ≡ f.key.0
    → f.key.1 + 1 ≡ (pool f.key.0 one.packets).used
    → choose (length d) ≡ some f.key.0
    → length d + 4 ≤ bytes_of f.key.0
    → (one' : Sender) × (one'' : Sender) × (on_write_callback log one ≡ ok (one', []))
      × (send log d immediate one' ≡ ok (one'', wsa_send (message d) ∷ []))
      × Sends f.key d one''
      × (other.sending_packet ≡ one''.sending_packet)
callback-send_crosses log one other e f d immediate h g same pools newest chosen fits =
    let some_used : 0 < (pool e.key.0 one.packets).used =
      omega (arith, h.counted e.key.0, one_if_self e.key.0) in
    let r =
      free_packet-Released log e.key e.packet one.packets h.sound h.placed.0 h.good.0.capacity
        some_used in
    let idle : Sender = record { sending_packet = none; last_packet = none; packets = r.packets } in
    let freed : one_if f.key.0 e.key.0 ≡ 1 =
      subst (λ k. one_if f.key.0 k ≡ 1) (sym pools) (one_if_self f.key.0) in
    let within = (h.sound f.key.0).pooled.valid.within in
    let (one'', run, sends) =
      send-idle log f.key.0 f.key.1 d immediate idle r.changed.sound refl refl
        (omega (arith, r.used f.key.0, freed, newest))
        (omega (arith, r.queue_size f.key.0, within, newest)) chosen fits in
    (
      idle,
      one'',
      callback-last log one h.first (load_lem e.key.0 e.key.1 one.packets h.placed.0) h.linked.0
          r.run,
      run,
      sends,
      g.first ∙ sym sends.being_sent,
    )
