-- ===== src/Send/Reissue.antt =====
-- A Send between two completions.
use dokevi_network.Prelude.{
  ℕ, ◌+◌, ◌<◌, ◌≤◌, ◌≡◌, refl, sym, ap, subst, ◌∙◌, List, [], ◌∷◌, true, arith, some, ok, length,
  take,
}
use dokevi_network.Log.{LogManager}
use dokevi_network.Pool.{Pointer}
use dokevi_network.Packet.{Packet, PoolName, bytes_of, pool, choose, load, store}
use dokevi_network.Packet.RoundTrip.{load_lem}
use dokevi_network.Packet.Heap.{IsSound}
use dokevi_network.Send.{Sender, wsa_send, send, send_new, enqueue, on_write_callback}
use dokevi_network.Send.Message.{message}
use dokevi_network.Send.Chain.{Key, at, Entry, Holds, content, one_if}
use dokevi_network.Send.Write.{Changed, store-Changed, used-store, queue_size-store}
use dokevi_network.Send.Fresh.{send_new-Fresh}
use dokevi_network.Send.Grow.{server_send_lem, one_if_self}
use dokevi_network.Send.Freed.{free_packet-Released, callback-next}
use dokevi_network.Send.Busy.{enqueue-linked}
use dokevi_network.Send.Burst.{send-behind}

-- The packet at `k` holds the message `d` and follows itself.
pub record FollowsItself (k : Key) (d : List ℕ) (s : Sender) : Type 0 where
  pub being_sent : s.sending_packet ≡ some (at k)
  pub packet : Packet
  pub loaded : load (at k) s.packets ≡ ok packet
  pub next : packet.next ≡ some (at k)
  pub text : take packet.size packet.buffer ≡ message d

send-alone :
    (log : LogManager) (d : List ℕ) (s : Sender) (x : Pointer) (a : Packet)
    → s.last_packet ≡ some x
    → load x s.packets ≡ ok a
    → send log d true s ≡ send_new log d true s
send-alone log d s x a e e' = send-behind log d true s x a e e' ∙ ground arith

-- A Send whose packet is the one that is last already.
send-FollowsItself :
    (log : LogManager) (k : PoolName) (i : ℕ) (d : List ℕ) (s : Sender) (b : Packet)
    → ((j : PoolName) → IsSound j (pool j s.packets))
    → s.sending_packet ≡ some (at (k, i))
    → s.last_packet ≡ some (at (k, i))
    → load (at (k, i)) s.packets ≡ ok b
    → (pool k s.packets).used ≡ i
    → i < (pool k s.packets).queue_size
    → choose (length d) ≡ some k
    → length d + 4 ≤ bytes_of k
    → (s' : Sender) × (send log d true s ≡ ok (s', [])) × FollowsItself (k, i) d s'
send-FollowsItself log k i d s b sound first last here used room chosen fits =
    let (a, packets, run, f, g) =
      send_new-Fresh log d true s k sound chosen fits (omega (arith, used, room)) in
    let same : (k, (pool k s.packets).used) ≡ (k, i) = ap (λ n. (k, n)) used in
    let changed : Changed s.packets packets (k, i) g.first =
      subst (λ q. Changed s.packets packets q g.first) same g.changed in
    let mid = store-Changed (k, i) g.first a packets changed.sound changed.here f.sized in
    let c : Packet = record a { next = some (at (k, i)) } in
    let final = store-Changed (k, i) a c (store (at (k, i)) a packets) mid.sound mid.here f.sized in
    (
      record s {
        last_packet = some (at (k, i));
        packets = store (at (k, i)) c (store (at (k, i)) a packets);
      },
      send-alone log d s (at (k, i)) b last here
          ∙ run
          ∙ ap (λ q. enqueue (at q) a (record s { packets = packets })) same
          ∙ enqueue-linked (at (k, i)) a (record s { packets = packets }) first last
              (load_lem k i (store (at (k, i)) a packets) mid.here),
      record {
        being_sent = first;
        packet = c;
        loaded = load_lem k i (store (at (k, i)) c (store (at (k, i)) a packets)) final.here;
        next = refl;
        text = f.text;
      },
    )

-- On a socket that has queued the packets `e` and `f` of one pool, of which `f` is the one that the
-- pool has handed out last: after the completion of `e` WSASend is given `f`, and the next Send, of a message on its own that
-- fits a packet of that pool, writes it into `f`, which is still being sent, and makes `f` follow itself.
pub callback-send_reissues :
    (log : LogManager) (s : Sender) (e f : Entry) (d : List ℕ)
    → Holds s (e ∷ f ∷ [])
    → e.key.0 ≡ f.key.0
    → f.key.1 + 1 ≡ (pool f.key.0 s.packets).used
    → choose (length d) ≡ some f.key.0
    → length d + 4 ≤ bytes_of f.key.0
    → (s' : Sender) × (s'' : Sender) × (on_write_callback log s
        ≡ ok (s', wsa_send (content f) ∷ []))
      × (send log d true s' ≡ ok (s'', []))
      × FollowsItself f.key d s''
callback-send_reissues log s e f d h pools newest chosen fits =
    let b : Packet = record f.packet { is_sending = true } in
    let g = h.good.1.0 in
    let c = store-Changed f.key f.packet b s.packets h.sound h.placed.1.0 g.sized in
    let mid = store (at f.key) b s.packets in
    let some_used : 0 < (pool e.key.0 mid).used =
      omega (arith, used-store e.key.0 f.key b s.packets, h.counted e.key.0, one_if_self e.key.0) in
    let r =
      free_packet-Released log e.key e.packet mid c.sound (c.others e h.apart.0.0 h.placed.0)
        h.good.0.capacity some_used in
    let s' : Sender = record s { sending_packet = some (at f.key); packets = r.packets } in
    let here =
      r.changed.others (record { key = f.key; packet = b }) (λ q n. h.apart.0.0 (sym q) (sym n))
        c.here in
    let freed : one_if f.key.0 e.key.0 ≡ 1 =
      subst (λ k. one_if f.key.0 k ≡ 1) (sym pools) (one_if_self f.key.0) in
    let sound = (h.sound f.key.0).pooled.valid.within in
    let (s'', run, follows) =
      send-FollowsItself log f.key.0 f.key.1 d s' b r.changed.sound refl h.last
        (load_lem f.key.0 f.key.1 r.packets here)
        (omega (arith, r.used f.key.0, used-store f.key.0 f.key b s.packets, freed, newest))
        (omega
          (arith, r.queue_size f.key.0, queue_size-store f.key.0 f.key b s.packets, sound, newest))
        chosen fits in
    (
      s',
      s'',
      callback-next log s h.first (load_lem e.key.0 e.key.1 s.packets h.placed.0) h.linked.0
          (load_lem f.key.0 f.key.1 s.packets h.placed.1.0)
          (server_send_lem b (omega (arith, g.filled, g.sized))) r.run,
      run,
      follows,
    )
