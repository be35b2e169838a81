-- ===== src/Send/Freed.antt =====
-- FreePacket and OnWriteCallback on a socket that has packets queued.
use mathlib.Core.List.{append-nil}
use dokevi_network.Prelude.{
  ◌+◌, ◌-◌, ◌<◌, ◌≤◌, ◌≡◌, ◌≢◌, refl, sym, ap, subst, ◌∙◌, List, [], ◌∷◌, ◌++◌, true, arith, All,
  none, some, ok, Result, length, get_elem?,
}
use dokevi_network.Log.{LogManager}
use dokevi_network.Pool.{Pointer}
use dokevi_network.Packet.{
  Packet, PacketSelector, PoolName, bytes_of, pool, store, load, free_packet, release,
}
use dokevi_network.Packet.RoundTrip.{load_lem, free_packet_lem}
use dokevi_network.Packet.Heap.{
  IsSound, put, used-put_self, used-put_ne, name_discrete, queue_size-put,
}
use dokevi_network.Send.{Sender, Event, wsa_send, on_write_callback, server_send}
use dokevi_network.Send.Idle.{length-release}
use dokevi_network.Send.Chain.{
  Key, at, Entry, keys, Apart, one_if, count, content, contents, pending, Holds,
}
use dokevi_network.Send.Write.{
  Changed, put-Changed, store-Changed, used-store, queue_size-store, All-others, inside,
}
use dokevi_network.Send.Grow.{wire, server_send_lem, one_if_self}

one_if_ne : (j k : PoolName) → j ≢ k → one_if j k ≡ 0
one_if_ne j k n = ground arith

used-free :
    (j : PoolName) (k : Key) (c : Packet) (s : PacketSelector)
    → (pool j (put k.0 k.1 c ((pool k.0 s).used - 1) s)).used ≡ (pool j s).used - one_if j k.0
used-free j k c s = elim (name_discrete j k.0) [
  | yes e ↦
      subst
        (λ l.
          (pool l (put k.0 k.1 c ((pool k.0 s).used - 1) s)).used ≡ (pool l s).used - one_if l k.0)
        (sym e) (omega (arith, used-put_self k.0 k.1 c ((pool k.0 s).used - 1) s, one_if_self k.0))
  | no n ↦ omega (arith, used-put_ne j k.0 k.1 c ((pool k.0 s).used - 1) s n, one_if_ne j k.0 n)
]

-- FreePacket of one packet that is out.
pub record Released (log : LogManager) (k : Key) (s : PacketSelector) : Type 0 where
  pub packets : PacketSelector
  pub fresh : Packet
  pub run : free_packet log (at k) s ≡ ok packets
  pub changed : Changed s packets k fresh
  pub used : (j : PoolName) → (pool j packets).used ≡ (pool j s).used - one_if j k.0
  pub queue_size : (j : PoolName) → (pool j packets).queue_size ≡ (pool j s).queue_size

pub free_packet-Released :
    (log : LogManager) (k : Key) (a : Packet) (s : PacketSelector)
    → ((j : PoolName) → IsSound j (pool j s))
    → get_elem? (pool k.0 s).memory k.1 ≡ some a
    → a.max_size ≡ bytes_of k.0
    → 0 < (pool k.0 s).used
    → Released log k s
free_packet-Released log k a s sound here capacity some_used =
    let v = sound k.0 in
    let lt = inside (pool k.0 s).memory k.1 here in
    let (b, was, run) =
      free_packet_lem log k.0 k.1 s a v.pooled here capacity
        (omega (arith, v.pooled.valid.sized, lt)) some_used in
    record {
      packets = put k.0 k.1 (release (bytes_of k.0) b) ((pool k.0 s).used - 1) s;
      fresh = release (bytes_of k.0) b;
      run = run.0;
      changed =
          put-Changed k (release (bytes_of k.0) b) ((pool k.0 s).used - 1) s sound lt
            (length-release (bytes_of k.0) b ∙ v.arrays k.1 b was)
            (omega (arith, v.pooled.valid.within));
      used = λ j. used-free j k (release (bytes_of k.0) b) s;
      queue_size =
          λ j. queue_size-put j k.0 k.1 (release (bytes_of k.0) b) ((pool k.0 s).used - 1) s;
    }

-- A completion, which leaves the rest of the queue.
pub record Completed (s : Sender) (q : List Entry) (r : Result (Sender × List Event)) : Type 0 where
  pub sender : Sender
  pub events : List Event
  pub queue : List Entry
  pub run : r ≡ ok (sender, events)
  pub holds : Holds sender queue
  pub text : wire events ++ pending queue ≡ pending q
  pub balance :
      (j : PoolName)
      → (pool j sender.packets).used + count j (keys q)
        ≡ (pool j s.packets).used + count j (keys queue)
  pub queue_size :
      (j : PoolName) → (pool j sender.packets).queue_size ≡ (pool j s.packets).queue_size
  pub short : length queue + 1 ≡ length q

pub callback-last :
    (log : LogManager) (s : Sender) {x : Pointer} {a : Packet} {p : PacketSelector}
    → s.sending_packet ≡ some x
    → load x s.packets ≡ ok a
    → a.next ≡ none
    → free_packet log x s.packets ≡ ok p
    → on_write_callback log s
      ≡ ok (record { sending_packet = none; last_packet = none; packets = p }, [])
unfolding on_write_callback
callback-last log s e e' n f = ground (arith, e, e', n, f)

pub callback-next :
    (log : LogManager) (s : Sender) {x y : Pointer} {a b : Packet} {p : PacketSelector}
    {es : List Event}
    → s.sending_packet ≡ some x
    → load x s.packets ≡ ok a
    → a.next ≡ some y
    → load y s.packets ≡ ok b
    → server_send (record b { is_sending = true }) ≡ ok es
    → free_packet log x (store y (record b { is_sending = true }) s.packets) ≡ ok p
    → on_write_callback log s ≡ ok (record s { sending_packet = some y; packets = p }, es)
unfolding on_write_callback
callback-next log s e e' n e'' w f = ground (arith, e, e', n, e'', w, f)

Apart-back : (k : Key) (es : List Entry) → All (Apart k) (keys es) → All (λ j. Apart j k) (keys es)
Apart-back k [] h = tt
Apart-back k (e ∷ es) h = ((λ q n. h.0 (sym q) (sym n)), Apart-back k es h.1)

counted-tail :
    (j : PoolName) (s : Sender) (e : Entry) (es : List Entry)
    → Holds s (e ∷ es)
    → count j (keys es) ≤ (pool j s.packets).used - one_if j e.key.0
counted-tail j s e es h = omega (arith, h.counted j)

-- OnWriteCallback sends the next packet, or leaves the socket idle, and frees the one that is done.
pub on_write_callback-Completed :
    (log : LogManager) (s : Sender) (e : Entry) (es : List Entry)
    → Holds s (e ∷ es)
    → Completed s (e ∷ es) (on_write_callback log s)
on_write_callback-Completed log s e [] h =
    let some_used : 0 < (pool e.key.0 s.packets).used =
      omega (arith, h.counted e.key.0, one_if_self e.key.0) in
    let r =
      free_packet-Released log e.key e.packet s.packets h.sound h.placed.0 h.good.0.capacity
        some_used in
    record {
      sender = record { sending_packet = none; last_packet = none; packets = r.packets };
      events = [];
      queue = [];
      run =
          callback-last log s h.first (load_lem e.key.0 e.key.1 s.packets h.placed.0) h.linked.0
            r.run;
      holds = record {
        first = refl;
        last = refl;
        apart = tt;
        counted = λ j. omega arith;
        sound = r.changed.sound;
        placed = tt;
        good = tt;
        linked = tt;
        first_sent = tt;
      };
      text = refl;
      balance = λ j. omega (arith, r.used j, h.counted j);
      queue_size = r.queue_size;
      short = refl;
    }
on_write_callback-Completed log s e (f ∷ es) h =
    let b : Packet = record f.packet { is_sending = true } in
    let f' : Entry = record { key = f.key; packet = b } in
    let mid = store (at f.key) b s.packets in
    let g = h.good.1.0 in
    let c = store-Changed f.key f.packet b s.packets h.sound h.placed.1.0 g.sized in
    let some_used : 0 < (pool e.key.0 mid).used =
      omega (arith, used-store e.key.0 f.key b s.packets, h.counted e.key.0, one_if_self e.key.0) in
    let here = c.others e h.apart.0.0 h.placed.0 in
    let r = free_packet-Released log e.key e.packet mid c.sound here h.good.0.capacity some_used in
    let s' : Sender = record s { sending_packet = some (at f.key); packets = r.packets } in
    record {
      sender = s';
      events = wsa_send (content f) ∷ [];
      queue = f' ∷ es;
      run =
          callback-next log s h.first (load_lem e.key.0 e.key.1 s.packets h.placed.0) h.linked.0
            (load_lem f.key.0 f.key.1 s.packets h.placed.1.0)
            (server_send_lem b (omega (arith, g.filled, g.sized))) r.run;
      holds = record {
        first = refl;
        last = h.last;
        apart = h.apart.1;
        counted = λ j.
            omega (arith, counted-tail j s e (f ∷ es) h, r.used j, used-store j f.key b s.packets);
        sound = r.changed.sound;
        placed = (
          r.changed.others f' (λ q n. h.apart.0.0 (sym q) (sym n)) c.here,
          All-others es r.changed (Apart-back e.key es h.apart.0.1)
              (All-others es c (Apart-back f.key es h.apart.1.0) h.placed.1.1),
        );
        good = (record { sized = g.sized; filled = g.filled; capacity = g.capacity }, h.good.1.1);
        linked = h.linked.1;
        first_sent = refl;
      };
      text = ap (λ t. t ++ contents es) (append-nil (content f));
      balance = λ j. omega (arith, r.used j, used-store j f.key b s.packets, h.counted j);
      queue_size = λ j. r.queue_size j ∙ queue_size-store j f.key b s.packets;
      short = omega arith;
    }
