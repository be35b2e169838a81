-- ===== src/Packet/RoundTrip.antt =====
-- AllocPacket on a pool with room, and FreePacket of what it handed out.
use dokevi_network.Prelude.{
  ℕ, ◌+◌, ◌-◌, ◌<◌, ◌≡◌, refl, sym, ap, ◌∙◌, arith, Option, some, ok, length, get_elem?,
  get_elem?-set_self, subst,
}
use dokevi_network.Log.{LogManager}
use dokevi_network.Pool
use dokevi_network.Pool.{Pool, Pointer, element}
use dokevi_network.Pool.Order.{IsValid, alloc_lem, free_lem, with_element}
use dokevi_network.Packet.{
  Packet, PacketSelector, PoolName, bytes_of, pool, with_pool, choose, alloc_packet, free_packet,
  load, release, alloc_from,
}
use dokevi_network.Packet.Choice.{choose_lem, choose-bytes_of, owner-bytes_of, pool-with_pool_self}

-- A pool as InitPacketSelector places it.
pub record IsPoolOf (k : PoolName) (p : Pool Packet) : Type 0 where
  pub valid : IsValid p
  pub placed : p.block ≡ bytes_of k

-- A packet of pool `k`.
abbrev pub packet_at : PoolName → ℕ → Pointer
packet_at k i = record { block = bytes_of k; offset = i }

alloc_from_lem :
    (log : LogManager) (k : PoolName) (s : PacketSelector) {x : Option Pointer} {p : Pool Packet}
    → Pool.alloc log (release (bytes_of k)) (pool k s) ≡ ok (x, p)
    → alloc_from log k s ≡ ok (x, with_pool k p s)
unfolding alloc_from
alloc_from_lem log k s e = rw e

alloc_packet_from :
    (log : LogManager) (n : ℕ) (k : PoolName) (s : PacketSelector)
    → choose n ≡ some k
    → alloc_packet log n s ≡ alloc_from log k s
unfolding alloc_packet
alloc_packet_from log n k s e = ground (arith, (choose_lem n).0)

pub load_lem :
    (k : PoolName) (i : ℕ) (s : PacketSelector) {a : Packet}
    → get_elem? (pool k s).memory i ≡ some a
    → load (packet_at k i) s ≡ ok a
unfolding load
load_lem k i s e = ground (arith, owner-bytes_of k)

module _ (log : LogManager) (n : ℕ) (k : PoolName) (s : PacketSelector) (v : IsPoolOf k (pool k s))
    (chosen : choose n ≡ some k) (room : (pool k s).used < (pool k s).queue_size) where
  -- AllocPacket resets the next packet of the chosen pool and hands it out.
  pub alloc_packet_lem :
      (a : Packet) × (get_elem? (pool k s).memory (pool k s).used ≡ some a)
      × (let p =
            with_element
              (pool k s)
              (pool k s).used
              (release (bytes_of k) a)
              ((pool k s).used + 1) in
          (alloc_packet log n s ≡ ok (some (packet_at k (pool k s).used), with_pool k p s))
          × IsPoolOf k p)
  alloc_packet_lem =
      let (a, was, run, w) = alloc_lem log (release (bytes_of k)) (pool k s) v.valid room in
      (
        a,
        was,
        (
          alloc_packet_from log n k s chosen
              ∙ alloc_from_lem log k s run
              ∙ ap
                  (λ (b : ℕ). ok (
                    some (record { block = b; offset = (pool k s).used }),
                    with_pool k
                        (with_element (pool k s) (pool k s).used (release (bytes_of k) a)
                          ((pool k s).used + 1))
                        s,
                  ))
                  v.placed,
          record { valid = w; placed = v.placed },
        ),
      )

free_packet_at :
    (log : LogManager) (k : PoolName) (i : ℕ) (s : PacketSelector) {a : Packet} {p : Pool Packet}
    → get_elem? (pool k s).memory i ≡ some a
    → a.max_size ≡ bytes_of k
    → Pool.free log (release (bytes_of k)) (packet_at k i) (pool k s) ≡ ok p
    → free_packet log (packet_at k i) s ≡ ok (with_pool k p s)
unfolding free_packet
free_packet_at log k i s {a} was size e =
    ground (arith, load_lem k i s was, choose-bytes_of k, ap choose size)

-- FreePacket of a packet that carries the size of its pool, from which something is out, gives it
-- back to that pool, whichever packet of the pool it is, and takes one off the pool's count.
pub free_packet_lem :
    (log : LogManager) (k : PoolName) (i : ℕ) (s : PacketSelector) (a : Packet)
    → IsPoolOf k (pool k s)
    → get_elem? (pool k s).memory i ≡ some a
    → a.max_size ≡ bytes_of k
    → i < (pool k s).queue_size
    → 0 < (pool k s).used
    → (b : Packet) × (get_elem? (pool k s).memory i ≡ some b)
      × (let p = with_element (pool k s) i (release (bytes_of k) b) ((pool k s).used - 1) in
          (free_packet log (packet_at k i) s ≡ ok (with_pool k p s)) × IsPoolOf k p)
free_packet_lem log k i s a v was size inside some_used =
    let (b, here, run, w) =
      free_lem log (release (bytes_of k)) (pool k s) v.valid i inside some_used in
    (
      b,
      here,
      (
        free_packet_at log k i s was size (
            subst
              (λ (q : ℕ).
                Pool.free log (release (bytes_of k)) (record { block = q; offset = i }) (pool k s)
                ≡ ok (with_element (pool k s) i (release (bytes_of k) b) ((pool k s).used - 1)))
              v.placed run),
        record { valid = w; placed = v.placed },
      ),
    )

-- The packet that AllocPacket has handed out, in the state behind the call.
pub handed_out :
    (k : PoolName) (s : PacketSelector) (p : Pool Packet) (i : ℕ) (a : Packet) (n : ℕ)
    → p ≡ with_element (pool k s) i a n
    → i < length (pool k s).memory
    → get_elem? (pool k (with_pool k p s)).memory i ≡ some a
handed_out k s p i a n e inside =
    ap (λ (q : Pool Packet). get_elem? q.memory i) (pool-with_pool_self k p s ∙ e)
    ∙ get_elem?-set_self (pool k s).memory i a inside

max_size-release : (n : ℕ) (a : Packet) → (release n a).max_size ≡ n
unfolding release
max_size-release n a = refl

used-with_pool :
    (j k : PoolName) (p q : Pool Packet) (s : PacketSelector)
    → q.used ≡ (pool k s).used
    → (pool j (with_pool k q (with_pool k p s))).used ≡ (pool j s).used
used-with_pool j k p q s e = ground arith

-- AllocPacket of a size that its pool has room for, and FreePacket of the packet, succeed and leave
-- as many packets out of every pool as before.
pub alloc-free_packet :
    (log : LogManager) (n : ℕ) (k : PoolName) (s : PacketSelector)
    → IsPoolOf k (pool k s)
    → choose n ≡ some k
    → (pool k s).used < (pool k s).queue_size
    → (x : Pointer) × (s' : PacketSelector) × (s'' : PacketSelector) × (alloc_packet log n s
        ≡ ok (some x, s'))
      × (free_packet log x s' ≡ ok s'')
      × ((j : PoolName) → (pool j s'').used ≡ (pool j s).used)
alloc-free_packet log n k s v chosen room =
    let (a, was, run) = alloc_packet_lem log n k s v chosen room in
    let p =
      with_element (pool k s) (pool k s).used (release (bytes_of k) a) ((pool k s).used + 1) in
    let same = pool-with_pool_self k p s in
    let (b, _, freed) =
      free_packet_lem log k (pool k s).used (with_pool k p s) (release (bytes_of k) a)
        (subst (IsPoolOf k) (sym same) run.1)
        (handed_out k s p (pool k s).used (release (bytes_of k) a) ((pool k s).used + 1) refl
          (omega (arith, v.valid.sized)))
        (max_size-release (bytes_of k) a)
        (omega (arith, ap (λ (r : Pool Packet). r.queue_size) same))
        (omega (arith, ap (λ (r : Pool Packet). r.used) same)) in
    (
      packet_at k (pool k s).used,
      _,
      _,
      run.0,
      freed.0,
      λ j. used-with_pool j k p _ s (omega (arith, ap (λ (r : Pool Packet). r.used) same)),
    )
