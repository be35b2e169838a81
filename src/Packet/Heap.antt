-- ===== src/Packet/Heap.antt =====
-- The pools as one memory: what a change of one packet leaves of the others.
use dokevi_network.Prelude.{
  ℕ, ℕ_discrete, ◌<◌, ◌≤◌, ◌≡◌, ◌≢◌, sym, ap, subst, ◌∙◌, arith, some, length, get_elem?, set,
  get_elem?-set_self, get_elem?-set_ne,
}
use dokevi_network.Pool.{Pool}
use dokevi_network.Pool.Order.{with_element, with_element-IsValid}
use dokevi_network.Packet.{
  Packet, PacketSelector, PoolName, bytes_of, pool, with_pool, store, owner,
}
use dokevi_network.Packet.Choice.{owner-bytes_of, pool-with_pool_self, pool-with_pool_ne}
use dokevi_network.Packet.RoundTrip.{IsPoolOf, packet_at}

bytes_of-inj : (j k : PoolName) → bytes_of j ≡ bytes_of k → j ≡ k
bytes_of-inj j k e =
    let a = owner-bytes_of j in let b = owner-bytes_of k in let c = ap owner e in cc

pub name_discrete : (j k : PoolName) → Dec (j ≡ k)
name_discrete j k = elim (ℕ_discrete (bytes_of j) (bytes_of k)) [
  | yes e ↦ yes (bytes_of-inj j k e)
  | no n ↦ no (λ e. n (ap bytes_of e))
]

-- A packet in its place, and the count of its pool.
abbrev pub put : PoolName → ℕ → Packet → ℕ → PacketSelector → PacketSelector
put k i a n s = with_pool k (with_element (pool k s) i a n) s

pub store-put :
    (k : PoolName) (i : ℕ) (a : Packet) (s : PacketSelector)
    → store (packet_at k i) a s ≡ put k i a (pool k s).used s
unfolding store
store-put k i a s = ground (arith, owner-bytes_of k)

pub pool-put_self :
    (k : PoolName) (i : ℕ) (a : Packet) (n : ℕ) (s : PacketSelector)
    → pool k (put k i a n s) ≡ with_element (pool k s) i a n
pool-put_self k i a n s = pool-with_pool_self k (with_element (pool k s) i a n) s

pub pool-put_ne :
    (j k : PoolName) (i : ℕ) (a : Packet) (n : ℕ) (s : PacketSelector)
    → j ≢ k
    → pool j (put k i a n s) ≡ pool j s
pool-put_ne j k i a n s = pool-with_pool_ne j k (with_element (pool k s) i a n) s

-- A place in a pool.
abbrev pub At : PacketSelector → PoolName → ℕ → Packet → Type 0
At s k i a = get_elem? (pool k s).memory i ≡ some a

pub At-put_self :
    (k : PoolName) (i : ℕ) (a : Packet) (n : ℕ) (s : PacketSelector)
    → i < length (pool k s).memory
    → At (put k i a n s) k i a
At-put_self k i a n s h =
    ap (λ (q : Pool Packet). get_elem? q.memory i) (pool-put_self k i a n s)
    ∙ get_elem?-set_self (pool k s).memory i a h

pub At-put_ne :
    (j k : PoolName) (m i : ℕ) (a : Packet) (n : ℕ) (s : PacketSelector) {b : Packet}
    → (j ≡ k → i ≢ m)
    → At s j m b
    → At (put k i a n s) j m b
At-put_ne j k m i a n s apart here = elim (name_discrete j k) [
  | yes e ↦
      subst (λ l. get_elem? (pool l (put k i a n s)).memory m ≡ get_elem? (pool l s).memory m)
        (sym e)
        (ap (λ (q : Pool Packet). get_elem? q.memory m) (pool-put_self k i a n s)
          ∙ get_elem?-set_ne (pool k s).memory i m a (apart e))
      ∙ here
  | no other ↦ ap (λ (q : Pool Packet). get_elem? q.memory m) (pool-put_ne j k i a n s other) ∙ here
]

pub used-put_self :
    (k : PoolName) (i : ℕ) (a : Packet) (n : ℕ) (s : PacketSelector)
    → (pool k (put k i a n s)).used ≡ n
used-put_self k i a n s = ap (λ (q : Pool Packet). q.used) (pool-put_self k i a n s)

pub used-put_ne :
    (j k : PoolName) (i : ℕ) (a : Packet) (n : ℕ) (s : PacketSelector)
    → j ≢ k
    → (pool j (put k i a n s)).used ≡ (pool j s).used
used-put_ne j k i a n s other = ap (λ (q : Pool Packet). q.used) (pool-put_ne j k i a n s other)

-- A pool as it is placed, whose packets have arrays of its size.
pub record IsSound (k : PoolName) (p : Pool Packet) : Type 0 where
  pub pooled : IsPoolOf k p
  pub arrays : (i : ℕ) (a : Packet) → get_elem? p.memory i ≡ some a → length a.buffer ≡ bytes_of k

with_element-IsSound :
    (k : PoolName) (p : Pool Packet) (i : ℕ) (a : Packet) (n : ℕ)
    → IsSound k p
    → i < length p.memory
    → length a.buffer ≡ bytes_of k
    → n ≤ p.queue_size
    → IsSound k (with_element p i a n)
with_element-IsSound k p i a n v inside sized within = record {
  pooled = record {
    valid = with_element-IsValid v.pooled.valid i a n within;
    placed = v.pooled.placed;
  };
  arrays = λ m b here. elim (ℕ_discrete i m) [
    | yes e ↦
        let same : some a ≡ some b =
          sym (get_elem?-set_self p.memory i a inside)
          ∙ ap (get_elem? (set p.memory i a)) e
          ∙ here in
        let eq : a ≡ b = cc in ap (λ (c : Packet). length c.buffer) (sym eq) ∙ sized
    | no other ↦ v.arrays m b (sym (get_elem?-set_ne p.memory i m a other) ∙ here)
  ];
}

pub put-IsSound :
    (j k : PoolName) (i : ℕ) (a : Packet) (n : ℕ) (s : PacketSelector)
    → ((l : PoolName) → IsSound l (pool l s))
    → i < length (pool k s).memory
    → length a.buffer ≡ bytes_of k
    → n ≤ (pool k s).queue_size
    → IsSound j (pool j (put k i a n s))
put-IsSound j k i a n s v inside sized within = elim (name_discrete j k) [
  | yes e ↦
      subst (λ l. IsSound l (pool l (put k i a n s))) (sym e)
        (subst (IsSound k) (sym (pool-put_self k i a n s))
          (with_element-IsSound k (pool k s) i a n (v k) inside sized within))
  | no other ↦ subst (IsSound j) (sym (pool-put_ne j k i a n s other)) (v j)
]

pub queue_size-put :
    (j k : PoolName) (i : ℕ) (a : Packet) (n : ℕ) (s : PacketSelector)
    → (pool j (put k i a n s)).queue_size ≡ (pool j s).queue_size
queue_size-put j k i a n s = ground arith
