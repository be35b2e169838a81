-- ===== src/Packet/Choice.antt =====
-- Which pool a size goes to, and that a packet goes back to the pool that it came from.
use dokevi_network.Prelude.{ℕ, ◌*◌, ◌≤◌, ◌<◌, ◌≡◌, ◌≢◌, ◌↔◌, ◌⊎◌, arith, none, some}
use dokevi_network.Pool.{Pool}
use dokevi_network.Receive.{max_packet_buf_size}
use dokevi_network.Packet.{
  Packet, PacketSelector, PoolName, p64, p128, p256, p512, p1024, p2048, p4096, bytes_of, pool,
  with_pool, choose, owner,
}

choose-none : (n : ℕ) → (choose n ≡ none) ↔ (max_packet_buf_size < n)
unfolding choose
choose-none n = ground arith

choose-le : (n : ℕ) (k : PoolName) → choose n ≡ some k → n ≤ bytes_of k
unfolding choose
choose-le n k e = ground arith

choose-least :
    (n : ℕ) (k j : PoolName) → choose n ≡ some k → n ≤ bytes_of j → bytes_of k ≤ bytes_of j
unfolding choose
choose-least n k j e h = ground arith

-- A size is given the smallest pool that holds it, and none exactly above 4096 bytes.
pub choose_lem :
    (n : ℕ)
    → ((choose n ≡ none) ↔ (max_packet_buf_size < n))
      × ((k : PoolName)
          → choose n ≡ some k
          → (n ≤ bytes_of k) × ((j : PoolName) → n ≤ bytes_of j → bytes_of k ≤ bytes_of j))
choose_lem n = (choose-none n, λ k e. (choose-le n k e, λ j h. choose-least n k j e h))

-- The size of a pool's packets is given that pool.
pub choose-bytes_of : (k : PoolName) → choose (bytes_of k) ≡ some k
unfolding choose
choose-bytes_of k = ground arith

pub owner-bytes_of : (k : PoolName) → owner (bytes_of k) ≡ some k
unfolding owner
owner-bytes_of k = ground arith

pub pool-with_pool_self :
    (k : PoolName) (p : Pool Packet) (s : PacketSelector) → pool k (with_pool k p s) ≡ p
pool-with_pool_self k p s = ground arith

pub pool-with_pool_ne :
    (j k : PoolName) (p : Pool Packet) (s : PacketSelector)
    → j ≢ k
    → pool j (with_pool k p s) ≡ pool j s
pool-with_pool_ne j k p s h = ground arith

pub PoolName-discrete : Discrete PoolName
PoolName-discrete = hlevel

-- AllocPacket's ladder gives a size the pool whose packets hold it and are less than twice as large,
-- or the pool of 64 bytes if the size is at most 64; and no other.
pub choose_iff :
    (n : ℕ) (k : PoolName)
    → (choose n ≡ some k) ↔ ((n ≤ bytes_of k) × ((k ≡ p64) ⊎ (bytes_of k < 2 * n)))
unfolding choose
choose_iff n p64 = ground arith
choose_iff n p128 = ground arith
choose_iff n p256 = ground arith
choose_iff n p512 = ground arith
choose_iff n p1024 = ground arith
choose_iff n p2048 = ground arith
choose_iff n p4096 = ground arith
