-- ===== src/Tests/Pooling.antt =====
-- The pools and the packets at concrete states.
use dokevi_network.Prelude.{
  ℕ, ◌≤◌, ◌<◌, ◌≡◌, ◌≢◌, ◌↔◌, ◌⊎◌, refl, [], ◌∷◌, arith, none, some, ok, All, false, replicate,
}
use dokevi_network.Log.{new_log_manager}
use dokevi_network.Pool.{Pointer, Pool, init, alloc, release_at}
use dokevi_network.Pool.Order.{IsValid, init-IsValid}
use dokevi_network.Pool.Reuse.{Stacked, start, taken, Stacked-alloc}
use dokevi_network.Packet.{
  Packet, PacketSelector, PoolName, p64, p128, pool, choose, alloc_packet, free_packet,
  init_packet_selector,
}
use dokevi_network.Packet.Choice.{choose_iff}
use dokevi_network.Packet.RoundTrip.{IsPoolOf, alloc-free_packet}

-- Elements are numbers, and a released one is 0.
abbrev reset : ℕ → ℕ
reset n = 0

abbrev numbers : Pool ℕ
numbers = init 64 7 3

abbrev one_out : Pool ℕ
one_out = record numbers { used = 1; memory = 0 ∷ 7 ∷ 7 ∷ [] }

one_out-Stacked :
    Stacked new_log_manager reset 64 3 one_out (record { block = 64; offset = 0 } ∷ [])
unfolding init alloc release_at
one_out-Stacked = taken (start 7 (omega arith)) refl

Stacked-alloc_example :
    (x : Pointer) × (q : Pool ℕ) × (alloc new_log_manager reset one_out ≡ ok (some x, q))
    × All (λ y. y ≢ x) (record { block = 64; offset = 0 } ∷ [])
Stacked-alloc_example = Stacked-alloc new_log_manager reset one_out-Stacked (omega arith)

numbers-IsValid : IsValid numbers
numbers-IsValid = init-IsValid 64 7 3 (omega arith)

-- Two elements are out.
abbrev two_out : Pool ℕ
two_out = record numbers { used = 2; memory = 4 ∷ 5 ∷ 7 ∷ [] }

two_out-IsValid : IsValid two_out
unfolding init
two_out-IsValid = record {
  sized = refl;
  within = omega arith;
  small = omega arith;
  indicated = numbers-IsValid.indicated;
}

choose_iff_example : (choose 65 ≡ some p128) ↔ ((65 ≤ 128) × ((p128 ≡ p64) ⊎ (128 < 130)))
choose_iff_example = choose_iff 65 p128

abbrev fresh : ℕ → Packet
fresh n = record {
  buffer = replicate n 0;
  immediate_send = false;
  is_sending = false;
  size = 0;
  remain_size = n;
  max_size = n;
  next = none;
}

abbrev pools : PacketSelector
pools = init_packet_selector fresh

pools-IsPoolOf : IsPoolOf p128 (pool p128 pools)
unfolding init_packet_selector init
pools-IsPoolOf = record { valid = init-IsValid 128 (fresh 128) 1000 (omega arith); placed = refl }

alloc-free_packet_example :
    (x : Pointer) × (s' : PacketSelector) × (s'' : PacketSelector) × (alloc_packet new_log_manager
        100 pools
      ≡ ok (some x, s'))
    × (free_packet new_log_manager x s' ≡ ok s'')
    × ((j : PoolName) → (pool j s'').used ≡ (pool j pools).used)
unfolding init_packet_selector init choose
alloc-free_packet_example =
    alloc-free_packet new_log_manager 100 p128 pools pools-IsPoolOf refl (omega arith)

-- A pool of two packets, both of them out.
abbrev busy : PacketSelector
busy = record pools { packet128 = record (init 128 (fresh 128) 2) { used = 2 } }

busy-IsPoolOf : IsPoolOf p128 (pool p128 busy)
unfolding init_packet_selector init
busy-IsPoolOf =
    let v : IsValid (init 128 (fresh 128) 2) = init-IsValid 128 (fresh 128) 2 (omega arith) in
    record {
      valid = record {
        sized = v.sized;
        within = omega arith;
        small = v.small;
        indicated = v.indicated;
      };
      placed = refl;
    }
