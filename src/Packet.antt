-- ===== src/Packet.antt =====
-- PacketInterface.h and PacketSelector.h: the packets of seven fixed sizes, a pool for each, and the
-- choice of the pool by size. The object of a pool behind a pointer is reached through the block
-- that the pointer names: the array of the pool for packets of N bytes is block N.
pub mod Choice
pub mod RoundTrip
pub mod Heap
use dokevi_network.Prelude.{
  ℕ, suc, ◌-◌, ◌+◌, ◌%◌, List, [], ◌∷◌, Bool, true, false, ◌&&◌, Option, none, some, Result, ok,
  err, overrun, null_deref, ◌>>=◌, ◌>>◌, leb, ltb, ◌==◌, if◌then◌else◌, get_elem?, set,
}
use dokevi_network.Log.{LogManager, log_critical}
use dokevi_network.Pool
use dokevi_network.Pool.{Pool, Pointer}
use dokevi_network.Receive.{max_packet_buf_size}

-- PacketInterface. `_buffer` points to the packet's own array `buf` from the first Release on, so the
-- array stands for both.
pub record Packet : Type 0 where
  pub buffer : List ℕ
  pub immediate_send : Bool
  pub is_sending : Bool
  pub size : ℕ
  pub remain_size : ℕ
  pub max_size : ℕ
  pub next : Option Pointer

-- StaticSizePacket<SIZE>::Release(); strcpy(buf, "") writes one 0. `_size` keeps its value.
unfoldable pub release : ℕ → Packet → Packet
release size p = record p {
  buffer = set p.buffer 0 0;
  immediate_send = false;
  next = none;
  is_sending = false;
  remain_size = size;
  max_size = size;
}

pub record PacketSelector : Type 0 where
  pub packet64 : Pool Packet
  pub packet128 : Pool Packet
  pub packet256 : Pool Packet
  pub packet512 : Pool Packet
  pub packet1024 : Pool Packet
  pub packet2048 : Pool Packet
  pub packet4096 : Pool Packet

-- `fresh n` is what a new StaticSizePacket<n> holds.
unfoldable pub init_packet_selector : (ℕ → Packet) → PacketSelector
init_packet_selector fresh = record {
  packet64 = Pool.init 64 (fresh 64) 1000;
  packet128 = Pool.init 128 (fresh 128) 1000;
  packet256 = Pool.init 256 (fresh 256) 1000;
  packet512 = Pool.init 512 (fresh 512) 1000;
  packet1024 = Pool.init 1024 (fresh 1024) 1000;
  packet2048 = Pool.init 2048 (fresh 2048) 1000;
  packet4096 = Pool.init 4096 (fresh 4096) 1000;
}

-- One of the seven pools.
pub data PoolName : Type 0 where
  p64 p128 p256 p512 p1024 p2048 p4096 : PoolName

abbrev pub bytes_of : PoolName → ℕ
bytes_of p64 = 64
bytes_of p128 = 128
bytes_of p256 = 256
bytes_of p512 = 512
bytes_of p1024 = 1024
bytes_of p2048 = 2048
bytes_of p4096 = 4096

abbrev pub pool : PoolName → PacketSelector → Pool Packet
pool p64 s = s.packet64
pool p128 s = s.packet128
pool p256 s = s.packet256
pool p512 s = s.packet512
pool p1024 s = s.packet1024
pool p2048 s = s.packet2048
pool p4096 s = s.packet4096

abbrev pub with_pool : PoolName → Pool Packet → PacketSelector → PacketSelector
with_pool p64 p s = record s { packet64 = p }
with_pool p128 p s = record s { packet128 = p }
with_pool p256 p s = record s { packet256 = p }
with_pool p512 p s = record s { packet512 = p }
with_pool p1024 p s = record s { packet1024 = p }
with_pool p2048 p s = record s { packet2048 = p }
with_pool p4096 p s = record s { packet4096 = p }

-- The ladder of tests that AllocPacket and FreePacket share; `none` is its last `else`.
unfoldable pub choose : ℕ → Option PoolName
choose n =
    if leb n 64
    then some p64
    else if ltb 64 n && leb n 128
    then some p128
    else if ltb 128 n && leb n 256
    then some p256
    else if ltb 256 n && leb n 512
    then some p512
    else if ltb 512 n && leb n 1024
    then some p1024
    else if ltb 1024 n && leb n 2048
    then some p2048
    else if ltb 2048 n && leb n 4096
    then some p4096
    else none

unfoldable pub alloc_from :
    LogManager → PoolName → PacketSelector → Result (Option Pointer × PacketSelector)
alloc_from log k s = do
  (x, p) ← Pool.alloc log (release (bytes_of k)) (pool k s)
  ok (x, with_pool k p s)

unfoldable pub alloc_packet :
    LogManager → ℕ → PacketSelector → Result (Option Pointer × PacketSelector)
alloc_packet log in_size s =
    if ltb max_packet_buf_size in_size
    then log_critical log >> ok (none, s)
    else elim (choose in_size) [
      | none ↦ log_critical log >> ok (none, s)
      | some k ↦ alloc_from log k s
    ]

-- The pool whose array a pointer points into.
unfoldable pub owner : ℕ → Option PoolName
owner block =
    if block == 64
    then some p64
    else if block == 128
    then some p128
    else if block == 256
    then some p256
    else if block == 512
    then some p512
    else if block == 1024
    then some p1024
    else if block == 2048
    then some p2048
    else if block == 4096
    then some p4096
    else none

-- inPacket->…, a read through a pointer into one of the pools.
unfoldable pub load : Pointer → PacketSelector → Result Packet
load x s = elim (owner x.block) [
  | none ↦ err overrun
  | some k ↦ elim (get_elem? (pool k s).memory x.offset) [ none ↦ err overrun | some a ↦ ok a ]
]

-- A write through such a pointer.
unfoldable pub store : Pointer → Packet → PacketSelector → PacketSelector
store x a s = elim (owner x.block) [
  | none ↦ s
  | some k ↦ with_pool k (record (pool k s) { memory = set (pool k s).memory x.offset a }) s
]

unfoldable pub free_packet : LogManager → Pointer → PacketSelector → Result PacketSelector
free_packet log x s = do
  a ← load x s
  elim (choose a.max_size) [
    | none ↦ log_critical log >> ok s
    | some k ↦ Pool.free log (release (bytes_of k)) x (pool k s) >>= λ p. ok (with_pool k p s)
  ]
