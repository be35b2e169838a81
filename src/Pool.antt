-- ===== src/Pool.antt =====
-- AtomicStaticPool.h: a pool of elements in one array. Each call runs under the pool's mutex, so it
-- is one step. `unsigned __int64` wraps at 2 ^ 64.
pub mod Order
pub mod Reuse
use dokevi_network.Prelude.{
  ℕ, zero, suc, ◌+◌, ◌-◌, ◌%◌, ◌^◌, List, [], ◌∷◌, Bool, true, false, ◌&&◌, Option, none, some,
  Result, ok, err, overrun, ◌>>=◌, ◌>>◌, ◌==◌, if◌then◌else◌, get_elem?, set, replicate,
}
use dokevi_network.Log.{LogManager, log_critical}

-- The address of an element: the array that it is in, and its index there.
pub record Pointer : Type 0 where
  pub block : ℕ
  pub offset : ℕ

abbrev pub same_pointer : Pointer → Pointer → Bool
same_pointer p q = p.block == q.block && p.offset == q.offset

pub record Pool (T : Type 0) : Type 0 where
  pub used : ℕ
  pub queue_size : ℕ
  -- The array that `new T[_queueSize]` returned, and its elements.
  pub block : ℕ
  pub memory : List T
  pub memory_indicate : List (Pointer × ℕ)

abbrev pub uint64 : ℕ
uint64 = 2 ^ 64

-- for (i = 0; i < _queueSize; i++) _memoryIndicate.insert(std::make_pair(&_memory[i], i));
unfoldable pub indicate : ℕ → ℕ → ℕ → List (Pointer × ℕ)
indicate block i zero = []
indicate block i (suc n) = (record { block = block; offset = i }, i) ∷ indicate block (i + 1) n

unfoldable pub find : Pointer → List (Pointer × ℕ) → Option ℕ
find p [] = none
find p ((q, i) ∷ m) = if same_pointer p q then some i else find p m

module _ {T : Type 0} where
  -- `fresh` is what a new element holds before it is first released.
  unfoldable pub init : ℕ → T → ℕ → Pool T
  unfolding indicate
  init block fresh size = record {
    used = 0;
    queue_size = size;
    block = block;
    memory = replicate size fresh;
    memory_indicate = indicate block 0 size;
  }

  abbrev pub element : Pool T → ℕ → Pointer
  element p i = record { block = p.block; offset = i }

  unfoldable pub get_capacity : Pool T → ℕ
  get_capacity p = p.queue_size

  unfoldable pub get_used_size : Pool T → ℕ
  get_used_size p = p.used

  -- _memory[i].Release()
  unfoldable pub release_at : (T → T) → ℕ → Pool T → Result (Pool T)
  release_at release i p = elim (get_elem? p.memory i) [
    | none ↦ err overrun
    | some a ↦ ok (record p { memory = set p.memory i (release a) })
  ]

  -- The null pointer is `none`.
  unfoldable pub alloc : LogManager → (T → T) → Pool T → Result (Option Pointer × Pool T)
  alloc log release p = if p.used == p.queue_size then log_critical log >> ok (none, p) else (do
    q ← release_at release p.used p
    ok (some (element p p.used), record q { used = (p.used + 1) % uint64 }))

  unfoldable pub free : LogManager → (T → T) → Pointer → Pool T → Result (Pool T)
  free log release element_ptr p = elim (find element_ptr p.memory_indicate) [
    | none ↦ log_critical log >> ok p
    | some i ↦ release_at release i (record p { used = (p.used + uint64 - 1) % uint64 })
  ]
