-- ===== src/Scalable.antt =====
-- ScalablePool.h and ScalablePool.cpp: items of one size in a block that is replaced by one of twice
-- the size when it is used up. An address is the block and the offset in it; the blocks of malloc are
-- numbered as they come, and a call of std::free is in the result. A call is taken as one step: the
-- source locks only a part of Pop.
pub mod Layout
pub mod Freed
use dokevi_network.Prelude.{
  ℕ, suc, ◌+◌, ◌-◌, ◌*◌, ◌%◌, List, [], ◌∷◌, Option, none, some, ◌==◌, ltb, if◌then◌else◌,
}
use dokevi_network.Bytes.{word}
use dokevi_network.Pool.{Pointer, same_pointer}

pub record ScalablePool : Type 0 where
  -- The block of _data, and the bytes that malloc was asked for.
  pub block : ℕ
  pub block_bytes : ℕ
  pub size : ℕ
  pub alloc_size : ℕ
  pub alloc_index : ℕ
  pub use_size : ℕ
  -- The back of the vector first.
  pub free_index : List ℕ
  pub used_index : List (Pointer × ℕ)
  pub mem_check_array : List (ℕ × ℕ)
  pub generation_free : List (ℕ × ℕ)
  pub cur_generation : ℕ

-- sizeof(int) * 3
abbrev pub header_bytes : ℕ
header_bytes = 12

unfoldable pub init : ℕ → ℕ → ℕ → ScalablePool
init block in_size in_alloc_size = record {
  block = block;
  block_bytes = (in_size + header_bytes) * in_alloc_size;
  size = in_size;
  alloc_size = in_alloc_size;
  alloc_index = 0;
  use_size = 0;
  free_index = [];
  used_index = [];
  mem_check_array = (0, block) ∷ [];
  generation_free = (0, in_alloc_size) ∷ [];
  cur_generation = 0;
}

-- m[k] = v
unfoldable pub assign : ℕ → ℕ → List (ℕ × ℕ) → List (ℕ × ℕ)
assign k v [] = (k, v) ∷ []
assign k v ((l, w) ∷ m) = let rest = assign k v m in if k == l then (k, v) ∷ m else (l, w) ∷ rest

-- m[k], where a key that is not there gives 0.
unfoldable pub value_at : ℕ → List (ℕ × ℕ) → ℕ
value_at k [] = 0
value_at k ((l, w) ∷ m) = if k == l then w else value_at k m

unfoldable pub find_index : Pointer → List (Pointer × ℕ) → Option ℕ
find_index x [] = none
find_index x ((y, i) ∷ m) = if same_pointer x y then some i else find_index x m

unfoldable pub erase : Pointer → List (Pointer × ℕ) → List (Pointer × ℕ)
erase x [] = []
erase x ((y, i) ∷ m) = let rest = erase x m in if same_pointer x y then rest else (y, i) ∷ rest

-- malloc gives `new_block`.
unfoldable pub increase_size : ℕ → ScalablePool → ScalablePool
increase_size new_block p =
    let alloc = (p.alloc_size * 2) % word in
    let generation = (p.cur_generation + 1) % word in
    record p {
      block = new_block;
      block_bytes = (p.size + header_bytes) * alloc;
      alloc_size = alloc;
      mem_check_array = assign generation new_block p.mem_check_array;
      generation_free = assign generation alloc p.generation_free;
      cur_generation = generation;
    }

-- The three words in front of an item.
pub record Header : Type 0 where
  pub place : Pointer
  pub bytes : ℕ
  pub thread : ℕ
  pub generation : ℕ

-- _allocIndex++, and a new block when it has gone past the end.
unfoldable pub next_index : ℕ → ScalablePool → ScalablePool
next_index new_block p =
    let p' : ScalablePool = record p { alloc_index = (p.alloc_index + 1) % word } in
    if ltb p'.alloc_size p'.alloc_index then increase_size new_block p' else p'

-- The index of the item, and the pool without it.
unfoldable pub choose_index : ℕ → ScalablePool → ℕ × ScalablePool
choose_index new_block p = elim p.free_index [
  | [] ↦ (p.alloc_index, next_index new_block p)
  | i ∷ is' ↦ (i, record p { free_index = is' })
]

abbrev pub place_of : ℕ → ScalablePool → Pointer
place_of index p = record { block = p.block; offset = (index * p.size) % word }

-- The pointer that Pop returns, the header that it writes, and the pool.
unfoldable pub take_item : ℕ → ℕ → ℕ → ScalablePool → Pointer × Header × ScalablePool
take_item thread in_size index p =
    let place = place_of index p in
    (
      record place { offset = place.offset + header_bytes },
      record { place = place; bytes = in_size; thread = thread; generation = p.cur_generation },
      record p {
        used_index = (place, index) ∷ erase place p.used_index;
        use_size = (p.use_size + 1) % word;
      },
    )

unfoldable pub pop : ℕ → ℕ → ℕ → ScalablePool → Pointer × Header × ScalablePool
pop new_block thread in_size p =
    let (index, q) = choose_index new_block p in take_item thread in_size index q

-- _usedIndex[inFreePtr], where an address that is not there gives 0.
unfoldable pub index_of : Pointer → ScalablePool → ℕ
index_of x p = elim (find_index x p.used_index) [ none ↦ 0 | some i ↦ i ]

-- The pool, and the blocks given to std::free.
unfoldable pub push : Pointer → ℕ → ScalablePool → ScalablePool × List ℕ
push x in_generation p =
    let q : ScalablePool = record p {
      free_index = index_of x p ∷ p.free_index;
      used_index = erase x p.used_index;
      use_size = (p.use_size + word - 1) % word;
    } in
    if in_generation == p.cur_generation
    then (q, [])
    else let left = (value_at in_generation p.generation_free + word - 1) % word in
      (
        record q { generation_free = assign in_generation left p.generation_free },
        if left == 0 then value_at in_generation p.mem_check_array ∷ [] else [],
      )

abbrev pub get_use_size : ScalablePool → ℕ
get_use_size p = p.use_size

abbrev pub get_alloc_size : ScalablePool → ℕ
get_alloc_size p = p.alloc_size

abbrev pub get_item_size : ScalablePool → ℕ
get_item_size p = p.size
