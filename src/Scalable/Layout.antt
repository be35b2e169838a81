-- ===== src/Scalable/Layout.antt =====
-- Where the items of a pool lie.
use native.Mathlib.Nat.{mul-le-mul_left, mul-le-mul_right, add-mul, mul-suc, mul_comm, one-mul}
use dokevi_network.Prelude.{
  ℕ, suc, ◌+◌, ◌*◌, ◌%◌, ◌≤◌, ◌<◌, ◌≡◌, refl, sym, ap, subst, ◌∙◌, dec_lt, [], arith,
}
use dokevi_network.Bytes.{word}
use dokevi_network.Pool.{Pointer}
use dokevi_network.Scalable.{
  ScalablePool, Header, header_bytes, increase_size, next_index, choose_index, take_item, pop,
}

-- The block has room for `alloc_size` items with their headers, of which `alloc_index` at most are
-- handed out, and its doubling does not wrap.
pub record IsValid (p : ScalablePool) : Type 0 where
  pub some_items : 0 < p.alloc_size
  pub handed : p.alloc_index ≤ p.alloc_size
  pub allocated : p.block_bytes ≡ (p.size + header_bytes) * p.alloc_size
  pub small : (p.size + header_bytes) * (p.alloc_size * 2) < word

-- An item with its header ends within room for `k` items, if its index is below `k`.
item-le : (i n k : ℕ) → i < k → i * n + 12 + n ≤ (n + 12) * k
item-le i n k h =
    omega (arith, mul-le-mul_left (n + 12) h, add-mul n 12 (suc i), mul-suc n i, mul_comm i n)

-- The double of the block has room for as many items again.
double-le : (n k : ℕ) → (n + 12) * k ≤ (n + 12) * (k * 2)
double-le n k = mul-le-mul_left (n + 12) (omega arith)

item-lt :
    {p : ScalablePool}
    → IsValid p
    → (i : ℕ) → i < p.alloc_size * 2
    → i * p.size + 12 + p.size < word
item-lt {p} v i h = omega (arith, item-le i p.size (p.alloc_size * 2) h, v.small)

alloc_size-lt : {p : ScalablePool} → IsValid p → p.alloc_size * 2 < word
alloc_size-lt {p} v = omega (
  arith,
  v.small,
  mul-le-mul_right (p.alloc_size * 2) (one_le p.size),
  one-mul (p.alloc_size * 2),
)
  where
    one_le : (n : ℕ) → 1 ≤ n + 12
    one_le n = omega arith

-- The pool that the next fresh item comes from.
record Grown (p q : ScalablePool) : Type 0 where
  size : q.size ≡ p.size
  above : p.alloc_index < q.alloc_size
  below : q.alloc_size ≤ p.alloc_size * 2
  bytes : q.block_bytes ≡ (p.size + 12) * q.alloc_size

next_stays :
    (new_block : ℕ) (p : ScalablePool)
    → p.alloc_index < p.alloc_size
    → p.alloc_size < word
    → next_index new_block p ≡ record p { alloc_index = p.alloc_index + 1 }
unfolding next_index
next_stays new_block p h small = ground arith

next_grows :
    (new_block : ℕ) (p : ScalablePool)
    → p.alloc_index ≡ p.alloc_size
    → p.alloc_size + 1 < word
    → next_index new_block p
      ≡ increase_size new_block (record p { alloc_index = p.alloc_index + 1 })
unfolding next_index
next_grows new_block p h small = ground arith

next_index_lem : {p : ScalablePool} → IsValid p → (new_block : ℕ) → Grown p (next_index new_block p)
unfolding increase_size
next_index_lem {p} v new_block = elim (dec_lt p.alloc_index p.alloc_size) [
  | yes h ↦
      subst (Grown p) (sym (next_stays new_block p h (omega (arith, alloc_size-lt v))))
        (record { size = refl; above = h; below = omega arith; bytes = v.allocated })
  | no h ↦
      let doubled : (p.alloc_size * 2) % word ≡ p.alloc_size * 2 = omega (arith, alloc_size-lt v) in
      subst (Grown p)
        (sym (
          next_grows new_block p (omega (arith, v.handed))
            (omega (arith, alloc_size-lt v, v.some_items))))
        (record {
          size = refl;
          above = omega (arith, doubled, v.handed, v.some_items);
          below = omega (arith, doubled);
          bytes = refl;
        })
]

pop_fresh :
    (new_block thread n : ℕ) (p : ScalablePool)
    → p.free_index ≡ []
    → pop new_block thread n p ≡ take_item thread n p.alloc_index (next_index new_block p)
unfolding pop choose_index
pop_fresh new_block thread n p e = ground (arith, e)

-- In a valid pool without freed items, a fresh item of Pop lies, with its header, in the block of
-- the pool that Pop leaves, also when Pop has to get a new block for it.
pub pop-within :
    (new_block thread n : ℕ) (p : ScalablePool)
    → IsValid p
    → p.free_index ≡ []
    → (x : Pointer) × (h : Header) × (q : ScalablePool) × (pop new_block thread n p ≡ (x, h, q))
      × (x.block ≡ q.block)
      × (x.offset ≡ h.place.offset + header_bytes)
      × (x.offset + p.size ≤ q.block_bytes)
unfolding take_item
pop-within new_block thread n p v none_free =
    let q = next_index new_block p in
    let g = next_index_lem v new_block in
    (
      _,
      _,
      _,
      pop_fresh new_block thread n p none_free,
      refl,
      refl,
      omega (
        arith,
        ap (λ k. p.alloc_index * k) g.size,
        item-le p.alloc_index p.size q.alloc_size g.above,
        item-lt v p.alloc_index (omega (arith, g.above, g.below)),
        g.bytes,
      ),
    )

-- In a valid pool without freed items, with room for two more of at least one byte, Pop gives two
-- items of one block, and the header of the second is written over the end of the first: items stand `size`
-- bytes apart and take `size + 12`.
pub pop-pop_overlap :
    (b b' thread thread' n n' : ℕ) (p : ScalablePool)
    → IsValid p
    → p.free_index ≡ []
    → p.alloc_index + 1 < p.alloc_size
    → 0 < p.size
    → (x : Pointer) × (h : Header) × (q : ScalablePool) × (y : Pointer) × (h' : Header)
      × (r : ScalablePool) × (pop b thread n p ≡ (x, h, q))
      × (pop b' thread' n' q ≡ (y, h', r))
      × (h'.place.block ≡ x.block)
      × (h'.place.offset < x.offset + p.size)
      × (x.offset < h'.place.offset + header_bytes)
unfolding take_item
pop-pop_overlap b b' thread thread' n n' p v none_free room some_size =
    let e = next_stays b p (omega arith) (omega (arith, alloc_size-lt v)) in
    let q : ScalablePool =
      (take_item thread n p.alloc_index (record p { alloc_index = p.alloc_index + 1 })).2 in
    let e' = next_stays b' q room (omega (arith, alloc_size-lt v)) in
    (
      _,
      _,
      q,
      _,
      _,
      _,
      pop_fresh b thread n p none_free ∙ ap (take_item thread n p.alloc_index) e,
      pop_fresh b' thread' n' q none_free ∙ ap (take_item thread' n' (p.alloc_index + 1)) e',
      refl,
      omega (
        arith,
        add-mul p.alloc_index 1 p.size,
        item-lt v p.alloc_index (omega arith),
        item-lt v (p.alloc_index + 1) (omega arith),
        one-mul p.size,
      ),
      omega (
        arith,
        add-mul p.alloc_index 1 p.size,
        item-lt v p.alloc_index (omega arith),
        item-lt v (p.alloc_index + 1) (omega arith),
        one-mul p.size,
      ),
    )
