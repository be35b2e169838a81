-- ===== src/Scalable/Freed.antt =====
-- Items that come back.
use dokevi_network.Prelude.{
  ℕ, ◌+◌, ◌*◌, ◌%◌, ◌≡◌, refl, ap, ap₂, ◌∙◌, ◌-◌, List, [], ◌∷◌, none, arith,
}
use dokevi_network.Bytes.{word}
use dokevi_network.Pool.{Pointer}
use dokevi_network.Scalable.{
  ScalablePool, Header, find_index, index_of, erase, place_of, choose_index, take_item, pop, push,
}

pushed :
    (x : Pointer) (p : ScalablePool) (i : ℕ)
    → index_of x p ≡ i
    → (q : ScalablePool) × (push x p.cur_generation p ≡ (q, []))
      × (q.free_index ≡ i ∷ p.free_index)
      × (q.block ≡ p.block)
      × (q.size ≡ p.size)
unfolding push
pushed x p i e = (
  record p {
    free_index = index_of x p ∷ p.free_index;
    used_index = erase x p.used_index;
    use_size = (p.use_size + word - 1) % word;
  },
  ground arith,
  ap (λ k. k ∷ p.free_index) e,
  refl,
  refl,
)

pop_freed :
    (b thread n : ℕ) (q : ScalablePool) (i : ℕ) (is' : List ℕ)
    → q.free_index ≡ i ∷ is'
    → pop b thread n q ≡ take_item thread n i (record q { free_index = is' })
unfolding pop choose_index
pop_freed b thread n q i is' e = ground (arith, e)

-- Push and the next Pop hand out again the item that the address given to Push stands for.
push-pop :
    (b thread n : ℕ) (x : Pointer) (p : ScalablePool) (i : ℕ)
    → index_of x p ≡ i
    → (q : ScalablePool) × (y : Pointer) × (h : Header) × (r : ScalablePool) × (push x
          p.cur_generation p
        ≡ (q, []))
      × (pop b thread n q ≡ (y, h, r))
      × (h.place ≡ place_of i p)
      × (r.free_index ≡ p.free_index)
unfolding take_item
push-pop b thread n x p i e =
    let (q, given, freed, block, size) = pushed x p i e in
    (
      q,
      _,
      _,
      _,
      given,
      pop_freed b thread n q i p.free_index freed,
      ap₂ (λ (k l : ℕ). record { block = k; offset = (i * l) % word }) block size,
      refl,
    )

unknown : (x : Pointer) (p : ScalablePool) → find_index x p.used_index ≡ none → index_of x p ≡ 0
unfolding index_of
unknown x p e = ground (arith, e)

-- Push of an address at which no item in use starts is not refused, and makes the next Pop hand out
-- the first item of the block, whether it is in use or not.
pub push-pop_first :
    (b thread n : ℕ) (x : Pointer) (p : ScalablePool)
    → find_index x p.used_index ≡ none
    → (q : ScalablePool) × (y : Pointer) × (h : Header) × (r : ScalablePool) × (push x
          p.cur_generation p
        ≡ (q, []))
      × (pop b thread n q ≡ (y, h, r))
      × (h.place ≡ record { block = p.block; offset = 0 })
      × (r.free_index ≡ p.free_index)
push-pop_first b thread n x p e =
    let (q, y, h, r, given, popped, place, free) = push-pop b thread n x p 0 (unknown x p e) in
    (
      q,
      y,
      h,
      r,
      given,
      popped,
      place ∙ ap (λ (k : ℕ). record { block = p.block; offset = k }) (omega arith),
      free,
    )
