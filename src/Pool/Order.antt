-- ===== src/Pool/Order.antt =====
-- The pool's invariant, its operations on a valid pool, and the discipline under which it is right:
-- elements come back in the reverse of the order in which they were handed out.
use dokevi_network.Prelude.{
  ℕ, zero, suc, ◌+◌, ◌-◌, ◌%◌, ◌≤◌, ◌<◌, ◌≡◌, refl, sym, ◌∙◌, arith, length, get_elem?, set, none,
  some, ok, length-set, length-replicate, get_elem?_lt, ◌>>◌, subst,
}
use dokevi_network.Log.{LogManager, log_critical}
use dokevi_network.Pool.{
  Pointer, Pool, indicate, find, init, element, release_at, alloc, free, uint64,
}

pub find-indicate :
    (block i n j : ℕ)
    → i ≤ j
    → j < i + n
    → find (record { block = block; offset = j }) (indicate block i n) ≡ some j
unfolding find indicate
find-indicate block i zero j a b = absurd (omega arith)
find-indicate block i (suc n) j a b = ground (arith, find-indicate block (i + 1) n j)

-- An address outside the array is not in the map.
pub find-indicate_foreign :
    (block i n : ℕ) (p : Pointer)
    → (p.block ≡ block → i + n ≤ p.offset)
    → find p (indicate block i n) ≡ none
unfolding find indicate
find-indicate_foreign block i zero p h = refl
find-indicate_foreign block i (suc n) p h = ground (arith, find-indicate_foreign block (i + 1) n p)

module _ {T : Type 0} where
  pub record IsValid (p : Pool T) : Type 0 where
    pub sized : length p.memory ≡ p.queue_size
    pub within : p.used ≤ p.queue_size
    pub small : p.queue_size < uint64
    pub indicated : p.memory_indicate ≡ indicate p.block 0 p.queue_size

  -- Init leaves a valid pool with nothing handed out.
  pub init-IsValid :
      (block : ℕ) (fresh : T) (size : ℕ) → size < uint64 → IsValid (init block fresh size)
  unfolding init
  init-IsValid block fresh size h = record {
    sized = length-replicate size fresh;
    within = omega arith;
    small = h;
    indicated = refl;
  }

  release_at_lem :
      (release : T → T) (i : ℕ) (p : Pool T) {a : T}
      → get_elem? p.memory i ≡ some a
      → release_at release i p ≡ ok (record p { memory = set p.memory i (release a) })
  unfolding release_at
  release_at_lem release i p e = ground arith

  found :
      {p : Pool T}
      → IsValid p
      → (i : ℕ) → i < p.queue_size
      → find (element p i) p.memory_indicate ≡ some i
  found {p} v i h =
      subst (λ m. find (element p i) m ≡ some i) (sym v.indicated)
        (find-indicate p.block 0 p.queue_size i (omega arith) (omega arith))

  -- The pool with element `i` holding `a`, and `n` elements out.
  abbrev pub with_element : Pool T → ℕ → T → ℕ → Pool T
  with_element p i a n = record p { memory = set p.memory i a; used = n }

  pub with_element-IsValid :
      {p : Pool T}
      → IsValid p
      → (i : ℕ) (a : T) (n : ℕ) → n ≤ p.queue_size
      → IsValid (with_element p i a n)
  with_element-IsValid {p} v i a n h = record {
    sized = length-set p.memory i a ∙ v.sized;
    within = h;
    small = v.small;
    indicated = v.indicated;
  }

  module _ (log : LogManager) (release : T → T) (p : Pool T) (v : IsValid p) where
    -- Alloc on a pool that is not full: the next element, which is reset.
    pub alloc_lem :
        p.used < p.queue_size
        → (a : T) × (get_elem? p.memory p.used ≡ some a)
          × (alloc log release p
              ≡ ok (some (element p p.used), with_element p p.used (release a) (p.used + 1)))
          × IsValid (with_element p p.used (release a) (p.used + 1))
    unfolding alloc
    alloc_lem h =
        let (a, e) = get_elem?_lt p.memory p.used (omega (arith, v.sized)) in
        (
          a,
          e,
          ground (arith, release_at_lem release p.used p e, v.small),
          with_element-IsValid v p.used (release a) (p.used + 1) (omega arith),
        )

    -- Alloc on a full pool gives the null pointer, if LOG_CRITICAL comes back at all.
    pub alloc_full :
        p.used ≡ p.queue_size → alloc log release p ≡ (log_critical log >> ok (none, p))
    unfolding alloc
    alloc_full h = ground arith

    -- Free of an element of the pool takes one off the count, and resets that element.
    pub free_lem :
        (i : ℕ)
        → i < p.queue_size
        → 0 < p.used
        → (a : T) × (get_elem? p.memory i ≡ some a)
          × (free log release (element p i) p ≡ ok (with_element p i (release a) (p.used - 1)))
          × IsValid (with_element p i (release a) (p.used - 1))
    unfolding free
    free_lem i h some_used =
        let (a, e) = get_elem?_lt p.memory i (omega (arith, v.sized)) in
        (
          a,
          e,
          ground (
            arith,
            found v i h,
            release_at_lem release i (record p { used = (p.used + uint64 - 1) % uint64 }) e,
            v.small,
            v.within,
          ),
          with_element-IsValid v i (release a) (p.used - 1) (omega (arith, v.within)),
        )

    -- For a valid pool, Free of an address that is not an element's changes nothing, if LOG_CRITICAL
    -- comes back.
    pub free_foreign :
        (x : Pointer)
        → (x.block ≡ p.block → p.queue_size ≤ x.offset)
        → free log release x p ≡ (log_critical log >> ok p)
    unfolding free
    free_foreign x h = ground (
      arith,
      subst (λ m. find x m ≡ none) (sym v.indicated)
          (find-indicate_foreign p.block 0 p.queue_size x (λ e. omega (arith, h e))),
    )
