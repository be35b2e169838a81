-- ===== src/Pool/Reuse.antt =====
-- Which elements are out: right as long as the newest comes back first, and wrong otherwise.
use dokevi_network.Prelude.{
  ℕ, zero, suc, ◌+◌, ◌-◌, ◌≤◌, ◌<◌, ◌≡◌, ◌≢◌, refl, sym, ap, ◌∙◌, List, [], ◌∷◌, arith, Option,
  none, some, ok, All, subst, get_elem?, get_elem?-set_ne, get_elem?-set_self, length-set, length,
  Result, err, ◌>>◌, dec_lt, ap₂,
}
use dokevi_network.Log.{LogManager, log_critical}
use dokevi_network.Pool.{Pointer, Pool, init, element, alloc, free, uint64}
use dokevi_network.Pool.Order.{IsValid, init-IsValid, alloc_lem, alloc_full, free_lem, with_element}

-- The first `n` elements, the last of them first.
abbrev pub first_elements : ℕ → ℕ → List Pointer
first_elements block zero = []
first_elements block (suc n) = record { block = block; offset = n } ∷ first_elements block n

length-first : (block n : ℕ) → length (first_elements block n) ≡ n
length-first block zero = refl
length-first block (suc n) = ap suc (length-first block n)

first-older : (block n : ℕ) (x : Pointer) → n ≤ x.offset → All (λ y. y ≢ x) (first_elements block n)
first-older block zero x h = tt
first-older block (suc n) x h =
    (λ e. omega (arith, ap (λ (y : Pointer). y.offset) e), first-older block n x (omega arith))

suc-add : (n : ℕ) → suc n ≡ n + 1
suc-add n = omega arith

unlist :
    (block n : ℕ) (x : Pointer) (out : List Pointer)
    → x ∷ out ≡ first_elements block n
    → (k : ℕ) × (n ≡ suc k)
      × (x ≡ record { block = block; offset = k })
      × (out ≡ first_elements block k)
unlist block zero x out e = cc
unlist block (suc n) x out e = (n, refl, cc, cc)

no_pointer :
    {T : Type 0} (m : Result (Unit {0})) (p q : Pool T) (x : Pointer)
    → ◌>>◌ {B = Option Pointer × Pool T} m (ok (none, p)) ≡ ok (some x, q)
    → ⊥
no_pointer (ok _) p q x e = cc
no_pointer (err _) p q x e = cc

module _ {T : Type 0} (log : LogManager) (release : T → T) where
  -- A pool that was used like a stack, with the elements that are out, the newest first.
  pub data Stacked (block : ℕ) (size : ℕ) : Pool T → List Pointer → Type 0 where
    start : (fresh : T) → size < uint64 → Stacked block size (init block fresh size) []
    taken :
        {p q : Pool T} {out : List Pointer} {x : Pointer}
        → Stacked block size p out
        → alloc log release p ≡ ok (some x, q)
        → Stacked block size q (x ∷ out)
    returned :
        {p q : Pool T} {out : List Pointer} {x : Pointer}
        → Stacked block size p (x ∷ out)
        → free log release x p ≡ ok q
        → Stacked block size q out

  record Facts (block : ℕ) (size : ℕ) (p : Pool T) (out : List Pointer) : Type 0 where
    valid : IsValid p
    same_block : p.block ≡ block
    same_size : p.queue_size ≡ size
    listed : out ≡ first_elements block p.used

  full_or_not :
      (p : Pool T) {x : Pointer} {q : Pool T}
      → IsValid p
      → alloc log release p ≡ ok (some x, q)
      → p.used < p.queue_size
  full_or_not p v e = elim (dec_lt p.used p.queue_size) [
    | yes h ↦ h
    | no h ↦ absurd (
        no_pointer (log_critical log) p _ _
          (sym (alloc_full log release p v (omega (arith, v.within))) ∙ e))
  ]

  Facts-taken :
      {block size : ℕ} (p q : Pool T) (out : List Pointer) (x : Pointer)
      → Facts block size p out
      → alloc log release p ≡ ok (some x, q)
      → Facts block size q (x ∷ out)
  Facts-taken {block} {size} p q out x f e =
      let (a, _, given, w) = alloc_lem log release p f.valid (full_or_not p f.valid e) in
      let same : with_element p p.used (release a) (p.used + 1) ≡ q = cc (given, e) in
      let pointer : element p p.used ≡ x = cc (given, e) in
      subst (λ r. Facts block size r (x ∷ out)) same
        (record {
          valid = w;
          same_block = f.same_block;
          same_size = f.same_size;
          listed =
              ap₂ ◌∷◌
                (sym pointer ∙ ap (λ (b : ℕ). record { block = b; offset = p.used }) f.same_block)
                f.listed
              ∙ ap (first_elements block) (suc-add p.used);
        })

  Facts-returned :
      {block size : ℕ} (p q : Pool T) (out : List Pointer) (x : Pointer)
      → Facts block size p (x ∷ out)
      → free log release x p ≡ ok q
      → Facts block size q out
  Facts-returned {block} {size} p q out x f e =
      let (k, used, first, rest) = unlist block p.used x out f.listed in
      let (a, _, freed, w) =
        free_lem log release p f.valid k (omega (arith, used, f.valid.within))
          (omega (arith, used)) in
      let pointer : element p k ≡ x =
        ap (λ (b : ℕ). record { block = b; offset = k }) f.same_block ∙ sym first in
      let back : free log release x p ≡ ok (with_element p k (release a) (p.used - 1)) =
        subst (λ y. free log release y p ≡ ok (with_element p k (release a) (p.used - 1))) pointer
          freed in
      let same : with_element p k (release a) (p.used - 1) ≡ q = cc (back, e) in
      subst (λ r. Facts block size r out) same
        (record {
          valid = w;
          same_block = f.same_block;
          same_size = f.same_size;
          listed = rest ∙ ap (first_elements block) (omega (arith, used));
        })

  facts :
      {block size : ℕ} {p : Pool T} {out : List Pointer}
      → Stacked block size p out
      → Facts block size p out
  unfolding init
  facts (start fresh small) = record {
    valid = init-IsValid _ fresh _ small;
    same_block = refl;
    same_size = refl;
    listed = refl;
  }
  facts (taken {p = p} {q = q} {out = out} {x = x} s e) = Facts-taken p q out x (facts s) e
  facts (returned {p = p} {q = q} {out = out} {x = x} s e) = Facts-returned p q out x (facts s) e

  -- In a pool that is used like a stack, Alloc never hands out an element that is out already, and
  -- it hands one out as long as fewer than all are out.
  pub Stacked-alloc :
      {block size : ℕ} {p : Pool T} {out : List Pointer}
      → Stacked block size p out
      → length out < size
      → (x : Pointer) × (q : Pool T) × (alloc log release p ≡ ok (some x, q)) × All (λ y. y ≢ x) out
  Stacked-alloc {block} {p = p} {out = out} s room =
      let f = facts s in
      let (a, _, given, _) =
        alloc_lem log release p f.valid
          (omega (arith, ap length f.listed, length-first block p.used, f.same_size)) in
      (
        element p p.used,
        _,
        given,
        subst (All (λ y. y ≢ element p p.used)) (sym f.listed)
            (first-older block p.used (element p p.used) (omega arith)),
      )

  -- In a valid pool, freeing any element but the newest makes the next Alloc hand out the newest again and reset it,
  -- though it has not come back.
  pub free-alloc_reuses :
      (p : Pool T) (i : ℕ)
      → IsValid p
      → i + 1 < p.used
      → (q : Pool T) × (r : Pool T) × (a : T) × (free log release (element p i) p ≡ ok q)
        × (alloc log release q ≡ ok (some (element p (p.used - 1)), r))
        × (element p (p.used - 1) ≢ element p i)
        × (get_elem? p.memory (p.used - 1) ≡ some a)
        × (get_elem? r.memory (p.used - 1) ≡ some (release a))
  free-alloc_reuses p i v h =
      let (a, _, freed, w) = free_lem log release p v i (omega (arith, v.within)) (omega arith) in
      let (b, was, given, w') = alloc_lem log release _ w (omega (arith, v.within)) in
      (
        _,
        _,
        b,
        freed,
        given,
        λ e. omega (arith, ap (λ (x : Pointer). x.offset) e),
        sym (get_elem?-set_ne p.memory i (p.used - 1) (release a) (λ e. omega arith)) ∙ was,
        get_elem?-set_self _ (p.used - 1) (release b)
            (omega (arith, v.within, v.sized, length-set p.memory i (release a))),
      )
