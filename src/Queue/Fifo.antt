-- ===== src/Queue/Fifo.antt =====
-- The queue against a list: first in, first out.
use native.Mathlib.Nat.{mod-lt, mod-eq_of_lt, mod-eq-sub-mod, mod-add-mod}
use dokevi_network.Prelude.{
  ℕ, suc, ◌+◌, ◌-◌, ◌%◌, ◌≤◌, ◌<◌, ◌≡◌, ◌≢◌, refl, sym, ap, ◌∙◌, List, [], ◌∷◌, ◌++◌, arith, Option,
  none, some, Result, ok, ◌>>=◌, ltb, if◌then◌else◌, length, length-append, length-set,
  length-replicate, get_elem?, set, get_elem?-set_ne, get_elem?-set_self, dec_lt, false, subst,
  Option-cases, inl, inr,
}
use dokevi_network.Bytes.{word}
use dokevi_network.Log.{LogManager}
use dokevi_network.Queue.{Queue, init, index, push, pop, front, is_empty}

-- Counts less than a whole round apart have different indices.
mod-ne_near : (a d s : ℕ) → 0 < d → d < s → (a + d) % s ≢ a % s
mod-ne_near a d s some_way near e = elim (dec_lt (a % s + d) s) [
  | yes h ↦ omega (arith, mod-add-mod a s d ∙ e, mod-eq_of_lt h)
  | no h ↦ omega (
    arith,
    mod-add-mod a s d ∙ e,
    mod-eq-sub-mod {n = a % s + d} {m = s} (omega arith),
    mod-eq_of_lt {n = a % s + d - s} {m = s} (omega (arith, mod-lt a {m = s} (omega arith))),
    mod-lt a {m = s} (omega arith),
  )
]

module _ {T : Type 0} where
  -- The array holds the elements from the count on, one behind the other and round the end.
  abbrev pub Stored : List T → ℕ → ℕ → List T → Type 0
  Stored memory size count [] = Unit {0}
  Stored memory size count (x ∷ xs) =
      (get_elem? memory (count % size) ≡ some x) × Stored memory size (count + 1) xs

  Stored-set :
      (memory : List T) (size count w : ℕ) (x : T) (xs : List T)
      → count + length xs ≤ w
      → w < count + size
      → Stored memory size count xs
      → Stored (set memory (w % size) x) size count xs
  Stored-set memory size count w x [] a b h = tt
  Stored-set memory size count w x (y ∷ ys) a b h = (
    get_elem?-set_ne memory (w % size) (count % size) x (λ e.
          mod-ne_near count (w - count) size (omega arith) (omega arith)
            (ap (λ k. k % size) (omega arith) ∙ e))
        ∙ h.0,
    Stored-set memory size (count + 1) w x ys (omega arith) (omega arith) h.1,
  )

  Stored-snoc :
      (memory : List T) (size count : ℕ) (x : T) (xs : List T)
      → Stored memory size count xs
      → get_elem? memory ((count + length xs) % size) ≡ some x
      → Stored memory size count (xs ++ (x ∷ []))
  Stored-snoc memory size count x [] h e =
      (ap (λ k. get_elem? memory (k % size)) (omega arith) ∙ e, tt)
  Stored-snoc memory size count x (y ∷ ys) h e = (
    h.0,
    Stored-snoc memory size (count + 1) x ys h.1
        (ap (λ k. get_elem? memory (k % size)) (omega arith) ∙ e),
  )

  pub record Holds (q : Queue T) (xs : List T) : Type 0 where
    pub sized : length q.memory ≡ q.queue_size
    pub counted : q.used ≡ length xs
    pub room : length xs ≤ q.queue_size
    pub ends : q.back_count + 1 ≡ q.front_count + length xs
    pub stored : Stored q.memory q.queue_size q.front_count xs

  -- A new queue holds nothing.
  pub init-Holds : (fresh : T) (size : ℕ) → Holds (init fresh size) []
  unfolding init
  init-Holds fresh size = record {
    sized = length-replicate size fresh;
    counted = refl;
    room = omega arith;
    ends = refl;
    stored = tt;
  }

  index_lem :
      (count : ℕ) (q : Queue T) → 0 < q.queue_size → index count q ≡ ok (count % q.queue_size)
  unfolding index
  index_lem count q h = ground arith

  front_lem : {q : Queue T} {x : T} {xs : List T} → Holds q (x ∷ xs) → front q ≡ ok x
  unfolding front
  front_lem {q} v = ground (arith, index_lem q.front_count q (omega (arith, v.room)), v.stored.0)

  pop_lem :
      (log : LogManager) {q : Queue T} {x : T} {xs : List T}
      → Holds q (x ∷ xs)
      → q.front_count + 1 < word
      → q.queue_size < word
      → (q' : Queue T) × (pop log q ≡ ok q')
        × Holds q' xs
        × (q'.front_count ≡ q.front_count + 1)
        × (q'.queue_size ≡ q.queue_size)
  unfolding pop
  pop_lem log {q} {x} {xs} v a b = (
    record q { front_count = q.front_count + 1; used = q.used - 1 },
    ground (arith, v.counted, v.room),
    record {
      sized = v.sized;
      counted = omega (arith, v.counted);
      room = omega (arith, v.room);
      ends = omega (arith, v.ends);
      stored = v.stored.1;
    },
    refl,
    refl,
  )

  push_lem :
      (log : LogManager) (x : T) {q : Queue T} {xs : List T}
      → Holds q xs
      → suc (length xs) < q.queue_size
      → q.front_count + length xs < word
      → q.queue_size < word
      → (q' : Queue T) × (push log x q ≡ ok q')
        × Holds q' (xs ++ (x ∷ []))
        × (q'.front_count ≡ q.front_count)
        × (q'.queue_size ≡ q.queue_size)
  unfolding push
  push_lem log x {q} {xs} v a b c =
      let w : ℕ = q.back_count + 1 in
      (
        record q { back_count = w; used = q.used + 1; memory = set q.memory (w % q.queue_size) x },
        ground (arith, v.counted, v.ends, index_lem w q (omega arith)),
        record {
          sized = length-set q.memory (w % q.queue_size) x ∙ v.sized;
          counted = omega (arith, v.counted, length-append xs (x ∷ []));
          room = omega (arith, length-append xs (x ∷ []));
          ends = omega (arith, v.ends, length-append xs (x ∷ []));
          stored =
              Stored-snoc (set q.memory (w % q.queue_size) x) q.queue_size q.front_count x xs
                (Stored-set q.memory q.queue_size q.front_count w x xs (omega (arith, v.ends))
                  (omega (arith, v.ends)) v.stored)
                (ap (λ k. get_elem? (set q.memory (w % q.queue_size) x) (k % q.queue_size))
                    (omega (arith, v.ends))
                  ∙ get_elem?-set_self q.memory (w % q.queue_size) x
                      (omega (arith, v.sized, mod-lt w {m = q.queue_size} (omega arith))));
        },
        refl,
        refl,
      )

  -- Pop of a queue that holds nothing is not refused, whether logging is on or not: the count wraps,
  -- and the queue does not look empty any more.
  pub pop-empty :
      (log : LogManager) (q : Queue T)
      → Holds q []
      → (q' : Queue T) × (pop log q ≡ ok q') × (q'.used ≡ word - 1) × (is_empty q' ≡ false)
  unfolding pop is_empty
  pop-empty log q v = (
    record q { front_count = (q.front_count + 1) % word; used = word - 1 },
    ground (arith, v.counted),
    refl,
    refl,
  )

-- What a client does: it puts an element in, or takes the first one out.
pub data Use (T : Type 0) : Type 0 where
  put : T → Use T
  take_first : Use T

module _ {T : Type 0} where
  -- The queue's side: taking is Front and then Pop.
  unfoldable pub run : LogManager → List (Use T) → Queue T → Result (List T × Queue T)
  run log [] q = ok ([], q)
  run log (put x ∷ us) q = push log x q >>= λ q'. run log us q'
  run log (take_first ∷ us) q =
      front q >>= λ x. pop log q >>= λ q'. run log us q' >>= λ (out, q''). ok (x ∷ out, q'')

  -- The list's side; `none` where nothing is left to take, or the queue would be full.
  unfoldable pub expected : ℕ → List (Use T) → List T → Option (List T × List T)
  expected size [] xs = some ([], xs)
  expected size (put x ∷ us) xs =
      let rest = expected size us (xs ++ (x ∷ [])) in
      if ltb (suc (length xs)) size then rest else none
  expected size (take_first ∷ us) [] = none
  expected size (take_first ∷ us) (x ∷ xs) = elim (expected size us xs) [
    | none ↦ none
    | some (out, rest) ↦ some (x ∷ out, rest)
  ]

  nil-expected :
      (size : ℕ) (xs : List T) {out rest : List T}
      → expected size [] xs ≡ some (out, rest)
      → ([] ≡ out) × (xs ≡ rest)
  unfolding expected
  nil-expected size xs e = (cc, cc)

  expected-empty :
      (size : ℕ) (us : List (Use T)) {r : List T × List T}
      → expected size (take_first ∷ us) [] ≡ some r
      → ⊥
  unfolding expected
  expected-empty size us e = cc

  run-nil : (log : LogManager) (q : Queue T) → run log [] q ≡ ok ([], q)
  unfolding run
  run-nil log q = refl

  put-expected :
      (size : ℕ) (x : T) (us : List (Use T)) (xs : List T) {r : List T × List T}
      → expected size (put x ∷ us) xs ≡ some r
      → (suc (length xs) < size) × (expected size us (xs ++ (x ∷ [])) ≡ some r)
  unfolding expected
  put-expected size x us xs e = ground arith

  take-expected :
      (size : ℕ) (us : List (Use T)) (x : T) (xs : List T) {out rest : List T}
      → expected size (take_first ∷ us) (x ∷ xs) ≡ some (out, rest)
      → (out' : List T) × (out ≡ x ∷ out') × (expected size us xs ≡ some (out', rest))
  unfolding expected
  take-expected size us x xs e = elim (Option-cases (expected size us xs)) [
    | inl nothing ↦ absurd (ground (arith, nothing, e))
    | inr ((out', rest'), known) ↦ (out', ground (arith, known, e), ground (arith, known, e))
  ]

  run-put :
      (log : LogManager) (x : T) (us : List (Use T)) (q : Queue T) {q' : Queue T}
      → push log x q ≡ ok q'
      → run log (put x ∷ us) q ≡ run log us q'
  unfolding run
  run-put log x us q e = rw e

  run-take :
      (log : LogManager) (us : List (Use T)) (q : Queue T) {q' q'' : Queue T} {x : T} {out : List T}
      → front q ≡ ok x
      → pop log q ≡ ok q'
      → run log us q' ≡ ok (out, q'')
      → run log (take_first ∷ us) q ≡ ok (x ∷ out, q'')
  unfolding run
  run-take log us q e f g = rw (e, f, g)

  -- As long as the queue does not fill up and its counters do not wrap, every sequence of uses
  -- gives the elements that a list gives, in the order in which they were put in, without a fault,
  -- and leaves what the list leaves.
  pub run-expected :
      (log : LogManager) (us : List (Use T)) (q : Queue T) (xs out rest : List T)
      → Holds q xs
      → q.queue_size < word
      → q.front_count + length xs + length us < word
      → expected q.queue_size us xs ≡ some (out, rest)
      → (q' : Queue T) × (run log us q ≡ ok (out, q')) × Holds q' rest
  run-expected log [] q xs out rest v a b e =
      let (none_out, same) = nil-expected q.queue_size xs e in
      (q, run-nil log q ∙ ap (λ l. ok (l, q)) none_out, subst (Holds q) same v)
  run-expected log (put x ∷ us) q xs out rest v a b e =
      let (fits, e') = put-expected q.queue_size x us xs e in
      let (q', pushed, v', same, size) = push_lem log x v fits (omega arith) a in
      let (q'', ran, v'') =
        run-expected log us q' (xs ++ (x ∷ [])) out rest v' (omega arith)
          (omega (arith, length-append xs (x ∷ [])))
          (ap (λ n. expected n us (xs ++ (x ∷ []))) size ∙ e') in
      (q'', run-put log x us q pushed ∙ ran, v'')
  run-expected log (take_first ∷ us) q [] out rest v a b e =
      absurd (expected-empty q.queue_size us e)
  run-expected log (take_first ∷ us) q (x ∷ xs) out rest v a b e =
      let (out', first, e') = take-expected q.queue_size us x xs e in
      let (q', popped, v', next, size) = pop_lem log v (omega arith) a in
      let (q'', ran, v'') =
        run-expected log us q' xs out' rest v' (omega arith) (omega arith)
          (ap (λ n. expected n us xs) size ∙ e') in
      (q'', run-take log us q (front_lem v) popped ran ∙ ap (λ l. ok (l, q'')) (sym first), v'')
