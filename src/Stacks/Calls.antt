-- ===== src/Stacks/Calls.antt =====
-- The calls that a thread makes, and what its stack holds.
use mathlib.Core.List.{append_assoc, append-nil}
use dokevi_network.Prelude.{
  ℕ, zero, suc, ◌+◌, ◌-◌, ◌≤◌, ◌<◌, ◌≡◌, refl, sym, ap, subst, ◌∙◌, List, [], ◌∷◌, ◌++◌, Result, ok,
  err, ◌>>=◌, arith, length, take, take-take, set, length-set,
}
use dokevi_network.Bytes.{word}
use dokevi_network.Log.{LogManager, log_critical, new_log_manager}
use dokevi_network.Stacks.{StackFrame, Local, max_call_stack_depth, push_frame, out_stack_trace}

-- A call begins, which RECORD_STACK records, or the newest one ends.
pub data Op : Type 0 where
  enter : StackFrame → Op
  exit : Op

unfoldable pub run : LogManager → List Op → Local → Result Local
run log [] l = ok l
run log (enter f ∷ ops) l = push_frame log f l >>= λ l'. run log ops l'
run log (exit ∷ ops) l = run log ops (out_stack_trace l)

-- Calls one behind the other, each with the calls that it makes, nested `d` deep at most.
pub data Calls : ℕ → List Op → Type 0 where
  done : {d : ℕ} → Calls d []
  call :
      {d : ℕ} {body rest : List Op} (f : StackFrame)
      → Calls d body
      → Calls (suc d) rest
      → Calls (suc d) (enter f ∷ (body ++ (exit ∷ rest)))

bind-then :
    (m : Result Local) (f g h : Local → Result Local)
    → ((k : Local) → f k ≡ (g k >>= h))
    → (m >>= f) ≡ ((m >>= g) >>= h)
bind-then (ok k) f g h e = e k
bind-then (err fault) f g h e = refl

run-append :
    (log : LogManager) (xs ys : List Op) (l : Local)
    → run log (xs ++ ys) l ≡ (run log xs l >>= λ k. run log ys k)
unfolding run
run-append log [] ys l = refl
run-append log (enter f ∷ xs) ys l =
    bind-then (push_frame log f l) (run log (xs ++ ys)) (run log xs) (run log ys)
      (run-append log xs ys)
run-append log (exit ∷ xs) ys l = run-append log xs ys (out_stack_trace l)

-- What stays of a stack when calls have come back: the depth, and all frames below it.
pub record Keeps (l l' : Local) : Type 0 where
  pub depth : l'.depth ≡ l.depth
  pub size : length l'.frames ≡ length l.frames
  pub below : take l.depth l'.frames ≡ take l.depth l.frames

take-set : {A : Type 0} (xs : List A) (i : ℕ) (a : A) → take i (set xs i a) ≡ take i xs
take-set [] zero a = refl
take-set [] (suc i) a = refl
take-set (x ∷ xs) zero a = refl
take-set (x ∷ xs) (suc i) a = ap (λ l. x ∷ l) (take-set xs i a)

take-shorter :
    {A : Type 0} (i j : ℕ) (xs ys : List A) → i ≤ j → take j xs ≡ take j ys → take i xs ≡ take i ys
take-shorter i j xs ys h e = sym (take-take i j xs h) ∙ ap (take i) e ∙ take-take i j ys h

push_frame_lem :
    (log : LogManager) (f : StackFrame) (l : Local)
    → length l.frames ≡ max_call_stack_depth
    → l.depth + 1 < max_call_stack_depth
    → push_frame log f l ≡ ok (record l { frames = set l.frames l.depth f; depth = l.depth + 1 })
unfolding push_frame
push_frame_lem log f l sized room = ground (arith, sized)

out_stack_trace_lem :
    (l : Local)
    → 0 < l.depth
    → l.depth < word
    → out_stack_trace l ≡ record l { depth = l.depth - 1 }
unfolding out_stack_trace
out_stack_trace_lem l some_calls small = ap (λ k. record l { depth = k }) (omega arith)

run-call :
    (log : LogManager) (f : StackFrame) (body rest : List Op) (l : Local) {m n : Local}
    {r : Result Local}
    → push_frame log f l ≡ ok m
    → run log body m ≡ ok n
    → run log rest (out_stack_trace n) ≡ r
    → run log (enter f ∷ (body ++ (exit ∷ rest))) l ≡ r
unfolding run
run-call log f body rest l {m = m} a b c = rw a (run-append log body (exit ∷ rest) m ∙ rw b c)

-- Calls that have come back leave the stack as it was, up to its depth.
run-Calls :
    {d : ℕ} {ops : List Op} (log : LogManager) (l : Local)
    → Calls d ops
    → length l.frames ≡ max_call_stack_depth
    → l.depth + d < max_call_stack_depth
    → (l' : Local) × (run log ops l ≡ ok l') × Keeps l l'
unfolding run
run-Calls log l done sized room = (l, refl, record { depth = refl; size = refl; below = refl })
run-Calls log l (call {body = body} {rest = rest} f c c') sized room =
    let m : Local = record l { frames = set l.frames l.depth f; depth = l.depth + 1 } in
    let (n, ran, k) = run-Calls log m c (length-set l.frames l.depth f ∙ sized) (omega arith) in
    let back = out_stack_trace_lem n (omega (arith, k.depth)) (omega (arith, k.depth)) in
    let n' : Local = record n { depth = n.depth - 1 } in
    let (o, ran', k') =
      run-Calls log n' c' (k.size ∙ length-set l.frames l.depth f ∙ sized)
        (omega (arith, k.depth)) in
    (
      o,
      run-call log f body rest l (push_frame_lem log f l sized (omega arith)) ran
          (ap (run log rest) back ∙ ran'),
      record {
        depth = omega (arith, k'.depth, k.depth);
        size = k'.size ∙ k.size ∙ length-set l.frames l.depth f;
        below =
            subst (λ i. take i o.frames ≡ take i n.frames) (omega (arith, k.depth)) k'.below
            ∙ take-shorter l.depth (l.depth + 1) n.frames m.frames (omega arith) k.below
            ∙ take-set l.frames l.depth f;
      },
    )

-- A call that finds the stack full is not recorded, if logging is off, but its end is: from then on
-- the stack is one frame short.
pub enter-exit_full :
    (f : StackFrame) (l : Local)
    → l.depth + 1 ≡ max_call_stack_depth
    → run new_log_manager (enter f ∷ exit ∷ []) l ≡ ok (record l { depth = l.depth - 1 })
unfolding run push_frame log_critical
enter-exit_full f l full =
    let e : push_frame new_log_manager f l ≡ ok l = ground arith in
    rw e (ap ok (out_stack_trace_lem l (omega arith) (omega arith)))

-- A thread inside of calls that have not come back, nested `d` deep at most with those that have: the
-- frames of the open calls, the outermost first.
pub data Inside : ℕ → List Op → List StackFrame → Type 0 where
  level : {d : ℕ} {ops : List Op} → Calls d ops → Inside d ops []
  deeper :
      {d : ℕ} {before ops : List Op} {fs : List StackFrame} (f : StackFrame)
      → Calls (suc d) before
      → Inside d ops fs
      → Inside (suc d) (before ++ (enter f ∷ ops)) (f ∷ fs)

take-set_last :
    {A : Type 0} (xs : List A) (i : ℕ) (a : A)
    → i < length xs
    → take (suc i) (set xs i a) ≡ take i xs ++ (a ∷ [])
take-set_last [] i a h = absurd (omega (arith, h))
take-set_last (x ∷ xs) zero a h = refl
take-set_last (x ∷ xs) (suc i) a h = ap (λ l. x ∷ l) (take-set_last xs i a (omega (arith, h)))

run-enter :
    (log : LogManager) (before ops : List Op) (f : StackFrame) (l : Local) {m n : Local}
    {r : Result Local}
    → run log before l ≡ ok m
    → push_frame log f m ≡ ok n
    → run log ops n ≡ r
    → run log (before ++ (enter f ∷ ops)) l ≡ r
unfolding run
run-enter log before ops f l a b c = run-append log before (enter f ∷ ops) l ∙ rw a (rw b c)

-- On a stack whose array has all its frames, at any moment of calls that are nested no deeper than it
-- has room for: no call has failed, and up to its depth the stack holds the frames that it held before,
-- and above them exactly those of the calls that have not come back, the outermost first.
pub run-Inside :
    {d : ℕ} {ops : List Op} {fs : List StackFrame} (log : LogManager) (l : Local)
    → Inside d ops fs
    → length l.frames ≡ max_call_stack_depth
    → l.depth + d < max_call_stack_depth
    → (l' : Local) × (run log ops l ≡ ok l')
      × (l'.depth ≡ l.depth + length fs)
      × (take l'.depth l'.frames ≡ take l.depth l.frames ++ fs)
      × (length l'.frames ≡ max_call_stack_depth)
run-Inside log l (level c) sized room =
    let (l', ran, k) = run-Calls log l c sized room in
    (
      l',
      ran,
      omega (arith, k.depth),
      ap (λ i. take i l'.frames) k.depth ∙ k.below ∙ sym (append-nil (take l.depth l.frames)),
      k.size ∙ sized,
    )
run-Inside log l (deeper {before = before} {ops = ops} {fs = fs} f c inside) sized room =
    let (m, ran, k) = run-Calls log l c sized room in
    let m' : Local = record m { frames = set m.frames m.depth f; depth = m.depth + 1 } in
    let next : m'.depth ≡ suc m.depth = omega arith in
    let (o, ran', deep, holds, sized') =
      run-Inside log m' inside (length-set m.frames m.depth f ∙ k.size ∙ sized)
        (omega (arith, k.depth)) in
    (
      o,
      run-enter log before ops f l ran
          (push_frame_lem log f m (k.size ∙ sized) (omega (arith, k.depth))) ran',
      omega (arith, deep, k.depth),
      holds
          ∙ ap (λ xs. xs ++ fs)
              (ap (λ i. take i m'.frames) next
                ∙ take-set_last m.frames m.depth f (omega (arith, k.depth, k.size, sized)))
          ∙ append_assoc (take m.depth m.frames) (f ∷ []) fs
          ∙ ap (λ xs. xs ++ (f ∷ fs)) (ap (λ i. take i m.frames) k.depth ∙ k.below),
      sized',
    )
