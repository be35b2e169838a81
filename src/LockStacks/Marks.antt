-- ===== src/LockStacks/Marks.antt =====
-- What Try, In and Out leave in the frames.
use dokevi_network.Prelude.{
  ℕ, ◌+◌, ◌-◌, ◌<◌, ◌≡◌, ◌∙◌, true, false, some, ok, arith, length, length-set, set, get_elem?,
  get_elem?-set_self, get_elem?-set_ne, get_elem?_lt,
}
use dokevi_network.Bytes.{word}
use dokevi_network.Log.{LogManager}
use dokevi_network.LockStacks.{
  LockStack, no_lock, LockLocal, LockTracer, assign, fill_frame, try_lock_stack_trace,
  in_lock_stack_trace, out_lock_stack_trace,
}

assign_lem :
    (i : ℕ) (frame : LockStack) (l : LockLocal)
    → i < length l.frames
    → assign i frame l ≡ ok (record l { frames = set l.frames i frame })
unfolding assign
assign_lem i frame l h = ground arith

fill_frame_lem :
    (lock : ℕ) (l : LockLocal)
    → l.depth + 1 < length l.frames
    → length l.frames < word
    → fill_frame lock l
      ≡ ok (record l {
        frames = set l.frames l.depth (record { is_enter = false; lock_address = lock });
        depth = l.depth + 1;
      })
unfolding fill_frame assign
fill_frame_lem lock l room small = ground arith

try_lock_stack_trace_lem :
    (log : LogManager) (id lock : ℕ) (s : LockTracer) (l : LockLocal) {l' : LockLocal}
    → l.registered ≡ true
    → fill_frame lock l ≡ ok l'
    → try_lock_stack_trace log id lock s l ≡ ok (s, l')
unfolding try_lock_stack_trace
try_lock_stack_trace_lem log id lock s l known e = ground (arith, known, e)

in_lem :
    (l : LockLocal) {frame : LockStack}
    → get_elem? l.frames l.depth ≡ some frame
    → l.depth < length l.frames
    → in_lock_stack_trace l
      ≡ ok (record l { frames = set l.frames l.depth (record frame { is_enter = true }) })
unfolding in_lock_stack_trace assign
in_lem l e room = ground (arith, e)

out_lem :
    (l : LockLocal)
    → 0 < l.depth
    → l.depth < length l.frames
    → length l.frames < word
    → out_lock_stack_trace l
      ≡ ok (record l { frames = set l.frames l.depth no_lock; depth = l.depth - 1 })
unfolding out_lock_stack_trace assign
out_lem l some_locks room small = ground arith

-- For a registered thread that asks for a lock, has it and leaves it, on a stack with room behind
-- the frame: the lock's own frame never says that it is had, the frame behind it is marked instead, and
-- when it has been left its own frame names it still.
pub try-in-out :
    (log : LogManager) (id lock : ℕ) (s : LockTracer) (l : LockLocal)
    → l.registered ≡ true
    → l.depth + 1 < length l.frames
    → length l.frames < word
    → (a : LockLocal) × (b : LockLocal) × (c : LockLocal) × (behind : LockStack)
      × (try_lock_stack_trace log id lock s l ≡ ok (s, a))
      × (in_lock_stack_trace a ≡ ok b)
      × (out_lock_stack_trace b ≡ ok c)
      × (get_elem? b.frames l.depth ≡ some (record { is_enter = false; lock_address = lock }))
      × (get_elem? b.frames (l.depth + 1) ≡ some (record behind { is_enter = true }))
      × (get_elem? c.frames l.depth ≡ some (record { is_enter = false; lock_address = lock }))
      × (c.depth ≡ l.depth)
try-in-out log id lock s l known room small =
    let frame : LockStack = record { is_enter = false; lock_address = lock } in
    let fs = set l.frames l.depth frame in
    let (behind, e) = get_elem?_lt l.frames (l.depth + 1) room in
    let e' = get_elem?-set_ne l.frames l.depth (l.depth + 1) frame (λ q. omega (arith, q)) ∙ e in
    let size = length-set l.frames l.depth frame in
    let size' = length-set fs (l.depth + 1) (record behind { is_enter = true }) in
    let a : LockLocal = record l { frames = fs; depth = l.depth + 1 } in
    let b : LockLocal = record a {
      frames = set fs (l.depth + 1) (record behind { is_enter = true });
    } in
    let c : LockLocal = record b {
      frames = set b.frames (l.depth + 1) no_lock;
      depth = l.depth + 1 - 1;
    } in
    let own : get_elem? b.frames l.depth ≡ some frame =
      get_elem?-set_ne fs (l.depth + 1) l.depth (record behind { is_enter = true })
        (λ q. omega (arith, q))
      ∙ get_elem?-set_self l.frames l.depth frame (omega arith) in
    (
      a,
      b,
      c,
      behind,
      try_lock_stack_trace_lem log id lock s l known (fill_frame_lem lock l room small),
      in_lem a e' (omega (arith, size)),
      out_lem b (omega arith) (omega (arith, size, size')) (omega (arith, size, size', small)),
      own,
      get_elem?-set_self fs (l.depth + 1) (record behind { is_enter = true }) (omega (arith, size)),
      get_elem?-set_ne b.frames (l.depth + 1) l.depth no_lock (λ q. omega (arith, q)) ∙ own,
      omega arith,
    )
