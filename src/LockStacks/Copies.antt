-- ===== src/LockStacks/Copies.antt =====
-- What GetLockStackFrameArray gives.
use dokevi_network.Prelude.{
  ℕ, suc, ◌<◌, ◌≡◌, refl, ap, ◌∙◌, ◌^◌, List, [], ◌∷◌, map, some, ok, ◌==◌, if◌then◌else◌, arith,
  length, take, get_elem?, All,
}
use dokevi_network.Stacks.{copy_frames, turns}
use dokevi_network.Stacks.Report.{copy_frames_lem}
use dokevi_network.LockStacks.{
  LockStack, LockLocal, LockTracer, collect, get_lock_stack_frame_array,
}

-- The number points to its thread, whose depth is in the array.
pub record IsRecorded (locals : ℕ → LockLocal) (s : LockTracer) (entry : ℕ × ℕ) : Type 0 where
  pub pointed : get_elem? s.recorded entry.1 ≡ some (some entry.0)
  pub within : (locals entry.0).depth < length (locals entry.0).frames
  pub sized : length (locals entry.0).frames < 2 ^ 31

-- The frames of a thread up to the one at its depth.
abbrev pub up_to_depth : (ℕ → LockLocal) → ℕ × ℕ → List LockStack
up_to_depth locals (id, number) = take (suc (locals id).depth) (locals id).frames

copied :
    (l : LockLocal)
    → l.depth < length l.frames
    → length l.frames < 2 ^ 31
    → copy_frames 0 (turns l.depth) l.frames ≡ ok (take (suc l.depth) l.frames)
copied l within sized =
    let few : turns l.depth ≡ suc l.depth = ground (arith, within, sized) in
    ap (λ n. copy_frames 0 n l.frames) few
    ∙ copy_frames_lem 0 (suc l.depth) l.frames (omega (arith, within))

collect_lem :
    (locals : ℕ → LockLocal) (caller : ℕ) (s : LockTracer) (ids : List (ℕ × ℕ))
    → All (IsRecorded locals s) ids
    → collect locals caller s.recorded ids
      ≡ ok (if (locals caller).depth == 0 then [] else map (up_to_depth locals) ids)
unfolding collect
collect_lem locals caller s [] h = ground arith
collect_lem locals caller s ((id, number) ∷ ids) h = ground (
  arith,
  h.0.pointed,
  copied (locals id) h.0.within h.0.sized,
  collect_lem locals caller s ids h.1,
)

-- When every registered thread is recorded, with its depth in its array, GetLockStackFrameArray gives
-- for each thread its frames up to the one at its depth, or nothing at all if the calling thread has asked for
-- no lock; and in both cases the section stays entered once more.
pub get_lock_stack_frame_array_lem :
    (locals : ℕ → LockLocal) (caller : ℕ) (s : LockTracer)
    → All (IsRecorded locals s) s.thread_numbers
    → get_lock_stack_frame_array locals caller s
      ≡ ok (
        if (locals caller).depth == 0 then [] else map (up_to_depth locals) s.thread_numbers,
        record s { entered = suc s.entered },
      )
unfolding get_lock_stack_frame_array
get_lock_stack_frame_array_lem locals caller s h =
    rw (collect_lem locals caller s s.thread_numbers h) refl
