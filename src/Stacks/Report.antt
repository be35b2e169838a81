-- ===== src/Stacks/Report.antt =====
-- What GetStackFrameArray reports.
use dokevi_network.Prelude.{
  ℕ, ℕ_discrete, zero, suc, ◌+◌, ◌<◌, ◌≤◌, ◌≡◌, ◌≢◌, refl, ap, ◌∙◌, List, [], ◌∷◌, map, some, ok,
  ◌==◌, if◌then◌else◌, arith, length, take, drop, get_elem?, get_elem?_lt, All,
}
use dokevi_network.Stacks.{
  StackFrame, Local, StackTracer, max_call_stack_depth, copy_frames, turns, frames_of, collect,
  get_stack_frame_array,
}

drop-get :
    {A : Type 0} (xs : List A) (i : ℕ) {a : A}
    → get_elem? xs i ≡ some a
    → drop i xs ≡ a ∷ drop (suc i) xs
drop-get [] i e = cc
drop-get (x ∷ xs) zero e = ap (λ y. y ∷ xs) (cc)
drop-get (x ∷ xs) (suc i) e = drop-get xs i e

pub copy_frames_lem :
    {A : Type 0} (i n : ℕ) (stacks : List A)
    → i + n ≤ length stacks
    → copy_frames i n stacks ≡ ok (take n (drop i stacks))
unfolding copy_frames
copy_frames_lem i zero stacks h = refl
copy_frames_lem i (suc n) stacks h =
    let (a, e) = get_elem?_lt stacks i (omega arith) in
    rw (copy_frames_lem (i + 1) n stacks (omega arith), e, drop-get stacks i e)
      (ap (λ k. ok (a ∷ take n (drop k stacks))) {x = i + 1} {y = suc i} (omega arith))

-- The stack of a thread is as the constructors and destructors keep it.
pub record IsSound (l : Local) : Type 0 where
  pub sized : length l.frames ≡ max_call_stack_depth
  pub within : l.depth < max_call_stack_depth

frames_of_lem : (l : Local) → IsSound l → frames_of l ≡ ok (take (suc l.depth) l.frames)
unfolding frames_of
frames_of_lem l v =
    let few : turns l.depth ≡ suc l.depth = ground (arith, v.within) in
    ap (λ n. copy_frames 0 n l.frames) few
    ∙ copy_frames_lem 0 (suc l.depth) l.frames (omega (arith, v.sized, v.within))

-- Every number points to its thread, whose stack is sound.
pub record IsRecorded (s : StackTracer) (entry : ℕ × ℕ) : Type 0 where
  pub pointed : get_elem? s.recorded entry.1 ≡ some (some entry.0)
  pub sound : IsSound (s.locals entry.0)

-- The frames of a thread up to the one behind its newest call.
abbrev pub with_one_more : StackTracer → ℕ × ℕ → List StackFrame
with_one_more s (id, number) = take (suc (s.locals id).depth) (s.locals id).frames

collect_lem :
    (caller : ℕ) (s : StackTracer) (ids : List (ℕ × ℕ))
    → All (IsRecorded s) ids
    → (s.locals caller).depth ≢ 0
    → collect caller s ids ≡ ok (map (with_one_more s) ids)
unfolding collect
collect_lem caller s [] h busy = refl
collect_lem caller s ((id, number) ∷ ids) h busy =
    ground
      (arith, h.0.pointed, frames_of_lem (s.locals id) h.0.sound, collect_lem caller s ids h.1 busy)

collect_none :
    (caller : ℕ) (s : StackTracer) (ids : List (ℕ × ℕ))
    → All (IsRecorded s) ids
    → (s.locals caller).depth ≡ 0
    → collect caller s ids ≡ ok []
unfolding collect
collect_none caller s [] h idle = refl
collect_none caller s ((id, number) ∷ ids) h idle =
    ground (
      arith,
      h.0.pointed,
      frames_of_lem (s.locals id) h.0.sound,
      collect_none caller s ids h.1 idle,
    )

-- When every registered thread is recorded with a sound stack, a report gives for each its frames and
-- one more, which is not in use; but nothing at all if the thread that reports is in no recorded call.
pub get_stack_frame_array_lem :
    (caller : ℕ) (s : StackTracer)
    → All (IsRecorded s) s.thread_numbers
    → get_stack_frame_array caller s
      ≡ ok (if (s.locals caller).depth == 0 then [] else map (with_one_more s) s.thread_numbers)
unfolding get_stack_frame_array
get_stack_frame_array_lem caller s h = elim (ℕ_discrete (s.locals caller).depth 0) [
  | yes e ↦ collect_none caller s s.thread_numbers h e ∙ ground (arith, e)
  | no n ↦ collect_lem caller s s.thread_numbers h n ∙ ground (arith, n)
]
