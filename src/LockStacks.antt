-- ===== src/LockStacks.antt =====
-- LockStackTracer.h and LockStackTracer.cpp: the locks that a thread has asked for and has. The
-- thread_local variables of a thread are a LockLocal, the manager's members are a LockTracer. A lock is
-- a number, its address; 0 is the null pointer.
pub mod Marks
pub mod Copies
use dokevi_network.Prelude.{
  ℕ, suc, ◌+◌, ◌-◌, ◌%◌, ◌^◌, List, [], ◌∷◌, Bool, true, false, Option, none, some, Result, ok, err,
  overrun, ◌>>=◌, ◌>>◌, ◌==◌, leb, ltb, if◌then◌else◌, get_elem?, set, length,
}
use dokevi_network.Bytes.{word}
use dokevi_network.Log.{LogManager, log_critical}
use dokevi_network.Stacks.{max_stack_check_thread_num, insert_number, copy_frames, turns}

pub record LockStack : Type 0 where
  pub is_enter : Bool
  pub lock_address : ℕ

abbrev pub no_lock : LockStack
no_lock = record { is_enter = false; lock_address = 0 }

-- gLockStackFrames, gLockStackDepth (an `int`, as its 32-bit pattern) and gRegisteredLockStackFrame.
pub record LockLocal : Type 0 where
  pub frames : List LockStack
  pub depth : ℕ
  pub registered : Bool

-- An assignment into a frame; the array has as many as the list.
unfoldable pub assign : ℕ → LockStack → LockLocal → Result LockLocal
assign i frame l =
    if ltb i (length l.frames) then ok (record l { frames = set l.frames i frame }) else err overrun

-- The rest of TryLockStackTrace, for a thread that is registered.
unfoldable pub fill_frame : ℕ → LockLocal → Result LockLocal
fill_frame lock l =
    assign l.depth (record { is_enter = false; lock_address = lock })
      (record l { depth = (l.depth + 1) % word })

unfoldable pub in_lock_stack_trace : LockLocal → Result LockLocal
in_lock_stack_trace l = elim (get_elem? l.frames l.depth) [
  | none ↦ err overrun
  | some frame ↦ assign l.depth (record frame { is_enter = true }) l
]

unfoldable pub out_lock_stack_trace : LockLocal → Result LockLocal
out_lock_stack_trace l = assign l.depth no_lock (record l { depth = (l.depth + word - 1) % word })

pub record LockTracer : Type 0 where
  -- The calls of _sync.Enter that no Leave has followed.
  pub entered : ℕ
  pub last_thread_id : ℕ
  pub thread_numbers : List (ℕ × ℕ)
  pub recorded : List (Option ℕ)

unfoldable pub has_number : ℕ → List (ℕ × ℕ) → Bool
has_number id [] = false
has_number id ((k, n) ∷ m) = if id == k then true else has_number id m

-- RegisterThread of the calling thread `id`.
unfoldable pub register_thread :
    LogManager → ℕ → LockTracer → LockLocal → Result (LockTracer × LockLocal)
register_thread log id s l =
    let l' : LockLocal = record l { registered = true } in
    let number = s.last_thread_id + 1 in
    if has_number id s.thread_numbers
    then ok (record s { entered = suc s.entered }, l')
    else (if leb max_stack_check_thread_num number then log_critical log else ok tt)
      >> (if ltb number (length s.recorded)
          then ok (
            record s {
              last_thread_id = number;
              thread_numbers = insert_number id number s.thread_numbers;
              recorded = set s.recorded number (some id);
            },
            l',
          )
          else err overrun)

unfoldable pub try_lock_stack_trace :
    LogManager → ℕ → ℕ → LockTracer → LockLocal → Result (LockTracer × LockLocal)
try_lock_stack_trace log id lock s l =
    (if l.registered then ok (s, l) else register_thread log id s l) >>= λ (s', l').
    fill_frame lock l' >>= λ l''. ok (s', l'')

-- The loop of GetLockStackFrameArray, over the threads' own variables.
unfoldable pub collect :
    (ℕ → LockLocal) → ℕ → List (Option ℕ) → List (ℕ × ℕ) → Result (List (List LockStack))
collect locals caller recorded [] = ok []
collect locals caller recorded ((id, number) ∷ ids) = elim (get_elem? recorded number) [
  | none ↦ err overrun
  | some none ↦ err overrun
  | some (some target) ↦ (do
    frames ← copy_frames 0 (turns (locals target).depth) (locals target).frames
    rest ← collect locals caller recorded ids
    ok (if (locals caller).depth == 0 then rest else frames ∷ rest))
]

-- The Leave stands behind the return.
unfoldable pub get_lock_stack_frame_array :
    (ℕ → LockLocal) → ℕ → LockTracer → Result (List (List LockStack) × LockTracer)
get_lock_stack_frame_array locals caller s = do
  copied ← collect locals caller s.recorded s.thread_numbers
  ok (copied, record s { entered = suc s.entered })
