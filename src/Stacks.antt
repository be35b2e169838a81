-- ===== src/Stacks.antt =====
-- StackTracer.h and StackTracer.cpp: the call stack that each thread keeps of itself, and the report
-- of all of them. RECORD_STACK makes a StackFrameRecorder, whose constructor is `in_stack_trace` and
-- whose destructor is `out_stack_trace`. The thread_local variables of a thread are a Local; the
-- global arrays hold pointers to them, here the thread's id. A thread's Local is its own; what stands
-- in the manager is written under its lock, and so is one step.
pub mod FileName
pub mod Calls
pub mod Report
use dokevi_network.Prelude.{
  ℕ, zero, suc, ◌+◌, ◌-◌, ◌%◌, ◌^◌, List, [], ◌∷◌, Bool, true, false, Option, none, some, Result,
  ok, err, overrun, ◌>>=◌, ◌>>◌, ◌==◌, leb, ltb, if◌then◌else◌, get_elem?, set, length,
}
use dokevi_network.Bytes.{word}
use dokevi_network.Log.{LogManager, log_critical}

-- MAX_CALL_STACK_DEPTH and MAX_STACK_CHECK_THREAD_NUM of pch.h
abbrev pub max_call_stack_depth : ℕ
max_call_stack_depth = 128

abbrev pub max_stack_check_thread_num : ℕ
max_stack_check_thread_num = 1024

pub record StackFrame : Type 0 where
  pub line : ℕ
  pub file : List ℕ
  pub function : List ℕ

-- gStackFrames, gStackDepth and gRegisteredStackFrame.
pub record Local : Type 0 where
  pub frames : List StackFrame
  pub depth : ℕ
  pub registered : Bool

-- The rest of InStackTrace, for a thread that is registered.
unfoldable pub push_frame : LogManager → StackFrame → Local → Result Local
push_frame log frame l =
    if l.depth == max_call_stack_depth - 1
    then log_critical log >> ok l
    else if ltb l.depth (length l.frames)
    then ok (record l { frames = set l.frames l.depth frame; depth = (l.depth + 1) % word })
    else err overrun

unfoldable pub out_stack_trace : Local → Local
out_stack_trace l = record l { depth = (l.depth + word - 1) % word }

pub record StackTracer : Type 0 where
  pub last_thread_id : ℕ
  pub thread_numbers : List (ℕ × ℕ)
  -- gRecordStackFrames and gStackDepths: the thread that each number points to.
  pub recorded : List (Option ℕ)
  pub locals : ℕ → Local

abbrev pub with_local : ℕ → Local → StackTracer → StackTracer
with_local id l s = record s { locals = λ k. if k == id then l else s.locals k }

unfoldable pub insert_number : ℕ → ℕ → List (ℕ × ℕ) → List (ℕ × ℕ)
insert_number id n [] = (id, n) ∷ []
insert_number id n ((k, j) ∷ m) =
    let rest = insert_number id n m in if id == k then (k, j) ∷ m else (k, j) ∷ rest

-- RegisterThread of the calling thread `id`.
unfoldable pub register_thread : LogManager → ℕ → StackTracer → Result StackTracer
register_thread log id s =
    let number = s.last_thread_id + 1 in
    (if leb max_stack_check_thread_num number then log_critical log else ok tt)
    >> (if ltb number (length s.recorded)
        then ok (record (with_local id (record (s.locals id) { registered = true }) s) {
          last_thread_id = number;
          thread_numbers = insert_number id number s.thread_numbers;
          recorded = set s.recorded number (some id);
        })
        else err overrun)

unfoldable pub in_stack_trace : LogManager → ℕ → StackFrame → StackTracer → Result StackTracer
in_stack_trace log id frame s =
    (if (s.locals id).registered then ok s else register_thread log id s) >>= λ s'.
    push_frame log frame (s'.locals id) >>= λ l. ok (with_local id l s')

-- for (int i = 0; i <= depth; i++) stackFrames.push_back(stacks[i]);, from `i` for `n` frames
unfoldable pub copy_frames {ℓ} : {A : Type ℓ} → ℕ → ℕ → List A → Result (List A)
copy_frames i zero stacks = ok []
copy_frames i (suc n) stacks = copy_frames (i + 1) n stacks >>= λ rest. elim (get_elem? stacks i) [
  | none ↦ err overrun
  | some f ↦ ok (f ∷ rest)
]

-- The turns of that loop: none for an `int` that is negative.
abbrev pub turns : ℕ → ℕ
turns depth = if ltb depth (2 ^ 31) then suc depth else 0

-- What the loop of GetStackFrameArray copies of one thread.
unfoldable pub frames_of : Local → Result (List StackFrame)
frames_of l = copy_frames 0 (turns l.depth) l.frames

-- The test behind the loop is of the depth of the thread that makes the report.
unfoldable pub collect : ℕ → StackTracer → List (ℕ × ℕ) → Result (List (List StackFrame))
collect caller s [] = ok []
collect caller s ((id, number) ∷ ids) = elim (get_elem? s.recorded number) [
  | none ↦ err overrun
  | some none ↦ err overrun
  | some (some target) ↦ (do
    frames ← frames_of (s.locals target)
    rest ← collect caller s ids
    ok (if (s.locals caller).depth == 0 then rest else frames ∷ rest))
]

unfoldable pub get_stack_frame_array : ℕ → StackTracer → Result (List (List StackFrame))
get_stack_frame_array caller s = collect caller s s.thread_numbers
