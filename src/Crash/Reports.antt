-- ===== src/Crash/Reports.antt =====
-- What a crash report says.
use dokevi_network.Prelude.{
  ℕ, ◌<◌, List, [], ◌∷◌, ◌++◌, map, length, concat, ◌&&◌, ◌==◌, if◌then◌else◌,
}
use dokevi_network.Stacks.{StackFrame}
use dokevi_network.Stacks.Report as CallReport
use dokevi_network.Stacks.Report.{with_one_more}
use dokevi_network.LockStacks.{LockStack}
use dokevi_network.LockStacks.Copies as LockCopies
use dokevi_network.LockStacks.Copies.{up_to_depth}
use dokevi_network.Crash.{temp_size, Texts, World, DumpSetup, DumpEvent, dump_written, file_closed}

-- One stack, and all of them.
abbrev pub stack_text : {A : Type 0} → List ℕ → (A → List ℕ) → List A → List ℕ
stack_text title line xs = title ++ concat (map line xs)

abbrev pub stacks_text : {A : Type 0} → List ℕ → (A → List ℕ) → List (List A) → List ℕ
stacks_text title line xss = concat (map (stack_text title line) xss)

-- Every line that the formats make fits the array.
pub record IsShort (t : Texts) : Type 0 where
  pub stack_title : length (t.stack_title 0) < temp_size
  pub frame_line : (f : StackFrame) → length (t.frame_line f) < temp_size
  pub lock_title : length (t.lock_title 0) < temp_size
  pub lock_line : (l : LockStack) → length (t.lock_line l) < temp_size

unfoldable pub call_text : Texts → World → List ℕ
call_text t w =
    stacks_text (t.stack_title 0) t.frame_line (map (with_one_more w.calls) w.calls.thread_numbers)

unfoldable pub lock_text : Texts → World → List ℕ
lock_text t w =
    stacks_text (t.lock_title 0) t.lock_line
      (map (up_to_depth w.lock_locals) w.locks.thread_numbers)

-- The dump, if there is all that it takes.
abbrev pub dumped : DumpSetup → List DumpEvent
dumped a =
    if a.library && a.writer && a.file
    then dump_written (a.full_dump == 1) ∷ file_closed ∷ []
    else []
