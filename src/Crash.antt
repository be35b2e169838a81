-- ===== src/Crash.antt =====
-- DokeviException.cpp: what happens on an unhandled exception. The texts that sprintf_s makes of its
-- formats are arguments; a text that does not fit its array ends the program. What the operating
-- system and the setting FullDump answer to MakeMinidump is an argument. The writing of the minidump
-- and of the file are events.
pub mod Reports
pub mod Minidump
use dokevi_network.Prelude.{
  ℕ, List, [], ◌∷◌, ◌++◌, map, Result, ok, err, crash, ◌>>=◌, ltb, if◌then◌else◌, length, Bool,
  true, not, ◌==◌,
}
use dokevi_network.Stacks.{StackFrame, StackTracer, get_stack_frame_array}
use dokevi_network.LockStacks.{LockStack, LockLocal, LockTracer, get_lock_stack_frame_array}

-- sizeof(temp)
abbrev pub temp_size : ℕ
temp_size = 1024

-- sprintf_s, and serverInfoText += temp
unfoldable pub append_text : List ℕ → List ℕ → Result (List ℕ)
append_text text info = if ltb (length text) temp_size then ok (info ++ text) else err crash

-- The inner loop of both reports.
unfoldable pub append_lines {ℓ} : {A : Type ℓ} → (A → List ℕ) → List A → List ℕ → Result (List ℕ)
append_lines line [] info = ok info
append_lines line (x ∷ xs) info = append_text (line x) info >>= λ info'. append_lines line xs info'

-- The outer loop, with the title that stands over each stack.
unfoldable pub append_stacks {ℓ} :
    {A : Type ℓ} → List ℕ → (A → List ℕ) → List (List A) → List ℕ → Result (List ℕ)
append_stacks title line [] info = ok info
append_stacks title line (xs ∷ xss) info = do
  info' ← append_text title info
  info'' ← append_lines line xs info'
  append_stacks title line xss info''

pub record Texts : Type 0 where
  pub stack_title : ℕ → List ℕ
  pub frame_line : StackFrame → List ℕ
  pub lock_title : ℕ → List ℕ
  pub lock_line : LockStack → List ℕ

pub record World : Type 0 where
  pub calls : StackTracer
  pub locks : LockTracer
  pub lock_locals : ℕ → LockLocal
  -- serverInfoText
  pub info : List ℕ
  -- Exception::excpetionHandler
  pub handlers : List ℕ

-- LoadLibraryA, GetProcAddress and CreateFileA give something, and GetInt("System", "FullDump").
pub record DumpSetup : Type 0 where
  pub library : Bool
  pub writer : Bool
  pub file : Bool
  pub full_dump : ℕ

pub data DumpEvent : Type 0 where
  -- MiniDumpWriteDump, with all memory or without, and CloseHandle.
  dump_written : (full : Bool) → DumpEvent
  file_closed : DumpEvent

unfoldable pub make_minidump : DumpSetup → List DumpEvent
make_minidump a =
    if not a.library
    then []
    else if not a.writer
    then []
    else if not a.file
    then []
    else dump_written (a.full_dump == 1) ∷ file_closed ∷ []

pub data Event : Type 0 where
  minidump : DumpEvent → Event
  report_written : (text : List ℕ) → Event
  handler_called : (handler : ℕ) → Event

module _ (t : Texts) (caller : ℕ) where
  -- `i` stays 0.
  unfoldable pub report_call_stack : World → Result World
  report_call_stack w = do
    stacks ← get_stack_frame_array caller w.calls
    info ← append_stacks (t.stack_title 0) t.frame_line stacks w.info
    ok (record w { info = info })

  unfoldable pub report_lock_stack : World → Result World
  report_lock_stack w =
      get_lock_stack_frame_array w.lock_locals caller w.locks >>= λ (stacks, locks).
      append_stacks (t.lock_title 0) t.lock_line stacks w.info >>= λ info.
      ok (record w { info = info; locks = locks })

  abbrev pub make_report_file : World → Event
  make_report_file w = report_written w.info

  -- MakeMinidump does not touch what the reports read.
  unfoldable pub unhandled_handler : DumpSetup → World → Result (World × List Event)
  unhandled_handler a w = report_call_stack w >>= λ w'. report_lock_stack w' >>= λ w''. ok (
    w'',
    map minidump (make_minidump a) ++ (make_report_file w'' ∷ map handler_called w''.handlers),
  )
