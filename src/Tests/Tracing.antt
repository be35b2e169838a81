-- ===== src/Tests/Tracing.antt =====
-- The scalable pool, the call stacks, the crash report and addresses at concrete inputs.
use dokevi_network.Prelude.{
  ℕ, ◌+◌, ◌<◌, ◌≤◌, ◌≡◌, refl, [], ◌∷◌, true, none, some, arith, ok, replicate, length-replicate,
  take, length,
}
use dokevi_network.Log.{new_log_manager}
use dokevi_network.Pool.{Pointer}
use dokevi_network.Scalable.{ScalablePool, Header, header_bytes, pop}
use dokevi_network.Scalable.Layout.{IsValid, pop-within, pop-pop_overlap}
use dokevi_network.Stacks.{StackFrame, Local, max_call_stack_depth}
use dokevi_network.Stacks.Calls.{enter, exit, done, call, run, level, deeper, run-Inside}
use dokevi_network.LockStacks.{no_lock}
use dokevi_network.Crash.{Texts, World, DumpSetup}

-- Items of 100 bytes, 3 at first.
abbrev items : ScalablePool
items = record {
  block = 1;
  block_bytes = 336;
  size = 100;
  alloc_size = 3;
  alloc_index = 0;
  use_size = 0;
  free_index = [];
  used_index = [];
  mem_check_array = (0, 1) ∷ [];
  generation_free = (0, 3) ∷ [];
  cur_generation = 0;
}

items-IsValid : IsValid items
items-IsValid = record {
  some_items = omega arith;
  handed = omega arith;
  allocated = refl;
  small = omega arith;
}

-- All three are handed out.
abbrev used_up : ScalablePool
used_up = record items { alloc_index = 3; use_size = 3 }

used_up-IsValid : IsValid used_up
used_up-IsValid = record {
  some_items = omega arith;
  handed = omega arith;
  allocated = refl;
  small = omega arith;
}

pop-within_example :
    (x : Pointer) × (h : Header) × (q : ScalablePool) × (pop 2 7 100 used_up ≡ (x, h, q))
    × (x.block ≡ q.block)
    × (x.offset ≡ h.place.offset + header_bytes)
    × (x.offset + 100 ≤ q.block_bytes)
pop-within_example = pop-within 2 7 100 used_up used_up-IsValid refl

pop-pop_overlap_example :
    (x : Pointer) × (h : Header) × (q : ScalablePool) × (y : Pointer) × (h' : Header)
    × (r : ScalablePool) × (pop 2 7 100 items ≡ (x, h, q))
    × (pop 2 7 100 q ≡ (y, h', r))
    × (h'.place.block ≡ x.block)
    × (h'.place.offset < x.offset + 100)
    × (x.offset < h'.place.offset + header_bytes)
pop-pop_overlap_example =
    pop-pop_overlap 2 2 7 7 100 100 items items-IsValid refl (omega arith) (omega arith)

abbrev main_frame : StackFrame
main_frame = record { line = 10; file = []; function = 109 ∷ [] }

abbrev helper_frame : StackFrame
helper_frame = record { line = 20; file = []; function = 104 ∷ [] }

abbrev no_frame : StackFrame
no_frame = record { line = 0; file = []; function = [] }

abbrev empty_stack : Local
empty_stack = record { frames = replicate 128 no_frame; depth = 0; registered = true }

-- A call that makes one call.
-- main calls helper, which comes back, and then calls helper once more.
run-Inside_example :
    (l' : Local) × (run new_log_manager
        (enter main_frame ∷ enter helper_frame ∷ exit ∷ enter helper_frame ∷ [])
        empty_stack
      ≡ ok l')
    × (l'.depth ≡ 2)
    × (take l'.depth l'.frames ≡ main_frame ∷ helper_frame ∷ [])
    × (length l'.frames ≡ max_call_stack_depth)
run-Inside_example =
    run-Inside new_log_manager empty_stack
      (deeper {before = []} main_frame (done {d = 2}) (
        deeper {before = enter helper_frame ∷ exit ∷ []} helper_frame
          (call {body = []} helper_frame (done {d = 0}) (done {d = 1})) (level (done {d = 0}))))
      (length-replicate 128 no_frame) (omega arith)

-- Thread 41 is in a recorded call, and has asked for a lock.
abbrev world : World
world = record {
  calls = record {
    last_thread_id = 1;
    thread_numbers = (41, 1) ∷ [];
    recorded = none ∷ some 41 ∷ none ∷ [];
    locals =
        λ id. record { frames = main_frame ∷ replicate 127 no_frame; depth = 1; registered = true };
  };
  locks = record {
    entered = 0;
    last_thread_id = 1;
    thread_numbers = (41, 1) ∷ [];
    recorded = none ∷ some 41 ∷ none ∷ [];
  };
  lock_locals = λ id. record { frames = no_lock ∷ no_lock ∷ []; depth = 1; registered = true };
  info = [];
  handlers = 5 ∷ [];
}

abbrev texts : Texts
texts = record {
  stack_title = λ i. 83 ∷ i ∷ [];
  frame_line = λ f. 70 ∷ f.line ∷ [];
  lock_title = λ i. 76 ∷ i ∷ [];
  lock_line = λ l. 75 ∷ l.lock_address ∷ [];
}

abbrev full_dump : DumpSetup
full_dump = record { library = true; writer = true; file = true; full_dump = 1 }

abbrev localhost : ℕ
localhost = 16777343

abbrev http : ℕ
http = 80
