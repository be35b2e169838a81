-- ===== src/Crash/Minidump.antt =====
-- When MakeMinidump writes a dump with all memory.
use dokevi_network.Prelude.{◌≡◌, ◌↔◌, [], ◌∷◌, true, arith}
use dokevi_network.Crash.{DumpSetup, dump_written, file_closed, make_minidump}

-- A dump is written with all memory exactly if the library, its function and the file are there and
-- FullDump is 1.
pub make_minidump-full_iff :
    (a : DumpSetup)
    → (make_minidump a ≡ dump_written true ∷ file_closed ∷ [])
      ↔ ((a.library ≡ true) × (a.writer ≡ true) × (a.file ≡ true) × (a.full_dump ≡ 1))
unfolding make_minidump
make_minidump-full_iff a = ground arith
