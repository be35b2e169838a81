-- ===== src/Progress.antt =====
-- ProgressLock.h: a slot for the one kind of work that is in progress, with a timeout. A call is
-- taken as one step: of its accesses to `_curWork` only the InterlockedCompareExchange is atomic, and
-- interleavings with the reads before and behind it are not modelled. The results of the two calls
-- of GetTickCount are arguments. An `int` is its 32-bit pattern, as the comparisons with the unsigned
-- tick count read it.
pub mod Exclusive
use dokevi_network.Prelude.{
  ℕ, ◌+◌, ◌-◌, ◌%◌, Bool, true, false, not, ◌&&◌, ◌==◌, leb, if◌then◌else◌,
}
use dokevi_network.Bytes.{word}

pub record ProgressLock : Type 0 where
  pub cur_work : ℕ
  pub timeout : ℕ
  pub start_tick : ℕ

-- The `int` -1.
abbrev pub no_timeout : ℕ
no_timeout = word - 1

unfoldable pub new_lock : ℕ → ProgressLock
new_lock timeout = record { cur_work = 0; timeout = timeout; start_tick = 0 }

-- What Start returns and writes to `inCurWorkType`.
pub record Answer : Type 0 where
  pub started : Bool
  pub cur_work_type : ℕ

unfoldable pub is_time_out : ℕ → ProgressLock → Bool
is_time_out now l =
    not (l.timeout == no_timeout)
    && not (l.cur_work == 0)
    && leb l.timeout ((now + word - l.start_tick) % word)

-- InterlockedCompareExchange(&_curWork, inWorkType, 0), without its result.
abbrev pub exchange : ℕ → ProgressLock → ProgressLock
exchange work l = if l.cur_work == 0 then record l { cur_work = work } else l

-- With a timeout the `&&` leaves the exchange out.
unfoldable pub start : ℕ → ℕ → ℕ → ProgressLock → ProgressLock × Answer
unfolding is_time_out
start now later work l =
    let started_at : Answer = record { started = true; cur_work_type = work } in
    if is_time_out now l
    then (record l { start_tick = later }, started_at)
    else if l.cur_work == 0
    then (record (exchange work l) { start_tick = later }, started_at)
    else (l, record { started = false; cur_work_type = l.cur_work })

unfoldable pub finish : ProgressLock → ProgressLock
finish l = record l { cur_work = 0 }
