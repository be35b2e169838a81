-- ===== src/Queue.antt =====
-- AtomicStaticQueue.h: a queue in one array, with counters that only grow and wrap at 2 ^ 32 (a
-- ULONG of Windows). A call is taken as one step: the source takes no lock, and other interleavings
-- of its counters are not modelled.
pub mod Fifo
use dokevi_network.Prelude.{
  ℕ, ◌+◌, ◌-◌, ◌%◌, List, Bool, Option, none, some, Result, ok, err, crash, overrun, ◌>>=◌, ◌>>◌,
  ltb, leb, ◌==◌, if◌then◌else◌, get_elem?, set, replicate,
}
use dokevi_network.Bytes.{word}
use dokevi_network.Log.{LogManager, log_critical}

pub record Queue (T : Type 0) : Type 0 where
  pub front_count : ℕ
  pub back_count : ℕ
  pub used : ℕ
  pub queue_size : ℕ
  pub memory : List T

module _ {T : Type 0} where
  -- `fresh` is what a new element holds.
  unfoldable pub init : T → ℕ → Queue T
  init fresh size = record {
    front_count = 1;
    back_count = 0;
    used = 0;
    queue_size = size;
    memory = replicate size fresh;
  }

  -- A count modulo _queueSize.
  unfoldable pub index : ℕ → Queue T → Result ℕ
  index count q = if q.queue_size == 0 then err crash else ok (count % q.queue_size)

  -- LOG_CRITICAL behind the count, which a full queue meets already.
  unfoldable pub push : LogManager → T → Queue T → Result (Queue T)
  push log element q =
      let back = (q.back_count + 1) % word in
      let used' = (q.used + 1) % word in
      index back q >>= λ i.
      let q' = record q { back_count = back; used = used'; memory = set q.memory i element } in
      if leb q.queue_size used' then log_critical log >> ok q' else ok q'

  unfoldable pub pop : LogManager → Queue T → Result (Queue T)
  pop log q =
      let used' = (q.used + word - 1) % word in
      let q' = record q { front_count = (q.front_count + 1) % word; used = used' } in
      if ltb used' 0 then log_critical log >> ok q' else ok q'

  -- The element that the pointer points to.
  unfoldable pub front : Queue T → Result T
  front q = index q.front_count q >>= λ i. elim (get_elem? q.memory i) [
    | none ↦ err overrun
    | some a ↦ ok a
  ]

  unfoldable pub is_empty : Queue T → Bool
  is_empty q = q.used == 0
