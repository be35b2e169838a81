-- ===== src/Sync.antt =====
-- SyncSection.h and SyncSection.cpp: a reader-writer lock that its owner may enter again. The steps
-- of a thread are the single accesses to the shared fields and to the mutex, in the order of the
-- source, and any number of threads interleave. std::shared_mutex is its documented behaviour: who has
-- it, and when a call for it goes on. `inRecordLock` is false at every call in the source. The depth is
-- an `int`, and fewer than 2 ^ 31 entries are nested.
pub mod Exclusion
pub mod Leaving
pub mod Ownership
pub mod Sharing
pub mod Locker
use dokevi_network.Prelude.{
  ℕ, suc, ◌+◌, ◌-◌, ◌<◌, ◌≡◌, ◌≢◌, List, [], ◌∷◌, Bool, true, Option, none, some, ◌==◌,
  if◌then◌else◌, false,
}

pub data SyncType : Type 0 where
  read write : SyncType

pub record SyncSection : Type 0 where
  -- _mutex: the thread that has it exclusively, and the number of shared holds.
  pub writer : Option ℕ
  pub readers : ℕ
  -- `none` is the -1 of _ownerThread.
  pub owner_thread : Option ℕ
  -- _lockDepth, which nested readers can take below 0: what it is above 0, and what it is below.
  pub lock_depth : ℕ
  pub lock_debt : ℕ

abbrev pub new_section : SyncSection
new_section = record {
  writer = none;
  readers = 0;
  owner_thread = none;
  lock_depth = 0;
  lock_debt = 0;
}

-- Where a thread stands: outside of Enter and Leave; in Enter, in front of the mutex, with it, or in
-- front of fetch_add; in Leave, in front of fetch_sub, in front of the unlock, or behind it.
pub data Phase : Type 0 where
  running leaving unlocking clearing : Phase
  waiting locked counting : SyncType → Phase

-- The scopes that the thread is in, the innermost first.
pub record Thread : Type 0 where
  pub phase : Phase
  pub held : List SyncType

abbrev pub new_thread : Thread
new_thread = record { phase = running; held = [] }

abbrev pub unlocked : SyncType → SyncSection → SyncSection
unlocked read s = record s { readers = s.readers - 1 }
unlocked write s = record s { writer = none }

-- fetch_add(1) and fetch_sub(1).
abbrev pub raised : SyncSection → SyncSection
raised s =
    if s.lock_debt == 0
    then record s { lock_depth = suc s.lock_depth }
    else record s { lock_debt = s.lock_debt - 1 }

abbrev pub lowered : SyncSection → SyncSection
lowered s =
    if s.lock_depth == 0
    then record s { lock_debt = suc s.lock_debt }
    else record s { lock_depth = s.lock_depth - 1 }

-- One step of thread `i`, of a program that uses the types of `allowed`.
pub data Move (allowed : SyncType → Bool) (i : ℕ) (s : SyncSection) (t : Thread)
    : SyncSection → Thread → Type 0 where
  -- Enter of the owner: the test, and the depth.
  again :
      (m : SyncType)
      → allowed m ≡ true
      → t.phase ≡ running
      → s.owner_thread ≡ some i
      → Move allowed i s t s (record t { phase = counting m })
  raise :
      (m : SyncType)
      → t.phase ≡ counting m
      → Move allowed i s t (raised s) (record { phase = running; held = m ∷ t.held })
  -- Enter of another thread: the test, the mutex, and the owner.
  ask :
      (m : SyncType)
      → allowed m ≡ true
      → t.phase ≡ running
      → s.owner_thread ≢ some i
      → Move allowed i s t s (record t { phase = waiting m })
  lock_shared :
      t.phase ≡ waiting read
      → s.writer ≡ none
      → Move allowed i s t (record s { readers = suc s.readers }) (record t { phase = locked read })
  lock :
      t.phase ≡ waiting write
      → s.writer ≡ none
      → s.readers ≡ 0
      → Move allowed i s t (record s { writer = some i }) (record t { phase = locked write })
  own :
      (m : SyncType)
      → t.phase ≡ locked m
      → Move allowed i s t
          (record s { owner_thread = some i })
          (record { phase = running; held = m ∷ t.held })
  -- Leave with a depth: the test, and the depth.
  leave :
      (m : SyncType) (h : List SyncType)
      → t.phase ≡ running
      → t.held ≡ m ∷ h
      → 0 < s.lock_depth
      → Move allowed i s t s (record t { phase = leaving })
  lower :
      (m : SyncType) (h : List SyncType)
      → t.phase ≡ leaving
      → t.held ≡ m ∷ h
      → Move allowed i s t (lowered s) (record { phase = running; held = h })
  -- Leave without one: the test, the mutex and the owner.
  leave_last :
      (m : SyncType) (h : List SyncType)
      → t.phase ≡ running
      → t.held ≡ m ∷ h
      → s.lock_depth ≡ 0
      → Move allowed i s t s (record t { phase = unlocking })
  unlock :
      (m : SyncType) (h : List SyncType)
      → t.phase ≡ unlocking
      → t.held ≡ m ∷ h
      → Move allowed i s t (unlocked m s) (record { phase = clearing; held = h })
  clear :
      t.phase ≡ clearing
      → Move allowed i s t (record s { owner_thread = none }) (record t { phase = running })

pub record System : Type 0 where
  pub section : SyncSection
  pub threads : ℕ → Thread

abbrev pub update : (ℕ → Thread) → ℕ → Thread → ℕ → Thread
update f i t j = if i == j then t else f j

pub data Step (allowed : SyncType → Bool) (s : System) : System → Type 0 where
  pick :
      (i : ℕ) {l : SyncSection} {t : Thread}
      → Move allowed i s.section (s.threads i) l t
      → Step allowed s (record { section = l; threads = update s.threads i t })

abbrev pub start : System
start = record { section = new_section; threads = λ i. new_thread }

pub data Reach (allowed : SyncType → Bool) : System → Type 0 where
  begin : Reach allowed start
  next : {s s' : System} → Reach allowed s → Step allowed s s' → Reach allowed s'

-- The states that can follow a state.
pub data Later (allowed : SyncType → Bool) (s : System) : System → Type 0 where
  here : Later allowed s s
  then_on : {t u : System} → Later allowed s t → Step allowed t u → Later allowed s u

abbrev pub only_write : SyncType → Bool
only_write read = false
only_write write = true

abbrev pub any_type : SyncType → Bool
any_type m = true

-- IsEntered of thread `i`.
unfoldable pub is_entered : ℕ → SyncSection → Bool
is_entered i s = elim s.owner_thread [ none ↦ false | some k ↦ k == i ]
