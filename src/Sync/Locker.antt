-- ===== src/Sync/Locker.antt =====
-- ReadLock, WriteLock and EndLock of the class MultiThreadSync (SyncSection.h). All threads share its
-- field _type: ReadLock and WriteLock write it and hand a reference to it to Enter, which reads it when
-- it chooses the kind of the mutex, and EndLock hands its value to Leave. The steps are those of
-- Sync.Move, with the field in place of the thread's own type.
pub mod Mixed
use dokevi_network.Prelude.{
  ℕ, suc, ◌-◌, ◌<◌, ◌≡◌, ◌≢◌, List, [], ◌∷◌, none, some, ◌==◌, if◌then◌else◌,
}
use dokevi_network.Sync.{SyncType, read, write, SyncSection, new_section, unlocked, raised, lowered}

pub record MultiThreadSync : Type 0 where
  pub type : SyncType
  pub sync : SyncSection

-- Where a thread stands: outside of the calls; in Enter, in front of the test of the owner, of
-- fetch_add, of the choice, of the mutex, and of the new owner; in Leave, with the type that it was
-- given, in front of the test of the depth, of fetch_sub and of the unlock, and behind the unlock.
pub data Place : Type 0 where
  outside entering counting choosing locked lowering clearing : Place
  waiting leaving unlocking : SyncType → Place

-- The calls of ReadLock and WriteLock whose EndLock is still to come, the innermost first.
pub record User : Type 0 where
  pub place : Place
  pub open_calls : List SyncType

pub data Act (i : ℕ) (s : MultiThreadSync) (u : User) : MultiThreadSync → User → Type 0 where
  -- ReadLock and WriteLock.
  call :
      (m : SyncType)
      → u.place ≡ outside
      → Act i s u
          (record s { type = m })
          (record { place = entering; open_calls = m ∷ u.open_calls })
  again :
      u.place ≡ entering
      → s.sync.owner_thread ≡ some i
      → Act i s u s (record u { place = counting })
  raise :
      u.place ≡ counting
      → Act i s u (record s { sync = raised s.sync }) (record u { place = outside })
  ask :
      u.place ≡ entering
      → s.sync.owner_thread ≢ some i
      → Act i s u s (record u { place = choosing })
  choose : u.place ≡ choosing → Act i s u s (record u { place = waiting s.type })
  lock_shared :
      u.place ≡ waiting read
      → s.sync.writer ≡ none
      → Act i s u
          (record s { sync = record s.sync { readers = suc s.sync.readers } })
          (record u { place = locked })
  lock :
      u.place ≡ waiting write
      → s.sync.writer ≡ none
      → s.sync.readers ≡ 0
      → Act i s u
          (record s { sync = record s.sync { writer = some i } })
          (record u { place = locked })
  own :
      u.place ≡ locked
      → Act i s u
          (record s { sync = record s.sync { owner_thread = some i } })
          (record u { place = outside })
  -- EndLock.
  end :
      (m : SyncType) (h : List SyncType)
      → u.place ≡ outside
      → u.open_calls ≡ m ∷ h
      → Act i s u s (record { place = leaving s.type; open_calls = h })
  leave :
      (m : SyncType)
      → u.place ≡ leaving m
      → 0 < s.sync.lock_depth
      → Act i s u s (record u { place = lowering })
  lower :
      u.place ≡ lowering
      → Act i s u (record s { sync = lowered s.sync }) (record u { place = outside })
  leave_last :
      (m : SyncType)
      → u.place ≡ leaving m
      → s.sync.lock_depth ≡ 0
      → Act i s u s (record u { place = unlocking m })
  unlock :
      (m : SyncType)
      → u.place ≡ unlocking m
      → Act i s u (record s { sync = unlocked m s.sync }) (record u { place = clearing })
  clear :
      u.place ≡ clearing
      → Act i s u
          (record s { sync = record s.sync { owner_thread = none } })
          (record u { place = outside })

pub record Users : Type 0 where
  pub shared : MultiThreadSync
  pub users : ℕ → User

abbrev pub assign : (ℕ → User) → ℕ → User → ℕ → User
assign f i u j = if i == j then u else f j

-- _type is not set before the first call; `m` is what stands in it.
abbrev pub fresh : SyncType → Users
fresh m = record {
  shared = record { type = m; sync = new_section };
  users = λ i. record { place = outside; open_calls = [] };
}

pub data Reaches (m : SyncType) : Users → Type 0 where
  begin : Reaches m (fresh m)
  next :
      {s : Users} (i : ℕ) {l : MultiThreadSync} {u : User}
      → Reaches m s
      → Act i s.shared (s.users i) l u
      → Reaches m (record { shared = l; users = assign s.users i u })
