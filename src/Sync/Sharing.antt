-- ===== src/Sync/Sharing.antt =====
-- Threads that read and write, but do not nest: the section is a reader-writer lock.
use dokevi_network.Prelude.{
  ℕ, suc, ◌+◌, ◌≤◌, ◌<◌, ◌≡◌, ◌≢◌, ◌⊎◌, List, [], ◌∷◌, some, length, sum_below,
}
use dokevi_network.Sync.{
  SyncType, read, write, SyncSection, Phase, running, clearing, waiting, locked, any_type, Thread,
  Move, leaving, unlocking, counting, System, update, start,
}

-- The scopes to read of a thread, with the one that it has the mutex for already, and the same for
-- those to write.
abbrev pub reads : List SyncType → ℕ
reads [] = 0
reads (read ∷ h) = suc (reads h)
reads (write ∷ h) = reads h

abbrev pub writes : List SyncType → ℕ
writes [] = 0
writes (read ∷ h) = writes h
writes (write ∷ h) = suc (writes h)

abbrev pub reading : Thread → ℕ
reading t = reads t.held + (elim t.phase [
  | running ↦ 0
  | clearing ↦ 0
  | leaving ↦ 0
  | unlocking ↦ 0
  | counting m ↦ 0
  | waiting m ↦ 0
  | locked m ↦ elim m [ read ↦ 1 | write ↦ 0 ]
])

abbrev pub writing : Thread → ℕ
writing t = writes t.held + (elim t.phase [
  | running ↦ 0
  | clearing ↦ 0
  | leaving ↦ 0
  | unlocking ↦ 0
  | counting m ↦ 0
  | waiting m ↦ 0
  | locked m ↦ elim m [ read ↦ 0 | write ↦ 1 ]
])

abbrev pub entering : Phase → ℕ
entering running = 0
entering clearing = 0
entering (waiting m) = 1
entering (locked m) = 1
entering leaving = 0
entering unlocking = 0
entering (counting m) = 1

-- A thread that does not nest does not count.
abbrev pub IsPlain : Phase → Type 0
IsPlain running = Unit {0}
IsPlain clearing = Unit {0}
IsPlain (waiting m) = Unit {0}
IsPlain (locked m) = Unit {0}
IsPlain leaving = ⊥
IsPlain unlocking = Unit {0}
IsPlain (counting m) = ⊥

-- A thread that does not enter from within a scope.
abbrev pub IsFlat : Thread → Type 0
IsFlat t = length t.held + entering t.phase ≤ 1

-- The states of `n` threads that do not nest.
pub data Flat (n : ℕ) : System → Type 0 where
  begin : Flat n start
  next :
      {s : System} (i : ℕ) {l : SyncSection} {t : Thread}
      → Flat n s
      → i < n
      → Move any_type i s.section (s.threads i) l t
      → IsFlat t
      → Flat n (record { section = l; threads = update s.threads i t })

-- How many of the first `n` threads are in a scope to read, or have the mutex for one.
abbrev pub count : ℕ → (ℕ → Thread) → ℕ
count n f = sum_below n (λ i. reading (f i))

record Fits (s : SyncSection) (i : ℕ) (t : Thread) : Type 0 where
  flat : IsFlat t
  plain : IsPlain t.phase
  has : 0 < writing t → s.writer ≡ some i
  had : s.writer ≡ some i → writing t ≡ 1
  owns : s.owner_thread ≡ some i → (t.phase ≡ clearing) ⊎ (0 < length t.held)

record Spares (i : ℕ) (s s' : SyncSection) : Type 0 where
  writer : (j : ℕ) → i ≢ j → s'.writer ≡ some j → s.writer ≡ some j
  kept : (j : ℕ) → i ≢ j → s.writer ≡ some j → s'.writer ≡ some j
  owner : (j : ℕ) → i ≢ j → s'.owner_thread ≡ some j → s.owner_thread ≡ some j

record Kept (i : ℕ) (s s' : SyncSection) (t t' : Thread) : Type 0 where
  depth : s'.lock_depth ≡ 0
  alone : (w : ℕ) → s'.writer ≡ some w → s'.readers ≡ 0
  counted : s'.readers + reading t ≡ s.readers + reading t'
  fits : Fits s' i t'
  spares : Spares i s s'

record Inv (n : ℕ) (s : SyncSection) (f : ℕ → Thread) : Type 0 where
  depth : s.lock_depth ≡ 0
  alone : (w : ℕ) → s.writer ≡ some w → s.readers ≡ 0
  counted : s.readers ≡ count n f
  each : (i : ℕ) → Fits s i (f i)
