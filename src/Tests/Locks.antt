-- ===== src/Tests/Locks.antt =====
-- The sections of threads, and the marks of locks, at concrete threads.
use dokevi_network.Prelude.{ℕ, suc, ◌≡◌, ◌≢◌, refl, [], ◌∷◌, none, some, arith}
use dokevi_network.Sync.{
  read, write, waiting, System, Reach, begin, next, pick, ask, lock, lock_shared, own, only_write,
  any_type, new_section, new_thread, Later,
}
use dokevi_network.Sync.Exclusion.{writers_exclude}
use dokevi_network.Sync.Leaving.{OwnSteps, writer_can_leave}
use dokevi_network.Sync.Sharing as Sharing
use dokevi_network.Sync.Sharing.{Flat}
use dokevi_network.Sync.Locker.{Users, Reaches, outside}
use dokevi_network.Sync.Locker.Mixed.{writer_beside_reader}
use dokevi_network.Sync.Ownership.{owner-lost, shared_hold_left}

no_owner : {i : ℕ} → none ≢ some i
no_owner e = cc

other_owner : {i : ℕ} → some 0 ≢ some (suc i)
other_owner e = cc

-- Thread 0 has entered to write.
abbrev in_scope : (s : System) × Reach only_write s
in_scope = (
  _,
  next (next (next begin (pick 0 (ask write refl refl no_owner))) (pick 0 (lock refl refl refl)))
      (pick 0 (own write refl)),
)

-- And thread 1 waits for it.
abbrev contended : (s : System) × Reach only_write s
contended = (_, next in_scope.1 (pick 1 (ask write refl refl other_owner)))

writers_exclude_example : (contended.0.threads 1).held ≡ []
writers_exclude_example = writers_exclude 0 1 contended.1 (λ e. omega (arith, e)) (omega arith)

writer_can_leave_example :
    (s' : System) × OwnSteps 0 3 contended.0 s'
    × (s'.section ≡ new_section)
    × (s'.threads 0 ≡ new_thread)
    × ((j : ℕ) → 0 ≢ j → s'.threads j ≡ contended.0.threads j)
writer_can_leave_example = writer_can_leave 0 0 contended.1 refl refl

-- Two threads are in a scope to read.
abbrev both_read : (s : System) × Flat 2 s
both_read = (
  _,
  Sharing.next 1
      (Sharing.next 1
        (Sharing.next 1
          (Sharing.next 0
            (Sharing.next 0
              (Sharing.next 0 Sharing.begin (omega arith) (ask read refl refl no_owner)
                (omega arith))
              (omega arith) (lock_shared refl refl) (omega arith))
            (omega arith) (own read refl) (omega arith))
          (omega arith) (ask read refl refl other_owner) (omega arith))
        (omega arith) (lock_shared refl refl) (omega arith))
      (omega arith) (own read refl) (omega arith),
)

shared_hold_left_example :
    (s : System) × Reach any_type s
    × ((k : ℕ) → s.threads k ≡ new_thread)
    × (s.section.readers ≡ 1)
    × (s.section.lock_depth ≡ 0)
    × (s.section.lock_debt ≡ 1)
shared_hold_left_example = shared_hold_left 0 1 (λ e. omega (arith, e))

owner-lost_example :
    (s : System) × Reach only_write s
    × (s.section.writer ≡ some 1)
    × ((u : System)
        → Later only_write s u
        → u.threads 1 ≡ record { phase = waiting write; held = write ∷ [] })
owner-lost_example = owner-lost 0 1 (λ e. omega (arith, e))

writer_beside_reader_example :
    (s : Users) × Reaches write s
    × (s.users 0 ≡ record { place = outside; open_calls = write ∷ [] })
    × (s.users 1 ≡ record { place = outside; open_calls = read ∷ [] })
    × (s.shared.sync.writer ≡ none)
    × (s.shared.sync.readers ≡ 2)
writer_beside_reader_example = writer_beside_reader write 0 1 (λ e. omega (arith, e))
