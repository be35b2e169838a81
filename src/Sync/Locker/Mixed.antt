-- ===== src/Sync/Locker/Mixed.antt =====
-- What the shared _type comes to when one thread reads and another one writes.
use dokevi_network.Prelude.{ℕ, ◌≡◌, ◌≢◌, refl, [], ◌∷◌, none, arith}
use dokevi_network.Sync.{SyncType, read, write}
use dokevi_network.Sync.Exclusion.{some-inj}
use dokevi_network.Sync.Locker.{
  outside, call, ask, choose, lock_shared, own, Users, Reaches, begin, next,
}

-- Two different threads, of which one calls WriteLock and the other ReadLock, can both come out of their
-- calls with a shared hold of the mutex: the call of ReadLock changes the type that the Enter of
-- WriteLock has a reference to.
pub writer_beside_reader :
    (k : SyncType) (i j : ℕ)
    → i ≢ j
    → (s : Users) × Reaches k s
      × (s.users i ≡ record { place = outside; open_calls = write ∷ [] })
      × (s.users j ≡ record { place = outside; open_calls = read ∷ [] })
      × (s.shared.sync.writer ≡ none)
      × (s.shared.sync.readers ≡ 2)
writer_beside_reader k i j n =
    let r1 : Reaches k _ = next i begin (call write refl) in
    let r2 = next i r1 (ask (ground arith) (λ e. cc)) in
    let r3 = next j r2 (call read (ground arith)) in
    let r4 = next i r3 (choose (ground arith)) in
    let r5 = next i r4 (lock_shared (ground arith) refl) in
    let r6 = next i r5 (own (ground arith)) in
    let r7 = next j r6 (ask (ground arith) (λ e. n (some-inj e))) in
    let r8 = next j r7 (choose (ground arith)) in
    let r9 = next j r8 (lock_shared (ground arith) refl) in
    let r10 = next j r9 (own (ground arith)) in (_, r10, ground arith, ground arith, refl, refl)
