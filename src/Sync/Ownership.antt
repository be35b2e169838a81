-- ===== src/Sync/Ownership.antt =====
-- Where the owner that is recorded is not the thread that is in a scope.
use mathlib.Core.Path.{fun_ext}
use dokevi_network.Prelude.{
  ℕ, ◌≡◌, ◌≢◌, refl, sym, ap, ◌∙◌, List, [], ◌∷◌, some, arith, length, ◌==◌, if◌then◌else◌, subst,
  Bool,
}
use dokevi_network.Sync.{
  SyncType, read, write, SyncSection, running, waiting, Thread, Move, again, raise, leave, lower,
  leave_last, ask, lock_shared, lock, own, unlock, clear, System, update, pick, Reach, begin, next,
  Later, new_section, new_thread, only_write, any_type,
}
use dokevi_network.Sync.Exclusion.{waits_on}

abbrev at : SyncSection → (ℕ → Thread) → System
at l f = record { section = l; threads = f }

-- Two threads, and the others as they start.
abbrev pair : ℕ → Thread → ℕ → Thread → ℕ → Thread
pair i a j b k = if i == k then a else if j == k then b else new_thread

pair_first : (i j : ℕ) (a b : Thread) → pair i a j b i ≡ a
pair_first i j a b = ground arith

pair_second : (i j : ℕ) (a b : Thread) → i ≢ j → pair i a j b j ≡ b
pair_second i j a b n = ground arith

update-first : (i j : ℕ) (a b a' : Thread) (k : ℕ) → update (pair i a j b) i a' k ≡ pair i a' j b k
update-first i j a b a' k = ground arith

update-second :
    (i j : ℕ) (a b b' : Thread) (k : ℕ) → i ≢ j → update (pair i a j b) j b' k ≡ pair i a j b' k
update-second i j a b b' k n = ground arith

started : (i j k : ℕ) → new_thread ≡ pair i new_thread j new_thread k
started i j k = ground arith

module _ (allowed : SyncType → Bool) (i j : ℕ) (n : i ≢ j) where
  -- What the section and the two threads can come to.
  record Comes (l : SyncSection) (a b : Thread) : Type 0 where
    reached : Reach allowed (at l (pair i a j b))

  both_start : Comes new_section new_thread new_thread
  both_start = record {
    reached = subst (λ f. Reach allowed (at new_section f)) (fun_ext (started i j)) begin;
  }

  first :
      {l l' : SyncSection} {a a' b : Thread}
      → Comes l a b
      → Move allowed i l a l' a'
      → Comes l' a' b
  first {l} {l'} {a} {a'} {b} r mv = record {
    reached =
        subst (λ f. Reach allowed (at l' f)) (fun_ext (update-first i j a b a'))
          (next r.reached
            (pick i (subst (λ t. Move allowed i l t l' a') (sym (pair_first i j a b)) mv)));
  }

  second :
      {l l' : SyncSection} {a b b' : Thread}
      → Comes l a b
      → Move allowed j l b l' b'
      → Comes l' a b'
  second {l} {l'} {a} {b} {b'} r mv = record {
    reached =
        subst (λ f. Reach allowed (at l' f)) (fun_ext (λ k. update-second i j a b b' k n))
          (next r.reached
            (pick j (subst (λ t. Move allowed j l t l' b') (sym (pair_second i j a b n)) mv)));
  }

abbrev reading : List SyncType → Thread
reading h = record { phase = running; held = h }

other : {i j : ℕ} → i ≢ j → some i ≢ some j
other n e = n (cc)

-- Two different threads can reach a state in which one is in a scope to write inside of one to read,
-- and the other in a scope to read: the Enter of the owner only counts.
pub upgrade-shares :
    (i j : ℕ)
    → i ≢ j
    → (s : System) × Reach any_type s
      × (s.threads i ≡ record { phase = running; held = write ∷ read ∷ [] })
      × (s.threads j ≡ record { phase = running; held = read ∷ [] })
upgrade-shares i j n =
    let c1 = second any_type i j n (both_start any_type i j n) (ask read refl refl (λ e. cc)) in
    let c2 = second any_type i j n c1 (lock_shared refl refl) in
    let c3 = second any_type i j n c2 (own read refl) in
    let c4 = first any_type i j n c3 (ask read refl refl (λ e. other n (sym e))) in
    let c5 = first any_type i j n c4 (lock_shared refl refl) in
    let c6 = first any_type i j n c5 (own read refl) in
    let c7 = first any_type i j n c6 (again write refl refl refl) in
    let c8 = first any_type i j n c7 (raise write refl) in
    (_, c8.reached, pair_first i j _ _, pair_second i j _ _ n)

-- Two different threads that read can reach a state in which every thread is outside of Enter and Leave
-- and in no scope, and yet the mutex has a shared hold and the depth is -1: one of them has nested, both
-- find the depth 1 in Leave, and both take one off it.
pub shared_hold_left :
    (i j : ℕ)
    → i ≢ j
    → (s : System) × Reach any_type s
      × ((k : ℕ) → s.threads k ≡ new_thread)
      × (s.section.readers ≡ 1)
      × (s.section.lock_depth ≡ 0)
      × (s.section.lock_debt ≡ 1)
shared_hold_left i j n =
    let c1 = first any_type i j n (both_start any_type i j n) (ask read refl refl (λ e. cc)) in
    let c2 = first any_type i j n c1 (lock_shared refl refl) in
    let c3 = first any_type i j n c2 (own read refl) in
    let c4 = second any_type i j n c3 (ask read refl refl (other n)) in
    let c5 = second any_type i j n c4 (lock_shared refl refl) in
    let c6 = second any_type i j n c5 (own read refl) in
    let c7 = second any_type i j n c6 (again read refl refl refl) in
    let c8 = second any_type i j n c7 (raise read refl) in
    let c9 = first any_type i j n c8 (leave read [] refl refl (omega arith)) in
    let c10 = second any_type i j n c9 (leave read (read ∷ []) refl refl (omega arith)) in
    let c11 = first any_type i j n c10 (lower read [] refl refl) in
    let c12 = second any_type i j n c11 (lower read (read ∷ []) refl refl) in
    let c13 = second any_type i j n c12 (leave_last read [] refl refl refl) in
    let c14 = second any_type i j n c13 (unlock read [] refl refl) in
    let c15 = second any_type i j n c14 (clear refl) in
    (_, c15.reached, λ k. sym (started i j k), refl, refl, refl)

-- Two different threads that only write can reach a state from which the second, which has the mutex
-- and is in a scope, waits for the mutex in every later state: the Leave of the first has taken the ownership from it,
-- and it enters once more.
pub owner-lost :
    (i j : ℕ)
    → i ≢ j
    → (s : System) × Reach only_write s
      × (s.section.writer ≡ some j)
      × ((u : System)
          → Later only_write s u
          → u.threads j ≡ record { phase = waiting write; held = write ∷ [] })
owner-lost i j n =
    let c1 = first only_write i j n (both_start only_write i j n) (ask write refl refl (λ e. cc)) in
    let c2 = first only_write i j n c1 (lock refl refl refl) in
    let c3 = first only_write i j n c2 (own write refl) in
    let c4 = first only_write i j n c3 (leave_last write [] refl refl refl) in
    let c4' = first only_write i j n c4 (unlock write [] refl refl) in
    let c5 = second only_write i j n c4' (ask write refl refl (other n)) in
    let c6 = second only_write i j n c5 (lock refl refl refl) in
    let c7 = second only_write i j n c6 (own write refl) in
    let c8 = first only_write i j n c7 (clear refl) in
    let c9 = second only_write i j n c8 (ask write refl refl (λ e. cc)) in
    let there = pair_second i j _ (record { phase = waiting write; held = write ∷ [] }) n in
    (
      _,
      c9.reached,
      refl,
      λ u l.
          (waits_on j write c9.reached (ap (λ (t : Thread). t.phase) there)
            (omega (arith, ap (λ (t : Thread). length t.held) there)) l).1
          ∙ there,
    )
