-- ===== src/Sync/Leaving.antt =====
-- How a thread leaves its scopes, where threads only write.
use dokevi_network.Prelude.{
  ℕ, zero, suc, ◌+◌, ◌*◌, ◌<◌, ◌≡◌, ◌≢◌, refl, List, [], ◌∷◌, none, arith, length, length-eq-zero,
  subst, All, ap, ◌∙◌,
}
use dokevi_network.Sync.{
  SyncType, read, write, SyncSection, running, leaving, unlocking, clearing, only_write, Thread,
  unlocked, lowered, Move, leave, lower, leave_last, unlock, clear, System, update, pick, Reach,
  next, new_section, new_thread,
}
use dokevi_network.Sync.Exclusion.{about, Reach-Inv, update_self, update_ne}

uncons :
    {n : ℕ} (h : List SyncType)
    → length h ≡ suc n
    → (m : SyncType) × (t : List SyncType) × (h ≡ m ∷ t) × (length t ≡ n)
uncons [] e = absurd (omega (arith, e))
uncons (m ∷ t) e = (m, t, refl, omega (arith, e))

writes_first : {m : SyncType} {t h : List SyncType} → h ≡ m ∷ t → All (λ k. k ≡ write) h → m ≡ write
writes_first e a = (subst (All (λ k. k ≡ write)) e a).0

freed :
    (m : SyncType) (l : SyncSection)
    → m ≡ write
    → l.readers ≡ 0
    → l.lock_debt ≡ 0
    → l.lock_depth ≡ 0
    → record (unlocked m l) { owner_thread = none } ≡ new_section
freed read l w r b d = cc
freed write l w r b d = ground (arith, r, b, d)

-- `n` steps, one behind the other, all of thread `i`.
pub data OwnSteps (i : ℕ) : ℕ → System → System → Type 0 where
  stop : {s : System} → OwnSteps i 0 s s
  go :
      {n : ℕ} {s u : System} {l : SyncSection} {t : Thread}
      → Move only_write i s.section (s.threads i) l t
      → OwnSteps i n (record { section = l; threads = update s.threads i t }) u
      → OwnSteps i (suc n) s u

-- From every state that threads reach which only write, a thread that is in `n + 1` scopes and stands
-- outside of Enter and Leave can leave them all by `2 * n + 3` steps of its own, one behind the other:
-- then the section is as new, the thread is outside of Enter and Leave and in no scope, and the other
-- threads are as they were.
pub writer_can_leave :
    (n : ℕ) {s : System} (i : ℕ)
    → Reach only_write s
    → (s.threads i).phase ≡ running
    → length (s.threads i).held ≡ suc n
    → (s' : System) × OwnSteps i (2 * n + 3) s s'
      × (s'.section ≡ new_section)
      × (s'.threads i ≡ new_thread)
      × ((j : ℕ) → i ≢ j → s'.threads j ≡ s.threads j)
writer_can_leave zero {s} i r out one =
    let inv = Reach-Inv r in
    let (m, t, e, none_left) = uncons (s.threads i).held one in
    let mine = (inv.each i).holds (omega (arith, one)) in
    let flat : s.section.lock_depth ≡ 0 =
      omega (arith, (inv.each i).deep mine, one, ap about out) in
    let first : Thread = record (s.threads i) { phase = unlocking } in
    let f1 = update s.threads i first in
    let same1 = update_self s.threads i first in
    let second : Thread = record { phase = clearing; held = t } in
    let f2 = update f1 i second in
    let same2 = update_self f1 i second in
    (
      _,
      go (leave_last m t out e flat) (
          go
            (unlock m t (ap (λ (u : Thread). u.phase) same1)
              (ap (λ (u : Thread). u.held) same1 ∙ e))
            (go (clear (ap (λ (u : Thread). u.phase) same2)) stop)),
      freed m s.section (writes_first e (inv.each i).scopes) inv.no_readers inv.no_debt flat,
      update_self f2 i _
          ∙ ap (λ h. record { phase = running; held = h })
              (ap (λ (u : Thread). u.held) same2 ∙ length-eq-zero t none_left),
      λ j n. update_ne f2 i j _ n ∙ update_ne f1 i j second n ∙ update_ne s.threads i j first n,
    )
writer_can_leave (suc n) {s} i r out more =
    let inv = Reach-Inv r in
    let (m, t, e, rest) = uncons (s.threads i).held more in
    let mine = (inv.each i).holds (omega (arith, more)) in
    let deep : 0 < s.section.lock_depth =
      omega (arith, (inv.each i).deep mine, more, ap about out) in
    let first : Thread = record (s.threads i) { phase = leaving } in
    let f1 = update s.threads i first in
    let same1 = update_self s.threads i first in
    let second : Thread = record { phase = running; held = t } in
    let same2 = update_self f1 i second in
    let test : Move only_write i s.section (s.threads i) s.section first = leave m t out e deep in
    let count : Move only_write i s.section (f1 i) (lowered s.section) second =
      lower m t (ap (λ (u : Thread). u.phase) same1) (ap (λ (u : Thread). u.held) same1 ∙ e) in
    let (s', steps, fresh, idle, others) =
      writer_can_leave n i (next (next r (pick i test)) (pick i count))
        (ap (λ (u : Thread). u.phase) same2) (ap (λ (u : Thread). length u.held) same2 ∙ rest) in
    (
      s',
      subst (λ k. OwnSteps i k s s') (omega arith) (go test (go count steps)),
      fresh,
      idle,
      λ j n. others j n ∙ update_ne f1 i j second n ∙ update_ne s.threads i j first n,
    )
