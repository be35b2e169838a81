-- ===== src/Sync/Exclusion.antt =====
-- Threads that only write.
use dokevi_network.Prelude.{
  ℕ, suc, ◌+◌, ◌<◌, ◌≡◌, ◌≢◌, ◌⊎◌, refl, [], none, some, arith, length, ℕ_discrete, dec_lt,
  length-eq-zero, subst, All, sym, ap, ◌∙◌,
}
use dokevi_network.Sync.{
  SyncType, write, SyncSection, Phase, running, clearing, waiting, locked, only_write, Thread, Move,
  again, raise, ask, lock_shared, lock, own, leave, lower, leave_last, unlock, clear, leaving,
  unlocking, counting, System, update, Step, pick, Reach, begin, next, Later, here, then_on,
  new_section, new_thread,
}

abbrev pub about : Phase → ℕ
about (locked m) = 1
about _ = 0

-- The scopes of a thread, with the one that it is about to be in.
abbrev pub level : Thread → ℕ
level t = length t.held + about t.phase

-- A thread that has to do with the type `write` only.
abbrev pub IsWriting : Phase → Type 0
IsWriting running = Unit {0}
IsWriting clearing = Unit {0}
IsWriting (waiting m) = m ≡ write
IsWriting (locked m) = m ≡ write
IsWriting leaving = Unit {0}
IsWriting unlocking = Unit {0}
IsWriting (counting m) = m ≡ write

-- The scopes of a thread that counts.
abbrev pub IsInside : Phase → ℕ → Type 0
IsInside running n = Unit {0}
IsInside clearing n = Unit {0}
IsInside (waiting m) n = Unit {0}
IsInside (locked m) n = Unit {0}
IsInside (counting m) n = 0 < n
IsInside leaving n = 1 < n
IsInside unlocking n = n ≡ 1

-- What the section says of thread `i`: who is in a scope has the mutex, and its scopes are counted.
pub record Fits (s : SyncSection) (i : ℕ) (t : Thread) : Type 0 where
  pub phase : IsWriting t.phase
  pub inside : IsInside t.phase (length t.held)
  pub scopes : All (λ m. m ≡ write) t.held
  pub holds : 0 < level t → s.writer ≡ some i
  pub deep : s.writer ≡ some i → level t ≡ suc s.lock_depth
  pub owns : s.owner_thread ≡ some i → (t.phase ≡ clearing) ⊎ (0 < length t.held)

pub record Inv (s : SyncSection) (f : ℕ → Thread) : Type 0 where
  pub no_readers : s.readers ≡ 0
  pub no_debt : s.lock_debt ≡ 0
  pub flat : s.writer ≡ none → s.lock_depth ≡ 0
  pub each : (i : ℕ) → Fits s i (f i)

start-Inv : Inv new_section (λ i. new_thread)
start-Inv = record {
  no_readers = refl;
  no_debt = refl;
  flat = λ e. refl;
  each = λ i. record {
    phase = tt;
    inside = tt;
    scopes = tt;
    holds = λ h. absurd (omega (arith, h));
    deep = λ e. cc;
    owns = λ e. cc;
  };
}

-- What a step leaves the other threads.
record Spares (i : ℕ) (s s' : SyncSection) : Type 0 where
  writer :
      (j : ℕ) → i ≢ j → s'.writer ≡ some j → (s.writer ≡ some j) × (s'.lock_depth ≡ s.lock_depth)
  kept : (j : ℕ) → i ≢ j → s.writer ≡ some j → s'.writer ≡ some j
  owner : (j : ℕ) → i ≢ j → s'.owner_thread ≡ some j → s.owner_thread ≡ some j

Fits-other :
    {i j : ℕ} {s s' : SyncSection} {t : Thread} → Spares i s s' → i ≢ j → Fits s j t → Fits s' j t
Fits-other {j = j} p n v = record {
  phase = v.phase;
  inside = v.inside;
  scopes = v.scopes;
  holds = λ h. p.kept j n (v.holds h);
  deep = λ e. v.deep (p.writer j n e).0 ∙ ap suc (sym (p.writer j n e).1);
  owns = λ e. v.owns (p.owner j n e);
}

-- A step, for the thread that makes it and for the others.
record Kept (i : ℕ) (s s' : SyncSection) (t : Thread) : Type 0 where
  no_readers : s'.readers ≡ 0
  no_debt : s'.lock_debt ≡ 0
  flat : s'.writer ≡ none → s'.lock_depth ≡ 0
  fits : Fits s' i t
  spares : Spares i s s'

pub some-inj : {i j : ℕ} → some i ≡ some j → i ≡ j
some-inj e = cc

Move-Kept :
    (i : ℕ) (s s' : SyncSection) (t t' : Thread)
    → s.readers ≡ 0
    → s.lock_debt ≡ 0
    → (s.writer ≡ none → s.lock_depth ≡ 0)
    → Fits s i t
    → Move only_write i s t s' t'
    → Kept i s s' t'
Move-Kept i s s' t t' r b z v (again m a p o) = ground arith
Move-Kept i s s' t t' r b z v (raise m p) = ground arith
Move-Kept i s s' t t' r b z v (ask m a p o) = ground arith
Move-Kept i s s' t t' r b z v (lock_shared p w) = ground arith
Move-Kept i s s' t t' r b z v (lock p w q) = ground arith
Move-Kept i s s' t t' r b z v (own m p) = ground arith
Move-Kept i s s' t t' r b z v (leave m h p e d) = ground arith
Move-Kept i s s' t t' r b z v (lower m h p e) = ground arith
Move-Kept i s s' t t' r b z v (leave_last m h p e d) = ground arith
Move-Kept i s s' t t' r b z v (unlock m h p e) = ground arith
Move-Kept i s s' t t' r b z v (clear p) = ground arith

pub update_self : (f : ℕ → Thread) (i : ℕ) (t : Thread) → update f i t i ≡ t
update_self f i t = ground arith

pub update_ne : (f : ℕ → Thread) (i j : ℕ) (t : Thread) → i ≢ j → update f i t j ≡ f j
update_ne f i j t n = ground arith

Step-Inv :
    {s s' : System} → Step only_write s s' → Inv s.section s.threads → Inv s'.section s'.threads
Step-Inv {s} (pick i {l} {t} mv) inv =
    let k =
      Move-Kept i s.section l (s.threads i) t inv.no_readers inv.no_debt inv.flat (inv.each i) mv in
    record {
      no_readers = k.no_readers;
      no_debt = k.no_debt;
      flat = k.flat;
      each = λ j. elim (ℕ_discrete i j) [
        | yes e ↦
            subst (λ n. Fits l n (update s.threads i t n)) e
              (subst (Fits l i) (sym (update_self s.threads i t)) k.fits)
        | no n ↦
            subst (Fits l j) (sym (update_ne s.threads i j t n))
              (Fits-other k.spares n (inv.each j))
      ];
    }

pub Reach-Inv : {s : System} → Reach only_write s → Inv s.section s.threads
Reach-Inv begin = start-Inv
Reach-Inv (next r st) = Step-Inv st (Reach-Inv r)

-- In every state that threads reach which only write: while a thread is in a scope, every other
-- thread is in none.
pub writers_exclude :
    {s : System} (i j : ℕ)
    → Reach only_write s
    → i ≢ j
    → 0 < length (s.threads i).held
    → (s.threads j).held ≡ []
writers_exclude {s} i j r n a =
    let inv = Reach-Inv r in
    elim (dec_lt 0 (length (s.threads j).held)) [
      | yes b ↦ absurd (
          n (
            some-inj (
              sym ((inv.each i).holds (omega (arith, a))) ∙ (inv.each j).holds (omega (arith, b)))))
      | no b ↦ length-eq-zero (s.threads j).held (omega (arith, b))
    ]

not_moving :
    (i : ℕ) (s s' : SyncSection) (t t' : Thread) (m : SyncType)
    → Fits s i t
    → t.phase ≡ waiting m
    → 0 < length t.held
    → Move only_write i s t s' t'
    → ⊥
not_moving i s s' t t' m v w h (again k a p o) = cc
not_moving i s s' t t' m v w h (ask k a p o) = cc
not_moving i s s' t t' m v w h (lock_shared p e) = ground (arith, v.holds (omega arith))
not_moving i s s' t t' m v w h (lock p e q) = ground (arith, v.holds (omega arith))
not_moving i s s' t t' m v w h (own k p) = cc
not_moving i s s' t t' m v w h (raise k p) = cc
not_moving i s s' t t' m v w h (leave k l p e d) = cc
not_moving i s s' t t' m v w h (lower k l p e) = cc
not_moving i s s' t t' m v w h (leave_last k l p e d) = cc
not_moving i s s' t t' m v w h (unlock k l p e) = cc
not_moving i s s' t t' m v w h (clear p) = cc

stays :
    {s u : System} (j : ℕ) (m : SyncType)
    → Inv s.section s.threads
    → (s.threads j).phase ≡ waiting m
    → 0 < length (s.threads j).held
    → Step only_write s u
    → u.threads j ≡ s.threads j
stays {s} j m inv w h (pick i {l} {t} mv) = elim (ℕ_discrete i j) [
  | yes e ↦ absurd (
      not_moving i s.section l (s.threads i) t m (inv.each i) (ap (λ k. (s.threads k).phase) e ∙ w)
        (omega (arith, h, ap (λ k. length (s.threads k).held) e)) mv)
  | no n ↦ update_ne s.threads i j t n
]

-- A thread that is in a scope and waits for the mutex waits for ever.
pub waits_on :
    {s u : System} (j : ℕ) (m : SyncType)
    → Reach only_write s
    → (s.threads j).phase ≡ waiting m
    → 0 < length (s.threads j).held
    → Later only_write s u
    → Reach only_write u × (u.threads j ≡ s.threads j)
waits_on j m r w h here = (r, refl)
waits_on j m r w h (then_on {t = t} l st) =
    let (r', same) = waits_on j m r w h l in
    (
      next r' st,
      stays j m (Reach-Inv r') (ap (λ (x : Thread). x.phase) same ∙ w)
            (omega (arith, h, ap (λ (x : Thread). length x.held) same)) st
          ∙ same,
    )
