-- ===== src/Startup/Instance.antt =====
-- GetInstance of ISingleton.h as the steps of any number of threads: the test of _inst, the new object
-- in _inst, and the read of _inst that is returned. Objects are named by their place in the order of
-- creation.
use dokevi_network.Prelude.{
  ℕ, suc, ◌≡◌, ◌≢◌, refl, sym, Option, none, some, arith, ◌==◌, if◌then◌else◌, Bool-cases, inl, inr,
  subst,
}

pub record Instance : Type 0 where
  pub inst : Option ℕ
  pub made : ℕ

-- Outside, in front of `new`, in front of the `return`, or with the result.
pub data Caller : Type 0 where
  outside making returning : Caller
  given : (object : ℕ) → Caller

pub data Get (s : Instance) (c : Caller) : Instance → Caller → Type 0 where
  test_null : c ≡ outside → s.inst ≡ none → Get s c s making
  test_there : (a : ℕ) → c ≡ outside → s.inst ≡ some a → Get s c s returning
  make : c ≡ making → Get s c (record { inst = some s.made; made = suc s.made }) returning
  give_back : (a : ℕ) → c ≡ returning → s.inst ≡ some a → Get s c s (given a)
  -- The next call.
  call_again : (a : ℕ) → c ≡ given a → Get s c s outside

pub record Callers : Type 0 where
  pub instance_of : Instance
  pub callers : ℕ → Caller

abbrev pub set_caller : (ℕ → Caller) → ℕ → Caller → ℕ → Caller
set_caller f i c j = if i == j then c else f j

-- The states that follow a state.
pub data After (s : Callers) : Callers → Type 0 where
  same : After s s
  then_get :
      {t : Callers} (i : ℕ) {l : Instance} {c : Caller}
      → After s t
      → Get t.instance_of (t.callers i) l c
      → After s (record { instance_of = l; callers = set_caller t.callers i c })

abbrev pub no_instance : Callers
no_instance = record { instance_of = record { inst = none; made = 0 }; callers = λ i. outside }

-- Two threads that both call GetInstance before there is an object can be given two different ones.
pub two_instances :
    (i j : ℕ)
    → i ≢ j
    → (s : Callers) × After no_instance s × (s.callers i ≡ given 0) × (s.callers j ≡ given 1)
two_instances i j n =
    let r1 = then_get i same (test_null refl refl) in
    let r2 = then_get j r1 (test_null (ground arith) refl) in
    let r3 = then_get i r2 (make (ground arith)) in
    let r4 = then_get i r3 (give_back 0 (ground arith) refl) in
    let r5 = then_get j r4 (make (ground arith)) in
    let r6 = then_get j r5 (give_back 1 (ground arith) refl) in (_, r6, ground arith, ground arith)

abbrev Keeps : ℕ → Caller → Type 0
Keeps a outside = Unit {0}
Keeps a making = ⊥
Keeps a returning = Unit {0}
Keeps a (given b) = b ≡ a

record Settled (a : ℕ) (s : Callers) : Type 0 where
  there : s.instance_of.inst ≡ some a
  each : (i : ℕ) → Keeps a (s.callers i)

record Kept (a : ℕ) (l : Instance) (c : Caller) : Type 0 where
  there : l.inst ≡ some a
  own : Keeps a c

Get-Kept :
    (a : ℕ) (s l : Instance) (b c : Caller) → s.inst ≡ some a → Keeps a b → Get s b l c → Kept a l c
Get-Kept a s l b c e k (test_null p q) = ground arith
Get-Kept a s l b c e k (test_there x p q) = ground arith
Get-Kept a s l b c e k (make p) = ground arith
Get-Kept a s l b c e k (give_back x p q) = ground arith
Get-Kept a s l b c e k (call_again x p) = ground arith

After-Settled : (a : ℕ) {s t : Callers} → Settled a s → After s t → Settled a t
After-Settled a v same = v
After-Settled a v (then_get {t} i {l} {c} r g) =
    let w = After-Settled a v r in
    let k = Get-Kept a t.instance_of l (t.callers i) c w.there (w.each i) g in
    record { there = k.there; each = λ j. placed t i c k.own w.each j }
  where
    placed :
        (t : Callers) (i : ℕ) (c : Caller)
        → Keeps a c
        → ((j : ℕ) → Keeps a (t.callers j))
        → (j : ℕ) → Keeps a (set_caller t.callers i c j)
    placed t i c own all j = elim (Bool-cases (i == j)) [
      | inl e ↦ subst (λ b. Keeps a (if b then c else t.callers j)) (sym e) own
      | inr e ↦ subst (λ b. Keeps a (if b then c else t.callers j)) (sym e) (all j)
    ]

-- Once there is an object, and no thread is within a call, it stays the one object, and every thread
-- that has a result from then on was given it.
pub one_instance :
    (a : ℕ) {s t : Callers}
    → s.instance_of.inst ≡ some a
    → ((j : ℕ) → s.callers j ≡ outside)
    → After s t
    → (t.instance_of.inst ≡ some a) × ((i b : ℕ) → t.callers i ≡ given b → b ≡ a)
one_instance a e all r =
    let v =
      After-Settled a (record { there = e; each = λ j. subst (Keeps a) (sym (all j)) tt }) r in
    (v.there, λ i b g. subst (Keeps a) g (v.each i))
