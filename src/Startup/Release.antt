-- ===== src/Startup/Release.antt =====
-- The managers' end.
use dokevi_network.Prelude.{
  ℕ, ◌≡◌, ◌≢◌, refl, sym, ap, subst, ◌∙◌, List, [], ◌∷◌, ◌++◌, Bool, true, false, All, ok, err,
  Fault, throws, spins,
}
use mathlib.Core.List.{append-nil, append_assoc}
use dokevi_network.Threads
use dokevi_network.Threads.{ThreadManager, PoolThread, task_run, wait_for_all_thread, join_all}
use dokevi_network.Threads.Ending.{wait-finalize_throws, wait-spins, IsStarted}
use dokevi_network.Log.{Level, info, log}
use dokevi_network.Startup.{Setup, Managers, initialize_managers, run, run_all, release_managers}

abbrev started : Bool → List ℕ → List PoolThread
started ends [] = []
started ends (a ∷ as') = record { address = a; joinable = true; ends = ends } ∷ started ends as'

pool-run_all :
    (ends : Bool) (as' : List ℕ) (s : ThreadManager)
    → (run_all ends as' s).thread_pool ≡ s.thread_pool ++ started ends as'
unfolding run_all task_run
pool-run_all ends [] s = sym (append-nil s.thread_pool)
pool-run_all ends (a ∷ as') s =
    pool-run_all ends as' (task_run ends a s)
    ∙ append_assoc s.thread_pool (record { address = a; joinable = true; ends = ends } ∷ [])
        (started ends as')

started-IsStarted :
    (ends : Bool) (as' : List ℕ) → All (λ a. a ≢ 0) as' → All (IsStarted ends) (started ends as')
started-IsStarted ends [] h = tt
started-IsStarted ends (a ∷ as') h = ((h.0, refl, refl), started-IsStarted ends as' h.1)

pool-initialize :
    (id : ℕ) (s : ThreadManager) → (Threads.initialize id s).thread_pool ≡ s.thread_pool
unfolding Threads.initialize
pool-initialize id s = refl

-- What becomes of ReleaseManagers when there are threads.
abbrev pub hang_or_throw : Bool → Fault
hang_or_throw false = spins
hang_or_throw true = throws

release-fails :
    (ends : Bool) (m : Managers) (t : PoolThread) (ts : List PoolThread)
    → m.threads.thread_pool ≡ t ∷ ts
    → All (IsStarted ends) m.threads.thread_pool
    → release_managers m ≡ err (hang_or_throw ends)
unfolding release_managers
release-fails true m t ts e h =
    let (s', waited, ended) = wait-finalize_throws m.threads t ts e h in rw waited (rw ended refl)
release-fails false m t ts e h =
    rw (wait-spins m.threads t ts e (subst (All (IsStarted false)) e h).0) refl

release-empty :
    (m : Managers)
    → m.threads.thread_pool ≡ []
    → (m' : Managers) × (lines : List Level) × (release_managers m ≡ ok (m', lines))
unfolding release_managers wait_for_all_thread Threads.finalize join_all
release-empty m e = (
  record m {
    threads = record m.threads { thread_pool = []; released = true };
    config_released = true;
  },
  log m.log_manager info,
  rw e refl,
)

-- A program starts the managers, with no threads in the pool before, and runs the server with I/O
-- threads at the addresses `x` and `xs`, none of them null: if ThreadTask never returns in them (as
-- in the source, where nothing sets _shutDown), ReleaseManagers waits for ever, and if it returned in
-- all of them, ReleaseManagers would throw. With no I/O threads it comes to its end.
pub run-release_managers :
    (a : Setup) (ini : List ℕ) (x : ℕ) (xs : List ℕ) (s : Managers)
    → s.threads.thread_pool ≡ []
    → All (λ y. y ≢ 0) (x ∷ xs)
    → (s' : Managers) × (lines : List Level) × (release_managers
          (run false [] (initialize_managers a ini s).0).0
        ≡ ok (s', lines))
      × (release_managers (run false (x ∷ xs) (initialize_managers a ini s).0).0 ≡ err spins)
      × (release_managers (run true (x ∷ xs) (initialize_managers a ini s).0).0 ≡ err throws)
unfolding initialize_managers run
run-release_managers a ini x xs s e h =
    let (s', lines, returned) = alone in (s', lines, returned, failed false, failed true)
  where
    alone :
        (s' : Managers) × (lines : List Level) × (release_managers
            (run false [] (initialize_managers a ini s).0).0
          ≡ ok (s', lines))
    alone = release-empty (run false [] (initialize_managers a ini s).0).0 (
        pool-run_all false [] (Threads.initialize a.thread_id s.threads)
        ∙ append-nil _
        ∙ pool-initialize a.thread_id s.threads
        ∙ e)

    pool :
        (ends : Bool)
        → (run_all ends (x ∷ xs) (Threads.initialize a.thread_id s.threads)).thread_pool
          ≡ started ends (x ∷ xs)
    pool ends =
        pool-run_all ends (x ∷ xs) (Threads.initialize a.thread_id s.threads)
        ∙ ap (λ ts. ts ++ started ends (x ∷ xs)) (pool-initialize a.thread_id s.threads ∙ e)

    failed :
        (ends : Bool)
        → release_managers (run ends (x ∷ xs) (initialize_managers a ini s).0).0
          ≡ err (hang_or_throw ends)
    failed ends =
        release-fails ends (run ends (x ∷ xs) (initialize_managers a ini s).0).0 _ (started ends xs)
          (pool ends)
          (subst (All (IsStarted ends)) (sym (pool ends)) (started-IsStarted ends (x ∷ xs) h))
