-- ===== src/Threads/Ending.antt =====
-- Waiting for the threads, and ending.
use dokevi_network.Prelude.{
  ◌≡◌, ◌≢◌, refl, ap, subst, List, [], ◌∷◌, Bool, true, false, ok, err, throws, spins, arith, All,
  map,
}
use dokevi_network.Threads.{
  ThreadManager, PoolThread, join, join_all, wait_for_all_thread, finalize,
}

-- A thread that TaskRun has started and nobody has joined, of which the function returns if `ends`
-- says so.
abbrev pub IsStarted : Bool → PoolThread → Type 0
IsStarted ends t = (t.address ≢ 0) × (t.joinable ≡ true) × (t.ends ≡ ends)

joined : PoolThread → PoolThread
joined t = record t { joinable = false }

joined_lem : (t : PoolThread) → (joined t).joinable ≡ false
unfolding joined
joined_lem t = refl

join_all_lem : (ts : List PoolThread) → All (IsStarted true) ts → join_all ts ≡ ok (map joined ts)
unfolding join_all join joined
join_all_lem [] h = refl
join_all_lem (t ∷ ts) h = ground (arith, h.0, join_all_lem ts h.1)

join_all-joined :
    (t : PoolThread) (ts : List PoolThread)
    → t.address ≢ 0
    → join_all (map joined (t ∷ ts)) ≡ err throws
unfolding join_all join joined
join_all-joined t ts h = ground arith

-- A thread that does not end holds up WaitForAllThread for ever, if it is the first one.
pub wait-spins :
    (s : ThreadManager) (t : PoolThread) (ts : List PoolThread)
    → s.thread_pool ≡ t ∷ ts
    → IsStarted false t
    → wait_for_all_thread s ≡ err spins
unfolding wait_for_all_thread join_all join
wait-spins s t ts e h = rw e (ground (arith, h.0, h.1, h.2))

-- The order in which ReleaseManagers calls them: when the threads end, WaitForAllThread joins every
-- one, and the Finalize behind it throws from its first join, if there is a thread.
pub wait-finalize_throws :
    (s : ThreadManager) (t : PoolThread) (ts : List PoolThread)
    → s.thread_pool ≡ t ∷ ts
    → All (IsStarted true) s.thread_pool
    → (s' : ThreadManager) × (wait_for_all_thread s ≡ ok s') × (finalize s' ≡ err throws)
unfolding wait_for_all_thread finalize
wait-finalize_throws s t ts e h = (
  record s { thread_pool = map joined s.thread_pool },
  rw (join_all_lem s.thread_pool h),
  rw (ap (map joined) e) (rw (join_all-joined t ts (subst (All (IsStarted true)) e h).0.0)),
)

-- Finalize alone joins every started thread, when they end.
pub finalize-joins :
    (s : ThreadManager)
    → All (IsStarted true) s.thread_pool
    → (s' : ThreadManager) × (finalize s ≡ ok s')
      × All (λ t. t.joinable ≡ false) s'.thread_pool
      × (s'.released ≡ true)
unfolding finalize
finalize-joins s h = (
  record s { thread_pool = map joined s.thread_pool; released = true },
  rw (join_all_lem s.thread_pool h),
  all_joined s.thread_pool,
  refl,
)
  where
    all_joined : (ts : List PoolThread) → All (λ t. t.joinable ≡ false) (map joined ts)
    all_joined [] = tt
    all_joined (t ∷ ts) = (joined_lem t, all_joined ts)
