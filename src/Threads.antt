-- ===== src/Threads.antt =====
-- ThreadManager.h and ThreadManager.cpp: the numbers of the threads, and the pool of threads that
-- TaskRun starts. A thread's id is a number; that of the calling thread is an argument. The functions
-- that take the manager's mutex are one step. A ThreadIndex, a `short`, is its 16-bit pattern.
pub mod Numbers
pub mod Ending
use dokevi_network.Prelude.{
  ℕ, suc, ◌+◌, ◌-◌, ◌*◌, ◌%◌, ◌^◌, List, [], ◌∷◌, ◌++◌, Bool, true, false, Option, none, some,
  Result, ok, err, overrun, throws, spins, ◌>>=◌, ◌==◌, ltb, not, if◌then◌else◌,
}

pub data ThreadType : Type 0 where
  main_thread io_task : ThreadType

pub record ThreadInfo : Type 0 where
  pub index : ℕ
  pub type : ThreadType

-- A std::thread object behind the pointer that the pool holds: 0 is the null pointer. `ends` says
-- whether the function that it runs returns.
pub record PoolThread : Type 0 where
  pub address : ℕ
  pub joinable : Bool
  pub ends : Bool

pub record ThreadManager : Type 0 where
  pub cur_thread : ℕ
  pub count : ℕ
  pub size : ℕ
  pub main_thread_id : ℕ
  pub info_map : List (ℕ × ThreadInfo)
  pub thread_pool : List PoolThread
  pub released : Bool

-- `unsigned short` and `short`.
abbrev pub half_word : ℕ
half_word = 2 ^ 16

unfoldable pub find_info : ℕ → List (ℕ × ThreadInfo) → Option ThreadInfo
find_info id [] = none
find_info id ((k, info) ∷ m) = if id == k then some info else find_info id m

-- std::map::insert keeps what is there.
unfoldable pub insert_info : ℕ → ThreadInfo → List (ℕ × ThreadInfo) → List (ℕ × ThreadInfo)
insert_info id info m = elim (find_info id m) [ none ↦ (id, info) ∷ m | some _ ↦ m ]

-- What `_infoMap[id]` puts in for an id that is not there.
abbrev pub no_info : ThreadInfo
no_info = record { index = 0; type = main_thread }

unfoldable pub initialize : ℕ → ThreadManager → ThreadManager
initialize id s = record s {
  cur_thread = 0;
  count = 1;
  size = 1;
  main_thread_id = id;
  info_map = insert_info id (record { index = 0; type = main_thread }) s.info_map;
}

-- Both overloads of RegisterThread: the id is that of the given thread, or of the calling one.
unfoldable pub register_thread : ℕ → ThreadType → ThreadManager → ℕ × ThreadManager
register_thread id type s = (
  s.count,
  record s {
    count = (s.count + 1) % half_word;
    info_map = insert_info id (record { index = s.count; type = type }) s.info_map;
    size = (s.size + 1) % half_word;
  },
)

unfoldable pub get_thread_info : ℕ → ThreadManager → ThreadInfo × ThreadManager
get_thread_info id s = elim (find_info id s.info_map) [
  | none ↦ (no_info, record s { info_map = (id, no_info) ∷ s.info_map })
  | some info ↦ (info, s)
]

unfoldable pub get_thread_index : ℕ → ThreadManager → ℕ × ThreadManager
get_thread_index id s = let (info, s') = get_thread_info id s in (info.index, s')

abbrev pub get_thread_count : ThreadManager → ℕ
get_thread_count s = s.size

-- for (int i = 0; i < loop; i++): none for a negative number.
abbrev pub loops : ℕ → ℕ
loops index = if ltb index 32768 then index else 0

-- _threadPool.remove(iter)
unfoldable pub remove_address : ℕ → List PoolThread → List PoolThread
remove_address a [] = []
remove_address a (t ∷ ts) =
    let rest = remove_address a ts in if t.address == a then rest else t ∷ rest

-- front() of the list, which must not be empty.
unfoldable pub first_address : List PoolThread → Result ℕ
first_address [] = err overrun
first_address (t ∷ ts) = ok t.address

-- `iter` is the first pointer of the pool, not an iterator, so that `iter++` goes on by
-- sizeof(std::thread), which is `stride`.
unfoldable pub remove_thread : ℕ → ℕ → ThreadManager → Result ThreadManager
remove_thread stride id s = first_address s.thread_pool >>= λ front.
    let (info, s') = get_thread_info id s in
    ok (record s' {
      thread_pool = remove_address (front + stride * loops info.index) s.thread_pool;
      size = (s.size + half_word - 1) % half_word;
    })

-- `new thread` gives the object at `address`. `ends` says whether `task` returns.
unfoldable pub task_run : Bool → ℕ → ThreadManager → ThreadManager
task_run ends address s = record s {
  thread_pool = s.thread_pool ++ (record { address = address; joinable = true; ends = ends } ∷ []);
}

-- join(), which throws for a thread that has been joined, and else waits until the thread's function
-- has returned: it is `spins` for one that never does.
unfoldable pub join : PoolThread → Result PoolThread
join t =
    if t.address == 0
    then ok t
    else if not t.joinable
    then err throws
    else if t.ends
    then ok (record t { joinable = false })
    else err spins

unfoldable pub join_all : List PoolThread → Result (List PoolThread)
join_all [] = ok []
join_all (t ∷ ts) = do t' ← join t; ts' ← join_all ts; ok (t' ∷ ts')

unfoldable pub wait_for_all_thread : ThreadManager → Result ThreadManager
wait_for_all_thread s = do ts ← join_all s.thread_pool; ok (record s { thread_pool = ts })

-- The threads are deleted too; the list keeps their pointers.
unfoldable pub finalize : ThreadManager → Result ThreadManager
finalize s = do ts ← join_all s.thread_pool; ok (record s { thread_pool = ts; released = true })
