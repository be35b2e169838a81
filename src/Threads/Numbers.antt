-- ===== src/Threads/Numbers.antt =====
-- The numbers that RegisterThread gives.
use dokevi_network.Prelude.{
  ℕ, ◌+◌, ◌-◌, ◌%◌, ◌<◌, ◌≡◌, ◌≢◌, refl, sym, ap, ap₂, subst, ◌*◌, ◌∙◌, List, [], ◌∷◌, none, some,
  arith, length, All, ok,
}
use dokevi_network.Threads.{
  ThreadType, io_task, ThreadInfo, ThreadManager, PoolThread, half_word, find_info, insert_info,
  register_thread, get_thread_info, get_thread_index, remove_thread, first_address, remove_address,
}

-- One thread after another registers itself.
unfoldable pub register_all : List ℕ → ThreadManager → List ℕ × ThreadManager
register_all [] s = ([], s)
register_all (id ∷ ids) s =
    let (index, s') = register_thread id io_task s in
    let (indices, s'') = register_all ids s' in (index ∷ indices, s'')

-- The numbers from `n` on.
abbrev pub from : ℕ → List ℕ → List ℕ
from n [] = []
from n (id ∷ ids) = n ∷ from (n + 1) ids

-- The threads are new, and no two are the same.
abbrev pub IsNew : List ℕ → ThreadManager → Type 0
IsNew ids s = All (λ id. find_info id s.info_map ≡ none) ids

abbrev pub IsDistinct : List ℕ → Type 0
IsDistinct [] = Unit {0}
IsDistinct (id ∷ ids) = All (λ k. id ≢ k) ids × IsDistinct ids

-- The map holds the numbers from `n` on for the threads.
abbrev pub IsNumbered : ℕ → List ℕ → ThreadManager → Type 0
IsNumbered n [] s = Unit {0}
IsNumbered n (id ∷ ids) s =
    (find_info id s.info_map ≡ some (record { index = n; type = io_task }))
    × IsNumbered (n + 1) ids s

find-insert_self :
    (id : ℕ) (info : ThreadInfo) (m : List (ℕ × ThreadInfo))
    → find_info id m ≡ none
    → find_info id (insert_info id info m) ≡ some info
unfolding insert_info find_info
find-insert_self id info m e = ground (arith, e)

find-insert_ne :
    (k id : ℕ) (info : ThreadInfo) (m : List (ℕ × ThreadInfo))
    → k ≢ id
    → find_info k (insert_info id info m) ≡ find_info k m
unfolding insert_info find_info
find-insert_ne k id info m n = ground arith

info_map-register :
    (id : ℕ) (t : ThreadType) (s : ThreadManager)
    → (register_thread id t s).1.info_map
      ≡ insert_info id (record { index = s.count; type = t }) s.info_map
unfolding register_thread
info_map-register id t s = refl

count-register :
    (id : ℕ) (t : ThreadType) (s : ThreadManager)
    → s.count + 1 < half_word
    → (register_thread id t s).1.count ≡ s.count + 1
unfolding register_thread
count-register id t s h = omega arith

index-register :
    (id : ℕ) (t : ThreadType) (s : ThreadManager) → (register_thread id t s).0 ≡ s.count
unfolding register_thread
index-register id t s = refl

-- The other threads' numbers stay.
find-register_ne :
    (k id : ℕ) (t : ThreadType) (s : ThreadManager)
    → k ≢ id
    → find_info k (register_thread id t s).1.info_map ≡ find_info k s.info_map
find-register_ne k id t s n =
    ap (find_info k) (info_map-register id t s) ∙ find-insert_ne k id _ s.info_map n

find-register_self :
    (id : ℕ) (t : ThreadType) (s : ThreadManager)
    → find_info id s.info_map ≡ none
    → find_info id (register_thread id t s).1.info_map ≡ some (record { index = s.count; type = t })
find-register_self id t s e =
    ap (find_info id) (info_map-register id t s) ∙ find-insert_self id _ s.info_map e

register_thread-IsNew :
    (ids : List ℕ) (id : ℕ) (s : ThreadManager)
    → All (λ k. id ≢ k) ids
    → IsNew ids s
    → IsNew ids (register_thread id io_task s).1
register_thread-IsNew [] id s d n = tt
register_thread-IsNew (k ∷ ks) id s d n = (
  find-register_ne k id io_task s (λ e. d.0 (sym e)) ∙ n.0,
  register_thread-IsNew ks id s d.1 n.1,
)

find-register_all :
    (k : ℕ) (ids : List ℕ) (s : ThreadManager)
    → All (λ id. k ≢ id) ids
    → find_info k (register_all ids s).1.info_map ≡ find_info k s.info_map
unfolding register_all
find-register_all k [] s d = refl
find-register_all k (id ∷ ids) s d =
    find-register_all k ids (register_thread id io_task s).1 d.1
    ∙ find-register_ne k id io_task s d.0

-- Threads that are new and different, and few enough for a `short`, are given the next numbers, one
-- each, and the map holds for each its own number.
pub register_all-from :
    (ids : List ℕ) (s : ThreadManager)
    → IsNew ids s
    → IsDistinct ids
    → s.count + length ids < half_word
    → ((register_all ids s).0 ≡ from s.count ids) × IsNumbered s.count ids (register_all ids s).1
unfolding register_all
register_all-from [] s new different few = (refl, tt)
register_all-from (id ∷ ids) s new different few =
    let s' = (register_thread id io_task s).1 in
    let counted = count-register id io_task s (omega arith) in
    let (indices, numbered) =
      register_all-from ids s' (register_thread-IsNew ids id s different.0 new.1) different.1
        (omega (arith, counted)) in
    (
      ap₂ ◌∷◌ (index-register id io_task s) (indices ∙ ap (λ n. from n ids) counted),
      (
        find-register_all id ids s' different.0 ∙ find-register_self id io_task s new.0,
        subst (λ n. IsNumbered n ids (register_all ids s').1) counted numbered,
      ),
    )

-- GetCurrentThreadIndex of a thread that the map knows.
pub get_thread_index_lem :
    (id : ℕ) (s : ThreadManager) {info : ThreadInfo}
    → find_info id s.info_map ≡ some info
    → get_thread_index id s ≡ (info.index, s)
unfolding get_thread_index get_thread_info
get_thread_index_lem id s e = ground (arith, e)

remove-ne : (a : ℕ) (ts : List PoolThread) → All (λ t. t.address ≢ a) ts → remove_address a ts ≡ ts
unfolding remove_address
remove-ne a [] h = refl
remove-ne a (t ∷ ts) h = ground (arith, remove-ne a ts h.1, h.0)

-- RemoveThread of a thread whose number brings it to an address that is not in the pool: only the
-- count of threads goes down; the pool keeps all its threads, and the map keeps the thread.
pub remove_thread-keeps :
    (stride id : ℕ) (s : ThreadManager) (t : PoolThread) (ts : List PoolThread) (info : ThreadInfo)
    → s.thread_pool ≡ t ∷ ts
    → find_info id s.info_map ≡ some info
    → info.index < 32768
    → All (λ u. u.address ≢ t.address + stride * info.index) s.thread_pool
    → remove_thread stride id s ≡ ok (record s { size = (s.size + half_word - 1) % half_word })
unfolding remove_thread first_address get_thread_info
remove_thread-keeps stride id s t ts info e f small away =
    ground (arith, e, f, remove-ne (t.address + stride * info.index) s.thread_pool away)
