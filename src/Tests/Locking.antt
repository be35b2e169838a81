-- ===== src/Tests/Locking.antt =====
-- ProgressLock at concrete attempts.
use dokevi_network.Prelude.{
  ◌+◌, ◌-◌, ◌%◌, ◌≤◌, ◌≡◌, ◌≢◌, ◌↔◌, refl, inr, [], ◌∷◌, arith, true, false,
}
use dokevi_network.Bytes.{word}
use dokevi_network.Progress.{ProgressLock, no_timeout, new_lock, start, finish}
use dokevi_network.Progress.Exclusive.{attempts, try_all, start-try_all}

-- A slot with a timeout of 100 milliseconds. Work 5 starts shortly before the tick count wraps, the
-- works 6 and 5 ask 5 and 30 milliseconds later, and the work 7 after 120.
start-try_all_example :
    (busy : ProgressLock) × (start 0 (word - 10) 5 (new_lock 100)
      ≡ (busy, record { started = true; cur_work_type = 5 }))
    × (try_all (attempts (word - 10) ((5, 6) ∷ (30, 5) ∷ [])) busy ≡ (
      busy,
      record { started = false; cur_work_type = 5 }
          ∷ record { started = false; cur_work_type = 5 }
          ∷ [],
    ))
    × (((start ((word - 10 + 120) % word) 0 7 busy).1.started ≡ true)
        ↔ ((100 ≢ no_timeout) × (100 ≤ 120)))
    × ((start ((word - 10 + 120) % word) 0 7 (finish busy)).1.started ≡ true)
unfolding new_lock
start-try_all_example =
    start-try_all (new_lock 100) 0 (word - 10) 5 ((5, 6) ∷ (30, 5) ∷ []) 120 0 7 refl
      (λ e. omega (arith, e)) (omega arith)
      ((omega arith, inr (omega arith)), ((omega arith, inr (omega arith)), tt)) (omega arith)
