-- ===== src/Progress/Exclusive.antt =====
-- Who may start while work is in progress.
use dokevi_network.Prelude.{
  ℕ, ◌+◌, ◌%◌, ◌≤◌, ◌<◌, ◌≡◌, ◌≢◌, ◌↔◌, ◌⊎◌, inl, inr, refl, ap, List, [], ◌∷◌, arith, true, false,
  All, map, dec_lt, ℕ_discrete,
}
use dokevi_network.Bytes.{word}
use dokevi_network.Progress.{ProgressLock, no_timeout, Answer, is_time_out, start, finish}

-- One attempt: the two tick counts and the work.
pub record Attempt : Type 0 where
  pub now : ℕ
  pub later : ℕ
  pub work : ℕ

unfoldable pub try_all : List Attempt → ProgressLock → ProgressLock × List Answer
try_all [] l = (l, [])
try_all (a ∷ as') l =
    let (l', answer) = start a.now a.later a.work l in
    let (l'', answers) = try_all as' l' in (l'', answer ∷ answers)

-- The timeout is measured right across a wrap of the tick count: after `elapsed` milliseconds it
-- has come exactly when there is one and it is at most `elapsed`.
is_time_out_iff :
    (l : ProgressLock) (elapsed : ℕ)
    → l.cur_work ≢ 0
    → l.start_tick < word
    → elapsed < word
    → (is_time_out ((l.start_tick + elapsed) % word) l ≡ true)
      ↔ ((l.timeout ≢ no_timeout) × (l.timeout ≤ elapsed))
unfolding is_time_out
is_time_out_iff l elapsed h a b = ground arith

-- `elapsed` milliseconds behind `tick` are before the timeout, or there is none.
abbrev pub IsEarly : ℕ → ℕ → Type 0
IsEarly timeout elapsed = (timeout ≡ no_timeout) ⊎ (elapsed < timeout)

-- The attempts of `works`, the tick counts of which are so many milliseconds behind `tick`.
abbrev pub attempts : ℕ → List (ℕ × ℕ) → List Attempt
attempts tick [] = []
attempts tick ((elapsed, work) ∷ as') =
    record { now = (tick + elapsed) % word; later = (tick + elapsed) % word; work = work }
    ∷ attempts tick as'

abbrev pub refusals : {A : Type 0} → ℕ → List A → List Answer
refusals work as' = map (λ a. record { started = false; cur_work_type = work }) as'

-- Start on a slot that is at work, so many milliseconds behind its tick.
start-busy :
    (l : ProgressLock) (elapsed later work : ℕ)
    → l.cur_work ≢ 0
    → l.start_tick < word
    → elapsed < word
    → IsEarly l.timeout elapsed
    → start ((l.start_tick + elapsed) % word) later work l
      ≡ (l, record { started = false; cur_work_type = l.cur_work })
unfolding start
start-busy l elapsed later work busy small range early =
    ground (arith, is_time_out_iff l elapsed busy small range)

start-overdue :
    (l : ProgressLock) (elapsed later work : ℕ)
    → l.cur_work ≢ 0
    → l.start_tick < word
    → elapsed < word
    → ¬ (IsEarly l.timeout elapsed)
    → start ((l.start_tick + elapsed) % word) later work l
      ≡ (record l { start_tick = later }, record { started = true; cur_work_type = work })
unfolding start
start-overdue l elapsed later work busy small range late =
    ground (arith, is_time_out_iff l elapsed busy small range)

try_all-busy :
    (l : ProgressLock) (works : List (ℕ × ℕ))
    → l.cur_work ≢ 0
    → l.start_tick < word
    → All (λ w. (w.0 < word) × IsEarly l.timeout w.0) works
    → try_all (attempts l.start_tick works) l ≡ (l, refusals l.cur_work works)
unfolding try_all
try_all-busy l [] busy small early = refl
try_all-busy l ((e, work) ∷ works) busy small early = rw (
  start-busy l e ((l.start_tick + e) % word) work busy small early.0.0 early.0.1,
  try_all-busy l works busy small early.1,
)

start-free :
    (l : ProgressLock) (now later work : ℕ)
    → l.cur_work ≡ 0
    → start now later work l ≡ (
      record { cur_work = work; timeout = l.timeout; start_tick = later },
      record { started = true; cur_work_type = work },
    )
unfolding start is_time_out
start-free l now later work free = ground arith

-- On a slot where no work is in progress, a Start with a work that is not 0, for which the tick count is
-- `tick`, starts. From then on, with all times below 2 ^ 32 milliseconds behind `tick` and the tick
-- counts taken modulo 2 ^ 32: every attempt is refused and told that work as long as there is no
-- timeout or it has not come, and these attempts change nothing, however many there are; an attempt
-- behind them starts exactly if there is a timeout and it has come; and behind a Finish every one does.
pub start-try_all :
    (l : ProgressLock) (now tick work : ℕ) (works : List (ℕ × ℕ)) (elapsed later next : ℕ)
    → l.cur_work ≡ 0
    → work ≢ 0
    → tick < word
    → All (λ w. (w.0 < word) × IsEarly l.timeout w.0) works
    → elapsed < word
    → (busy : ProgressLock) × (start now tick work l
        ≡ (busy, record { started = true; cur_work_type = work }))
      × (try_all (attempts tick works) busy ≡ (busy, refusals work works))
      × (((start ((tick + elapsed) % word) later next busy).1.started ≡ true)
          ↔ ((l.timeout ≢ no_timeout) × (l.timeout ≤ elapsed)))
      × ((start ((tick + elapsed) % word) later next (finish busy)).1.started ≡ true)
unfolding finish
start-try_all l now tick work works elapsed later next free some_work small early range = (
  busy,
  start-free l now tick work free,
  try_all-busy busy works some_work small early,
  elim (dec_lt elapsed l.timeout) [
    | yes b ↦
        rw (start-busy busy elapsed later next some_work small range (inr b))
          ((λ e. absurd (cc)), (λ (_, h). absurd (omega (arith, b, h))))
    | no n ↦ elim (ℕ_discrete l.timeout no_timeout) [
      | yes e ↦
          rw (start-busy busy elapsed later next some_work small range (inl e))
            ((λ q. absurd (cc)), (λ (h, _). absurd (h e)))
      | no m ↦
          rw
            (start-overdue busy elapsed later next some_work small range
              (λ early'. elim early' [ inl e ↦ m e | inr b ↦ n b ]))
            ((λ _. (m, omega (arith, n))), λ _. refl)
    ]
  ],
  ap (λ (r : ProgressLock × Answer). r.1.started)
      (start-free (finish busy) ((tick + elapsed) % word) later next refl),
)
  where
    busy : ProgressLock
    busy = record { cur_work = work; timeout = l.timeout; start_tick = tick }

-- An attempt behind the timeout starts, but the slot keeps the name of the work that was there: the
-- next refusal names the old work.
pub start-late :
    (l : ProgressLock) (a b : Attempt)
    → l.cur_work ≢ 0
    → is_time_out a.now l ≡ true
    → is_time_out b.now (start a.now a.later a.work l).0 ≡ false
    → ((start a.now a.later a.work l).1 ≡ record { started = true; cur_work_type = a.work })
      × ((start b.now b.later b.work (start a.now a.later a.work l).0).1
          ≡ record { started = false; cur_work_type = l.cur_work })
unfolding start
start-late l a b h late early = ground arith
