-- ===== src/Server/Workers/Count.antt =====
-- What _clientSize counts, whichever I/O threads change it.
use dokevi_network.Prelude.{
  ℕ, suc, ◌+◌, ◌%◌, ◌<◌, ◌≡◌, refl, ap, List, [], ◌∷◌, arith, sum_below, sum_below-change,
  sum_below-zero,
}
use dokevi_network.Pool.{uint64}
use dokevi_network.Server.Workers.{
  Call, connected, packet, disconnected, Shared, Worker, idle, counting, uncounting, Move, accept,
  ask_first, introduce, count_in, arrive, hand_on, ask_again, end_receive, end_accept, end_send,
  lose_receive, lose_accept, replace, part, count_out, System, update, Reach, begin, next,
}
use dokevi_network.Server.Workers.Alone.{update_self, update_ne}

-- How often ConnectedHandler and DisconnectedHandler have been called.
abbrev pub ins : List Call → ℕ
ins [] = 0
ins (connected n ∷ l) = suc (ins l)
ins (packet n ∷ l) = ins l
ins (disconnected n ∷ l) = ins l

abbrev pub outs : List Call → ℕ
outs [] = 0
outs (connected n ∷ l) = outs l
outs (packet n ∷ l) = outs l
outs (disconnected n ∷ l) = suc (outs l)

-- A thread that has called a handler and not counted yet.
abbrev pub up : Worker → ℕ
up counting = 1
up _ = 0

abbrev pub down : Worker → ℕ
down uncounting = 1
down _ = 0

-- A move changes both sides alike.
record Kept (s s' : Shared) (w w' : Worker) : Type 0 where
  equal :
      (s'.client_size + outs s'.calls + up w' + ins s.calls + down w) % uint64
      ≡ (s.client_size + outs s.calls + up w + ins s'.calls + down w') % uint64

Move-Kept : (s s' : Shared) (w w' : Worker) → Move s w s' w' → Kept s s' w w'
Move-Kept s s' w w' (accept n p a) = ground arith
Move-Kept s s' w w' (ask_first n p) = ground arith
Move-Kept s s' w w' (introduce n p) = ground arith
Move-Kept s s' w w' (count_in p) = ground arith
Move-Kept s s' w w' (arrive n p a) = ground arith
Move-Kept s s' w w' (hand_on n p) = ground arith
Move-Kept s s' w w' (ask_again n p) = ground arith
Move-Kept s s' w w' (end_receive n p a) = ground arith
Move-Kept s s' w w' (end_accept n p a) = ground arith
Move-Kept s s' w w' (end_send n p a) = ground arith
Move-Kept s s' w w' (lose_receive n p a) = ground arith
Move-Kept s s' w w' (lose_accept n p a) = ground arith
Move-Kept s s' w w' (replace n p) = ground arith
Move-Kept s s' w w' (part n p) = ground arith
Move-Kept s s' w w' (count_out p) = ground arith

module _ (threads : ℕ) where
  abbrev pub total : (Worker → ℕ) → (ℕ → Worker) → ℕ
  total g f = sum_below threads (λ i. g (f i))

  total-update :
      (g : Worker → ℕ) (i : ℕ) (f : ℕ → Worker) (w : Worker)
      → i < threads
      → total g (update f i w) + g (f i) ≡ total g f + g w
  total-update g i f w lt = omega (
    arith,
    sum_below-change threads i (λ j. g (f j)) (λ j. g (update f i w j)) lt
        (λ j ne. ap g (update_ne f i j w ne)),
    ap g (update_self f i w),
  )

  Reach-total :
      {k : ℕ} {s : System}
      → Reach threads k s
      → (s.shared.client_size + outs s.shared.calls + total up s.workers) % uint64
        ≡ (ins s.shared.calls + total down s.workers) % uint64
  Reach-total begin = omega (arith, sum_below-zero threads (λ i. 0) (λ i. refl))
  Reach-total (next {s} i {l} {w} r lt mv) = omega (
    arith,
    Reach-total r,
    (Move-Kept s.shared l (s.workers i) w mv).equal,
    total-update up i s.workers w lt,
    total-update down i s.workers w lt,
  )

  -- In every state that the I/O threads reach and in which all of them wait for completions,
  -- _clientSize is the number of calls of ConnectedHandler less the one of DisconnectedHandler, modulo
  -- 2 ^ 64.
  pub client_size-calls :
      {k : ℕ} {s : System}
      → Reach threads k s
      → ((i : ℕ) → s.workers i ≡ idle)
      → (s.shared.client_size + outs s.shared.calls) % uint64 ≡ ins s.shared.calls % uint64
  client_size-calls {s = s} r all = omega (
    arith,
    Reach-total r,
    sum_below-zero threads (λ i. up (s.workers i)) (λ i. ap up (all i)),
    sum_below-zero threads (λ i. down (s.workers i)) (λ i. ap down (all i)),
  )
