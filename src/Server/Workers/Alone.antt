-- ===== src/Server/Workers/Alone.antt =====
-- RecvPacket has no lock: that one I/O thread at most is in it for a socket follows from its calls of
-- WSARecv.
use dokevi_network.Prelude.{
  ℕ, suc, ◌+◌, ◌≤◌, ◌<◌, ◌≡◌, ◌≢◌, ◌⊎◌, inl, inr, refl, arith, Bool, true, false, ◌==◌, sum_below,
  sum_below-change, sum_below-zero, add-le-sum_below, ap,
}
use dokevi_network.Server.Workers.{
  Shared, Worker, connecting, receiving, Move, accept, ask_first, introduce, count_in, arrive,
  hand_on, ask_again, end_receive, end_accept, end_send, lose_receive, lose_accept, replace, part,
  count_out, System, update, start, Reach, begin, next,
}

pub update_self : (f : ℕ → Worker) (i : ℕ) (w : Worker) → update f i w i ≡ w
update_self f i w = ground arith

pub update_ne : (f : ℕ → Worker) (i j : ℕ) (w : Worker) → i ≢ j → update f i w j ≡ f j
update_ne f i j w n = ground arith

abbrev bit : Bool → ℕ
bit true = 1
bit false = 0

module _ (c : ℕ) where
  -- Whether a thread is about to call, or in, RecvPacket of the connection.
  abbrev pub holds : Worker → ℕ
  holds (connecting n) = bit (n == c)
  holds (receiving n) = bit (n == c)
  holds _ = 0

  abbrev open_at : Shared → ℕ
  open_at s = bit (s.accepting c) + bit (s.asked c)

  -- A move takes what it gives; only a new socket brings something.
  record Kept (s s' : Shared) (w w' : Worker) : Type 0 where
    made : s.made ≤ s'.made
    fewer :
        (open_at s' + holds w' ≤ open_at s + holds w)
        ⊎ ((c ≡ s.made)
            × (s'.made ≡ suc s.made)
            × (open_at s' + holds w' ≤ open_at s + holds w + 1))

  Move-Kept : (s s' : Shared) (w w' : Worker) → Move s w s' w' → Kept s s' w w'
  Move-Kept s s' w w' (accept n p a) = ground arith
  Move-Kept s s' w w' (ask_first n p) = ground arith
  Move-Kept s s' w w' (introduce n p) = ground arith
  Move-Kept s s' w w' (count_in p) = ground arith
  Move-Kept s s' w w' (arrive n p a) = ground arith
  Move-Kept s s' w w' (hand_on n p) = ground arith
  Move-Kept s s' w w' (ask_again n p) = ground arith
  Move-Kept s s' w w' (end_receive n p a) = ground arith
  Move-Kept s s' w w' (end_accept n p a) = ground arith
  Move-Kept s s' w w' (end_send n p a) = ground arith
  Move-Kept s s' w w' (lose_receive n p a) = ground arith
  Move-Kept s s' w w' (lose_accept n p a) = ground arith
  Move-Kept s s' w w' (replace n p) = ground arith
  Move-Kept s s' w w' (part n p) = ground arith
  Move-Kept s s' w w' (count_out p) = ground arith

  module _ (threads : ℕ) where
    -- The receives and accepts of the connection that are pending, and the threads that have one.
    abbrev tokens : Shared → (ℕ → Worker) → ℕ
    tokens s f = open_at s + sum_below threads (λ i. holds (f i))

    holds-update :
        (i : ℕ) (f : ℕ → Worker) (w : Worker)
        → i < threads
        → sum_below threads (λ j. holds (update f i w j)) + holds (f i)
          ≡ sum_below threads (λ j. holds (f j)) + holds w
    holds-update i f w lt = omega (
      arith,
      sum_below-change threads i (λ j. holds (f j)) (λ j. holds (update f i w j)) lt
          (λ j ne. ap holds (update_ne f i j w ne)),
      ap holds (update_self f i w),
    )

    record Inv (s : Shared) (f : ℕ → Worker) : Type 0 where
      one : tokens s f ≤ 1
      unmade : s.made ≤ c → tokens s f ≡ 0

    start-Inv : (k : ℕ) → Inv (start k).shared (start k).workers
    start-Inv k = record {
      one = ground (arith, sum_below-zero threads (λ i. 0) (λ i. refl));
      unmade = λ h. ground (arith, sum_below-zero threads (λ i. 0) (λ i. refl));
    }

    Reach-Inv : {k : ℕ} {s : System} → Reach threads k s → Inv s.shared s.workers
    Reach-Inv {k} begin = start-Inv k
    Reach-Inv (next {s} i {l} {w} r lt mv) =
        let inv = Reach-Inv r in
        let k = Move-Kept s.shared l (s.workers i) w mv in
        let moved = holds-update i s.workers w lt in
        elim k.fewer [
          | inl less ↦ record {
            one = omega (arith, inv.one, less, moved);
            unmade = λ h. omega (arith, inv.unmade (omega (arith, k.made, h)), less, moved);
          }
          | inr new ↦ record {
            one = omega (arith, inv.unmade (omega (arith, new.0)), new.2, moved);
            unmade = λ h. absurd (omega (arith, h, new.0, new.1));
          }
        ]

    -- In every state that the I/O threads reach: while one of them is in a RecvPacket of a connection,
    -- or about to make its first call of it, no other one is, and no receive and no accept of the
    -- connection is pending.
    pub recv_packet_alone :
        {k : ℕ} {s : System} (i j : ℕ)
        → Reach threads k s
        → i < threads
        → j < threads
        → i ≢ j
        → holds (s.workers i) ≡ 1
        → (holds (s.workers j) ≡ 0) × (s.shared.asked c ≡ false) × (s.shared.accepting c ≡ false)
    recv_packet_alone {s = s} i j r a b ne h =
        let inv = Reach-Inv r in
        let both = add-le-sum_below threads i j (λ m. holds (s.workers m)) a b ne in
        (
          omega (arith, inv.one, both, h),
          ground (arith, inv.one, both, h),
          ground (arith, inv.one, both, h),
        )
