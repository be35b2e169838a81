-- ===== src/Server/Workers/Order.antt =====
-- ConnectHanadler asks for the first receive before it calls ConnectedHandler. What that means for one
-- I/O thread, and for two.
use dokevi_network.Prelude.{
  ℕ, ◌<◌, ◌≡◌, ◌≢◌, ◌⊎◌, refl, sym, ap, ◌∙◌, List, [], ◌∷◌, arith, Bool, true, false, ◌==◌,
  if◌then◌else◌, subst,
}
use dokevi_network.Server.Workers.{
  Call, connected, packet, disconnected, Shared, Worker, idle, connecting, introducing, receiving,
  Move, accept, ask_first, introduce, count_in, arrive, hand_on, ask_again, end_receive, end_accept,
  end_send, lose_receive, lose_accept, replace, part, count_out, System, update, Reach, begin, next,
}
use dokevi_network.Server.Workers.Alone.{update_self, update_ne}

-- Whether the application has been told of the connection.
abbrev pub told : ℕ → List Call → Bool
told c [] = false
told c (connected n ∷ l) = let rest = told c l in if n == c then true else rest
told c (packet n ∷ l) = told c l
told c (disconnected n ∷ l) = told c l

-- Each packet of the connection comes behind ConnectedHandler.
abbrev pub InOrder : ℕ → List Call → Type 0
InOrder c [] = Unit {0}
InOrder c (connected n ∷ l) = InOrder c l
InOrder c (packet n ∷ l) = (n ≡ c → told c l ≡ true) × InOrder c l
InOrder c (disconnected n ∷ l) = InOrder c l

-- For one thread: a receive of the connection that is pending has been asked for in ConnectHanadler
-- just now, or the application has been told.
record Inv (c : ℕ) (s : Shared) (w : Worker) : Type 0 where
  asked : s.asked c ≡ true → (w ≡ introducing c) ⊎ (told c s.calls ≡ true)
  receiving : w ≡ receiving c → told c s.calls ≡ true
  ordered : InOrder c s.calls

Move-Inv : (c : ℕ) (s s' : Shared) (w w' : Worker) → Inv c s w → Move s w s' w' → Inv c s' w'
Move-Inv c s s' w w' v (accept n p a) = ground arith
Move-Inv c s s' w w' v (ask_first n p) = ground arith
Move-Inv c s s' w w' v (introduce n p) = ground arith
Move-Inv c s s' w w' v (count_in p) = ground arith
Move-Inv c s s' w w' v (arrive n p a) = ground arith
Move-Inv c s s' w w' v (hand_on n p) = ground arith
Move-Inv c s s' w w' v (ask_again n p) = ground arith
Move-Inv c s s' w w' v (end_receive n p a) = ground arith
Move-Inv c s s' w w' v (end_accept n p a) = ground arith
Move-Inv c s s' w w' v (end_send n p a) = ground arith
Move-Inv c s s' w w' v (lose_receive n p a) = ground arith
Move-Inv c s s' w w' v (lose_accept n p a) = ground arith
Move-Inv c s s' w w' v (replace n p) = ground arith
Move-Inv c s s' w w' v (part n p) = ground arith
Move-Inv c s s' w w' v (count_out p) = ground arith

Reach-Inv : (c : ℕ) {k : ℕ} {s : System} → Reach 1 k s → Inv c s.shared (s.workers 0)
Reach-Inv c begin = record { asked = λ e. cc; receiving = λ e. cc; ordered = tt }
Reach-Inv c (next {s} i {l} {w} r lt mv) =
    let first : i ≡ 0 = omega (arith, lt) in
    subst (Inv c l) (sym (ap (λ m. update s.workers i w m) (sym first) ∙ update_self s.workers i w))
      (Move-Inv c s.shared l (s.workers 0) w (Reach-Inv c r)
        (subst (λ m. Move s.shared (s.workers m) l w) first mv))

-- With one I/O thread, PacketHandler is never called for a connection before its ConnectedHandler is.
pub one_thread-InOrder : (c : ℕ) {k : ℕ} {s : System} → Reach 1 k s → InOrder c s.shared.calls
one_thread-InOrder c r = (Reach-Inv c r).ordered

-- From every state that two I/O threads or more reach: where two of them wait for completions, and
-- the accept of a connection is pending, they can reach a state in which PacketHandler has been called
-- for the connection, while the thread that handles the accept still stands in front of
-- ConnectedHandler.
pub two_threads-early :
    (c : ℕ) {threads k : ℕ} {s : System} (i j : ℕ)
    → Reach threads k s
    → i < threads
    → j < threads
    → i ≢ j
    → s.workers i ≡ idle
    → s.workers j ≡ idle
    → s.shared.accepting c ≡ true
    → (s' : System) × Reach threads k s'
      × (s'.shared.calls ≡ packet c ∷ s.shared.calls)
      × (s'.workers i ≡ introducing c)
two_threads-early c {s = s} i j r a b ne p q pending =
    let f = update s.workers i (connecting c) in
    let g = update f i (introducing c) in
    let h = update g j (receiving c) in
    let others : j ≢ i = λ e. ne (sym e) in
    let still : g j ≡ idle =
      update_ne f i j (introducing c) ne ∙ update_ne s.workers i j (connecting c) ne ∙ q in
    (
      _,
      next j
          (next j
            (next i (next i r a (accept c p pending)) a
              (ask_first c (update_self s.workers i (connecting c))))
            b (arrive c still (ground arith)))
          b (hand_on c (update_self g j (receiving c))),
      refl,
      update_ne h j i (receiving c) others
          ∙ update_ne g j i (receiving c) others
          ∙ update_self f i (introducing c),
    )
