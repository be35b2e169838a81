-- ===== src/Tests/Hosting.antt =====
-- The server of Serving with its sockets, at concrete completions.
use dokevi_network.Prelude.{ℕ, zero, suc, inl, ◌≡◌, refl, sym, subst, List, [], ◌∷◌, arith, ok}
use dokevi_network.Log.{new_log_manager}
use dokevi_network.Server.{Completion, accepted, arrived}
use dokevi_network.Receive.{new_receiver}
use dokevi_network.Receive.Rounds.{new_receiver-IsValid}
use dokevi_network.Framing.{IsFrame, Frames-concat, stop}
use dokevi_network.Bytes.{uint_of_bytes}
use dokevi_network.Server.Sockets.{Sockets, Input, Call, sockets_task}
use dokevi_network.Server.Isolation.{arrivals, at, calls_of}
use dokevi_network.Server.Delivery.{IsReady, IsStream, Gives, sockets_task-delivers}
use dokevi_network.Tests.Serving.{allocate, server, server-IsValid, succeeding, succeeding-IsFine}

-- Both sockets are new, and a client sends a message in two pieces while another one sends a message
-- and leaves; the connection that takes its place brings one byte.
abbrev input : Completion → List ℕ → Input
input c b = record { round = succeeding c; buffer = b }

abbrev inputs : List Input
inputs =
    input (accepted 0) []
    ∷ input (arrived 0 5) (6 ∷ 0 ∷ 0 ∷ 0 ∷ 1 ∷ [])
    ∷ input (accepted 1) []
    ∷ input (arrived 1 5) (5 ∷ 0 ∷ 0 ∷ 0 ∷ 7 ∷ [])
    ∷ input (arrived 0 1) (2 ∷ 0 ∷ 0 ∷ 0 ∷ 1 ∷ [])
    ∷ input (arrived 1 0) []
    ∷ input (accepted 2) []
    ∷ input (arrived 2 1) (9 ∷ [])
    ∷ []

abbrev sockets : Sockets
sockets = record { server = server; receivers = new_receiver 0 ∷ new_receiver 0 ∷ [] }

abbrev sent_to : ℕ → List (List ℕ)
sent_to zero = (6 ∷ 0 ∷ 0 ∷ 0 ∷ 1 ∷ 2 ∷ []) ∷ []
sent_to (suc zero) = (5 ∷ 0 ∷ 0 ∷ 0 ∷ 7 ∷ []) ∷ []
sent_to _ = []

abbrev left_in : ℕ → List ℕ
left_in (suc (suc zero)) = 9 ∷ []
left_in _ = []

frame : IsFrame (6 ∷ 0 ∷ 0 ∷ 0 ∷ 1 ∷ 2 ∷ []) × IsFrame (5 ∷ 0 ∷ 0 ∷ 0 ∷ 7 ∷ [])
unfolding uint_of_bytes
frame = (
  record { headed = omega arith; announced = refl },
  record { headed = omega arith; announced = refl },
)

nothing : (n : ℕ) → arrivals (suc (suc (suc n))) inputs ≡ []
nothing n = ground arith

quiet : IsStream 6 [] (new_receiver 0) [] []
unfolding new_receiver
quiet = record {
  valid = (new_receiver-IsValid 0).0;
  partial = inl (omega arith);
  small = tt;
  framed = stop (inl (omega arith));
  short = tt;
  last = omega arith;
}

streams :
    (n : ℕ)
    → IsStream 6 (arrivals n inputs) (at (λ k. 0) sockets.receivers n) (sent_to n) (left_in n)
unfolding new_receiver
streams zero = record {
  valid = (new_receiver-IsValid 0).0;
  partial = inl (omega arith);
  small =
      (((omega arith, omega arith), omega arith), (((omega arith, omega arith), omega arith), tt));
  framed = Frames-concat (sent_to 0) (frame.0, tt);
  short = (omega arith, tt);
  last = omega arith;
}
streams (suc zero) = record {
  valid = (new_receiver-IsValid 0).0;
  partial = inl (omega arith);
  small = (((omega arith, omega arith), omega arith), tt);
  framed = Frames-concat (sent_to 1) (frame.1, tt);
  short = (omega arith, tt);
  last = omega arith;
}
streams (suc (suc zero)) = record {
  valid = (new_receiver-IsValid 0).0;
  partial = inl (omega arith);
  small = (((omega arith, omega arith), omega arith), tt);
  framed = stop (inl (omega arith));
  short = tt;
  last = omega arith;
}
streams (suc (suc (suc n))) =
    subst (λ cs. IsStream 6 cs (new_receiver 0) [] []) (sym (nothing n)) quiet

sockets_task-delivers_example :
    (s' : Sockets) × (calls : List Call) × (sockets_task new_log_manager allocate
        (λ k. 0)
        inputs
        sockets
      ≡ ok (s', calls))
    × IsReady s'
    × ((n : ℕ) → Gives (sent_to n) (left_in n) (at (λ k. 0) s'.receivers n, calls_of n calls))
sockets_task-delivers_example =
    sockets_task-delivers new_log_manager allocate (λ k. 0) (λ f k. (9, refl)) 6 inputs sockets
      sent_to left_in (omega arith)
      (record { valid = server-IsValid; running = refl; paired = refl })
      (
        succeeding-IsFine (accepted 0),
        (
          succeeding-IsFine (arrived 0 5),
          (
            succeeding-IsFine (accepted 1),
            (
              succeeding-IsFine (arrived 1 5),
              (
                succeeding-IsFine (arrived 0 1),
                (
                  succeeding-IsFine (arrived 1 0),
                  (succeeding-IsFine (accepted 2), (succeeding-IsFine (arrived 2 1), tt)),
                ),
              ),
            ),
          ),
        ),
      )
      (
        omega arith,
        (
          omega arith,
          (
            omega arith,
            (omega arith, (omega arith, (omega arith, (omega arith, (omega arith, tt))))),
          ),
        ),
      )
      streams
