-- ===== src/Send/Bursts.antt =====
-- A socket over its whole life: bursts of Sends, each with its completions.
use dokevi_network.Prelude.{
  ℕ, zero, suc, ◌≡◌, refl, sym, ap, ap₂, subst, ◌∙◌, List, [], ◌∷◌, ◌++◌, map, arith, All, none,
  some, ok, Result, length, ◌>>=◌, concat, get_elem?, replicate,
}
use dokevi_network.Log.{LogManager}
use dokevi_network.Pool
use dokevi_network.Pool.{uint64}
use dokevi_network.Pool.Order.{init-IsValid}
use dokevi_network.Packet.{
  Packet, PoolName, p64, p128, p256, p512, p1024, p2048, p4096, bytes_of, pool,
  init_packet_selector,
}
use dokevi_network.Packet.Heap.{IsSound}
use dokevi_network.Send.{Sender, Event}
use dokevi_network.Send.Chain.{keys, count, Holds}
use dokevi_network.Send.Grow.{wire}
use dokevi_network.Send.Burst.{IsFitting}
use dokevi_network.Send.Delivery.{
  Request, send_all, complete, messages, HasRoom, send_all-Led, complete-Led, wire-append,
}

-- Each burst, and then the completions of its packets.
unfoldable pub run_bursts : LogManager → List (List Request) → Sender → Result (Sender × List Event)
run_bursts log [] s = ok (s, [])
run_bursts log (ds ∷ bursts) s = do
  (s', es) ← send_all log ds s
  (s'', es') ← complete log (length ds) s'
  (s''', es'') ← run_bursts log bursts s''
  ok (s''', es ++ es' ++ es'')

-- A burst that the socket can take: its messages fit, and so do their packets.
abbrev pub IsBurst : Sender → List Request → Type 0
IsBurst s ds = All (λ (r : Request). IsFitting r.0) ds × HasRoom (length ds) s

run_bursts-next :
    (log : LogManager) (ds : List Request) (bursts : List (List Request)) (s : Sender)
    {s' s'' s''' : Sender} {es es' es'' : List Event}
    → send_all log ds s ≡ ok (s', es)
    → complete log (length ds) s' ≡ ok (s'', es')
    → run_bursts log bursts s'' ≡ ok (s''', es'')
    → run_bursts log (ds ∷ bursts) s ≡ ok (s''', es ++ es' ++ es'')
unfolding run_bursts
run_bursts-next log ds bursts s a b c = rw a (rw b (rw c refl))

IsBurst-same :
    (s s' : Sender) (bursts : List (List Request))
    → ((j : PoolName) → (pool j s'.packets).used ≡ (pool j s.packets).used)
    → ((j : PoolName) → (pool j s'.packets).queue_size ≡ (pool j s.packets).queue_size)
    → All (IsBurst s) bursts
    → All (IsBurst s') bursts
IsBurst-same s s' [] used size h = tt
IsBurst-same s s' (ds ∷ bursts) used size h =
    ((h.0.0, (λ j. omega (arith, h.0.1 j, used j, size j))), IsBurst-same s s' bursts used size h.1)

wire-three :
    (es es' es'' : List Event) (m n : List ℕ) {p : List ℕ}
    → wire es ++ p ≡ m
    → wire es' ≡ p
    → wire es'' ≡ n
    → wire (es ++ es' ++ es'') ≡ m ++ n
wire-three es es' es'' m n {p} e e' e'' =
    wire-append (es ++ es') es''
    ∙ ap₂ (λ x y. x ++ y) (wire-append es es' ∙ ap (λ t. wire es ++ t) e' ∙ e) e''

-- On a socket that has nothing queued, with sound pools: a sequence of bursts, each of messages that
-- fit their packets and few enough for the room in the pools, each Send at once, in the last packet or behind
-- it, and each burst followed by its completions, ends without a fault; WSASend has been given
-- exactly the messages, each behind its length, in their order; and afterwards nothing is queued and
-- as many packets are out of each pool as before.
pub run_bursts-delivers :
    (log : LogManager) (bursts : List (List Request)) (s : Sender)
    → Holds s []
    → All (IsBurst s) bursts
    → (s' : Sender) × (es : List Event) × (run_bursts log bursts s ≡ ok (s', es))
      × (wire es ≡ concat (map messages bursts))
      × Holds s' []
      × ((j : PoolName) → (pool j s'.packets).used ≡ (pool j s.packets).used)
unfolding run_bursts
run_bursts-delivers log [] s h fits = (s, [], refl, refl, h, λ j. refl)
run_bursts-delivers log (ds ∷ bursts) s h fits =
    let (v, text, short) = send_all-Led log ds s [] h tt fits.0.0 fits.0.1 in
    let (w, empty, sent) =
      complete-Led log (length ds) v.sender v.queue v.holds (omega (arith, short)) in
    let idle = subst (Holds w.sender) empty w.holds in
    let used : (j : PoolName) → (pool j w.sender.packets).used ≡ (pool j s.packets).used =
      λ j. omega (arith, v.balance j, w.balance j, ap (λ q. count j (keys q)) empty) in
    let (s', es, run, rest, h', used') =
      run_bursts-delivers log bursts w.sender idle
        (IsBurst-same s w.sender bursts used (λ j. w.queue_size j ∙ v.queue_size j) fits.1) in
    (
      s',
      v.events ++ w.events ++ es,
      run_bursts-next log ds bursts s v.run w.run run,
      wire-three v.events w.events es (messages ds) (concat (map messages bursts)) text sent rest,
      h',
      λ j. used' j ∙ used j,
    )

elements : {A : Type 0} (n i : ℕ) (a : A) {b : A} → get_elem? (replicate n a) i ≡ some b → a ≡ b
elements zero i a e = cc
elements (suc n) zero a e = cc
elements (suc n) (suc i) a e = elements n i a e

-- The pools as InitPacketSelector leaves them, and a socket without packets.
abbrev pub new_sender : (ℕ → Packet) → Sender
new_sender fresh = record {
  sending_packet = none;
  last_packet = none;
  packets = init_packet_selector fresh;
}

pub new_pool-IsSound :
    (k : PoolName) (fresh : ℕ → Packet)
    → ((n : ℕ) → length (fresh n).buffer ≡ n)
    → IsSound k (Pool.init (bytes_of k) (fresh (bytes_of k)) 1000)
unfolding Pool.init
new_pool-IsSound k fresh sized = record {
  pooled = record {
    valid = init-IsValid (bytes_of k) (fresh (bytes_of k)) 1000 (omega arith);
    placed = refl;
  };
  arrays = λ i a e.
      ap (λ (p : Packet). length p.buffer) (sym (elements 1000 i (fresh (bytes_of k)) e))
      ∙ sized (bytes_of k);
}

pub new_sender-Holds :
    (fresh : ℕ → Packet) → ((n : ℕ) → length (fresh n).buffer ≡ n) → Holds (new_sender fresh) []
unfolding init_packet_selector
new_sender-Holds fresh sized = record {
  first = refl;
  last = refl;
  apart = tt;
  counted = λ j. omega arith;
  sound = sounds;
  placed = tt;
  good = tt;
  linked = tt;
  first_sent = tt;
}
  where
    sounds : (k : PoolName) → IsSound k (pool k (init_packet_selector fresh))
    sounds p64 = new_pool-IsSound p64 fresh sized
    sounds p128 = new_pool-IsSound p128 fresh sized
    sounds p256 = new_pool-IsSound p256 fresh sized
    sounds p512 = new_pool-IsSound p512 fresh sized
    sounds p1024 = new_pool-IsSound p1024 fresh sized
    sounds p2048 = new_pool-IsSound p2048 fresh sized
    sounds p4096 = new_pool-IsSound p4096 fresh sized
