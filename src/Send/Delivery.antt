-- ===== src/Send/Delivery.antt =====
-- Bursts of Sends, each with its completions behind it.
use mathlib.Core.List.{append-nil, append_assoc}
use dokevi_network.Prelude.{
  ℕ, zero, suc, ◌+◌, ◌≤◌, ◌≡◌, refl, sym, ap, ◌∙◌, List, [], ◌∷◌, ◌++◌, map, Bool, arith, All, none,
  some, ok, Result, length, ◌>>=◌, concat,
}
use dokevi_network.Log.{LogManager}
use dokevi_network.Packet.{PoolName, pool}
use dokevi_network.Send.{Sender, Event, wsa_send, send, on_write_callback}
use dokevi_network.Send.Message.{message}
use dokevi_network.Send.Chain.{Entry, keys, count, Holds, IsOut, pending}
use dokevi_network.Send.Grow.{wire}
use dokevi_network.Send.Freed.{on_write_callback-Completed}
use dokevi_network.Send.Burst.{IsFitting, send-After}

-- A message, and whether it is to be sent on its own.
abbrev pub Request : Type 0
Request = List ℕ × Bool

unfoldable pub send_all : LogManager → List Request → Sender → Result (Sender × List Event)
send_all log [] s = ok (s, [])
send_all log ((d, immediate) ∷ ds) s =
    send log d immediate s >>= λ (s', es). send_all log ds s' >>= λ (s'', es'). ok (s'', es ++ es')

-- The completions of what has been given to WSASend, `n` at most.
unfoldable pub complete : LogManager → ℕ → Sender → Result (Sender × List Event)
complete log zero s = ok (s, [])
complete log (suc n) s = elim s.sending_packet [
  | none ↦ ok (s, [])
  | some x ↦ on_write_callback log s >>= λ (s', es).
      complete log n s' >>= λ (s'', es'). ok (s'', es ++ es')
]

abbrev pub messages : List Request → List ℕ
messages ds = concat (map (λ (r : Request). message r.0) ds)

pub wire-append : (es es' : List Event) → wire (es ++ es') ≡ wire es ++ wire es'
wire-append [] es' = refl
wire-append (wsa_send b ∷ es) es' =
    ap (λ w. b ++ w) (wire-append es es') ∙ sym (append_assoc b (wire es) (wire es'))

-- Every pool has room for `n` more packets.
abbrev pub HasRoom : ℕ → Sender → Type 0
HasRoom n s = (j : PoolName) → (pool j s.packets).used + n ≤ (pool j s.packets).queue_size

-- Where a sequence of calls has led to.
pub record Led (s : Sender) (q : List Entry) (r : Result (Sender × List Event)) : Type 0 where
  pub sender : Sender
  pub events : List Event
  pub queue : List Entry
  pub run : r ≡ ok (sender, events)
  pub holds : Holds sender queue
  pub balance :
      (j : PoolName)
      → (pool j sender.packets).used + count j (keys q)
        ≡ (pool j s.packets).used + count j (keys queue)
  pub queue_size :
      (j : PoolName) → (pool j sender.packets).queue_size ≡ (pool j s.packets).queue_size

send_all-next :
    (log : LogManager) (d : List ℕ) (i : Bool) (ds : List Request) (s : Sender) {s' s'' : Sender}
    {es es' : List Event}
    → send log d i s ≡ ok (s', es)
    → send_all log ds s' ≡ ok (s'', es')
    → send_all log ((d, i) ∷ ds) s ≡ ok (s'', es ++ es')
unfolding send_all
send_all-next log d i ds s e e' = rw e (rw e' refl)

regroup : (a b c p m : List ℕ) {w : List ℕ} → b ++ c ≡ p ++ m → a ++ p ≡ w → (a ++ b) ++ c ≡ w ++ m
regroup a b c p m e e' =
    append_assoc a b c ∙ ap (λ t. a ++ t) e ∙ sym (append_assoc a p m) ∙ ap (λ t. t ++ m) e'

-- Sends one behind the other: nothing is lost, and nothing changes its place.
pub send_all-Led :
    (log : LogManager) (ds : List Request) (s : Sender) (q : List Entry)
    → Holds s q
    → IsOut s (keys q)
    → All (λ (r : Request). IsFitting r.0) ds
    → HasRoom (length ds) s
    → (v : Led s q (send_all log ds s)) × (wire v.events ++ pending v.queue
        ≡ pending q ++ messages ds)
      × (length v.queue ≤ length q + length ds)
unfolding send_all
send_all-Led log [] s q h out fits room = (
  record {
    sender = s;
    events = [];
    queue = q;
    run = refl;
    holds = h;
    balance = λ j. refl;
    queue_size = λ j. refl;
  },
  sym (append-nil (pending q)),
  omega arith,
)
send_all-Led log ((d, i) ∷ ds) s q h out fits room =
    let a = send-After log d i s fits.0 q h out (omega (arith, room fits.0.kind)) in
    let (v, text, short) =
      send_all-Led log ds a.sender a.queue a.holds a.out fits.1
        (λ j. omega (arith, room j, a.used j, a.queue_size j)) in
    (
      record {
        sender = v.sender;
        events = a.events ++ v.events;
        queue = v.queue;
        run = send_all-next log d i ds s a.run v.run;
        holds = v.holds;
        balance = λ j. omega (arith, a.balance j, v.balance j);
        queue_size = λ j. v.queue_size j ∙ a.queue_size j;
      },
      ap (λ t. t ++ pending v.queue) (wire-append a.events v.events)
          ∙ regroup (wire a.events) (wire v.events) (pending v.queue) (pending a.queue)
              (messages ds) text a.text
          ∙ append_assoc (pending q) (message d) (messages ds),
      omega (arith, short, a.short),
    )

complete-next :
    (log : LogManager) (n : ℕ) (s : Sender) {x : _} {s' s'' : Sender} {es es' : List Event}
    → s.sending_packet ≡ some x
    → on_write_callback log s ≡ ok (s', es)
    → complete log n s' ≡ ok (s'', es')
    → complete log (suc n) s ≡ ok (s'', es ++ es')
unfolding complete
complete-next log n s a e e' = ground (arith, a, e, e')

complete-idle :
    (log : LogManager) (n : ℕ) (s : Sender)
    → s.sending_packet ≡ none
    → complete log n s ≡ ok (s, [])
unfolding complete
complete-idle log zero s a = refl
complete-idle log (suc n) s a = ground (arith, a)

-- Completions until nothing is queued: everything that waits is given to WSASend, in its order.
pub complete-Led :
    (log : LogManager) (n : ℕ) (s : Sender) (q : List Entry)
    → Holds s q
    → length q ≤ n
    → (v : Led s q (complete log n s)) × (v.queue ≡ []) × (wire v.events ≡ pending q)
complete-Led log n s [] h enough = (
  record {
    sender = s;
    events = [];
    queue = [];
    run = complete-idle log n s h.first;
    holds = h;
    balance = λ j. refl;
    queue_size = λ j. refl;
  },
  refl,
  refl,
)
complete-Led log zero s (e ∷ es) h enough = absurd (omega (arith, enough))
complete-Led log (suc n) s (e ∷ es) h enough =
    let c = on_write_callback-Completed log s e es h in
    let (v, empty, text) =
      complete-Led log n c.sender c.queue c.holds (omega (arith, c.short, enough)) in
    (
      record {
        sender = v.sender;
        events = c.events ++ v.events;
        queue = v.queue;
        run = complete-next log n s h.first c.run v.run;
        holds = v.holds;
        balance = λ j. omega (arith, c.balance j, v.balance j);
        queue_size = λ j. v.queue_size j ∙ c.queue_size j;
      },
      empty,
      wire-append c.events v.events ∙ ap (λ t. wire c.events ++ t) text ∙ c.text,
    )
