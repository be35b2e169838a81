-- ===== src/Send/Burst.antt =====
-- Any number of Sends, and the completions behind them.
use dokevi_network.Prelude.{
  ℕ, ◌+◌, ◌<◌, ◌≤◌, ◌≡◌, inl, inr, refl, sym, ap, subst, ◌∙◌, List, [], ◌∷◌, ◌++◌, Bool, false, not,
  ◌&&◌, leb, Bool-cases, arith, none, some, ok, Result, if◌then◌else◌, length,
}
use dokevi_network.Log.{LogManager}
use dokevi_network.Pool.{Pointer}
use dokevi_network.Packet.{Packet, PoolName, bytes_of, pool, choose, load}
use dokevi_network.Packet.RoundTrip.{load_lem}
use dokevi_network.Send.{Sender, Event, send, send_new, append_to, total_packet_size}
use dokevi_network.Send.Message.{message}
use dokevi_network.Send.Idle.{bytes_of_le, send-new}
use dokevi_network.Send.Chain.{
  Entry, at, keys, count, last_or, Holds, IsOut, IsPlaced, snoc, keys-append, last_or-append,
  All-back,
}
use dokevi_network.Send.Write.{append_to-Holds, keys-same}
use dokevi_network.Send.Fresh.{send_new-Fresh}
use dokevi_network.Send.Grow.{After, enqueue-After_idle}
use dokevi_network.Send.Ends.{pending-longer, length-one}
use dokevi_network.Send.Busy.{enqueue-After, IsOut-more}

-- A message that fits, with its length, the packet that its size is given.
pub record IsFitting (d : List ℕ) : Type 0 where
  pub kind : PoolName
  pub chosen : choose (length d) ≡ some kind
  pub fits : length d + 4 ≤ bytes_of kind

After-run :
    {s : Sender} {q : List Entry} {m : List ℕ} {r r' : Result (Sender × List Event)}
    → r ≡ r'
    → After s q m r'
    → After s q m r
After-run {s} {q} {m} e a = subst (After s q m) (sym e) a

append_to-After :
    (d : List ℕ) (s : Sender) (xs : List Entry) (l : Entry)
    → Holds s (xs ++ (l ∷ []))
    → IsOut s (keys (xs ++ (l ∷ [])))
    → l.packet.is_sending ≡ false
    → length d + 4 ≤ l.packet.remain_size
    → After s (xs ++ (l ∷ [])) (message d) (append_to (at l.key) l.packet d s)
append_to-After d s [] l h out waits fits = absurd (cc)
append_to-After d s (x ∷ xs) l h out waits fits =
    let (s', l', run, h', same, text, used, size) = append_to-Holds d s (x ∷ xs) l h waits fits in
    record {
      sender = s';
      events = [];
      queue = x ∷ (xs ++ (l' ∷ []));
      run = run;
      holds = h';
      out =
          IsOut-more s s' (keys (x ∷ (xs ++ (l' ∷ [])))) (λ j. omega (arith, used j))
            (subst (IsOut s) (keys-same (x ∷ xs) l l' (sym same)) out);
      text = pending-longer x xs l l' (message d) text;
      used = λ j. omega (arith, used j);
      balance = λ j. omega (arith, used j, ap (count j) (keys-same (x ∷ xs) l l' (sym same)));
      queue_size = size;
      short = omega (arith, length-one xs l l');
    }

pub send-behind :
    (log : LogManager) (d : List ℕ) (immediate : Bool) (s : Sender) (x : Pointer) (a : Packet)
    → s.last_packet ≡ some x
    → load x s.packets ≡ ok a
    → send log d immediate s ≡ (
        if not a.is_sending
          && not a.immediate_send
          && leb (total_packet_size d) a.remain_size
          && not immediate
        then append_to x a d s
        else send_new log d immediate s)
unfolding send
send-behind log d immediate s x a e e' = rw (e, e') refl

-- One Send: at once, behind the others, or in the last packet.
module _ (log : LogManager) (d : List ℕ) (immediate : Bool) (s : Sender) (v : IsFitting d) where
  send-After_behind :
      (xs : List Entry) (l : Entry)
      → Holds s (xs ++ (l ∷ []))
      → IsOut s (keys (xs ++ (l ∷ [])))
      → (pool v.kind s.packets).used < (pool v.kind s.packets).queue_size
      → After s (xs ++ (l ∷ [])) (message d) (send log d immediate s)
  send-After_behind xs l h out room =
      let placed = (All-back (IsPlaced s.packets) xs (l ∷ []) h.placed).0 in
      let last : s.last_packet ≡ some (at l.key) =
        h.last
        ∙ ap (λ q. last_or q none) (keys-append xs (l ∷ []))
        ∙ last_or-append (keys xs) l.key none in
      let sends =
        send-behind log d immediate s (at l.key) l.packet last
          (load_lem l.key.0 l.key.1 s.packets placed) in
      elim (Bool-cases (
        not l.packet.is_sending
        && not l.packet.immediate_send
        && leb (total_packet_size d) l.packet.remain_size
        && not immediate)) [
          | inl joined ↦ After-run (sends ∙ ground (arith, joined)) (
              append_to-After d s xs l h out (ground (arith, joined))
                (ground (arith, joined, v.fits, bytes_of_le v.kind)))
          | inr apart ↦
              let (a, packets, run, f, g) =
                send_new-Fresh log d immediate s v.kind h.sound v.chosen v.fits room in
              After-run (sends ∙ ground (arith, apart) ∙ run)
                (enqueue-After d s v.kind a packets f g xs l h out)
        ]

  pub send-After :
      (q : List Entry)
      → Holds s q
      → IsOut s (keys q)
      → (pool v.kind s.packets).used < (pool v.kind s.packets).queue_size
      → After s q (message d) (send log d immediate s)
  send-After [] h out room =
      let (a, packets, run, f, g) =
        send_new-Fresh log d immediate s v.kind h.sound v.chosen v.fits room in
      After-run (send-new log d immediate s h.last ∙ run)
        (enqueue-After_idle d s v.kind a packets f g h)
  send-After (e ∷ es) h out room =
      let (xs, l, same) = snoc e es in
      subst (λ q. After s q (message d) (send log d immediate s)) (sym same)
        (send-After_behind xs l (subst (Holds s) same h) (subst (λ q. IsOut s (keys q)) same out)
          room)
