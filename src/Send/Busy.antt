-- ===== src/Send/Busy.antt =====
-- A new packet behind others, and a message in the last packet.
use dokevi_network.Prelude.{
  ℕ, ◌+◌, ◌<◌, ◌≤◌, ◌≡◌, refl, sym, ap, subst, ◌∙◌, List, [], ◌∷◌, ◌++◌, arith, All, none, some, ok,
}
use dokevi_network.Pool.{Pointer}
use dokevi_network.Packet.{Packet, PacketSelector, PoolName, pool, store, load}
use dokevi_network.Packet.RoundTrip.{load_lem}
use dokevi_network.Send.{Sender, enqueue}
use dokevi_network.Send.Message.{message}
use dokevi_network.Send.Chain.{
  Key, at, Entry, keys, head_or, last_or, Apart, IsApart, one_if, count, IsGood, pending, IsPlaced,
  Holds, IsOut, keys-append, last_or-append, All-append, All-front, All-back, Linked-append,
  Linked-front, IsApart-last, IsApart-add, count-append,
}
use dokevi_network.Send.Write.{Changed, store-Changed, used-store, queue_size-store, All-others}
use dokevi_network.Send.Fresh.{Fresh, Allocated}
use dokevi_network.Send.Ends.{head_or-same, keys-two, pending-two, length-two, IsFirstSent-two}
use dokevi_network.Send.Grow.{After, behind-Changed, used-behind, one_if_le, one_if_self}

pub enqueue-linked :
    (x : Pointer) (a : Packet) (s : Sender) {y l : Pointer} {b : Packet}
    → s.sending_packet ≡ some y
    → s.last_packet ≡ some l
    → load l (store x a s.packets) ≡ ok b
    → enqueue x a s
      ≡ ok (
        record s {
          last_packet = some x;
          packets = store l (record b { next = some x }) (store x a s.packets);
        },
        [],
      )
unfolding enqueue
enqueue-linked x a s e e' e'' = ground (arith, e, e', e'')

IsOut-Apart :
    (s : Sender) (k : PoolName) (ks : List Key)
    → IsOut s ks
    → All (λ j. Apart j (k, (pool k s.packets).used)) ks
IsOut-Apart s k [] h = tt
IsOut-Apart s k (j ∷ ks) h = (
  (λ e same. omega (arith, h.0, same, ap (λ i. (pool i s.packets).used) e)),
  IsOut-Apart s k ks h.1,
)

pub IsOut-more :
    (s s' : Sender) (ks : List Key)
    → ((j : PoolName) → (pool j s.packets).used ≤ (pool j s'.packets).used)
    → IsOut s ks
    → IsOut s' ks
IsOut-more s s' [] m h = tt
IsOut-more s s' (k ∷ ks) m h = (omega (arith, m k.0, h.0), IsOut-more s s' ks m h.1)

module _ (d : List ℕ) (s : Sender) (k : PoolName) (a : Packet) (packets : PacketSelector)
    (f : Fresh k d a) (v : Allocated k s.packets packets) (xs : List Entry) (l : Entry)
    (h : Holds s (xs ++ (l ∷ []))) (out : IsOut s (keys (xs ++ (l ∷ [])))) where
  abbrev here : Key
  here = (k, (pool k s.packets).used)

  abbrev newest : Entry
  newest = record { key = here; packet = a }

  abbrev with_next : Entry
  with_next = record { key = l.key; packet = record l.packet { next = some (at here) } }

  abbrev mid : PacketSelector
  mid = store (at here) a packets

  abbrev final : PacketSelector
  final = store (at l.key) with_next.packet mid

  mid-Changed : Changed s.packets mid here a
  mid-Changed = behind-Changed d s k a packets f v a f.sized

  aparts : All (λ j. Apart j here) (keys (xs ++ (l ∷ [])))
  aparts = IsOut-Apart s k (keys (xs ++ (l ∷ []))) out

  Apart-last : Apart l.key here
  Apart-last =
      (All-back (λ j. Apart j here) (keys xs) (l.key ∷ [])
        (subst (All (λ j. Apart j here)) (keys-append xs (l ∷ [])) aparts)).0

  IsPlaced-mid : IsPlaced mid l
  IsPlaced-mid =
      mid-Changed.others l Apart-last (All-back (IsPlaced s.packets) xs (l ∷ []) h.placed).0

  IsGood-last : IsGood l
  IsGood-last = (All-back IsGood xs (l ∷ []) h.good).0

  final-Changed : Changed mid final l.key with_next.packet
  final-Changed =
      store-Changed l.key l.packet with_next.packet mid mid-Changed.sound IsPlaced-mid
        IsGood-last.sized

  used-final : (j : PoolName) → (pool j final).used ≡ (pool j s.packets).used + one_if j k
  used-final j = used-store j l.key with_next.packet mid ∙ used-behind d s k a packets f v j a

  last_is : s.last_packet ≡ some (at l.key)
  last_is =
      h.last
      ∙ ap (λ q. last_or q none) (keys-append xs (l ∷ []))
      ∙ last_or-append (keys xs) l.key none

  first_is : (x : Entry) × (s.sending_packet ≡ some (at x.key))
  first_is = first_of xs h.first
    where
      first_of :
          (ys : List Entry)
          → s.sending_packet ≡ head_or (keys (ys ++ (l ∷ []))) none
          → (x : Entry) × (s.sending_packet ≡ some (at x.key))
      first_of [] e = (l, e)
      first_of (y ∷ ys) e = (y, e)

  enqueue-busy :
      enqueue (at here) a (record s { packets = packets })
      ≡ ok (record s { last_packet = some (at here); packets = final }, [])
  enqueue-busy =
      let (x, e) = first_is in
      enqueue-linked (at here) a (record s { packets = packets }) e last_is
        (load_lem l.key.0 l.key.1 mid IsPlaced-mid)

  -- A further packet is linked behind the last one.
  pub enqueue-After :
      After s (xs ++ (l ∷ [])) (message d) (enqueue (at here) a (record s { packets = packets }))
  enqueue-After =
      let q = xs ++ (with_next ∷ newest ∷ []) in
      let ks : keys q ≡ keys (xs ++ (l ∷ [])) ++ (here ∷ []) =
        keys-two xs l with_next newest refl in
      let old = All-front (IsPlaced s.packets) xs (l ∷ []) h.placed in
      let s' : Sender = record s { last_packet = some (at here); packets = final } in
      record {
        sender = s';
        events = [];
        queue = q;
        run = enqueue-busy;
        holds = record {
          first =
              h.first
              ∙ ap (λ r. head_or r none) (keys-append xs (l ∷ []))
              ∙ head_or-same (keys xs) l.key [] (here ∷ []) none none
              ∙ ap (λ r. head_or r none) (sym (keys-append xs (with_next ∷ newest ∷ [])));
          last =
              sym (ap (λ r. last_or r none) ks ∙ last_or-append (keys (xs ++ (l ∷ []))) here none);
          apart = subst IsApart (sym ks) (IsApart-add (keys (xs ++ (l ∷ []))) here h.apart aparts);
          counted = λ j. omega (
            arith,
            ap (count j) ks,
            count-append j (keys (xs ++ (l ∷ []))) (here ∷ []),
            h.counted j,
            used-final j,
          );
          sound = final-Changed.sound;
          placed =
              All-append (IsPlaced final) xs (with_next ∷ newest ∷ [])
                (All-others xs final-Changed
                  (IsApart-last (keys xs) l.key (subst IsApart (keys-append xs (l ∷ [])) h.apart))
                  (All-others xs mid-Changed
                    (All-front (λ j. Apart j here) (keys xs) (l.key ∷ [])
                      (subst (All (λ j. Apart j here)) (keys-append xs (l ∷ [])) aparts))
                    old))
                (
                  final-Changed.here,
                  (
                    final-Changed.others newest (λ e n. Apart-last (sym e) (sym n))
                        mid-Changed.here,
                    tt,
                  ),
                );
          good =
              All-append IsGood xs (with_next ∷ newest ∷ []) (All-front IsGood xs (l ∷ []) h.good) (
                record {
                  sized = IsGood-last.sized;
                  filled = IsGood-last.filled;
                  capacity = IsGood-last.capacity;
                },
                (record { sized = f.sized; filled = f.filled; capacity = f.capacity }, tt),
              );
          linked =
              Linked-append xs (with_next ∷ newest ∷ []) none
                (Linked-front xs (l ∷ []) none h.linked) (refl, (f.alone, tt));
          first_sent = IsFirstSent-two xs l with_next newest refl h.first_sent;
        };
        out = subst (IsOut s') (sym ks) (
            All-append (λ (j : Key). j.1 < (pool j.0 final).used) (keys (xs ++ (l ∷ [])))
              (here ∷ [])
              (IsOut-more s s' (keys (xs ++ (l ∷ []))) (λ j. omega (arith, used-final j)) out)
              (omega (arith, used-final k, one_if_self k), tt));
        text =
            pending-two xs l with_next newest refl ∙ ap (λ c. pending (xs ++ (l ∷ [])) ++ c) f.text;
        used = λ j. omega (arith, used-final j, one_if_le j k);
        balance = λ j. omega (
          arith,
          ap (count j) ks,
          count-append j (keys (xs ++ (l ∷ []))) (here ∷ []),
          used-final j,
        );
        queue_size = λ j.
            queue_size-store j l.key with_next.packet mid
            ∙ queue_size-store j here a packets
            ∙ v.queue_size j;
        short = omega (arith, length-two xs l with_next newest);
      }
