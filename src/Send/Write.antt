-- ===== src/Send/Write.antt =====
-- One Send on a socket that has packets queued, or none.
use dokevi_network.Prelude.{
  ℕ, zero, suc, ◌+◌, ◌-◌, ◌%◌, ◌<◌, ◌≤◌, ◌≡◌, refl, sym, ap, subst, ◌∙◌, List, [], ◌∷◌, ◌++◌, false,
  arith, All, none, some, ok, length, take, get_elem?,
}
use dokevi_network.Bytes.{word}
use dokevi_network.Packet.{Packet, PacketSelector, PoolName, bytes_of, pool, store}
use dokevi_network.Packet.Heap.{
  At, IsSound, put, store-put, At-put_self, At-put_ne, put-IsSound, used-put_self, used-put_ne,
  queue_size-put, name_discrete,
}
use dokevi_network.Send.{Sender, append_to, total_packet_size}
use dokevi_network.Send.Message.{message, write_message_lem}
use dokevi_network.Send.Idle.{bytes_of_le}
use dokevi_network.Send.Chain.{
  Key, at, Entry, keys, head_or, last_or, Apart, IsApart, count, IsFirstSent, IsGood, content,
  IsPlaced, Holds, keys-append, All-append, All-front, All-back, Linked-append, Linked-front,
  Linked-back, IsApart-last,
}

pub inside : {A : Type 0} (xs : List A) (i : ℕ) {a : A} → get_elem? xs i ≡ some a → i < length xs
inside [] i e = cc
inside (x ∷ xs) zero e = omega arith
inside (x ∷ xs) (suc i) e = omega (arith, inside xs i e)

-- The packet at `k` has become `c`, and the others are as they were.
pub record Changed (s s' : PacketSelector) (k : Key) (c : Packet) : Type 0 where
  pub sound : (j : PoolName) → IsSound j (pool j s')
  pub here : At s' k.0 k.1 c
  pub others : (e : Entry) → Apart e.key k → IsPlaced s e → IsPlaced s' e

pub put-Changed :
    (k : Key) (c : Packet) (n : ℕ) (s : PacketSelector)
    → ((j : PoolName) → IsSound j (pool j s))
    → k.1 < length (pool k.0 s).memory
    → length c.buffer ≡ bytes_of k.0
    → n ≤ (pool k.0 s).queue_size
    → Changed s (put k.0 k.1 c n s) k c
put-Changed k c n s v h sized within = record {
  sound = λ j. put-IsSound j k.0 k.1 c n s v h sized within;
  here = At-put_self k.0 k.1 c n s h;
  others = λ e apart p. At-put_ne e.key.0 k.0 e.key.1 k.1 c n s (λ q r. apart q (sym r)) p;
}

pub store-Changed :
    (k : Key) (b c : Packet) (s : PacketSelector)
    → ((j : PoolName) → IsSound j (pool j s))
    → At s k.0 k.1 b
    → length c.buffer ≡ bytes_of k.0
    → Changed s (store (at k) c s) k c
store-Changed k b c s v p sized =
    subst (λ s'. Changed s s' k c) (sym (store-put k.0 k.1 c s))
      (put-Changed k c (pool k.0 s).used s v (inside (pool k.0 s).memory k.1 p) sized
        (v k.0).pooled.valid.within)

pub used-store :
    (j : PoolName) (k : Key) (c : Packet) (s : PacketSelector)
    → (pool j (store (at k) c s)).used ≡ (pool j s).used
used-store j k c s =
    ap (λ s'. (pool j s').used) (store-put k.0 k.1 c s) ∙ elim (name_discrete j k.0) [
      | yes e ↦
          subst (λ l. (pool l (put k.0 k.1 c (pool k.0 s).used s)).used ≡ (pool l s).used) (sym e)
            (used-put_self k.0 k.1 c (pool k.0 s).used s)
      | no n ↦ used-put_ne j k.0 k.1 c (pool k.0 s).used s n
    ]

pub queue_size-store :
    (j : PoolName) (k : Key) (c : Packet) (s : PacketSelector)
    → (pool j (store (at k) c s)).queue_size ≡ (pool j s).queue_size
queue_size-store j k c s =
    ap (λ s'. (pool j s').queue_size) (store-put k.0 k.1 c s)
    ∙ queue_size-put j k.0 k.1 c (pool k.0 s).used s

pub Changed-twice :
    {s s' s'' : PacketSelector} {k : Key} {b c : Packet}
    → Changed s s' k b
    → Changed s' s'' k c
    → Changed s s'' k c
Changed-twice a b = record {
  sound = b.sound;
  here = b.here;
  others = λ e apart p. b.others e apart (a.others e apart p);
}

pub All-others :
    {s s' : PacketSelector} {k : Key} {c : Packet} (es : List Entry)
    → Changed s s' k c
    → All (λ j. Apart j k) (keys es)
    → All (IsPlaced s) es
    → All (IsPlaced s') es
All-others [] a apart p = tt
All-others (e ∷ es) a apart p = (a.others e apart.0 p.0, All-others es a apart.1 p.1)

pub keys-same :
    (xs : List Entry) (l l' : Entry)
    → l.key ≡ l'.key
    → keys (xs ++ (l ∷ [])) ≡ keys (xs ++ (l' ∷ []))
keys-same xs l l' e =
    keys-append xs (l ∷ []) ∙ ap (λ k. keys xs ++ (k ∷ [])) e ∙ sym (keys-append xs (l' ∷ []))

-- A message that fits into the rest of the last packet stands behind what that holds.
module _ (d : List ℕ) (s : Sender) (xs : List Entry) (l : Entry) (h : Holds s (xs ++ (l ∷ [])))
    (waits : l.packet.is_sending ≡ false) (fits : length d + 4 ≤ l.packet.remain_size) where
  IsPlaced-last : IsPlaced s.packets l
  IsPlaced-last = (All-back (IsPlaced s.packets) xs (l ∷ []) h.placed).0

  IsGood-last : IsGood l
  IsGood-last = (All-back IsGood xs (l ∷ []) h.good).0

  abbrev with_message : List ℕ → Packet
  with_message b = record l.packet {
    buffer = b;
    size = (l.packet.size + total_packet_size d) % word;
    remain_size = (l.packet.remain_size + word - total_packet_size d) % word;
  }

  abbrev longer : List ℕ → Entry
  longer b = record { key = l.key; packet = with_message b }

  small : length d + 4 < word
  small = omega (arith, IsGood-last.filled, bytes_of_le l.key.0)

  longer-IsGood : (b : List ℕ) → length b ≡ length l.packet.buffer → IsGood (longer b)
  longer-IsGood b e = record {
    sized = e ∙ IsGood-last.sized;
    filled = omega (arith, IsGood-last.filled, bytes_of_le l.key.0, small);
    capacity = IsGood-last.capacity;
  }

  longer-IsFirstSent :
      (b : List ℕ) (ys : List Entry)
      → IsFirstSent (ys ++ (l ∷ []))
      → IsFirstSent (ys ++ (longer b ∷ []))
  longer-IsFirstSent b [] e = cc
  longer-IsFirstSent b (y ∷ ys) e = e

  pub append_to-Holds :
      (s' : Sender) × (l' : Entry) × (append_to (at l.key) l.packet d s ≡ ok (s', []))
      × Holds s' (xs ++ (l' ∷ []))
      × (l'.key ≡ l.key)
      × (content l' ≡ content l ++ message d)
      × ((j : PoolName) → (pool j s'.packets).used ≡ (pool j s.packets).used)
      × ((j : PoolName) → (pool j s'.packets).queue_size ≡ (pool j s.packets).queue_size)
  unfolding append_to
  append_to-Holds =
      let (b, run, same, text) =
        write_message_lem l.packet.buffer l.packet.size d
          (omega (arith, IsGood-last.sized, IsGood-last.filled)) in
      let l' = longer b in
      let packets = store (at l.key) l'.packet s.packets in
      let c : Changed s.packets packets l.key l'.packet =
        store-Changed l.key l.packet l'.packet s.packets h.sound IsPlaced-last
          (same ∙ IsGood-last.sized) in
      let ks = keys-same xs l l' refl in
      (
        record s { packets = packets },
        l',
        rw run refl,
        record {
          first = h.first ∙ ap (λ q. head_or q none) ks;
          last = h.last ∙ ap (λ q. last_or q none) ks;
          apart = subst IsApart ks h.apart;
          counted = λ j.
              omega (arith, h.counted j, ap (count j) ks, used-store j l.key l'.packet s.packets);
          sound = c.sound;
          placed =
              All-append (IsPlaced packets) xs (l' ∷ [])
                (All-others xs c
                  (IsApart-last (keys xs) l.key (subst IsApart (keys-append xs (l ∷ [])) h.apart))
                  (All-front (IsPlaced s.packets) xs (l ∷ []) h.placed))
                (c.here, tt);
          good =
              All-append IsGood xs (l' ∷ []) (All-front IsGood xs (l ∷ []) h.good)
                (longer-IsGood b same, tt);
          linked =
              Linked-append xs (l' ∷ []) none (Linked-front xs (l ∷ []) none h.linked)
                (Linked-back xs (l ∷ []) none h.linked);
          first_sent = longer-IsFirstSent b xs h.first_sent;
        },
        refl,
        ap (λ n. take n b) (omega (arith, IsGood-last.filled, bytes_of_le l.key.0, small)) ∙ text,
        λ j. used-store j l.key l'.packet s.packets,
        λ j. queue_size-store j l.key l'.packet s.packets,
      )
