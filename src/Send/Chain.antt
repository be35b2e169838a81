-- ===== src/Send/Chain.antt =====
-- The packets that a socket has queued, from `_sendingPacket` along `_next` to `_lastPacket`.
use mathlib.Core.List.{append_assoc}
use dokevi_network.Prelude.{
  ℕ, ◌+◌, ◌<◌, ◌≤◌, ◌≡◌, ◌≢◌, refl, sym, ap, ◌∙◌, List, [], ◌∷◌, ◌++◌, true, arith, All, Option,
  none, some, ◌==◌, if◌then◌else◌, length, take,
}
use dokevi_network.Pool.{Pointer}
use dokevi_network.Packet.{Packet, PacketSelector, PoolName, bytes_of, pool}
use dokevi_network.Packet.RoundTrip.{packet_at}
use dokevi_network.Packet.Heap.{At, IsSound}
use dokevi_network.Send.{Sender}

-- The pool of a packet, and its place there.
abbrev pub Key : Type 0
Key = PoolName × ℕ

abbrev pub at : Key → Pointer
at (k, i) = packet_at k i

pub record Entry : Type 0 where
  pub key : Key
  pub packet : Packet

abbrev pub keys : List Entry → List Key
keys [] = []
keys (e ∷ es) = e.key ∷ keys es

-- The first pointer, or what stands behind the list; and the last one.
abbrev pub head_or : List Key → Option Pointer → Option Pointer
head_or [] z = z
head_or (k ∷ ks) z = some (at k)

abbrev pub last_or : List Key → Option Pointer → Option Pointer
last_or [] z = z
last_or (k ∷ ks) z = last_or ks (some (at k))

abbrev pub Apart : Key → Key → Type 0
Apart j k = j.0 ≡ k.0 → j.1 ≢ k.1

abbrev pub IsApart : List Key → Type 0
IsApart [] = Unit {0}
IsApart (k ∷ ks) = All (Apart k) ks × IsApart ks

abbrev pub one_if : PoolName → PoolName → ℕ
one_if j k = if bytes_of j == bytes_of k then 1 else 0

-- The packets of a pool in the list.
abbrev pub count : PoolName → List Key → ℕ
count j [] = 0
count j (k ∷ ks) = one_if j k.0 + count j ks

abbrev pub Linked : List Entry → Option Pointer → Type 0
Linked [] z = Unit {0}
Linked (e ∷ es) z = (e.packet.next ≡ head_or (keys es) z) × Linked es z

-- Only the first packet is known to be on its way.
abbrev pub IsFirstSent : List Entry → Type 0
IsFirstSent [] = Unit {0}
IsFirstSent (e ∷ es) = e.packet.is_sending ≡ true

pub record IsGood (e : Entry) : Type 0 where
  pub sized : length e.packet.buffer ≡ bytes_of e.key.0
  pub filled : e.packet.size + e.packet.remain_size ≡ bytes_of e.key.0
  pub capacity : e.packet.max_size ≡ bytes_of e.key.0

abbrev pub content : Entry → List ℕ
content e = take e.packet.size e.packet.buffer

-- What has not been given to WSASend yet.
abbrev pub contents : List Entry → List ℕ
contents [] = []
contents (e ∷ es) = content e ++ contents es

abbrev pub pending : List Entry → List ℕ
pending [] = []
pending (e ∷ es) = contents es

abbrev pub IsPlaced : PacketSelector → Entry → Type 0
IsPlaced s e = At s e.key.0 e.key.1 e.packet

-- The socket has queued the packets of `q`.
pub record Holds (s : Sender) (q : List Entry) : Type 0 where
  pub first : s.sending_packet ≡ head_or (keys q) none
  pub last : s.last_packet ≡ last_or (keys q) none
  pub apart : IsApart (keys q)
  pub counted : (j : PoolName) → count j (keys q) ≤ (pool j s.packets).used
  pub sound : (k : PoolName) → IsSound k (pool k s.packets)
  pub placed : All (IsPlaced s.packets) q
  pub good : All IsGood q
  pub linked : Linked q none
  pub first_sent : IsFirstSent q

-- The packets are among those that are out of their pools.
abbrev pub IsOut : Sender → List Key → Type 0
IsOut s ks = All (λ (k : Key). k.1 < (pool k.0 s.packets).used) ks

-- Ends of lists.
pub snoc :
    (e : Entry) (es : List Entry) → (xs : List Entry) × (l : Entry) × (e ∷ es ≡ xs ++ (l ∷ []))
snoc e [] = ([], e, refl)
snoc e (f ∷ es) = let (xs, l, same) = snoc f es in (e ∷ xs, l, ap (λ q. e ∷ q) same)

pub keys-append : (xs ys : List Entry) → keys (xs ++ ys) ≡ keys xs ++ keys ys
keys-append [] ys = refl
keys-append (x ∷ xs) ys = ap (λ q. x.key ∷ q) (keys-append xs ys)

pub last_or-append :
    (ks : List Key) (k : Key) (z : Option Pointer) → last_or (ks ++ (k ∷ [])) z ≡ some (at k)
last_or-append [] k z = refl
last_or-append (j ∷ ks) k z = last_or-append ks k (some (at j))

pub head_or-append :
    (xs ys : List Key) (z : Option Pointer) → head_or (xs ++ ys) z ≡ head_or xs (head_or ys z)
head_or-append [] ys z = refl
head_or-append (x ∷ xs) ys z = refl

pub contents-append : (xs ys : List Entry) → contents (xs ++ ys) ≡ contents xs ++ contents ys
contents-append [] ys = refl
contents-append (x ∷ xs) ys =
    ap (λ c. content x ++ c) (contents-append xs ys)
    ∙ sym (append_assoc (content x) (contents xs) (contents ys))

pub All-append {ℓ} :
    {A : Type 0} (P : A → Type ℓ) (xs ys : List A) → All P xs → All P ys → All P (xs ++ ys)
All-append P [] ys a b = b
All-append P (x ∷ xs) ys a b = (a.0, All-append P xs ys a.1 b)

pub All-front {ℓ} : {A : Type 0} (P : A → Type ℓ) (xs ys : List A) → All P (xs ++ ys) → All P xs
All-front P [] ys a = tt
All-front P (x ∷ xs) ys a = (a.0, All-front P xs ys a.1)

pub All-back {ℓ} : {A : Type 0} (P : A → Type ℓ) (xs ys : List A) → All P (xs ++ ys) → All P ys
All-back P [] ys a = a
All-back P (x ∷ xs) ys a = All-back P xs ys a.1

pub Linked-append :
    (xs ys : List Entry) (z : Option Pointer)
    → Linked xs (head_or (keys ys) z)
    → Linked ys z
    → Linked (xs ++ ys) z
Linked-append [] ys z a b = b
Linked-append (x ∷ xs) ys z a b = (
  a.0
      ∙ sym (head_or-append (keys xs) (keys ys) z)
      ∙ ap (λ ks. head_or ks z) (sym (keys-append xs ys)),
  Linked-append xs ys z a.1 b,
)

pub Linked-front :
    (xs ys : List Entry) (z : Option Pointer)
    → Linked (xs ++ ys) z
    → Linked xs (head_or (keys ys) z)
Linked-front [] ys z a = tt
Linked-front (x ∷ xs) ys z a = (
  a.0 ∙ ap (λ ks. head_or ks z) (keys-append xs ys) ∙ head_or-append (keys xs) (keys ys) z,
  Linked-front xs ys z a.1,
)

pub Linked-back : (xs ys : List Entry) (z : Option Pointer) → Linked (xs ++ ys) z → Linked ys z
Linked-back [] ys z a = a
Linked-back (x ∷ xs) ys z a = Linked-back xs ys z a.1

pub IsApart-last : (ks : List Key) (k : Key) → IsApart (ks ++ (k ∷ [])) → All (λ j. Apart j k) ks
IsApart-last [] k a = tt
IsApart-last (j ∷ ks) k a = ((All-back (Apart j) ks (k ∷ []) a.0).0, IsApart-last ks k a.1)

pub IsApart-add :
    (ks : List Key) (k : Key) → IsApart ks → All (λ j. Apart j k) ks → IsApart (ks ++ (k ∷ []))
IsApart-add [] k a b = (tt, tt)
IsApart-add (j ∷ ks) k a b =
    (All-append (Apart j) ks (k ∷ []) a.0 (b.0, tt), IsApart-add ks k a.1 b.1)

pub count-append : (j : PoolName) (xs ys : List Key) → count j (xs ++ ys) ≡ count j xs + count j ys
count-append j [] ys = omega arith
count-append j (x ∷ xs) ys = omega (arith, count-append j xs ys)

pub All-keys {ℓ} :
    (P : Key → Type ℓ) (es : List Entry) → All P (keys es) → All (λ (e : Entry). P e.key) es
All-keys P [] a = tt
All-keys P (e ∷ es) a = (a.0, All-keys P es a.1)
