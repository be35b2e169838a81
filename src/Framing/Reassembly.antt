-- ===== src/Framing/Reassembly.antt =====
-- What a reader of the wire format promises for one piece of the stream, as an interface, and what
-- follows for a whole stream: RecvPacket of the server and DeserializePacket of the client are its
-- two implementations.
use mathlib.Core.List.{append_assoc, append-nil, map-append}
use dokevi_network.Prelude.{
  ℕ, suc, ◌+◌, ◌≤◌, ◌<◌, ◌≡◌, refl, sym, ap, ap₂, ◌∙◌, List, [], ◌∷◌, ◌++◌, map, arith, length,
  concat, subst, All, ok, ◌>>=◌, Result, bind_ok,
}
use dokevi_network.Framing.{
  Frames, Partial, stop, Frames-split, Frames-rest, Frames-unique, Partial-lt,
}

-- One piece after another, with the events of each in order.
unfoldable pub feed_all :
    {State Piece Event : Type 0}
    → (Piece → State → Result (State × List Event))
    → List Piece
    → State
    → Result (State × List Event)
feed_all feed [] s = ok (s, [])
feed_all feed (p ∷ ps) s = do
  (s', es) ← feed p s
  (s'', es') ← feed_all feed ps s'
  ok (s'', es ++ es')

-- The reader returns from each piece.
abbrev pub Returns :
    {State Piece Event : Type 0}
    → (Piece → State → Result (State × List Event))
    → List Piece
    → State
    → Type 0
Returns {State} {Event = Event} feed ps s = (o : State × List Event) × (feed_all feed ps s ≡ ok o)

-- It returns from the first, and then from the rest.
pub Returns-split :
    {State Piece Event : Type 0} (feed : Piece → State → Result (State × List Event)) (p : Piece)
    (ps : List Piece) {s : State}
    → Returns feed (p ∷ ps) s
    → (s' : State) × (es : List Event) × (feed p s ≡ ok (s', es)) × Returns feed ps s'
unfolding feed_all
Returns-split feed p ps {s} (o, run) =
    let ((s', es), first, run') = bind_ok (feed p s) _ run in
    let (o', second, _) = bind_ok (feed_all feed ps s') _ run' in (s', es, first, (o', second))

-- What is run in two parts is run as one.
pub feed_all-append :
    {State Piece Event : Type 0} (feed : Piece → State → Result (State × List Event))
    (ps qs : List Piece) (s : State) {s' s'' : State} {es es' : List Event}
    → feed_all feed ps s ≡ ok (s', es)
    → feed_all feed qs s' ≡ ok (s'', es')
    → feed_all feed (ps ++ qs) s ≡ ok (s'', es ++ es')
unfolding feed_all
feed_all-append feed [] qs s run run' = cc
feed_all-append feed (p ∷ ps) qs s {s' = s'} {s'' = s''} {es = es} {es' = es'} run run' =
    let ((t, fs), first, then) = bind_ok (feed p s) _ run in
    let ((u, gs), second, last) = bind_ok (feed_all feed ps t) _ then in
    let same : u ≡ s' = cc in
    let whole : fs ++ gs ≡ es = cc in
    rw (first, feed_all-append feed ps qs t second (ap (feed_all feed qs) same ∙ run'))
      (ap (λ l. ok (s'', l)) (sym (append_assoc fs gs es') ∙ ap (λ l. l ++ es') whole))

pub Returns-append :
    {State Piece Event : Type 0} (feed : Piece → State → Result (State × List Event))
    (ps qs : List Piece) (s : State)
    → Returns feed (ps ++ qs) s
    → (s' : State) × (es : List Event) × (feed_all feed ps s ≡ ok (s', es)) × Returns feed qs s'
unfolding feed_all
Returns-append feed [] qs s h = (s, [], refl, h)
Returns-append feed (p ∷ ps) qs s h =
    let (s', es, first, rest) = Returns-split feed p (ps ++ qs) h in
    let (s'', es', second, last) = Returns-append feed ps qs s' rest in
    (s'', es ++ es', rw (first, second), last)

pub feed_all-cons :
    {State Piece Event : Type 0} (feed : Piece → State → Result (State × List Event)) (p : Piece)
    (ps : List Piece) {s s' s'' : State} {es es' : List Event}
    → feed p s ≡ ok (s', es)
    → feed_all feed ps s' ≡ ok (s'', es')
    → feed_all feed (p ∷ ps) s ≡ ok (s'', es ++ es')
unfolding feed_all
feed_all-cons feed p ps a b = rw (a, b)

pub record Reader : Type 1 where
  pub State : Type 0
  pub Piece : Type 0
  pub Event : Type 0
  -- What an application is given of a frame.
  pub Delivery : Type 0
  pub IsValid : State → Type 0
  pub contents : State → List ℕ
  -- The new bytes of a piece, and what the environment keeps to.
  pub bytes : Piece → List ℕ
  pub IsPiece : Piece → Type 0
  -- The frames that the reader can handle.
  pub Accepts : List ℕ → Type 0
  pub delivery : List ℕ → Delivery
  pub capacity : ℕ
  pub feed : Piece → State → Result (State × List Event)
  pub deliveries : List Event → List Delivery
  pub deliveries-append :
      (es es' : List Event) → deliveries (es ++ es') ≡ deliveries es ++ deliveries es'
  pub deliveries-nil : deliveries [] ≡ []
  pub feed_lem :
      (p : Piece) (s : State) (fs : List (List ℕ)) (rest : List ℕ)
      → IsValid s
      → IsPiece p
      → length (contents s) + length (bytes p) ≤ capacity
      → Frames (contents s ++ bytes p) fs rest
      → All Accepts fs
      → (s' : State) × (es : List Event) × (feed p s ≡ ok (s', es))
        × (deliveries es ≡ map delivery fs)
        × IsValid s'
        × (contents s' ≡ rest)

All-append_left {ℓ κ} : {A : Type ℓ} (P : A → Type κ) (xs ys : List A) → All P (xs ++ ys) → All P xs
All-append_left P [] ys h = tt
All-append_left P (x ∷ xs) ys h = (h.0, All-append_left P xs ys h.1)

All-append_right {ℓ κ} :
    {A : Type ℓ} (P : A → Type κ) (xs ys : List A) → All P (xs ++ ys) → All P ys
All-append_right P [] ys h = h
All-append_right P (x ∷ xs) ys h = All-append_right P xs ys h.1

module _ (reader : Reader) where
  open reader use {
    State, Piece, Event, Delivery, IsValid, contents, bytes, IsPiece, Accepts, delivery, capacity,
    feed, deliveries, deliveries-append, deliveries-nil, feed_lem,
  }

  -- A piece is not empty, and fits behind an unfinished frame of fewer than `m` bytes.
  abbrev pub IsSmall : ℕ → Piece → Type 0
  IsSmall m p = IsPiece p × (length (bytes p) + m ≤ suc capacity)

  abbrev pub Suits : ℕ → List ℕ → Type 0
  Suits m f = Accepts f × (length f ≤ m)

  delivered :
      (es es' : List Event) (gs hs : List (List ℕ)) {fs : List (List ℕ)}
      → deliveries es ≡ map delivery gs
      → deliveries es' ≡ map delivery hs
      → fs ≡ gs ++ hs
      → deliveries (es ++ es') ≡ map delivery fs
  delivered es es' gs hs a b split =
      deliveries-append es es'
      ∙ ap₂ ◌++◌ a b
      ∙ sym (map-append delivery gs hs)
      ∙ ap (map delivery) (sym split)

  -- However a stream of frames of at most `m` bytes is cut into pieces, each frame is delivered
  -- once, in order, and what is no whole frame stays buffered.
  pub feed_all_lem :
      (m : ℕ) (ps : List Piece) (s : State) (fs : List (List ℕ)) (rest : List ℕ)
      → 4 ≤ m
      → IsValid s
      → Partial (contents s)
      → All (IsSmall m) ps
      → Frames (contents s ++ concat (map bytes ps)) fs rest
      → All (λ f. length f ≤ m) fs
      → All Accepts fs
      → length rest < m
      → (s' : State) × (es : List Event) × (feed_all feed ps s ≡ ok (s', es))
        × (deliveries es ≡ map delivery fs)
        × IsValid s'
        × (contents s' ≡ rest)
  unfolding feed_all
  feed_all_lem m [] s fs rest four v p small h short good last =
      let (nothing, same) =
        Frames-unique h
          (subst (λ t. Frames t [] (contents s)) (sym (append-nil (contents s))) (stop p)) in
      (s, [], refl, deliveries-nil ∙ ap (map delivery) (sym nothing), v, sym same)
  feed_all_lem m (c ∷ cs) s fs rest four v p small h short good last =
      let (gs, q, hs, left, right, split) =
        Frames-split (contents s ++ bytes c) (concat (map bytes cs)) h
          (sym (append_assoc (contents s) (bytes c) (concat (map bytes cs)))) in
      let (s', es, run, seen, v', now) =
        feed_lem c s gs q v small.0.0
          (omega (
            arith,
            small.0.1,
            Partial-lt m (contents s) (concat (map bytes (c ∷ cs))) _ four p h refl short last,
          ))
          left (All-append_left Accepts gs hs (subst (All Accepts) split good)) in
      let (s'', es', run', seen', v'', now') =
        feed_all_lem m cs s' hs rest four v' (subst Partial (sym now) (Frames-rest left)) small.1
          (subst (λ t. Frames (t ++ concat (map bytes cs)) hs rest) (sym now) right)
          (All-append_right (λ f. length f ≤ m) gs hs (subst (All (λ f. length f ≤ m)) split short))
          (All-append_right Accepts gs hs (subst (All Accepts) split good)) last in
      (
        s'',
        es ++ es',
        feed_all-cons feed c cs run run',
        delivered es es' gs hs seen seen' split,
        v'',
        now',
      )
