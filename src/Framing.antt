-- ===== src/Framing.antt =====
-- The wire format that TCPSocket::RecvPacket (TCPSocket.cpp) and
-- IndependentNetworkClient::DeserializePacket (NetworkClient.cpp) both read, told without their
-- buffers: a stream is cut into frames, each announced by the size in its first four bytes, and
-- that size counts the four bytes too.
pub mod Stuck
pub mod Reassembly
use dokevi_network.Prelude.{
  ℕ, ◌≤◌, ◌<◌, ◌≡◌, refl, sym, ap, ◌∙◌, ◌⊎◌, inl, List, [], ◌∷◌, ◌++◌, arith, length, take, drop,
  concat, All, length-append, take-append, drop-append, take-append_seam, drop-append_seam, subst,
  take-append-drop, dec_le, inr, ap₂, length-take,
}
use dokevi_network.Bytes.{uint_of_bytes, uint_of_bytes-append}
use mathlib.Core.List.{append_assoc}

-- What is at hand is not a whole frame yet.
abbrev pub Partial : List ℕ → Type 0
Partial s = (length s < 4) ⊎ (length s < uint_of_bytes s)

-- `Frames s fs rest`: the stream `s` is the frames `fs` and then the unfinished `rest`.
pub data Frames : List ℕ → List (List ℕ) → List ℕ → Type 0 where
  stop : {s : List ℕ} → Partial s → Frames s [] s
  more :
      {s : List ℕ} {fs : List (List ℕ)} {rest : List ℕ}
      → 4 ≤ length s
      → 1 ≤ uint_of_bytes s
      → uint_of_bytes s ≤ length s
      → Frames (drop (uint_of_bytes s) s) fs rest
      → Frames s (take (uint_of_bytes s) s ∷ fs) rest

-- A byte string that is one frame by itself.
pub record IsFrame (f : List ℕ) : Type 0 where
  pub headed : 4 ≤ length f
  pub announced : uint_of_bytes f ≡ length f

-- `more` with its computed parts named.
pub Frames-step :
    (s : List ℕ) (n : ℕ) (f t : List ℕ) {fs : List (List ℕ)} {rest : List ℕ}
    → uint_of_bytes s ≡ n
    → take n s ≡ f
    → drop n s ≡ t
    → 4 ≤ length s
    → 1 ≤ n
    → n ≤ length s
    → Frames t fs rest
    → Frames s (f ∷ fs) rest
Frames-step s n f t {fs} {rest} size front back a b d h =
    subst (λ g. Frames s (g ∷ fs) rest) (ap (λ k. take k s) size ∙ front)
      (more a (omega arith) (omega arith)
        (subst (λ u. Frames u fs rest) (sym (ap (λ k. drop k s) size ∙ back)) h))

-- A frame in front of a stream is its first frame.
pub Frames-cons :
    (f s : List ℕ) {fs : List (List ℕ)} {rest : List ℕ}
    → IsFrame f
    → Frames s fs rest
    → Frames (f ++ s) (f ∷ fs) rest
Frames-cons f s v h =
    Frames-step (f ++ s) (length f) f s (uint_of_bytes-append f s v.headed ∙ v.announced)
      (take-append_seam (length f) f s refl) (drop-append_seam (length f) f s refl)
      (omega (arith, length-append f s, v.headed)) (omega (arith, v.headed))
      (omega (arith, length-append f s)) h

-- Frames one after the other are cut at their ends, with nothing left.
pub Frames-concat : (fs : List (List ℕ)) → All IsFrame fs → Frames (concat fs) fs []
Frames-concat [] h = stop (inl (omega arith))
Frames-concat (f ∷ fs) h = Frames-cons f (concat fs) h.0 (Frames-concat fs h.1)

-- More bytes behind a stream leave its frames as they are.
pub Frames-append :
    {s : List ℕ} {fs : List (List ℕ)} {rest : List ℕ} (c : List ℕ) {gs : List (List ℕ)}
    {rest' : List ℕ}
    → Frames s fs rest
    → Frames (rest ++ c) gs rest'
    → Frames (s ++ c) (fs ++ gs) rest'
Frames-append c (stop p) g = g
Frames-append c (more {s = s} a b d h) g =
    Frames-step (s ++ c) (uint_of_bytes s) _ _ (uint_of_bytes-append s c a) (take-append _ s c d)
      (drop-append _ s c d) (omega (arith, length-append s c)) b (omega (arith, length-append s c))
      (Frames-append c h g)

-- A stream is cut in one way only.
pub Frames-unique :
    {s : List ℕ} {fs gs : List (List ℕ)} {r q : List ℕ}
    → Frames s fs r
    → Frames s gs q
    → (fs ≡ gs) × (r ≡ q)
Frames-unique (stop p) (stop q) = (refl, refl)
Frames-unique (stop p) (more a b d g) = absurd (omega arith)
Frames-unique (more a b d h) (stop p) = absurd (omega arith)
Frames-unique (more {s = s} a b d h) (more a' b' d' g) =
    let (e, r) = Frames-unique h g in (ap (λ l. take (uint_of_bytes s) s ∷ l) e, r)

-- What is left over is never a whole frame.
pub Frames-rest : {s : List ℕ} {fs : List (List ℕ)} {r : List ℕ} → Frames s fs r → Partial r
Frames-rest (stop p) = p
Frames-rest (more a b d h) = Frames-rest h

-- Nothing is lost: the frames and what is left over are the stream.
pub Frames-content :
    {s : List ℕ} {fs : List (List ℕ)} {r : List ℕ} → Frames s fs r → concat fs ++ r ≡ s
Frames-content (stop p) = refl
Frames-content (more {s = s} {fs = fs} {rest = r} a b d h) =
    append_assoc (take (uint_of_bytes s) s) (concat fs) r
    ∙ ap (λ t. take (uint_of_bytes s) s ++ t) (Frames-content h)
    ∙ take-append-drop (uint_of_bytes s) s

Partial-prefix : (s c : List ℕ) → Partial (s ++ c) → Partial s
Partial-prefix s c p = elim (dec_le 4 (length s)) [
  | no short ↦ inl (omega arith)
  | yes headed ↦ inr (omega (arith, p, length-append s c, uint_of_bytes-append s c headed))
]

-- A stream that is cut where it ends is cut the same when it is read up to any point first: what is
-- over at that point is joined with the rest.
pub Frames-split :
    {t : List ℕ} {fs : List (List ℕ)} {rest : List ℕ} (s c : List ℕ)
    → Frames t fs rest
    → t ≡ s ++ c
    → (gs : List (List ℕ)) × (q : List ℕ) × (hs : List (List ℕ)) × Frames s gs q
      × Frames (q ++ c) hs rest
      × (fs ≡ gs ++ hs)
Frames-split {rest = rest} s c (stop p) e = (
  [],
  s,
  [],
  stop (Partial-prefix s c (subst Partial e p)),
  subst (λ u. Frames u [] rest) e (stop p),
  refl,
)
Frames-split s c (more {s = t} {fs = fs} {rest = rest} a b d h) e = elim (dec_le 4 (length s)) [
  | no short ↦ (
    [],
    s,
    _,
    stop (inl (omega arith)),
    subst (λ u. Frames u (take (uint_of_bytes t) t ∷ fs) rest) e (more a b d h),
    refl,
  )
  | yes headed ↦ elim (dec_le (uint_of_bytes s) (length s)) [
    | no short ↦ (
      [],
      s,
      _,
      stop (inr (omega arith)),
      subst (λ u. Frames u (take (uint_of_bytes t) t ∷ fs) rest) e (more a b d h),
      refl,
    )
    | yes whole ↦
        let same = ap uint_of_bytes e ∙ uint_of_bytes-append s c headed in
        let (gs, q, hs, left, right, split) =
          Frames-split (drop (uint_of_bytes s) s) c h
            (ap (λ n. drop n t) same ∙ ap (drop (uint_of_bytes s)) e ∙ drop-append _ s c whole) in
        (
          take (uint_of_bytes s) s ∷ gs,
          q,
          hs,
          more headed (omega (arith, same)) whole left,
          right,
          ap₂ ◌∷◌
              (ap (λ n. take n t) same ∙ ap (take (uint_of_bytes s)) e ∙ take-append _ s c whole)
              split,
        )
  ]
]

-- Before a stream of frames of at most `m` bytes, an unfinished start is shorter than `m`.
pub Partial-lt :
    (m : ℕ) (q c t : List ℕ) {fs : List (List ℕ)} {rest : List ℕ}
    → 4 ≤ m
    → Partial q
    → Frames t fs rest
    → t ≡ q ++ c
    → All (λ f. length f ≤ m) fs
    → length rest < m
    → length q < m
Partial-lt m q c t four p (stop w) e short last = omega (arith, ap length e, length-append q c)
Partial-lt m q c t four p (more a b d h) e short last = elim (dec_le 4 (length q)) [
  | no headless ↦ omega arith
  | yes headed ↦ omega (
    arith,
    p,
    short.0,
    ap uint_of_bytes e,
    uint_of_bytes-append q c headed,
    length-take (uint_of_bytes t) t,
  )
]
