-- ===== src/Receive/Stream.antt =====
-- RecvPacket against the wire format of Framing: which packets it hands on, and what it keeps.
use dokevi_network.Prelude.{
  ℕ, zero, suc, ◌*◌, ◌≤◌, ◌<◌, ◌≡◌, refl, ap, ◌∙◌, inl, inr, List, [], ◌∷◌, arith, length, take,
  drop, sym, take-take, subst, length-take, length-drop, length-eq-zero, dec_lt, false, true, ok,
}
use dokevi_network.Bytes.{uint_of_bytes}
use dokevi_network.Framing.{Frames, stop, more}
use dokevi_network.Receive.{
  Receiver, recv_len, recv_body, Event, packet_handler, round, recv_loop, RecvStep,
}
use dokevi_network.Receive.Rounds.{
  IsValid, contents, round-len_stop, round-len_go, round-body_stop, round-body_last,
  round-body_more, length-contents, RecvStep-cases, stepped-body,
}

-- The calls of PacketHandler for a list of frames.
abbrev pub handled : List (List ℕ) → List Event
handled [] = []
handled (f ∷ fs) = packet_handler (length f) f ∷ handled fs

-- The loop returns, having handed on the frames `fs`, and keeps `rest`.
abbrev pub Cuts : ℕ → Receiver → List (List ℕ) → List ℕ → Type 0
Cuts fuel r fs rest =
    (r' : Receiver) × (recv_loop fuel r ≡ ok (r', handled fs)) × IsValid r' × (contents r' ≡ rest)

loop-stop :
    (fuel : ℕ) (r r' : Receiver) (fs : List (List ℕ)) {rest : List ℕ}
    → round r ≡ ok (false, r', handled fs)
    → IsValid r'
    → contents r' ≡ rest
    → Cuts (suc fuel) r fs rest
unfolding recv_loop
loop-stop fuel r r' fs e v c = (r', rw e, v, c)

loop-len :
    (fuel : ℕ) (r r' : Receiver) (fs : List (List ℕ)) {rest : List ℕ}
    → round r ≡ ok (true, r', [])
    → Cuts fuel r' fs rest
    → Cuts (suc fuel) r fs rest
unfolding recv_loop
loop-len fuel r r' fs e (q, run, v, c) = (q, rw (e, run), v, c)

loop-body :
    (fuel : ℕ) (r r' : Receiver) (f : List ℕ) (fs : List (List ℕ)) {rest : List ℕ}
    → round r ≡ ok (true, r', packet_handler (length f) f ∷ [])
    → Cuts fuel r' fs rest
    → Cuts (suc fuel) r (f ∷ fs) rest
unfolding recv_loop
loop-body fuel r r' f fs e (q, run, v, c) = (q, rw (e, run), v, c)

-- At most this many rounds are ahead.
abbrev pub rounds_left : RecvStep → ℕ → ℕ
rounds_left recv_len n = suc (2 * n)
rounds_left recv_body n = 2 * n

-- The loop from a state with fewer rounds left.
abbrev pub Again : ℕ → Type 0
Again fuel =
    (r : Receiver) (fs : List (List ℕ)) (rest : List ℕ)
    → IsValid r
    → Frames (contents r) fs rest
    → rounds_left r.recv_step r.recv_size < fuel
    → Cuts fuel r fs rest

len-short :
    (fuel : ℕ) (r : Receiver) {s : List ℕ} {fs : List (List ℕ)} {rest : List ℕ}
    → IsValid r
    → r.recv_step ≡ recv_len
    → r.recv_size < 4
    → contents r ≡ s
    → Frames s fs rest
    → Cuts (suc fuel) r fs rest
len-short fuel r v e h c (stop p) = loop-stop fuel r r [] (round-len_stop r e h) v c
len-short fuel r v e h c (more a b d f) = absurd (omega (arith, ap length c, length-contents v))

at-len :
    (fuel : ℕ)
    → Again fuel
    → (r : Receiver) (fs : List (List ℕ)) (rest : List ℕ) → IsValid r
    → r.recv_step ≡ recv_len
    → Frames (contents r) fs rest
    → 2 * r.recv_size < fuel
    → Cuts (suc fuel) r fs rest
at-len fuel again r fs rest v e h m = elim (dec_lt r.recv_size 4) [
  | yes p ↦ len-short fuel r v e p refl h
  | no p ↦
      let (run, v') = round-len_go v e (omega arith) in
      loop-len fuel r _ fs run (again _ fs rest v' h m)
]

-- What PacketHandler is given is the first frame.
first-frame :
    (r : Receiver) (s : List ℕ)
    → contents r ≡ s
    → r.packet_size ≡ uint_of_bytes s
    → r.packet_size ≤ r.recv_size
    → uint_of_bytes s ≤ length s
    → packet_handler r.packet_size (take r.packet_size r.packet_buf)
      ≡ packet_handler (length (take (uint_of_bytes s) s)) (take (uint_of_bytes s) s)
first-frame r s c size le d =
    ap (λ k. packet_handler k (take r.packet_size r.packet_buf))
      (omega (arith, length-take (uint_of_bytes s) s, size))
    ∙ ap (packet_handler (length (take (uint_of_bytes s) s))) (
        sym (take-take r.packet_size r.recv_size r.packet_buf le)
        ∙ ap (take r.packet_size) c
        ∙ ap (λ k. take k s) size)

body-last :
    (fuel : ℕ) (r r' : Receiver) (f : List ℕ) {t : List ℕ} {fs : List (List ℕ)} {rest : List ℕ}
    → round r ≡ ok (false, r', packet_handler (length f) f ∷ [])
    → IsValid r'
    → contents r' ≡ []
    → length t ≡ 0
    → Frames t fs rest
    → Cuts (suc fuel) r (f ∷ fs) rest
body-last fuel r r' f e v c z (stop {s = t} p) =
    loop-stop fuel r r' (f ∷ []) e v (c ∙ sym (length-eq-zero t z))
body-last fuel r r' f e v c z (more a b d h) = absurd (omega arith)

at-body :
    (fuel : ℕ)
    → Again fuel
    → (r : Receiver) {s : List ℕ} {fs : List (List ℕ)} {rest : List ℕ} → IsValid r
    → r.recv_step ≡ recv_body
    → r.packet_size ≡ uint_of_bytes s
    → 4 ≤ length s
    → contents r ≡ s
    → Frames s fs rest
    → 2 * r.recv_size ≤ fuel
    → Cuts (suc fuel) r fs rest
at-body fuel again r v e size four c (stop {s = s} p) m =
    loop-stop fuel r r []
      (round-body_stop r e (omega (arith, p, ap length c, length-contents v, size, four))) v c
at-body fuel again r v e size four c (more {s = s} {fs = fs} {rest = rest} a b d h) m =
    elim (dec_lt r.packet_size r.recv_size) [
      | yes p ↦
          let (r', run, v', len, cut) = round-body_more v e p in
          loop-body fuel r r' (take (uint_of_bytes s) s) fs
            (run ∙ ap (λ x. ok (true, r', x ∷ [])) (event (omega arith)))
            (again r' fs rest v' (subst (λ t. Frames t fs rest) (sym (cut ∙ tail)) h)
              (shorter r' v' len (cut ∙ tail)))
      | no p ↦
          let (run, v') = round-body_last v e (omega (arith, filled)) in
          body-last fuel r _ (take (uint_of_bytes s) s)
            (run
              ∙ ap (λ x. ok (false, record r { recv_step = recv_len; recv_size = 0 }, x ∷ []))
                  (event (omega (arith, filled))))
            v' refl (omega (arith, length-drop (uint_of_bytes s) s, filled)) h
    ]
  where
    filled : (length s ≡ r.recv_size) × (r.packet_size ≤ r.recv_size)
    filled = omega (arith, ap length c, length-contents v, size)

    event :
        r.packet_size ≤ r.recv_size
        → packet_handler r.packet_size (take r.packet_size r.packet_buf)
          ≡ packet_handler (length (take (uint_of_bytes s) s)) (take (uint_of_bytes s) s)
    event le = first-frame r s c size le d

    tail : drop r.packet_size (contents r) ≡ drop (uint_of_bytes s) s
    tail = ap (drop r.packet_size) c ∙ ap (λ k. drop k s) size

    shorter :
        (r' : Receiver)
        → IsValid r'
        → r'.recv_step ≡ recv_len
        → contents r' ≡ drop (uint_of_bytes s) s
        → rounds_left r'.recv_step r'.recv_size < fuel
    shorter r' v' len cut =
        subst (λ st. rounds_left st r'.recv_size < fuel) (sym len)
          (omega
            (arith, ap length cut, length-contents v', length-drop (uint_of_bytes s) s, filled))

-- With the fuel for its rounds the loop cuts its contents into frames.
pub loop_lem : (fuel : ℕ) → Again fuel
loop_lem zero r fs rest v h m = absurd (omega arith)
loop_lem (suc fuel) r fs rest v h m = elim (RecvStep-cases r.recv_step) [
  | inl e ↦
      at-len fuel (loop_lem fuel) r fs rest v e h
        (omega (arith, subst (λ st. rounds_left st r.recv_size < suc fuel) e m))
  | inr e ↦
      let (four, size) = stepped-body r.recv_step r.packet_size (contents r) e v.stepped in
      at-body fuel (loop_lem fuel) r v e size four refl h
        (omega (arith, subst (λ st. rounds_left st r.recv_size < suc fuel) e m))
]
