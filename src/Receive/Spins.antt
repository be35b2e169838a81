-- ===== src/Receive/Spins.antt =====
-- RecvPacket does not return from a stream in which a frame announces the size 0.
use dokevi_network.Prelude.{
  ℕ, zero, suc, ◌+◌, ◌≤◌, ◌<◌, ◌≡◌, refl, sym, ap, ◌∙◌, inl, inr, List, [], ◌++◌, arith, length,
  take, drop, subst, ok, err, true, spins, Result, length-drop, ◌↔◌, memcpy_lem, read_at_lem, ==_ne,
}
use dokevi_network.Bytes.{uint_of_bytes}
use dokevi_network.Framing.Stuck.{Stuck, zero_size, behind, Cuttable, cut}
use dokevi_network.Receive.{
  Receiver, Event, round, recv_loop, recv_packet, recv_fuel, max_packet_buf_size,
}
use dokevi_network.Receive.Rounds.{
  IsValid, contents, length-contents, round-len_go, round-body_more, RecvStep-cases, stepped-body,
}
use dokevi_network.Receive.Chunks.{
  joined, joined-IsValid, contents-joined, length-received, recv_packet_lem,
}

no_rounds : (r : Receiver) → recv_loop 0 r ≡ err spins
unfolding recv_loop
no_rounds r = refl

never :
    {m : Result (Receiver × List Event)} (r' : Receiver) (es : List Event)
    → m ≡ ok (r', es)
    → m ≡ err spins
    → ⊥
never r' es e f = cc

go_on :
    (fuel : ℕ) (r r' : Receiver) (es : List Event)
    → round r ≡ ok (true, r', es)
    → recv_loop fuel r' ≡ err spins
    → recv_loop (suc fuel) r ≡ err spins
unfolding recv_loop
go_on fuel r r' es e h = rw (e, h)

Stuck-headed : {s : List ℕ} → Stuck s → 4 ≤ length s
Stuck-headed (zero_size a z) = a
Stuck-headed (behind a b d t) = a

Stuck-drop :
    (s : List ℕ) → Stuck s → (uint_of_bytes s < length s) × Stuck (drop (uint_of_bytes s) s)
Stuck-drop s (zero_size a z) =
    (omega arith, subst Stuck (ap (λ k. drop k s) (sym z)) (zero_size a z))
Stuck-drop s (behind a b d t) = (omega (arith, Stuck-headed t, length-drop (uint_of_bytes s) s), t)

-- On a valid receiver whose bytes have, behind some whole frames, a frame that announces the size 0,
-- no number of rounds brings the loop to its end.
pub loop-spins :
    (fuel : ℕ) (r : Receiver) → IsValid r → Stuck (contents r) → recv_loop fuel r ≡ err spins
loop-spins zero r v t = no_rounds r
loop-spins (suc fuel) r v t = elim (RecvStep-cases r.recv_step) [
  | inl e ↦
      let (run, v') = round-len_go v e (omega (arith, Stuck-headed t, length-contents v)) in
      go_on fuel r _ [] run (loop-spins fuel _ v' t)
  | inr e ↦
      let (four, size) = stepped-body r.recv_step r.packet_size (contents r) e v.stepped in
      let (lt, t') = Stuck-drop (contents r) t in
      let (r', run, v', len, cut) =
        round-body_more v e (omega (arith, lt, size, length-contents v)) in
      go_on fuel r r' _ run
        (loop-spins fuel r' v' (subst Stuck (sym (cut ∙ ap (λ k. drop k (contents r)) size)) t'))
]

module _ (r : Receiver) (n : ℕ) (v : IsValid r) (some_bytes : 0 < n) (given : n ≤ length r.recv_buf)
    (room : r.recv_size + n ≤ max_packet_buf_size) where
  recv_packet-spins : Stuck (contents r ++ take n r.recv_buf) → recv_packet n r ≡ err spins
  unfolding recv_packet
  recv_packet-spins t = rw (
    ==_ne n 0 (omega arith),
    read_at_lem r.recv_buf n given,
    memcpy_lem r.packet_buf r.recv_size (take n r.recv_buf)
        (omega (arith, length-received r n v some_bytes given, v.sized)),
    loop-spins (recv_fuel (joined r n)) (joined r n) (joined-IsValid r n v some_bytes given room)
        (subst Stuck (sym (contents-joined r n v some_bytes given room)) t),
  )

  -- On a valid receiver, for a receive of some bytes that fits behind those that are there, RecvPacket
  -- returns exactly when all these bytes can be cut into whole frames of at least one byte and an
  -- unfinished rest.
  pub recv_packet_returns_iff :
      ((r' : Receiver) × (es : List Event) × (recv_packet n r ≡ ok (r', es)))
      ↔ Cuttable (contents r ++ take n r.recv_buf)
  recv_packet_returns_iff = (
    λ (r', es, run). elim (cut (contents r ++ take n r.recv_buf)) [
      | inl frames ↦ frames
      | inr t ↦ absurd (never r' es run (recv_packet-spins t))
    ],
    λ (fs, rest, h).
        let (r', run, _, _) = recv_packet_lem r n v some_bytes given room fs rest h in (r', _, run),
  )
