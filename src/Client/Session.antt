-- ===== src/Client/Session.antt =====
-- IndependentNetworkClient::RecvPacket, the thread that receives. Another thread sets _disconnect, so
-- that what each test of it reads is an argument, as what each `recv` answers is.
use dokevi_network.Prelude.{
  ℕ, zero, suc, ◌≡◌, refl, sym, List, [], ◌∷◌, ◌++◌, arith, Result, ok, err, spins, ◌>>=◌,
  replicate, subst,
}
use mathlib.Core.List.{append-nil}
use dokevi_network.Framing.{Frames, Partial, stop}
use dokevi_network.Client.{Client, Event, deserialize_packet}
use dokevi_network.Client.Rounds.{IsValid, contents}
use dokevi_network.Client.Delivery.{deliveries}
use dokevi_network.Client.Stream.{deserialize_packet_lem}

-- One turn of the loop: _disconnect is set, or `recv` answers -1, or it brings bytes; 0 bytes when
-- the server has closed the connection.
pub data Turn : Type 0 where
  disconnected broken : Turn
  got : List ℕ → Turn

-- With no turn left the thread is still running.
unfoldable pub recv_thread : List Turn → Client → Result (Client × List Event)
recv_thread [] c = err spins
recv_thread (disconnected ∷ ts) c = ok (c, [])
recv_thread (broken ∷ ts) c = ok (c, [])
recv_thread (got d ∷ ts) c = do
  (c', es) ← deserialize_packet d c
  (c'', es') ← recv_thread ts c'
  ok (c'', es ++ es')

no_turns : (c : Client) → recv_thread [] c ≡ err spins
unfolding recv_thread
no_turns c = refl

-- Nothing new, or nothing at all, completes no frame.
nothing_new :
    (c : Client)
    → IsValid c
    → Partial (contents c)
    → (c' : Client) × (es : List Event) × (deserialize_packet [] c ≡ ok (c', es))
      × (deliveries es ≡ [])
      × IsValid c'
      × (contents c' ≡ contents c)
nothing_new c v p =
    deserialize_packet_lem [] c v (omega (arith, v.fits)) [] (contents c)
      (subst (λ s. Frames s [] (contents c)) (sym (append-nil (contents c))) (stop p)) tt

spinning :
    (ts : List Turn) (c c' : Client) (es : List Event)
    → deserialize_packet [] c ≡ ok (c', es)
    → recv_thread ts c' ≡ err spins
    → recv_thread (got [] ∷ ts) c ≡ err spins
unfolding recv_thread
spinning ts c c' es e f = rw (e, f)

-- On a valid client with an unfinished frame: when the server has closed the connection, so that every
-- `recv` answers 0 from then on, no number of turns ends the thread.
pub recv_thread-closed :
    (n : ℕ) (c : Client)
    → IsValid c
    → Partial (contents c)
    → recv_thread (replicate n (got [])) c ≡ err spins
recv_thread-closed zero c v p = no_turns c
recv_thread-closed (suc n) c v p =
    let (c', es, run, _, v', same) = nothing_new c v p in
    spinning (replicate n (got [])) c c' es run
      (recv_thread-closed n c' v' (subst Partial (sym same) p))
