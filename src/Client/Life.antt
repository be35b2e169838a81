-- ===== src/Client/Life.antt =====
-- IndependentNetworkClient: Connect, Wait, Disconnect and the destructor. The handle that `socket`
-- gives and the result of `connect` are arguments, and what the thread has read so far: a join
-- is over when the thread is.
use dokevi_network.Prelude.{
  ℕ, ◌-◌, ◌≡◌, ◌≢◌, refl, List, [], ◌∷◌, ◌++◌, Bool, true, false, Option, none, some, arith, All,
  Result, ok, err, null_deref, throws, ◌>>=◌, ◌==◌, if◌then◌else◌,
}
use dokevi_network.Pool.{uint64}
use dokevi_network.Client.{Client, Event}
use dokevi_network.Client.Session.{Turn, recv_thread}

-- The members that Connect and Disconnect use: a thread object is joinable or not.
pub record Life : Type 0 where
  pub disconnect : Bool
  pub listen_socket : ℕ
  pub thread : Option Bool

pub data Call : Type 0 where
  closesocket : (handle : ℕ) → Call

abbrev pub invalid_socket : ℕ
invalid_socket = uint64 - 1

unfoldable pub connect : ℕ → Bool → Life → Bool × Life × List Call
connect opened reached l =
    let l' : Life = record l { disconnect = false; listen_socket = opened } in
    if opened == invalid_socket
    then (false, l', [])
    else if reached
    then (true, record l' { thread = some true }, [])
    else (false, l', closesocket opened ∷ [])

-- _recvThread->join(), with the turns that RecvPacket makes on the client's buffers.
unfoldable pub wait : List Turn → Client → Life → Result (Life × Client × List Event)
wait turns c l = elim l.thread [
  | none ↦ err null_deref
  | some false ↦ err throws
  | some true ↦ recv_thread turns c >>= λ (c', es). ok (record l { thread = some false }, c', es)
]

-- closesocket(_disconnect): the handle is the Boolean, as a number.
unfoldable pub disconnect :
    List Turn → Client → Life → Result (Life × Client × List Event × List Call)
disconnect turns c l = wait turns c (record l { disconnect = true }) >>= λ (l', c', es).
    ok (l', c', es, closesocket 1 ∷ [])

unfoldable pub destroy : List Turn → Client → Life → Result (Life × Client × List Event × List Call)
destroy turns c l = if l.disconnect then ok (l, c, [], []) else disconnect turns c l

connected :
    (h : ℕ) (l : Life)
    → h ≢ invalid_socket
    → connect h true l
      ≡ (true, record { disconnect = false; listen_socket = h; thread = some true }, [])
unfolding connect
connected h l valid = ground (arith, valid)

abbrev IsNotClosed : ℕ → List Call → Type 0
IsNotClosed h = All (λ call. call ≢ closesocket h)

ends :
    (turns : List Turn) (c : Client) {c' : Client} {es : List Event} (h : ℕ)
    → recv_thread turns c ≡ ok (c', es)
    → disconnect turns c (record { disconnect = false; listen_socket = h; thread = some true })
      ≡ ok (
        record { disconnect = true; listen_socket = h; thread = some false },
        c',
        es,
        closesocket 1 ∷ [],
      )
unfolding disconnect wait
ends turns c h e = rw e refl

destroyed :
    (turns : List Turn) (c : Client) (h : ℕ) (t : Option Bool)
    → destroy turns c (record { disconnect = true; listen_socket = h; thread = t })
      ≡ ok (record { disconnect = true; listen_socket = h; thread = t }, c, [], [])
unfolding destroy
destroyed turns c h t = refl

-- Of a client that has connected with a valid handle other than 1, and whose receive thread ends:
-- Disconnect and then the destructor come to their end, and none of the calls has closed the handle.
pub connect-disconnect_open :
    (h : ℕ) (l : Life) (turns : List Turn) (c c' : Client) (es : List Event)
    → h ≢ invalid_socket
    → h ≢ 1
    → recv_thread turns c ≡ ok (c', es)
    → (a : Life) × (b : Life) × (calls : List Call) × (calls' : List Call) × (calls'' : List Call)
      × (connect h true l ≡ (true, a, calls))
      × (disconnect turns c a ≡ ok (b, c', es, calls'))
      × (destroy [] c' b ≡ ok (b, c', [], calls''))
      × (b.listen_socket ≡ h)
      × IsNotClosed h (calls ++ calls' ++ calls'')
connect-disconnect_open h l turns c c' es valid other e = (
  _,
  _,
  [],
  closesocket 1 ∷ [],
  [],
  connected h l valid,
  ends turns c h e,
  destroyed [] c' h (some false),
  refl,
  ((λ q. other (closed_same q)), tt),
)
  where
    closed_same : {i j : ℕ} → closesocket i ≡ closesocket j → j ≡ i
    closed_same q = cc

-- Of a client that has connected with a valid handle and has been waited for: the destructor calls
-- join once more, which throws.
pub wait-destroy_throws :
    (h : ℕ) (l : Life) (turns turns' : List Turn) (c c' : Client) (es : List Event)
    → h ≢ invalid_socket
    → recv_thread turns c ≡ ok (c', es)
    → (a : Life) × (b : Life) × (connect h true l ≡ (true, a, []))
      × (wait turns c a ≡ ok (b, c', es))
      × (destroy turns' c' b ≡ err throws)
unfolding destroy disconnect wait
wait-destroy_throws h l turns turns' c c' es valid e = (
  record { disconnect = false; listen_socket = h; thread = some true },
  record { disconnect = false; listen_socket = h; thread = some false },
  connected h l valid,
  rw e refl,
  refl,
)
