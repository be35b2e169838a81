-- ===== src/Server/Accounts.antt =====
-- What the theorems on DokeviServer.cpp count and ask for: the accepts that are posted, the receives
-- that are handed on, and the answers and connections with which nothing fails.
use dokevi_network.Prelude.{
  ℕ, zero, suc, ◌+◌, ◌<◌, ◌≡◌, refl, List, [], ◌∷◌, ◌++◌, true, arith, some, length, get_elem?, All,
}
use dokevi_network.Server.{
  Server, Connection, Event, accept_posted, connected, recv_posted, disconnected, written, closed,
  received, object_handled, Completion, lost, failed, accepted, sent, arrived, object_done, Round,
  is_listening, find_alloc,
}

-- How many accepts the events post.
abbrev pub posted : List Event → ℕ
posted [] = 0
posted (accept_posted n ∷ es) = suc (posted es)
posted (_ ∷ es) = posted es

pub posted-append : (es es' : List Event) → posted (es ++ es') ≡ posted es + posted es'
posted-append [] es' = omega arith
posted-append (accept_posted n ∷ es) es' = omega (arith, posted-append es es')
posted-append (connected n ∷ es) es' = omega (arith, posted-append es es')
posted-append (recv_posted n ∷ es) es' = omega (arith, posted-append es es')
posted-append (disconnected n ∷ es) es' = omega (arith, posted-append es es')
posted-append (written n ∷ es) es' = omega (arith, posted-append es es')
posted-append (closed n g ∷ es) es' = omega (arith, posted-append es es')
posted-append (received n k ∷ es) es' = omega (arith, posted-append es es')
posted-append (object_handled ∷ es) es' = omega (arith, posted-append es es')

-- The receives that the events hand to RecvHandler, by connection and size.
abbrev pub heard : List Event → List (ℕ × ℕ)
heard [] = []
heard (received n size ∷ es) = (n, size) ∷ heard es
heard (_ ∷ es) = heard es

-- The one of a completion: a connection that sends nothing ends.
abbrev pub heard_by : Completion → List (ℕ × ℕ)
heard_by (arrived n (suc k)) = (n, suc k) ∷ []
heard_by _ = []

-- The accept that has brought a connection. One that fails while it is pending does not count.
abbrev pub used_up : Completion → ℕ
used_up (accepted n) = 1
used_up _ = 0

abbrev pub all_used_up : List Round → ℕ
all_used_up [] = 0
all_used_up (r ∷ rs) = used_up r.completion + all_used_up rs

-- A completion is about a connection that there is.
abbrev pub IsAbout : ℕ → Completion → Type 0
IsAbout n (lost c) = c < n
IsAbout n failed = Unit {0}
IsAbout n (accepted c) = c < n
IsAbout n (sent c) = c < n
IsAbout n (arrived c size) = c < n
IsAbout n object_done = Unit {0}

-- The connections that it makes the server open.
abbrev pub opens : Completion → ℕ
opens (lost c) = 1
opens (arrived c zero) = 1
opens (arrived c (suc k)) = 0
opens _ = 0

abbrev pub InRange : ℕ → List Round → Type 0
InRange n [] = Unit {0}
InRange n (r ∷ rs) = IsAbout n r.completion × InRange (n + opens r.completion) rs

-- Every call of the operating system succeeds.
pub record IsFine (r : Round) : Type 0 where
  pub associated : r.associated ≡ true
  pub created : r.answer.created ≡ true
  pub accepting : r.answer.accepting ≡ true

-- The port of every connection is open, the application gives it a client, and it has one.
pub record IsServed (ports : List ℕ) (allocs : List (ℕ × ℕ)) (c : Connection) : Type 0 where
  pub listening : is_listening c.port ports ≡ true
  pub function : ℕ
  pub allocated : find_alloc c.port allocs ≡ some function
  pub client : ℕ
  pub present : c.client ≡ some client

abbrev pub IsValid : Server → Type 0
IsValid s = All (IsServed s.listen_sockets s.port_alloc_map) s.connections

pub All-lookup :
    {A : Type 0} (P : A → Type 0) (xs : List A) (n : ℕ)
    → All P xs
    → n < length xs
    → (x : A) × (get_elem? xs n ≡ some x) × P x
All-lookup P [] n h lt = elim lt [ ]
All-lookup P (x ∷ xs) zero h lt = (x, refl, h.0)
All-lookup P (x ∷ xs) (suc n) h lt = All-lookup P xs n h.1 (omega arith)

pub All-snoc :
    {A : Type 0} (P : A → Type 0) (xs : List A) (x : A) → All P xs → P x → All P (xs ++ (x ∷ []))
All-snoc P [] x h v = (v, tt)
All-snoc P (y ∷ xs) x h v = (h.0, All-snoc P xs x h.1 v)
