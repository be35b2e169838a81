-- ===== src/Server/Isolation.antt =====
-- Each socket behind the dispatch of DokeviServer.cpp, looked at by itself.
use mathlib.Core.List.{append-nil}
use dokevi_network.Prelude.{
  ℕ, zero, suc, ◌+◌, ◌-◌, ◌<◌, ◌≡◌, ◌≢◌, refl, sym, ap, ◌∙◌, List, [], ◌∷◌, ◌++◌, map, arith, ok,
  if◌then◌else◌, ◌==◌, ==_refl, ==_ne, ℕ_discrete, length, get_or, set, length-set, get_or-set_self,
  get_or-set_ne, get_elem?-get_or, All, subst,
}
use dokevi_network.Framing.Reassembly.{
  feed_all, feed_all-append, Returns, Returns-split, Returns-append,
}
use dokevi_network.Receive
use dokevi_network.Receive.{Receiver, new_receiver, recv_completion}
use dokevi_network.Server.{
  Event, accept_posted, connected, recv_posted, disconnected, written, closed, received,
  object_handled,
}
use dokevi_network.Server.Accounts.{heard, heard_by}
use dokevi_network.Server.Sockets.{Input, Call, recv_handler, recv_all, new_receivers, opened}

-- The n-th receiver, or `d` if there is none yet: a new receiver is put where it is seen already.
get_or-new_receivers :
    (fill : ℕ → ℕ) (m n : ℕ)
    → get_or (new_receivers fill m) n (new_receiver (fill n)) ≡ new_receiver (fill n)
unfolding new_receivers
get_or-new_receivers fill zero n = refl
get_or-new_receivers fill (suc m) zero = refl
get_or-new_receivers fill (suc m) (suc n) = get_or-new_receivers (λ k. fill (suc k)) m n

get_or-opened :
    (rs : List Receiver) (fill : ℕ → ℕ) (m n : ℕ)
    → get_or (rs ++ new_receivers (λ k. fill (k + length rs)) m) n (new_receiver (fill n))
      ≡ get_or rs n (new_receiver (fill n))
get_or-opened [] fill m n =
    ap (λ f. get_or (new_receivers f m) n (new_receiver (fill n))) (λ i k. fill (shift k i))
    ∙ get_or-new_receivers fill m n
  where
    shift : (k : ℕ) → k + 0 ≡ k
    shift k = omega arith
get_or-opened (r ∷ rs) fill m zero = refl
get_or-opened (r ∷ rs) fill m (suc n) =
    ap (λ f. get_or (rs ++ new_receivers f m) n (new_receiver (fill (suc n))))
      (λ i k. fill (shift k i))
    ∙ get_or-opened rs (λ k. fill (suc k)) m n
  where
    shift : (k : ℕ) → k + suc (length rs) ≡ suc (k + length rs)
    shift k = omega arith

pub length-new_receivers : (fill : ℕ → ℕ) (m : ℕ) → length (new_receivers fill m) ≡ m
unfolding new_receivers
length-new_receivers fill zero = refl
length-new_receivers fill (suc m) = ap suc (length-new_receivers (λ k. fill (suc k)) m)

-- The completions that are for socket `n`.
abbrev pub addressed : ℕ → List ℕ → List (ℕ × ℕ) → List Receive.Completion
addressed n buffer [] = []
addressed n buffer ((m, size) ∷ l) =
    (if m == n then record { buffer = buffer; transferred = size } ∷ [] else [])
    ++ addressed n buffer l

abbrev pub arrivals : ℕ → List Input → List Receive.Completion
arrivals n [] = []
arrivals n (i ∷ is) = addressed n i.buffer (heard_by i.round.completion) ++ arrivals n is

-- The calls that socket `n` has made.
abbrev pub calls_of : ℕ → List Call → List Receive.Event
calls_of n [] = []
calls_of n ((m, e) ∷ l) = let rest = calls_of n l in if m == n then e ∷ rest else rest

calls_of-append :
    (n : ℕ) (xs ys : List Call) → calls_of n (xs ++ ys) ≡ calls_of n xs ++ calls_of n ys
calls_of-append n [] ys = refl
calls_of-append n ((m, e) ∷ xs) ys = elim (ℕ_discrete m n) [
  | yes h ↦ rw (h, ==_refl n, calls_of-append n xs ys)
  | no h ↦ rw (==_ne m n h, calls_of-append n xs ys)
]

calls_of_self : (n : ℕ) (es : List Receive.Event) → calls_of n (map (λ e. (n, e)) es) ≡ es
calls_of_self n [] = refl
calls_of_self n (e ∷ es) = rw (==_refl n, calls_of_self n es)

calls_of_other :
    (m n : ℕ) (es : List Receive.Event) → m ≢ n → calls_of n (map (λ e. (m, e)) es) ≡ []
calls_of_other m n [] h = refl
calls_of_other m n (e ∷ es) h = rw (==_ne m n h, calls_of_other m n es h)

-- The sockets at their places; one that is still to be made is as new.
abbrev pub at : (ℕ → ℕ) → List Receiver → ℕ → Receiver
at fill rs n = get_or rs n (new_receiver (fill n))

module _ (fill : ℕ → ℕ) where
  -- What the dispatch hands over changes each socket as its own completions do.
  pub record Parted (cs : ℕ → List Receive.Completion) (rs rs' : List Receiver) (calls : List Call)
      : Type 0 where
    pub each :
        (n : ℕ)
        → feed_all recv_completion (cs n) (at fill rs n) ≡ ok (at fill rs' n, calls_of n calls)

  module _ (m : ℕ) (c : Receive.Completion) (rs : List Receiver) (r : Receiver)
      (es : List Receive.Event) (lt : m < length rs)
      (run : recv_completion c (at fill rs m) ≡ ok (r, es)) where
    recv_handler-run : recv_handler m c rs ≡ ok (set rs m r, map (λ e. (m, e)) es)
    unfolding recv_handler
    recv_handler-run = ground (arith, get_elem?-get_or rs m (new_receiver (fill m)) lt, run)

    parted :
        (n : ℕ)
        → feed_all recv_completion (if m == n then c ∷ [] else []) (at fill rs n)
          ≡ ok (at fill (set rs m r) n, calls_of n (map (λ e. (m, e)) es))
    unfolding feed_all
    parted n = elim (ℕ_discrete m n) [
      | yes same ↦
          subst
            (λ n.
              feed_all recv_completion (if m == n then c ∷ [] else []) (at fill rs n)
              ≡ ok (at fill (set rs m r) n, calls_of n (map (λ e. (m, e)) es)))
            same
            (rw
              (
                ==_refl m,
                run,
                get_or-set_self rs m r (new_receiver (fill m)) lt,
                calls_of_self m es,
                append-nil es,
              )
              refl)
      | no other ↦ rw (
        ==_ne m n other,
        get_or-set_ne rs m n r (new_receiver (fill n)) other,
        calls_of_other m n es other,
      )
    ]

    recv_handler-Parted :
        Parted (λ n. if m == n then c ∷ [] else []) rs (set rs m r) (map (λ e. (m, e)) es)
    recv_handler-Parted = record { each = parted }

  pub Parted-append :
      {cs ds : ℕ → List Receive.Completion} {rs rs' rs'' : List Receiver} {calls calls' : List Call}
      → Parted cs rs rs' calls
      → Parted ds rs' rs'' calls'
      → Parted (λ n. cs n ++ ds n) rs rs'' (calls ++ calls')
  Parted-append {cs} {ds} {rs} {rs'' = rs''} {calls = calls} {calls' = calls'} p q = record {
    each = λ n.
        feed_all-append recv_completion (cs n) (ds n) (at fill rs n) (p.each n) (q.each n)
        ∙ ap (λ l. ok (at fill rs'' n, l)) (sym (calls_of-append n calls calls'));
  }

  -- Behind the first part, each socket returns from the rest.
  pub Parted-Returns :
      {cs : ℕ → List Receive.Completion} (ds : ℕ → List Receive.Completion) {rs rs' : List Receiver}
      {calls : List Call}
      → Parted cs rs rs' calls
      → ((n : ℕ) → Returns recv_completion (cs n ++ ds n) (at fill rs n))
      → (n : ℕ) → Returns recv_completion (ds n) (at fill rs' n)
  Parted-Returns {cs} ds {rs} {rs'} p h n =
      let (r, es, run, rest) = Returns-append recv_completion (cs n) (ds n) (at fill rs n) (h n) in
      let now = p.each n in
      let same : r ≡ at fill rs' n = cc in subst (Returns recv_completion (ds n)) same rest

  pub Parted-opened :
      {cs : ℕ → List Receive.Completion} {rs rs' : List Receiver} {calls : List Call} (m : ℕ)
      → Parted cs rs rs' calls
      → Parted cs rs (opened fill m rs') calls
  Parted-opened {rs' = rs'} {calls = calls} m p = record {
    each = λ n.
        p.each n
        ∙ ap (λ r. ok (r, calls_of n calls)) (sym (get_or-opened rs' fill (m - length rs') n));
  }

  recv_all-cons :
      (m size : ℕ) (buffer : List ℕ) (es : List Event) (rs : List Receiver)
      {rs' rs'' : List Receiver} {calls calls' : List Call}
      → recv_handler m (record { buffer = buffer; transferred = size }) rs ≡ ok (rs', calls)
      → recv_all buffer es rs' ≡ ok (rs'', calls')
      → recv_all buffer (received m size ∷ es) rs ≡ ok (rs'', calls ++ calls')
  unfolding recv_all
  recv_all-cons m size buffer es rs a b = rw (a, b)

  abbrev pub HandsOver : List ℕ → List Event → List Receiver → Type 0
  HandsOver buffer es rs =
      (rs' : List Receiver) × (calls : List Call) × (recv_all buffer es rs ≡ ok (rs', calls))
      × (length rs' ≡ length rs)
      × Parted (λ n. addressed n buffer (heard es)) rs rs' calls

  pub recv_all_lem :
      (buffer : List ℕ) (es : List Event) (rs : List Receiver)
      → All (λ p. p.0 < length rs) (heard es)
      → ((n : ℕ) → Returns recv_completion (addressed n buffer (heard es)) (at fill rs n))
      → HandsOver buffer es rs
  unfolding recv_all feed_all
  recv_all_lem buffer [] rs about h = (rs, [], refl, refl, record { each = λ n. refl })
  recv_all_lem buffer (accept_posted n ∷ es) rs about h = recv_all_lem buffer es rs about h
  recv_all_lem buffer (connected n ∷ es) rs about h = recv_all_lem buffer es rs about h
  recv_all_lem buffer (recv_posted n ∷ es) rs about h = recv_all_lem buffer es rs about h
  recv_all_lem buffer (disconnected n ∷ es) rs about h = recv_all_lem buffer es rs about h
  recv_all_lem buffer (written n ∷ es) rs about h = recv_all_lem buffer es rs about h
  recv_all_lem buffer (closed n g ∷ es) rs about h = recv_all_lem buffer es rs about h
  recv_all_lem buffer (object_handled ∷ es) rs about h = recv_all_lem buffer es rs about h
  recv_all_lem buffer (received m size ∷ es) rs about h =
      let c : Receive.Completion = record { buffer = buffer; transferred = size } in
      let (r, calls, run, _) = Returns-split recv_completion c (addressed m buffer (heard es)) (
        subst
          (λ b.
            Returns recv_completion ((if b then c ∷ [] else []) ++ addressed m buffer (heard es))
              (at fill rs m))
          (==_refl m) (h m)) in
      let first = recv_handler-Parted m c rs r calls about.0 run in
      let (rs', calls', run', sized, second) =
        recv_all_lem buffer es (set rs m r)
          (subst (λ k. All (λ p. p.0 < k) (heard es)) (sym (length-set rs m r)) about.1)
          (Parted-Returns (λ n. addressed n buffer (heard es)) first h) in
      (
        rs',
        map (λ e. (m, e)) calls ++ calls',
        recv_all-cons m size buffer es rs (recv_handler-run m c rs r calls about.0 run) run',
        sized ∙ length-set rs m r,
        Parted-append first second,
      )
