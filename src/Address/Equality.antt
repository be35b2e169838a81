-- ===== src/Address/Equality.antt =====
-- When two addresses compare equal.
use dokevi_network.Prelude.{ℕ, ◌<◌, ◌^◌, ◌≡◌, ◌≢◌, ◌↔◌, ap, true, false, arith}
use dokevi_network.Address.{SocketAddress, new_address, equals}

-- A conversion between the orders of bytes loses nothing.
abbrev pub LosesNothing : ℕ → (ℕ → ℕ) → Type 0
LosesNothing bound f = (a b : ℕ) → a < bound → b < bound → f a ≡ f b → a ≡ b

-- If htonl and htons lose nothing on 32 and on 16 bits, two addresses that are made from an address
-- and a port each, of these widths, are equal exactly if these are.
pub equals-new_iff :
    (af_inet : ℕ) (htonl htons : ℕ → ℕ) (a b p q : ℕ)
    → LosesNothing (2 ^ 32) htonl
    → LosesNothing (2 ^ 16) htons
    → a < 2 ^ 32
    → b < 2 ^ 32
    → p < 2 ^ 16
    → q < 2 ^ 16
    → (equals af_inet (new_address af_inet htonl htons a p) (new_address af_inet htonl htons b q)
        ≡ true)
      ↔ ((a ≡ b) × (p ≡ q))
unfolding equals new_address
equals-new_iff af_inet htonl htons a b p q keeps keeps' ha hb hp hq = (
  λ e. (keeps a b ha hb (ground arith), keeps' p q hp hq (ground arith)),
  λ (e, e'). ground (arith, ap htonl e, ap htons e'),
)

-- The family of the right side is not looked at: an IPv4 address equals one of another family with
-- the same port and address, but not the other way round.
pub equals_one_way :
    (af_inet : ℕ) (a b : SocketAddress)
    → a.sin_family ≡ af_inet
    → b.sin_family ≢ af_inet
    → a.sin_port ≡ b.sin_port
    → a.sin_addr ≡ b.sin_addr
    → (equals af_inet a b ≡ true) × (equals af_inet b a ≡ false)
unfolding equals
equals_one_way af_inet a b e n p q = ground arith
