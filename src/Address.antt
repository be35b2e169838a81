-- ===== src/Address.antt =====
-- SocketAddress.h: an IPv4 address and a port in a sockaddr, as they stand in memory. Winsock's htonl
-- and htons, and the value of AF_INET, are arguments.
pub mod Equality
use dokevi_network.Prelude.{ℕ, Bool, ◌&&◌, ◌==◌}

-- The fields of the sockaddr_in that the sockaddr is read as; sin_zero is never read.
pub record SocketAddress : Type 0 where
  pub sin_family : ℕ
  pub sin_port : ℕ
  pub sin_addr : ℕ

module _ (af_inet : ℕ) (htonl htons : ℕ → ℕ) where
  unfoldable pub new_address : ℕ → ℕ → SocketAddress
  new_address address port = record {
    sin_family = af_inet;
    sin_port = htons port;
    sin_addr = htonl address;
  }

  -- INADDR_ANY is 0.
  unfoldable pub new_any : ℕ → SocketAddress
  new_any port = record { sin_family = af_inet; sin_port = htons port; sin_addr = htonl 0 }

unfoldable pub equals : ℕ → SocketAddress → SocketAddress → Bool
equals af_inet a b =
    (a.sin_family == af_inet && a.sin_port == b.sin_port) && a.sin_addr == b.sin_addr
