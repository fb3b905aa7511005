-- ===== src/Net.antt =====
-- The addresses of `std::net` that src/*.rs uses.
use blastdns.Prelude.{ℕ, List}

-- A text is the list of its code points.
abbrev pub Text : Type 0
Text = List ℕ

pub data IpAddr : Type 0 where
  -- four octets
  v4 : ℕ → ℕ → ℕ → ℕ → IpAddr
  -- the 16-bit segments
  v6 : List ℕ → IpAddr

pub record SocketAddr : Type 0 where
  pub ip : IpAddr
  pub port : ℕ
