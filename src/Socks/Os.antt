-- ===== src/Socks/Os.antt =====
-- hw2-socks5-server: what the server asks of the operating system (src/syscall.cpp, src/socket.cpp).
-- The kernel and the resolver are not part of the repository: their answers are an argument.
use modern_cpp_hw.Prelude.{ℕ, List, Option, Bool}

pub data Family : Type 0 where
  inet inet6 : Family
  -- any other h_addrtype
  other_family : Family

-- The first entry of h_addr_list, if the list has one, and h_addrtype.
pub record HostEntry : Type 0 where
  pub addrtype : Family
  pub addr_list : List (List ℕ)

-- ::socket returns a descriptor, or -1 with errno.
pub data SocketAnswer : Type 0 where
  opened : ℕ → SocketAnswer
  refused : ℕ → SocketAnswer

-- A descriptor is `some fd`, and -1 is `none`. ::close answers with errno where it fails.
pub record Os : Type 0 where
  pub socket : Family → SocketAnswer
  -- whether `new` finds memory for the socket object
  pub has_memory : Family → Bool
  pub close : Option ℕ → Option ℕ
  pub gethostbyname : List ℕ → Option HostEntry
