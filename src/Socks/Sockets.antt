-- ===== src/Socks/Sockets.antt =====
-- hw2-socks5-server: Socket, SocketIPv4 and SocketIPv6 (src/socket.cpp), and socket and close of
-- src/syscall.cpp.
-- An in_addr, an in6_addr and an in_port_t are their bytes as they lie in memory.
use modern_cpp_hw.Prelude.{ℕ, List, ◌∷◌, Option, none, some, if◌then◌else◌}
use modern_cpp_hw.Socks.Os.{Os, Family, inet, inet6, SocketAnswer, opened, refused}
use modern_cpp_hw.Socks.Outcome.{Outcome, done, thrown, exited}

-- sockaddr_in or sockaddr_in6, less the bytes that std::memset leaves zero.
pub record SockAddr : Type 0 where
  pub family : Family
  pub addr : List ℕ
  pub port : List ℕ

pub record Socket : Type 0 where
  -- none for -1
  pub fd : Option ℕ
  pub address : SockAddr

unfoldable pub construct_address_ipv4 : List ℕ → List ℕ → SockAddr
construct_address_ipv4 addr port = record { family = inet; addr = addr; port = port }

unfoldable pub construct_address_ipv6 : List ℕ → List ℕ → SockAddr
construct_address_ipv6 addr port = record { family = inet6; addr = addr; port = port }

-- How std::make_unique<SocketIPv4> or <SocketIPv6> ends.
pub data Made : Type 0 where
  made : Socket → Made
  -- syscall_wrapper::Error with this error_code
  error : ℕ → Made
  -- any other exception
  other_exception : Made

unfoldable pub socket_made : SockAddr → SocketAnswer → Made
socket_made a (opened fd) = made (record { fd = some fd; address = a })
socket_made a (refused e) = error e

unfoldable pub make_socket : Os → SockAddr → Made
make_socket os a =
    if os.has_memory a.family then socket_made a (os.socket a.family) else other_exception

unfoldable pub socket_ipv4 : Os → List ℕ → List ℕ → Made
socket_ipv4 os addr port = make_socket os (construct_address_ipv4 addr port)

unfoldable pub socket_ipv6 : Os → List ℕ → List ℕ → Made
socket_ipv6 os addr port = make_socket os (construct_address_ipv6 addr port)

-- sizeof(sockaddr_in) and sizeof(sockaddr_in6)
unfoldable pub address_length : SockAddr → ℕ
address_length a = elim a.family [ inet6 ↦ 28 | _ ↦ 16 ]

-- The value of syscall_wrapper::close(fd): the trace of calls with one more, or the Error.
unfoldable pub closed_by : Option ℕ → List (Option ℕ) → Option ℕ → Outcome (List (Option ℕ))
closed_by fd trace none = done (fd ∷ trace)
closed_by fd trace (some e) = thrown e

abbrev pub close : Os → Option ℕ → List (Option ℕ) → Outcome (List (Option ℕ))
close os fd trace = closed_by fd trace (os.close fd)

-- A destructor catches the Error and exits.
unfoldable pub or_exit {ℓ} : {A : Type ℓ} → Outcome A → Outcome A
or_exit (thrown e) = exited
or_exit r = r

unfoldable pub close_unless_absent : Os → Option ℕ → List (Option ℕ) → Outcome (List (Option ℕ))
close_unless_absent os none trace = done trace
close_unless_absent os (some fd) trace = close os (some fd) trace

-- Socket::~Socket, under a std::unique_ptr that may be empty.
unfoldable pub destroy_socket : Os → Option Socket → List (Option ℕ) → Outcome (List (Option ℕ))
destroy_socket os none trace = done trace
destroy_socket os (some s) trace = or_exit (close_unless_absent os s.fd trace)
