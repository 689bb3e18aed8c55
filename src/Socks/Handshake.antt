-- ===== src/Socks/Handshake.antt =====
-- hw2-socks5-server: the steps of the SOCKS5 handshake that read what the client sent (src/server.cpp).
pub mod Refused
use modern_cpp_hw.Prelude.{
  ℕ, ◌+◌, List, [], ◌∷◌, Option, none, some, Bool, true, false, not, if◌then◌else◌, ◌||◌, ◌==◌, u32,
  take,
}
use modern_cpp_hw.Socks.Outcome.{Outcome, done, fault, ◌>>=◌}
use modern_cpp_hw.Socks.Os.{Os, Family, inet, inet6, other_family, HostEntry}
use modern_cpp_hw.Socks.Sockets.{
  Made, made, error, other_exception, socket_ipv4, socket_ipv6, destroy_socket,
}
use modern_cpp_hw.Socks.Session.{
  State, reading_auth_methods, reading_domain_name_length, reading_address,
  connecting_to_destination, command_connect, AddressType, ipv4, domain_name, ipv6,
}
use modern_cpp_hw.Socks.Ring.{Machine, add_destination_connect_request}
use modern_cpp_hw.Socks.Transfer.{
  with_session, with_closed, byte_at, slice, fail_delayed, fail_immediately,
  consume_bytes_from_read_buffer, read_some_from_client, write_to_client, send_fail_message,
}

unfoldable pub read_client_greeting : Os → (Machine → Outcome Machine) → Machine → Outcome Machine
read_client_greeting os again m = do
  version ← byte_at m.session.read_buffer 0
  if not (version == 5) then fail_immediately os m else do
    count ← byte_at m.session.read_buffer 1
    let counted = with_session (λ s. record s { auth_methods_count = count }) m
    if count == 0 then fail_immediately os counted else do
      m' ← consume_bytes_from_read_buffer 2 counted
      read_some_from_client again count
          (with_session (λ s. record s { state = reading_auth_methods }) m')

-- std::find(from, to, 0x00) != to
unfoldable pub has_zero : List ℕ → Bool
has_zero [] = false
has_zero (b ∷ bytes) = (b == 0) || has_zero bytes

abbrev pub method_reply : List ℕ
method_reply = 5 ∷ 0 ∷ []

unfoldable pub choose_auth_method : Os → Bool → Machine → Outcome Machine
choose_auth_method os true m = done (with_session (λ s. record s { auth_method = 0x00 }) m)
choose_auth_method os false m =
    fail_delayed os (with_session (λ s. record s { auth_method = 0xff }) m)

unfoldable pub read_auth_methods : Os → Machine → Outcome Machine
read_auth_methods os m = do
  methods ← slice m.session.read_buffer 0 m.session.auth_methods_count
  chosen ← choose_auth_method os (has_zero methods) m
  m' ← consume_bytes_from_read_buffer m.session.auth_methods_count chosen
  write_to_client (with_session (λ s. record s { write_client_buffer = method_reply }) m')

abbrev pub expect_address :
    (Machine → Outcome Machine) → AddressType → State → ℕ → Machine → Outcome Machine
expect_address again type state n m =
    read_some_from_client again n
      (with_session (λ s. record s { address_type = type; state = state }) m)

-- The switch over the address type of a request.
unfoldable pub read_address_type : Os → (Machine → Outcome Machine) → ℕ → Machine → Outcome Machine
read_address_type os again type m =
    if type == 1
    then expect_address again ipv4 reading_address 6 m
    else if type == 3
    then expect_address again domain_name reading_domain_name_length 1 m
    else if type == 4
    then expect_address again ipv6 reading_address 18 m
    else send_fail_message os 8 m

unfoldable pub read_client_connection_request :
    Os → (Machine → Outcome Machine) → Machine → Outcome Machine
read_client_connection_request os again m = do
  version ← byte_at m.session.read_buffer 0
  if not (version == 5) then send_fail_message os 7 m else do
    command ← byte_at m.session.read_buffer 1
    if not (command == 1) then send_fail_message os 7 m else do
      let commanded = with_session (λ s. record s { command = command_connect }) m
      reserved ← byte_at m.session.read_buffer 2
      if not (reserved == 0) then send_fail_message os 7 commanded else do
        type ← byte_at m.session.read_buffer 3
        m' ← consume_bytes_from_read_buffer 4 commanded
        read_address_type os again type m'

unfoldable pub read_domain_name_length : (Machine → Outcome Machine) → Machine → Outcome Machine
read_domain_name_length again m = do
  n ← byte_at m.session.read_buffer 0
  m' ← consume_bytes_from_read_buffer 1 (with_session (λ s. record s { domain_name_length = n }) m)
  read_some_from_client again (u32 (n + 2))
      (with_session (λ s. record s { state = reading_address }) m')

abbrev pub enetunreach : ℕ
enetunreach = 101

abbrev pub ehostunreach : ℕ
ehostunreach = 113

abbrev pub econnrefused : ℕ
econnrefused = 111

unfoldable pub error_reply : ℕ → ℕ
error_reply error_code =
    if error_code == enetunreach
    then 3
    else if error_code == ehostunreach
    then 4
    else if error_code == econnrefused
    then 5
    else 1

unfoldable pub translate_errno : Os → ℕ → Machine → Outcome Machine
translate_errno os error_code m = send_fail_message os (error_reply error_code) m

unfoldable pub start_connect : Machine → Outcome Machine
start_connect m =
    add_destination_connect_request
      (with_session (λ s. record s { state = connecting_to_destination }) m)

-- What follows the attempt to make the socket: after a syscall error the function goes on, as the
-- handler for it does not return.
unfoldable pub connect_made : Os → Made → Machine → Outcome Machine
connect_made os (made socket) m = do
  trace ← destroy_socket os m.session.destination_socket m.server.closed
  start_connect
      (with_closed (with_session (λ s. record s { destination_socket = some socket }) m) trace)
connect_made os (error e) m = translate_errno os e m >>= start_connect
connect_made os other_exception m = send_fail_message os 1 m

unfoldable pub connect_ipv4_destination : Os → Machine → Outcome Machine
connect_ipv4_destination os m =
    connect_made os (socket_ipv4 os m.session.ipv4_address m.session.port) m

unfoldable pub connect_ipv6_destination : Os → Machine → Outcome Machine
connect_ipv6_destination os m =
    connect_made os (socket_ipv6 os m.session.ipv6_address m.session.port) m

-- The bytes before the first zero, as c_str() is read.
unfoldable pub c_string : List ℕ → List ℕ
c_string [] = []
c_string (b ∷ bytes) = if b == 0 then [] else b ∷ c_string bytes

unfoldable pub resolved : Os → Family → List ℕ → Machine → Outcome Machine
resolved os inet addr m =
    connect_ipv4_destination os
      (with_session (λ s. record s { address_type = ipv4; ipv4_address = take 4 addr }) m)
resolved os inet6 addr m =
    connect_ipv6_destination os
      (with_session (λ s. record s { address_type = ipv6; ipv6_address = take 16 addr }) m)
resolved os other_family addr m = fault

unfoldable pub connect_host : Os → Option HostEntry → Machine → Outcome Machine
connect_host os none m = send_fail_message os 4 m
connect_host os (some he) m = elim he.addr_list [
  | [] ↦ send_fail_message os 4 m
  | addr ∷ _ ↦ resolved os he.addrtype addr m
]

unfoldable pub read_address_of : Os → AddressType → Machine → Outcome Machine
read_address_of os ipv4 m = do
  addr ← slice m.session.read_buffer 0 4
  port ← slice m.session.read_buffer 4 2
  m' ←
      consume_bytes_from_read_buffer 6
        (with_session (λ s. record s { ipv4_address = addr; port = port }) m)
  connect_ipv4_destination os m'
read_address_of os domain_name m = do
  name ← slice m.session.read_buffer 0 m.session.domain_name_length
  port ← slice m.session.read_buffer m.session.domain_name_length 2
  m' ←
      consume_bytes_from_read_buffer (u32 (m.session.domain_name_length + 2))
        (with_session (λ s. record s { domain_name_text = name; port = port }) m)
  connect_host os (os.gethostbyname (c_string name)) m'
read_address_of os ipv6 m = do
  addr ← slice m.session.read_buffer 0 16
  port ← slice m.session.read_buffer 16 2
  m' ←
      consume_bytes_from_read_buffer 18
        (with_session (λ s. record s { ipv6_address = addr; port = port }) m)
  connect_ipv6_destination os m'

unfoldable pub read_address : Os → Machine → Outcome Machine
read_address os m = read_address_of os m.session.address_type m
