-- ===== src/Socks/Handlers.antt =====
-- hw2-socks5-server: the handlers of Session that the event loop calls (src/server.cpp).
-- Assertions are checked, as in a build without NDEBUG.
pub mod Ends
pub mod Depth
pub mod Pipelined
use modern_cpp_hw.Prelude.{ℕ, zero, suc, ◌+◌, List, ◌∷◌, ◌++◌, if◌then◌else◌, ◌==◌, u32, sub_u32}
use modern_cpp_hw.Socks.Outcome.{Outcome, fault, exhausted, ◌>>=◌}
use modern_cpp_hw.Socks.Os.{Os}
use modern_cpp_hw.Socks.Buffers.{read_memory}
use modern_cpp_hw.Socks.Session.{
  State, reading_client_greeting, reading_auth_methods, reading_client_connection_request,
  reading_domain_name_length, reading_address, connecting_to_destination, proxying_requests,
  AddressType, ipv4, domain_name, ipv6, is_read_completed, is_empty,
}
use modern_cpp_hw.Socks.Ring.{
  Machine, add_client_read_request, add_client_write_request, add_destination_read_request,
  add_destination_write_request,
}
use modern_cpp_hw.Socks.Transfer.{
  with_session, erase_front, read_from_client, read_some_from_client, write_to_client,
}
use modern_cpp_hw.Socks.Handshake.{
  read_client_greeting, read_auth_methods, read_client_connection_request, read_domain_name_length,
  read_address,
}

-- The switch at the end of handle_client_read.
unfoldable pub on_read_completed :
    Os → (Machine → Outcome Machine) → State → Machine → Outcome Machine
on_read_completed os again reading_client_greeting m = read_client_greeting os again m
on_read_completed os again reading_auth_methods m = read_auth_methods os m
on_read_completed os again reading_client_connection_request m =
    read_client_connection_request os again m
on_read_completed os again reading_domain_name_length m = read_domain_name_length again m
on_read_completed os again reading_address m = read_address os m
on_read_completed os again connecting_to_destination m = fault
on_read_completed os again proxying_requests m = fault

-- m_read_buffer.insert(m_read_buffer.end(), m_buffer0.data(), m_buffer0.data() + nread)
unfoldable pub insert_read : ℕ → Machine → Machine
insert_read nread m =
    with_session
      (λ s. record s {
        read_buffer =
            s.read_buffer ++ read_memory m.server.buffer_pool.memory s.buffer0.start nread;
      })
      m

unfoldable pub collect_read : Os → (Machine → Outcome Machine) → ℕ → Machine → Outcome Machine
collect_read os again nread m =
    let m' = insert_read nread m in
    if is_read_completed m'.session.read_goal m'.session.read_buffer
    then on_read_completed os again m'.session.state m'
    else add_client_read_request m'

unfoldable pub forward_read : ℕ → Machine → Outcome Machine
forward_read nread m = add_destination_write_request nread 0 (
    with_session (λ s. record s { destination_write_offset = 0; destination_write_size = nread }) m)

-- The body of handle_client_read: `again` is its call with 0 from read_from_client and
-- read_some_from_client, and the state is matched first, as the body does.
unfoldable pub client_read_body :
    Os → (Machine → Outcome Machine) → State → ℕ → Machine → Outcome Machine
client_read_body os again proxying_requests nread m = forward_read nread m
client_read_body os again reading_client_greeting nread m = collect_read os again nread m
client_read_body os again reading_auth_methods nread m = collect_read os again nread m
client_read_body os again reading_client_connection_request nread m = collect_read os again nread m
client_read_body os again reading_domain_name_length nread m = collect_read os again nread m
client_read_body os again reading_address nread m = collect_read os again nread m
client_read_body os again connecting_to_destination nread m = collect_read os again nread m

-- handle_client_read with at most `depth` calls of it on the stack.
unfoldable pub client_read_at : ℕ → Os → ℕ → Machine → Outcome Machine
client_read_at zero os nread m = exhausted
client_read_at (suc depth) os nread m =
    client_read_body os (client_read_at depth os 0) m.session.state nread m

-- A request, a domain name's length and an address may all be read already: three calls.
abbrev pub call_depth : ℕ
call_depth = 3

unfoldable pub handle_client_read : Os → ℕ → Machine → Outcome Machine
handle_client_read os = client_read_at call_depth os

-- The part of handle_client_write for a session that relays traffic.
unfoldable pub client_written : ℕ → Machine → Outcome Machine
client_written nwrite m =
    let offset = u32 (m.session.client_write_offset + nwrite) in
    if u32 (nwrite + m.session.client_write_offset) == m.session.client_write_size
    then add_destination_read_request m
    else add_client_write_request (sub_u32 m.session.client_write_size offset) offset
        (with_session (λ s. record s { client_write_offset = offset }) m)

-- The switch at the end of handle_client_write.
unfoldable pub on_reply_written : Os → State → Machine → Outcome Machine
on_reply_written os reading_auth_methods m =
    read_some_from_client (handle_client_read os 0) 4
      (with_session (λ s. record s { state = reading_client_connection_request }) m)
on_reply_written os connecting_to_destination m = do
  m' ← add_destination_read_request (with_session (λ s. record s { state = proxying_requests }) m)
  read_from_client (handle_client_read os 0) m'
on_reply_written os _ m = fault

unfoldable pub reply_written : Os → ℕ → Machine → Outcome Machine
reply_written os nwrite m = do
  rest ← erase_front nwrite m.session.write_client_buffer
  let m' = with_session (λ s. record s { write_client_buffer = rest }) m
  if is_empty rest then on_reply_written os m.session.state m' else write_to_client m'

unfoldable pub client_write_body : Os → State → ℕ → Machine → Outcome Machine
client_write_body os proxying_requests nwrite m = client_written nwrite m
client_write_body os reading_client_greeting nwrite m = reply_written os nwrite m
client_write_body os reading_auth_methods nwrite m = reply_written os nwrite m
client_write_body os reading_client_connection_request nwrite m = reply_written os nwrite m
client_write_body os reading_domain_name_length nwrite m = reply_written os nwrite m
client_write_body os reading_address nwrite m = reply_written os nwrite m
client_write_body os connecting_to_destination nwrite m = reply_written os nwrite m

unfoldable pub handle_client_write : Os → ℕ → Machine → Outcome Machine
handle_client_write os nwrite m = client_write_body os m.session.state nwrite m

-- The reply to a granted request; an in_addr has 4 bytes, an in6_addr 16, an in_port_t 2.
abbrev pub granted_ipv4 : List ℕ → List ℕ → List ℕ
granted_ipv4 addr port = 5 ∷ 0 ∷ 0 ∷ 1 ∷ (addr ++ port)

abbrev pub granted_ipv6 : List ℕ → List ℕ → List ℕ
granted_ipv6 addr port = 5 ∷ 0 ∷ 0 ∷ 4 ∷ (addr ++ port)

unfoldable pub reply_granted : AddressType → Machine → Outcome Machine
reply_granted ipv4 m =
    write_to_client
      (with_session (λ s. record s { write_client_buffer = granted_ipv4 s.ipv4_address s.port }) m)
reply_granted ipv6 m =
    write_to_client
      (with_session (λ s. record s { write_client_buffer = granted_ipv6 s.ipv6_address s.port }) m)
reply_granted domain_name m = fault

-- The assertion comes first.
unfoldable pub destination_connected : State → Machine → Outcome Machine
destination_connected connecting_to_destination m = reply_granted m.session.address_type m
destination_connected _ m = fault

unfoldable pub handle_destination_connect : Machine → Outcome Machine
handle_destination_connect m = destination_connected m.session.state m

unfoldable pub handle_destination_read : ℕ → Machine → Outcome Machine
handle_destination_read nread m =
    add_client_write_request nread 0
      (with_session (λ s. record s { client_write_offset = 0; client_write_size = nread }) m)

unfoldable pub handle_destination_write : ℕ → Machine → Outcome Machine
handle_destination_write nwrite m =
    let offset = u32 (m.session.destination_write_offset + nwrite) in
    if u32 (nwrite + m.session.destination_write_offset) == m.session.destination_write_size
    then add_client_read_request m
    else add_destination_write_request (sub_u32 m.session.destination_write_size offset) offset
        (with_session (λ s. record s { destination_write_offset = offset }) m)
