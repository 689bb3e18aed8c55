-- ===== src/Socks/Accepts/Handlers.antt =====
-- hw2-socks5-server: the handlers of Session (src/server.cpp) add requests with an event only.
use modern_cpp_hw.Prelude.{ℕ, zero, suc, List, [], ◌∷◌, Option, none, some}
use modern_cpp_hw.Socks.Outcome.{Outcome}
use modern_cpp_hw.Socks.Os.{Os, Family, inet, inet6, other_family, HostEntry}
use modern_cpp_hw.Socks.Sockets.{Made, made, error, other_exception, destroy_socket}
use modern_cpp_hw.Socks.Session.{
  State, reading_client_greeting, reading_auth_methods, reading_client_connection_request,
  reading_domain_name_length, reading_address, connecting_to_destination, proxying_requests,
  AddressType, ipv4, domain_name, ipv6,
}
use modern_cpp_hw.Socks.Ring.{Machine}
use modern_cpp_hw.Socks.Transfer.{send_fail_message}
use modern_cpp_hw.Socks.Handshake.{
  error_reply, read_address, translate_errno, start_connect, connect_made, connect_ipv4_destination,
  connect_ipv6_destination, resolved, connect_host, read_address_of,
}
use modern_cpp_hw.Socks.Handlers.{
  on_read_completed, insert_read, collect_read, forward_read, client_read_body, client_read_at,
  handle_client_read,
}
use modern_cpp_hw.Socks.Accepts.{HasAccepts, Leaves, bind-Leaves, chain-Leaves, if-Leaves}
use modern_cpp_hw.Socks.Accepts.Sessions.{
  Again, slice-Leaves, consume-Leaves, send_fail_message-Leaves, add_client_read_request-Leaves,
  add_destination_connect_request-Leaves, add_destination_write_request-Leaves,
  read_client_greeting-Leaves, read_auth_methods-Leaves, read_client_connection_request-Leaves,
  read_domain_name_length-Leaves,
}

module _ (a : ℕ) where
  start_connect-Leaves : (m : Machine) → HasAccepts a m → Leaves a (start_connect m)
  unfolding start_connect
  start_connect-Leaves m h = add_destination_connect_request-Leaves a _ h

  connect_made-Leaves :
      (os : Os) (r : Made) (m : Machine) → HasAccepts a m → Leaves a (connect_made os r m)
  unfolding connect_made translate_errno
  connect_made-Leaves os (made s) m h =
      bind-Leaves a (destroy_socket os m.session.destination_socket m.server.closed) _
        (λ t e. start_connect-Leaves _ h)
  connect_made-Leaves os (error e) m h =
      chain-Leaves a (send_fail_message os (error_reply e) m) _
        (send_fail_message-Leaves a os _ m h) start_connect-Leaves
  connect_made-Leaves os other_exception m h = send_fail_message-Leaves a os 1 m h

  resolved-Leaves :
      (os : Os) (f : Family) (addr : List ℕ) (m : Machine)
      → HasAccepts a m
      → Leaves a (resolved os f addr m)
  unfolding resolved connect_ipv4_destination connect_ipv6_destination
  resolved-Leaves os inet addr m h = connect_made-Leaves os _ _ h
  resolved-Leaves os inet6 addr m h = connect_made-Leaves os _ _ h
  resolved-Leaves os other_family addr m h = λ m' e. cc

  listed-Leaves :
      (os : Os) (f : Family) (addrs : List (List ℕ)) (m : Machine)
      → HasAccepts a m
      → Leaves a (elim addrs [ [] ↦ send_fail_message os 4 m | addr ∷ _ ↦ resolved os f addr m ])
  listed-Leaves os f [] m h = send_fail_message-Leaves a os 4 m h
  listed-Leaves os f (addr ∷ addrs) m h = resolved-Leaves os f addr m h

  connect_host-Leaves :
      (os : Os) (he : Option HostEntry) (m : Machine)
      → HasAccepts a m
      → Leaves a (connect_host os he m)
  unfolding connect_host
  connect_host-Leaves os none m h = send_fail_message-Leaves a os 4 m h
  connect_host-Leaves os (some he) m h = listed-Leaves os he.addrtype he.addr_list m h

  read_address_of-Leaves :
      (os : Os) (t : AddressType) (m : Machine) → HasAccepts a m → Leaves a (read_address_of os t m)
  unfolding read_address_of connect_ipv4_destination connect_ipv6_destination
  read_address_of-Leaves os ipv4 m h = slice-Leaves a m.session.read_buffer 0 4 _ λ addr.
      slice-Leaves a m.session.read_buffer 4 2 _ λ port.
        chain-Leaves a _ _ (consume-Leaves a 6 _ h) (λ m' h'. connect_made-Leaves os _ m' h')
  read_address_of-Leaves os domain_name m h =
      let n = m.session.domain_name_length in
      slice-Leaves a m.session.read_buffer 0 n _ λ name.
        slice-Leaves a m.session.read_buffer n 2 _ λ port.
          chain-Leaves a _ _ (consume-Leaves a _ _ h) (λ m' h'. connect_host-Leaves os _ m' h')
  read_address_of-Leaves os ipv6 m h = slice-Leaves a m.session.read_buffer 0 16 _ λ addr.
      slice-Leaves a m.session.read_buffer 16 2 _ λ port.
        chain-Leaves a _ _ (consume-Leaves a 18 _ h) (λ m' h'. connect_made-Leaves os _ m' h')

  on_read_completed-Leaves :
      (os : Os) (again : Machine → Outcome Machine) (s : State) (m : Machine)
      → Again a again
      → HasAccepts a m
      → Leaves a (on_read_completed os again s m)
  unfolding on_read_completed read_address
  on_read_completed-Leaves os again reading_client_greeting m ih h =
      read_client_greeting-Leaves a os again m ih h
  on_read_completed-Leaves os again reading_auth_methods m ih h = read_auth_methods-Leaves a os m h
  on_read_completed-Leaves os again reading_client_connection_request m ih h =
      read_client_connection_request-Leaves a os again m ih h
  on_read_completed-Leaves os again reading_domain_name_length m ih h =
      read_domain_name_length-Leaves a again m ih h
  on_read_completed-Leaves os again reading_address m ih h = read_address_of-Leaves os _ m h
  on_read_completed-Leaves os again connecting_to_destination m ih h = λ m' e. cc
  on_read_completed-Leaves os again proxying_requests m ih h = λ m' e. cc

  collect_read-Leaves :
      (os : Os) (again : Machine → Outcome Machine) (n : ℕ) (m : Machine)
      → Again a again
      → HasAccepts a m
      → Leaves a (collect_read os again n m)
  unfolding collect_read insert_read
  collect_read-Leaves os again n m ih h =
      if-Leaves a _ _ _ (on_read_completed-Leaves os again _ _ ih h)
        (add_client_read_request-Leaves a _ h)

  client_read_body-Leaves :
      (os : Os) (again : Machine → Outcome Machine) (s : State) (n : ℕ) (m : Machine)
      → Again a again
      → HasAccepts a m
      → Leaves a (client_read_body os again s n m)
  unfolding client_read_body forward_read
  client_read_body-Leaves os again proxying_requests n m ih h =
      add_destination_write_request-Leaves a _ _ _ h
  client_read_body-Leaves os again _ n m ih h = collect_read-Leaves os again n m ih h

  client_read_at-Leaves :
      (d : ℕ) (os : Os) (n : ℕ) (m : Machine) → HasAccepts a m → Leaves a (client_read_at d os n m)
  unfolding client_read_at
  client_read_at-Leaves zero os n m h = λ m' e. cc
  client_read_at-Leaves (suc d) os n m h =
      client_read_body-Leaves os _ m.session.state n m (client_read_at-Leaves d os 0) h

  pub handle_client_read-Leaves :
      (os : Os) (n : ℕ) (m : Machine) → HasAccepts a m → Leaves a (handle_client_read os n m)
  unfolding handle_client_read
  handle_client_read-Leaves os n m h = client_read_at-Leaves 3 os n m h
