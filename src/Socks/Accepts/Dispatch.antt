-- ===== src/Socks/Accepts/Dispatch.antt =====
-- hw2-socks5-server: the handlers that the event loop calls (src/server.cpp) add requests with an event
-- only.
use modern_cpp_hw.Prelude.{ℕ, ◌+◌, ◌==◌, not, u32}
use modern_cpp_hw.Socks.Os.{Os}
use modern_cpp_hw.Socks.Events.{
  EventType, client_accept, client_read, client_write, destination_connect, destination_read,
  destination_write,
}
use modern_cpp_hw.Socks.Session.{
  State, reading_client_greeting, reading_auth_methods, reading_client_connection_request,
  reading_domain_name_length, reading_address, connecting_to_destination, proxying_requests,
  AddressType, ipv4, domain_name, ipv6, is_empty,
}
use modern_cpp_hw.Socks.Ring.{Machine}
use modern_cpp_hw.Socks.Transfer.{erase_front, read_from_client, read_some_from_client}
use modern_cpp_hw.Socks.Handlers.{
  on_reply_written, reply_written, client_written, client_write_body, handle_client_write,
  reply_granted, destination_connected, handle_destination_connect, handle_destination_read,
  handle_destination_write,
}
use modern_cpp_hw.Socks.Server.{dispatch, non_zero_read}
use modern_cpp_hw.Socks.Accepts.{HasAccepts, Leaves, bind-Leaves, chain-Leaves, if-Leaves}
use modern_cpp_hw.Socks.Accepts.Sessions.{
  write_to_client-Leaves, add_client_read_request-Leaves, add_client_write_request-Leaves,
  add_destination_read_request-Leaves, add_destination_write_request-Leaves,
  fail_immediately-Leaves, read_until-Leaves,
}
use modern_cpp_hw.Socks.Accepts.Handlers.{handle_client_read-Leaves}

module _ (a : ℕ) where
  on_reply_written-Leaves :
      (os : Os) (s : State) (m : Machine) → HasAccepts a m → Leaves a (on_reply_written os s m)
  unfolding on_reply_written read_some_from_client read_from_client
  on_reply_written-Leaves os reading_auth_methods m h =
      read_until-Leaves a _ _ _ (handle_client_read-Leaves a os 0) h
  on_reply_written-Leaves os connecting_to_destination m h =
      chain-Leaves a _ _ (add_destination_read_request-Leaves a _ h)
        (λ m' h'. read_until-Leaves a _ _ m' (handle_client_read-Leaves a os 0) h')
  on_reply_written-Leaves os reading_client_greeting m h = λ m' e. cc
  on_reply_written-Leaves os reading_client_connection_request m h = λ m' e. cc
  on_reply_written-Leaves os reading_domain_name_length m h = λ m' e. cc
  on_reply_written-Leaves os reading_address m h = λ m' e. cc
  on_reply_written-Leaves os proxying_requests m h = λ m' e. cc

  reply_written-Leaves :
      (os : Os) (n : ℕ) (m : Machine) → HasAccepts a m → Leaves a (reply_written os n m)
  unfolding reply_written
  reply_written-Leaves os n m h =
      bind-Leaves a (erase_front n m.session.write_client_buffer) _ λ rest e.
        if-Leaves a (is_empty rest) _ _ (on_reply_written-Leaves os m.session.state _ h)
          (write_to_client-Leaves a _ h)

  client_write_body-Leaves :
      (os : Os) (s : State) (n : ℕ) (m : Machine)
      → HasAccepts a m
      → Leaves a (client_write_body os s n m)
  unfolding client_write_body client_written
  client_write_body-Leaves os proxying_requests n m h =
      if-Leaves a (u32 (n + m.session.client_write_offset) == m.session.client_write_size) _ _
        (add_destination_read_request-Leaves a m h) (add_client_write_request-Leaves a _ _ _ h)
  client_write_body-Leaves os _ n m h = reply_written-Leaves os n m h

  reply_granted-Leaves :
      (t : AddressType) (m : Machine) → HasAccepts a m → Leaves a (reply_granted t m)
  unfolding reply_granted
  reply_granted-Leaves ipv4 m h = write_to_client-Leaves a _ h
  reply_granted-Leaves ipv6 m h = write_to_client-Leaves a _ h
  reply_granted-Leaves domain_name m h = λ m' e. cc

  destination_connected-Leaves :
      (s : State) (m : Machine) → HasAccepts a m → Leaves a (destination_connected s m)
  unfolding destination_connected
  destination_connected-Leaves connecting_to_destination m h = reply_granted-Leaves _ m h
  destination_connected-Leaves reading_client_greeting m h = λ m' e. cc
  destination_connected-Leaves reading_auth_methods m h = λ m' e. cc
  destination_connected-Leaves reading_client_connection_request m h = λ m' e. cc
  destination_connected-Leaves reading_domain_name_length m h = λ m' e. cc
  destination_connected-Leaves reading_address m h = λ m' e. cc
  destination_connected-Leaves proxying_requests m h = λ m' e. cc

  pub dispatch-Leaves :
      (os : Os) (t : EventType) (n : ℕ) (m : Machine)
      → HasAccepts a m
      → Leaves a (dispatch os t n m)
  unfolding dispatch non_zero_read handle_client_write handle_destination_connect
      handle_destination_read handle_destination_write
  dispatch-Leaves os client_accept n m h = λ m' e. cc
  dispatch-Leaves os client_read n m h =
      if-Leaves a (not (n == 0)) _ _ (handle_client_read-Leaves a os n m h)
        (fail_immediately-Leaves a os m h)
  dispatch-Leaves os client_write n m h = client_write_body-Leaves os _ n m h
  dispatch-Leaves os destination_connect n m h = destination_connected-Leaves _ m h
  dispatch-Leaves os destination_read n m h =
      if-Leaves a (not (n == 0)) _ _ (add_client_write_request-Leaves a _ _ _ h)
        (fail_immediately-Leaves a os m h)
  dispatch-Leaves os destination_write n m h =
      if-Leaves a (u32 (n + m.session.destination_write_offset) == m.session.destination_write_size)
        _ _ (add_client_read_request-Leaves a m h) (add_destination_write_request-Leaves a _ _ _ h)
