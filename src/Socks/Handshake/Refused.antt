-- ===== src/Socks/Handshake/Refused.antt =====
-- hw2-socks5-server: the connection to a destination when the kernel refuses to make a socket
-- (Session::connect_ipv4_destination and connect_ipv6_destination of src/server.cpp).
use modern_cpp_hw.Prelude.{ℕ, ◌≡◌, refl, none, true, Option-cases, inl, inr}
use modern_cpp_hw.Socks.Outcome.{fault, ◌>>=◌}
use modern_cpp_hw.Socks.Os.{Os, inet, inet6, refused}
use modern_cpp_hw.Socks.Events.{obtain_event}
use modern_cpp_hw.Socks.Sockets.{
  socket_ipv4, socket_ipv6, make_socket, socket_made, construct_address_ipv4,
  construct_address_ipv6, destroy_socket,
}
use modern_cpp_hw.Socks.Ring.{
  Machine, with_destination, add_destination_connect_request, add_client_write_request,
  submit_event, submit_obtained, await_one,
}
use modern_cpp_hw.Socks.Transfer.{fail_delayed, send_fail_message, write_to_client, copy_to_buffer1}
use modern_cpp_hw.Socks.Handshake.{
  start_connect, connect_made, translate_errno, connect_ipv4_destination, connect_ipv6_destination,
}

start_connect-fault : (m : Machine) → m.session.destination_socket ≡ none → start_connect m ≡ fault
unfolding start_connect add_destination_connect_request with_destination
start_connect-fault m e = rw e refl

written-fault :
    (nbytes : ℕ) (m : Machine)
    → m.session.destination_socket ≡ none
    → (add_client_write_request nbytes 0 m >>= start_connect) ≡ fault
unfolding add_client_write_request submit_event submit_obtained await_one
written-fault nbytes m e = elim (Option-cases (obtain_event m.server.event_pool)) [
  | inl y ↦ rw y refl
  | inr (y, z) ↦ rw z (start_connect-fault _ e)
]

translate_errno-fault :
    (os : Os) (c : ℕ) (m : Machine)
    → m.session.destination_socket ≡ none
    → (translate_errno os c m >>= start_connect) ≡ fault
unfolding translate_errno send_fail_message fail_delayed destroy_socket write_to_client
    copy_to_buffer1
translate_errno-fault os c m e = rw e (written-fault _ _ refl)

-- Where the kernel refuses to make a socket, for either family, and the session has none yet, the
-- attempt to connect ends in a null pointer, whatever the error and the rest of the server are: the
-- reply to the client is not all that happens.
pub connect_destination-fault :
    (os : Os) (m : Machine) (c d : ℕ)
    → os.has_memory inet ≡ true
    → os.has_memory inet6 ≡ true
    → os.socket inet ≡ refused c
    → os.socket inet6 ≡ refused d
    → m.session.destination_socket ≡ none
    → (connect_ipv4_destination os m ≡ fault) × (connect_ipv6_destination os m ≡ fault)
unfolding connect_ipv4_destination connect_ipv6_destination socket_ipv4 socket_ipv6 make_socket
    socket_made construct_address_ipv4 construct_address_ipv6 connect_made
connect_destination-fault os m c d h4 h6 r4 r6 e =
    (rw (h4, r4) (translate_errno-fault os c m e), rw (h6, r6) (translate_errno-fault os d m e))
