-- ===== src/Socks/Handlers/Ends.antt =====
-- The functions below the handlers come to an end (src/server.cpp).
use modern_cpp_hw.Prelude.{ℕ, List, Option, none, some, arith}
use modern_cpp_hw.Socks.Outcome.{Ends, bind-Ends}
use modern_cpp_hw.Socks.Os.{Os}
use modern_cpp_hw.Socks.Events.{EventType}
use modern_cpp_hw.Socks.Sockets.{destroy_socket, close_unless_absent, or_exit, closed_by, Socket}
use modern_cpp_hw.Socks.Ring.{
  Machine, Sqe, submit_event, submit_obtained, with_destination, add_client_read_request,
  add_client_write_request, add_destination_connect_request, add_destination_write_request,
}
use modern_cpp_hw.Socks.Transfer.{
  or_fault, slice, fail_delayed, fail_immediately, consume_bytes_from_read_buffer, write_to_client,
  send_fail_message,
}

submit_event-Ends : (type : EventType) (sqe : Sqe) (m : Machine) → Ends (submit_event type sqe m)
unfolding submit_event submit_obtained
submit_event-Ends type sqe m = ground arith

or_fault-Ends {ℓ} : {A : Type ℓ} (o : Option A) → Ends (or_fault o)
or_fault-Ends none = λ e. cc
or_fault-Ends (some a) = λ e. cc

pub slice-Ends : (bytes : List ℕ) (at n : ℕ) → Ends (slice bytes at n)
slice-Ends bytes at n = ground arith

pub add_client_read_request-Ends : (m : Machine) → Ends (add_client_read_request m)
unfolding add_client_read_request
add_client_read_request-Ends m = submit_event-Ends _ _ _

add_client_write_request-Ends :
    (n offset : ℕ) (m : Machine) → Ends (add_client_write_request n offset m)
unfolding add_client_write_request
add_client_write_request-Ends n offset m = submit_event-Ends _ _ _

pub add_destination_connect_request-Ends : (m : Machine) → Ends (add_destination_connect_request m)
unfolding add_destination_connect_request with_destination submit_event submit_obtained
add_destination_connect_request-Ends m = ground arith

pub add_destination_write_request-Ends :
    (n offset : ℕ) (m : Machine) → Ends (add_destination_write_request n offset m)
unfolding add_destination_write_request with_destination submit_event submit_obtained
add_destination_write_request-Ends n offset m = ground arith

pub destroy_socket-Ends :
    (os : Os) (s : Option Socket) (trace : List (Option ℕ)) → Ends (destroy_socket os s trace)
unfolding destroy_socket or_exit close_unless_absent closed_by
destroy_socket-Ends os s trace = ground arith

pub fail_delayed-Ends : (os : Os) (m : Machine) → Ends (fail_delayed os m)
unfolding fail_delayed
fail_delayed-Ends os m =
    ground (arith, destroy_socket-Ends os m.session.destination_socket m.server.closed)

pub fail_immediately-Ends : (os : Os) (m : Machine) → Ends (fail_immediately os m)
unfolding fail_immediately closed_by
fail_immediately-Ends os m = ground (arith, fail_delayed-Ends os m)

pub consume-Ends : (n : ℕ) (m : Machine) → Ends (consume_bytes_from_read_buffer n m)
unfolding consume_bytes_from_read_buffer
consume-Ends n m = ground arith

pub write_to_client-Ends : (m : Machine) → Ends (write_to_client m)
unfolding write_to_client
write_to_client-Ends m = add_client_write_request-Ends _ _ _

pub send_fail_message-Ends : (os : Os) (e : ℕ) (m : Machine) → Ends (send_fail_message os e m)
unfolding send_fail_message
send_fail_message-Ends os e m =
    bind-Ends _ _ (fail_delayed-Ends os m) (λ m'. write_to_client-Ends _)
