-- ===== src/Socks/Handlers/Depth.antt =====
-- The depth of calls: handle_client_read calls itself through read_some_from_client.
use modern_cpp_hw.Prelude.{ℕ, zero, suc, ◌≤◌, ◌≡◌, ◌≢◌, refl, List, Option, none, some, arith}
use modern_cpp_hw.Socks.Outcome.{Outcome, Ends, bind-Ends}
use modern_cpp_hw.Socks.Os.{Os, Family, inet, inet6, other_family, HostEntry}
use modern_cpp_hw.Socks.Sockets.{Made, made, error, other_exception}
use modern_cpp_hw.Socks.Session.{
  State, reading_client_greeting, reading_auth_methods, reading_client_connection_request,
  reading_domain_name_length, reading_address, connecting_to_destination, proxying_requests,
  AddressType, ipv4, domain_name, ipv6, at_least, ReadGoal,
}
use modern_cpp_hw.Socks.Ring.{Machine}
use modern_cpp_hw.Socks.Transfer.{read_until, read_some_from_client, with_session}
use modern_cpp_hw.Socks.Handshake.{
  read_client_greeting, read_auth_methods, choose_auth_method, read_client_connection_request,
  read_domain_name_length, read_address, read_address_type, translate_errno, start_connect,
  connect_made, connect_ipv4_destination, connect_ipv6_destination, resolved, connect_host,
  read_address_of,
}
use modern_cpp_hw.Socks.Handlers.{
  on_read_completed, insert_read, collect_read, forward_read, client_read_body, client_read_at,
  handle_client_read,
}
use modern_cpp_hw.Socks.Handlers.Ends.{
  slice-Ends, add_client_read_request-Ends, add_destination_connect_request-Ends,
  add_destination_write_request-Ends, destroy_socket-Ends, fail_delayed-Ends, fail_immediately-Ends,
  consume-Ends, write_to_client-Ends, send_fail_message-Ends,
}

-- How deep the calls of handle_client_read go from a state.
abbrev pub rank : State → ℕ
rank reading_client_greeting = 2
rank reading_client_connection_request = 3
rank reading_domain_name_length = 2
rank _ = 1

pub rank-le : (s : State) → rank s ≤ 3
rank-le reading_client_greeting = omega arith
rank-le _ = omega arith

pub rank-pos : (s : State) → rank s ≢ 0
rank-pos reading_client_greeting = λ e. omega arith
rank-pos _ = λ e. omega arith

-- What the recursive call is known to do from states of at most this rank.
abbrev EndsBelow : ℕ → (Machine → Outcome Machine) → Type 0
EndsBelow d again = (m : Machine) → rank m.session.state ≤ d → Ends (again m)

pub read_until-Ends :
    (goal : ReadGoal) (again : Machine → Outcome Machine) (d : ℕ) (m : Machine)
    → EndsBelow d again
    → rank m.session.state ≤ d
    → Ends (read_until goal again m)
unfolding read_until
read_until-Ends goal again d m h r = ground (
  arith,
  h (with_session (λ s. record s { read_goal = goal }) m),
  add_client_read_request-Ends (with_session (λ s. record s { read_goal = goal }) m),
)

read_client_greeting-Ends :
    (os : Os) (again : Machine → Outcome Machine) (m : Machine)
    → EndsBelow 1 again
    → Ends (read_client_greeting os again m)
unfolding read_client_greeting read_some_from_client
read_client_greeting-Ends os again m h =
    grind (arith, fail_immediately-Ends, consume-Ends, read_until-Ends (at_least _) again 1)

read_auth_methods-Ends : (os : Os) (m : Machine) → Ends (read_auth_methods os m)
unfolding read_auth_methods choose_auth_method
read_auth_methods-Ends os m =
    grind (arith, fail_delayed-Ends, consume-Ends, write_to_client-Ends, slice-Ends)

read_address_type-Ends :
    (os : Os) (again : Machine → Outcome Machine) (type : ℕ) (m : Machine)
    → EndsBelow 2 again
    → Ends (read_address_type os again type m)
unfolding read_address_type read_some_from_client
read_address_type-Ends os again type m h =
    grind (arith, send_fail_message-Ends, read_until-Ends (at_least _) again 2)

read_client_connection_request-Ends :
    (os : Os) (again : Machine → Outcome Machine) (m : Machine)
    → EndsBelow 2 again
    → Ends (read_client_connection_request os again m)
unfolding read_client_connection_request
read_client_connection_request-Ends os again m h = grind (
  arith,
  send_fail_message-Ends,
  consume-Ends,
  λ (t : ℕ) (m : Machine). read_address_type-Ends os again t m h,
)

read_domain_name_length-Ends :
    (again : Machine → Outcome Machine) (m : Machine)
    → EndsBelow 1 again
    → Ends (read_domain_name_length again m)
unfolding read_domain_name_length read_some_from_client
read_domain_name_length-Ends again m h =
    grind (arith, consume-Ends, read_until-Ends (at_least _) again 1)

start_connect-Ends : (m : Machine) → Ends (start_connect m)
unfolding start_connect
start_connect-Ends m = add_destination_connect_request-Ends _

connect_made-Ends : (os : Os) (r : Made) (m : Machine) → Ends (connect_made os r m)
unfolding connect_made translate_errno
connect_made-Ends os (made s) m =
    bind-Ends _ _ (destroy_socket-Ends os m.session.destination_socket m.server.closed)
      (λ trace. start_connect-Ends _)
connect_made-Ends os (error e) m = bind-Ends _ _ (send_fail_message-Ends os _ m) start_connect-Ends
connect_made-Ends os other_exception m = send_fail_message-Ends os 1 m

resolved-Ends : (os : Os) (f : Family) (addr : List ℕ) (m : Machine) → Ends (resolved os f addr m)
unfolding resolved connect_ipv4_destination connect_ipv6_destination
resolved-Ends os inet addr m = connect_made-Ends _ _ _
resolved-Ends os inet6 addr m = connect_made-Ends _ _ _
resolved-Ends os other_family addr m = λ e. cc

connect_host-Ends : (os : Os) (h : Option HostEntry) (m : Machine) → Ends (connect_host os h m)
unfolding connect_host
connect_host-Ends os none m = send_fail_message-Ends os 4 m
connect_host-Ends os (some he) m = grind (arith, send_fail_message-Ends, resolved-Ends)

read_address_of-Ends : (os : Os) (t : AddressType) (m : Machine) → Ends (read_address_of os t m)
unfolding read_address_of connect_ipv4_destination connect_ipv6_destination
read_address_of-Ends os ipv4 m = grind (arith, slice-Ends, consume-Ends, connect_made-Ends)
read_address_of-Ends os domain_name m = grind (arith, slice-Ends, consume-Ends, connect_host-Ends)
read_address_of-Ends os ipv6 m = grind (arith, slice-Ends, consume-Ends, connect_made-Ends)

on_read_completed-Ends :
    (os : Os) (again : Machine → Outcome Machine) (d : ℕ) (s : State) (m : Machine)
    → rank s ≤ suc d
    → EndsBelow d again
    → Ends (on_read_completed os again s m)
unfolding on_read_completed read_address
on_read_completed-Ends os again d reading_client_greeting m r h =
    read_client_greeting-Ends os again m (λ m' r'. h m' (omega arith))
on_read_completed-Ends os again d reading_auth_methods m r h = read_auth_methods-Ends os m
on_read_completed-Ends os again d reading_client_connection_request m r h =
    read_client_connection_request-Ends os again m (λ m' r'. h m' (omega arith))
on_read_completed-Ends os again d reading_domain_name_length m r h =
    read_domain_name_length-Ends again m (λ m' r'. h m' (omega arith))
on_read_completed-Ends os again d reading_address m r h = read_address_of-Ends os _ m
on_read_completed-Ends os again d connecting_to_destination m r h = λ e. cc
on_read_completed-Ends os again d proxying_requests m r h = λ e. cc

collect_read-Ends :
    (os : Os) (again : Machine → Outcome Machine) (d n : ℕ) (m : Machine)
    → rank m.session.state ≤ suc d
    → EndsBelow d again
    → Ends (collect_read os again n m)
unfolding collect_read insert_read
collect_read-Ends os again d n m r h = grind (
  arith,
  add_client_read_request-Ends,
  λ (m' : Machine) (e : rank m.session.state ≤ suc d).
      on_read_completed-Ends os again d m.session.state m' e h,
)

client_read_body-Ends :
    (os : Os) (again : Machine → Outcome Machine) (d n : ℕ) (s : State) (m : Machine)
    → m.session.state ≡ s
    → rank s ≤ suc d
    → EndsBelow d again
    → Ends (client_read_body os again s n m)
unfolding client_read_body forward_read
client_read_body-Ends os again d n proxying_requests m e r h =
    add_destination_write_request-Ends _ _ _
client_read_body-Ends os again d n reading_address m e r h =
    collect_read-Ends os again d n m (rw e r) h
client_read_body-Ends os again d n _ m e r h = collect_read-Ends os again d n m (rw e r) h

-- From a state of rank at most `d`, `d` calls of handle_client_read on the stack are enough.
pub client_read_at-Ends :
    (d : ℕ) (os : Os) (n : ℕ) (m : Machine)
    → rank m.session.state ≤ d
    → Ends (client_read_at d os n m)
unfolding client_read_at
client_read_at-Ends zero os n m h = absurd (rank-pos m.session.state (omega arith))
client_read_at-Ends (suc d) os n m h =
    client_read_body-Ends os _ d n m.session.state m refl h
      (λ m' h'. client_read_at-Ends d os 0 m' h')

-- handle_client_read always comes to an end within the depth that `call_depth` allows, whatever the
-- session, the bytes read and the answers of the system.
pub handle_client_read-Ends : (os : Os) (n : ℕ) (m : Machine) → Ends (handle_client_read os n m)
unfolding handle_client_read
handle_client_read-Ends os n m = client_read_at-Ends 3 os n m (rank-le m.session.state)
