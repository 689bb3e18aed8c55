-- ===== src/Socks/Trials.antt =====
-- hw2-socks5-server: runs of the server, and the theorems of the event loop at one of them.
use modern_cpp_hw.Prelude.{
  ℕ, ◌^◌, ◌≤◌, ◌<◌, ◌≡◌, refl, List, [], ◌∷◌, Option, none, some, true, length, map, arith,
}
use modern_cpp_hw.Socks.Outcome.{Outcome, done, ◌>>=◌}
use modern_cpp_hw.Socks.Events.{client_read, blank_event}
use modern_cpp_hw.Socks.Buffers.{half_buffer_size}
use modern_cpp_hw.Socks.Session.{
  Session, State, at_least, reading_client_greeting, proxying_requests,
}
use modern_cpp_hw.Socks.Ring.{read_fixed, accept}
use modern_cpp_hw.Socks.Server.{Server, count}
use modern_cpp_hw.Socks.Server.Invariant.{Inv, flights}
use modern_cpp_hw.Socks.Kernel.{Round}
use modern_cpp_hw.Socks.Kernel.Accept.{handle_accept-Inv}
use modern_cpp_hw.Socks.Kernel.Runs.{
  IsAnswer, round-Inv, started, event_loop-Inv, live_session_waits, idle_session_stays,
}
use modern_cpp_hw.Socks.Scenario.{
  kind_os, raw_session, arrives, finds, server1, greeting, handshake,
}
use modern_cpp_hw.Socks.Examples.{kind_os-IsKind}
use modern_cpp_hw.Socks.Events.{
  range_from, event_pool, take_front as take_event, obtain_event, return_event, write_event,
}
use modern_cpp_hw.Socks.Buffers.{
  make_iovecs, buffer_pool, take_front, obtain_free_buffer, return_buffer, buffer_half0,
  buffer_half1, read_memory, write_memory,
}
use modern_cpp_hw.Socks.Sockets.{
  construct_address_ipv4, construct_address_ipv6, socket_made, make_socket, socket_ipv4,
  socket_ipv6, address_length, closed_by, or_exit, close_unless_absent, destroy_socket,
}
use modern_cpp_hw.Socks.Session.{is_read_completed, init_session, session_with, new_session}
use modern_cpp_hw.Socks.Ring.{
  submit, add_client_accept_request, submit_obtained, submit_event, await_one, client_read_sqe,
  add_client_read_request, client_write_sqe, add_client_write_request, with_destination,
  add_destination_connect_request, destination_read_sqe, add_destination_read_request,
  destination_write_sqe, add_destination_write_request,
}
use modern_cpp_hw.Socks.Transfer.{
  fail_delayed, fail_immediately, consume_bytes_from_read_buffer, read_until, read_from_client,
  read_some_from_client, copy_to_buffer1, write_to_client, send_fail_message,
}
use modern_cpp_hw.Socks.Handshake.{
  read_client_greeting, has_zero, choose_auth_method, read_auth_methods, read_address_type,
  read_client_connection_request, read_domain_name_length, error_reply, translate_errno,
  start_connect, connect_made, connect_ipv4_destination, connect_ipv6_destination, c_string,
  resolved, connect_host, read_address_of, read_address,
}
use modern_cpp_hw.Socks.Handlers.{
  on_read_completed, insert_read, collect_read, forward_read, client_read_body, client_read_at,
  handle_client_read, client_written, on_reply_written, reply_written, client_write_body,
  handle_client_write, reply_granted, destination_connected, handle_destination_connect,
  handle_destination_read, handle_destination_write,
}
use modern_cpp_hw.Socks.Server.{
  lookup, update, erase, io_uring, accept_session, handle_accept, delete_session, finish_event,
  awaited_one, non_zero_read, dispatch, settle, on_failure, on_success, on_result, handle_event,
  handle_cqe,
}
use modern_cpp_hw.Socks.Kernel.{pick, fill, complete, round, rounds, event_loop}

unfoldable pub run : List Round → Outcome Server
unfolding range_from event_pool take_event obtain_event return_event write_event make_iovecs
    buffer_pool take_front obtain_free_buffer return_buffer buffer_half0 buffer_half1 read_memory
    write_memory construct_address_ipv4 construct_address_ipv6 socket_made make_socket socket_ipv4
    socket_ipv6 address_length closed_by or_exit close_unless_absent destroy_socket
    is_read_completed init_session session_with new_session submit add_client_accept_request
    submit_obtained submit_event await_one client_read_sqe add_client_read_request client_write_sqe
    add_client_write_request with_destination add_destination_connect_request destination_read_sqe
    add_destination_read_request destination_write_sqe add_destination_write_request fail_delayed
    fail_immediately consume_bytes_from_read_buffer read_until read_from_client
    read_some_from_client copy_to_buffer1 write_to_client send_fail_message read_client_greeting
    has_zero choose_auth_method read_auth_methods read_address_type read_client_connection_request
    read_domain_name_length error_reply translate_errno start_connect connect_made
    connect_ipv4_destination connect_ipv6_destination c_string resolved connect_host read_address_of
    read_address on_read_completed insert_read collect_read forward_read client_read_body
    client_read_at handle_client_read client_written on_reply_written reply_written
    client_write_body handle_client_write reply_granted destination_connected
    handle_destination_connect handle_destination_read handle_destination_write lookup update erase
    io_uring accept_session handle_accept delete_session finish_event awaited_one non_zero_read
    dispatch settle on_failure on_success on_result handle_event handle_cqe pick fill complete round
    rounds event_loop
run ks = event_loop ks server1

-- Descriptor, state and count of each session, and how many requests are pending.
abbrev Summary : Type 0
Summary = List (Option ℕ × State × ℕ) × ℕ

abbrev summary : Outcome Server → Outcome Summary
summary r = r >>= λ v. done (
  map (λ ps. (ps.1.fd, ps.1.state, ps.1.awaiting_events_count)) v.sessions,
  length v.uring.pending,
)

-- The handshake ends in the relay, with a read of the client and one of the destination pending.
handshake-run : summary (run handshake) ≡ done ((some 7, proxying_requests, 2) ∷ [], 3)
unfolding run
handshake-run = refl

-- After a greeting of another version the session is closed, but its count stays at 1.
bad_greeting_run :
    summary (run (arrives ∷ finds (4 ∷ 1 ∷ 0 ∷ []) ∷ []))
    ≡ done ((none, reading_client_greeting, 1) ∷ [], 1)
unfolding run
bad_greeting_run = refl

abbrev first_session : Session
first_session = record raw_session {
  fd = some 7;
  awaiting_events_count = 2;
  buffer0_index = 0;
  buffer1_index = 1;
  buffer0 = record { start = 0; stop = 16384 };
  buffer1 = record { start = 16384; stop = 32768 };
  read_goal = at_least 3;
}

-- Once a client has been accepted.
abbrev pub after : Server
after = record {
  uring = record {
    socket_fd = some 3;
    event_pool = record {
      total_events_count = 4;
      events =
          record { id = 0; client = 0; type = client_read }
          ∷ blank_event 1
          ∷ blank_event 2
          ∷ blank_event 3
          ∷ [];
      free_events = 1 ∷ 2 ∷ 3 ∷ [];
    };
    buffer_pool = record {
      total_buffer_count = 1;
      memory = λ _. 0;
      memory_size = 32768;
      free_buffers = [];
      iovecs =
          record { iov_base = 0; iov_len = half_buffer_size }
          ∷ record { iov_base = 16384; iov_len = half_buffer_size }
          ∷ [];
    };
    is_root = true;
    pending =
        record { sqe = read_fixed (some 7) 0 half_buffer_size 0 0; user_data = some 0 }
        ∷ record { sqe = accept (some 3); user_data = none }
        ∷ [];
    closed = [];
  };
  sessions = (0, first_session) ∷ [];
  next_session = 1;
}

arrived : run (arrives ∷ []) ≡ done after
unfolding run
arrived = refl

arrives-IsAnswer : IsAnswer arrives (started (some 3) 1 true)
unfolding pick add_client_accept_request submit io_uring
arrives-IsAnswer = record {
  kind = kind_os-IsKind;
  request = record { sqe = accept (some 3); user_data = none };
  rest = [];
  picked = refl;
  within = λ c e. tt;
}

event_loop-Inv_example :
    (w : Server) × (event_loop (arrives ∷ []) (io_uring (some 3) 1 true) ≡ done w) × Inv [] 1 w
event_loop-Inv_example = event_loop-Inv (some 3) 1 true (arrives ∷ []) (arrives-IsAnswer, λ w e. tt)

pub started_loop : event_loop (arrives ∷ []) (io_uring (some 3) 1 true) ≡ done after
unfolding run
started_loop = arrived

first_found : lookup 0 after.sessions ≡ some first_session
unfolding lookup
first_found = refl

live_session_waits_example : 0 < length (flights 0 after)
live_session_waits_example =
    live_session_waits (some 3) 1 true (arrives ∷ []) after (arrives-IsAnswer, λ w e. tt)
      started_loop 0 first_session first_found refl

after-Inv : Inv [] 1 after
after-Inv =
    let (w, d, inv) = event_loop-Inv (some 3) 1 true (arrives ∷ []) (arrives-IsAnswer, λ w e. tt) in
    rw (← same after w (event_loop (arrives ∷ []) (io_uring (some 3) 1 true)) started_loop d) at inv
  where
    same : (v w : Server) (o : Outcome Server) → o ≡ done v → o ≡ done w → v ≡ w
    same v w o a b = cc

three_bytes : (c : ℕ) → count 3 ≡ count c → (c ≤ half_buffer_size) × (c < 2 ^ 32)
three_bytes c e = (omega (arith, counted c e), omega (arith, counted c e))
  where
    counted : (c : ℕ) → count 3 ≡ count c → 3 ≡ c
    counted c e = cc

finds-IsAnswer : IsAnswer (finds greeting) after
unfolding pick
finds-IsAnswer = record {
  kind = kind_os-IsKind;
  request = record { sqe = read_fixed (some 7) 0 half_buffer_size 0 0; user_data = some 0 };
  rest = record { sqe = accept (some 3); user_data = none } ∷ [];
  picked = refl;
  within = three_bytes;
}

round-Inv_example : (w : Server) × (round (finds greeting) after ≡ done w) × Inv [] 1 w
round-Inv_example = round-Inv (finds greeting) 1 after after-Inv finds-IsAnswer

handle_accept-Inv_example :
    (w : Server) × (handle_accept kind_os raw_session 8 after ≡ done w) × Inv [] 1 w
handle_accept-Inv_example = handle_accept-Inv kind_os kind_os-IsKind 1 after after-Inv raw_session 8

abbrev bad_greeting : List ℕ
bad_greeting = 4 ∷ 1 ∷ 0 ∷ []

abbrev pub server_of : Outcome Server → Server
server_of (done v) = v
server_of r = after

-- The client has sent a greeting of another version.
abbrev abandoned : Server
abandoned = server_of (round (finds bad_greeting) after)

abandoned-round : round (finds bad_greeting) after ≡ done abandoned
unfolding run
abandoned-round = refl

bad-IsAnswer : IsAnswer (finds bad_greeting) after
unfolding pick
bad-IsAnswer = record {
  kind = kind_os-IsKind;
  request = record { sqe = read_fixed (some 7) 0 half_buffer_size 0 0; user_data = some 0 };
  rest = record { sqe = accept (some 3); user_data = none } ∷ [];
  picked = refl;
  within = three_bytes;
}

abandoned-Inv : Inv [] 1 abandoned
abandoned-Inv =
    let (w, d, inv) = round-Inv (finds bad_greeting) 1 after after-Inv bad-IsAnswer in
    rw (← same abandoned w (round (finds bad_greeting) after) abandoned-round d) at inv
  where
    same : (v w : Server) (o : Outcome Server) → o ≡ done v → o ≡ done w → v ≡ w
    same v w o a b = cc

abbrev abandoned_session : Session
abandoned_session = record first_session {
  fd = none;
  awaiting_events_count = 1;
  read_buffer = bad_greeting;
  failed = true;
}

abandoned_found : lookup 0 abandoned.sessions ≡ some abandoned_session
unfolding run
abandoned_found = refl

abandoned_idle : flights 0 abandoned ≡ []
unfolding run
abandoned_idle = refl

-- The next client arrives.
abandoned-IsAnswer : IsAnswer arrives abandoned
unfolding run
abandoned-IsAnswer = record {
  kind = kind_os-IsKind;
  request = record { sqe = accept (some 3); user_data = none };
  rest = [];
  picked = refl;
  within = λ c e. tt;
}

idle_session_stays_example :
    (w : Server) × (rounds (arrives ∷ []) abandoned ≡ done w)
    × (lookup 0 w.sessions ≡ some abandoned_session)
idle_session_stays_example =
    idle_session_stays (arrives ∷ []) 1 abandoned abandoned-Inv (abandoned-IsAnswer, λ w e. tt) 0
      abandoned_session abandoned_found abandoned_idle
