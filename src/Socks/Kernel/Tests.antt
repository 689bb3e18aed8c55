-- ===== src/Socks/Kernel/Tests.antt =====
-- hw2-socks5-server: two bytes from the destination, and two from the client, in a relay.
use modern_cpp_hw.Prelude.{◌≡◌, ℕ, refl, List, [], ◌∷◌, some, true, IsBytes, arith}
use modern_cpp_hw.Socks.Outcome.{Outcome, done}
use modern_cpp_hw.Socks.Os.{inet}
use modern_cpp_hw.Socks.Sockets.{Socket}
use modern_cpp_hw.Socks.Session.{proxying_requests}
use modern_cpp_hw.Socks.Events.{client_read, obtain_event, take_front, write_event}
use modern_cpp_hw.Socks.Ring.{
  Machine, submit_event, submit_obtained, await_one, submit, add_client_write_request,
  add_destination_write_request, with_destination, client_read_sqe, destination_read_sqe,
}
use modern_cpp_hw.Socks.Handlers.{
  handle_client_read, client_read_at, client_read_body, forward_read, handle_destination_read,
}
use modern_cpp_hw.Socks.Scenario.{kind_os, raw_session, server1}
use modern_cpp_hw.Socks.Server.{io_uring}
use modern_cpp_hw.Socks.Kernel.{fill}
use modern_cpp_hw.Socks.Ring.Sent.{IsPassedOn}
use modern_cpp_hw.Socks.Kernel.Relay.{
  filled, handle_destination_read-IsPassedOn, handle_client_read-IsPassedOn,
}

abbrev destination : Socket
destination = record {
  fd = some 9;
  address = record { family = inet; addr = 127 ∷ 0 ∷ 0 ∷ 1 ∷ []; port = 0 ∷ 80 ∷ [] };
}

abbrev relaying : Machine
relaying = record {
  this = 0;
  session = record raw_session {
    fd = some 7;
    state = proxying_requests;
    buffer1 = record { start = 65536; stop = 131072 };
    destination_socket = some destination;
  };
  server = record server1 {
    event_pool = record {
      total_events_count = 1;
      events = record { id = 0; client = 0; type = client_read } ∷ [];
      free_events = 0 ∷ [];
    };
  };
}

abbrev hello : List ℕ
hello = 72 ∷ 105 ∷ []

abbrev end_of : Outcome Machine → Machine
end_of (done m) = m
end_of r = relaying

abbrev from_destination : Machine
from_destination = filled (destination_read_sqe true relaying.session destination) hello relaying

abbrev from_client : Machine
from_client = filled (client_read_sqe true relaying.session) hello relaying

abbrev to_client : Machine
to_client = end_of (handle_destination_read 2 from_destination)

abbrev to_destination : Machine
to_destination = end_of (handle_client_read kind_os 2 from_client)

to_client_run : handle_destination_read 2 from_destination ≡ done to_client
unfolding handle_destination_read add_client_write_request submit_event submit_obtained await_one
    obtain_event take_front write_event submit fill destination_read_sqe
to_client_run = refl

to_destination_run : handle_client_read kind_os 2 from_client ≡ done to_destination
unfolding handle_client_read client_read_at client_read_body forward_read
    add_destination_write_request with_destination submit_event submit_obtained await_one
    obtain_event take_front write_event submit fill client_read_sqe
to_destination_run = refl

hello-IsBytes : IsBytes hello
hello-IsBytes = (omega arith, (omega arith, tt))

handle_destination_read-IsPassedOn_example : IsPassedOn hello (some 7) relaying to_client
unfolding io_uring
handle_destination_read-IsPassedOn_example =
    handle_destination_read-IsPassedOn relaying to_client destination hello hello-IsBytes
      to_client_run

handle_client_read-IsPassedOn_example : IsPassedOn hello (some 9) relaying to_destination
unfolding io_uring
handle_client_read-IsPassedOn_example =
    handle_client_read-IsPassedOn kind_os relaying to_destination destination hello hello-IsBytes
      refl refl to_destination_run
