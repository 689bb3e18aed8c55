-- ===== src/Socks/Stream/Tests.antt =====
-- hw2-socks5-server: a request for a host name that comes in two reads, and one with bytes behind it.
use modern_cpp_hw.Prelude.{◌≡◌, ℕ, refl, List, [], ◌∷◌, some, get_or}
use modern_cpp_hw.Socks.Outcome.{Outcome, done}
use modern_cpp_hw.Socks.Session.{
  Session, reading_client_connection_request, at_least, is_read_completed,
}
use modern_cpp_hw.Socks.Events.{client_read, obtain_event, take_front, write_event}
use modern_cpp_hw.Socks.Ring.{Machine, submit_event, submit_obtained, await_one, submit}
use modern_cpp_hw.Socks.Transfer.{read_until, read_from_client}
use modern_cpp_hw.Socks.Os.{inet}
use modern_cpp_hw.Socks.Sockets.{Socket}
use modern_cpp_hw.Socks.Handlers.Pipelined.{IsRelay, handle_client_write-pipelined}
use modern_cpp_hw.Socks.Session.{connecting_to_destination}
use modern_cpp_hw.Socks.Ring.{
  add_destination_read_request, add_destination_write_request, with_destination,
}
use modern_cpp_hw.Socks.Handlers.{
  handle_client_write, client_write_body, reply_written, on_reply_written, forward_read,
  granted_ipv4, handle_client_read, client_read_at, client_read_body,
}
use modern_cpp_hw.Socks.Scenario.{kind_os, raw_session, server1}

abbrev with_bytes : List ℕ → Session → Machine
with_bytes bytes s = record {
  this = 0;
  session = s;
  server = record server1 {
    event_pool = record {
      total_events_count = 1;
      events = record { id = 0; client = 0; type = client_read } ∷ [];
      free_events = 0 ∷ [];
    };
    buffer_pool = record server1.buffer_pool { memory = λ k. get_or bytes k 0 };
  };
}

abbrev expecting : Session
expecting = record raw_session {
  fd = some 7;
  state = reading_client_connection_request;
  read_goal = at_least 4;
}

abbrev first_part : List ℕ
first_part = 5 ∷ 1 ∷ 0 ∷ []

abbrev end_of : Outcome Machine → Machine
end_of (done m) = m
end_of r = with_bytes [] expecting

abbrev once_fed : Machine
once_fed = end_of (handle_client_read kind_os 3 (with_bytes first_part expecting))

-- A name of two bytes, a port, and a byte more.
abbrev second_part : List ℕ
second_part = 3 ∷ 2 ∷ 97 ∷ 98 ∷ 0 ∷ 80 ∷ 42 ∷ []

abbrev second_read : Machine
second_read = with_bytes second_part (record expecting { read_buffer = first_part })

abbrev destination : Socket
destination = record {
  fd = some 9;
  address = record { family = inet; addr = 127 ∷ 0 ∷ 0 ∷ 1 ∷ []; port = 0 ∷ 80 ∷ [] };
}

-- A client that has sent two bytes behind its request, when the reply has been written.
abbrev granted : Machine
granted = record {
  this = 0;
  session = record raw_session {
    fd = some 7;
    state = connecting_to_destination;
    awaiting_events_count = 0;
    read_buffer = 71 ∷ 69 ∷ [];
    write_client_buffer = granted_ipv4 (127 ∷ 0 ∷ 0 ∷ 1 ∷ []) (0 ∷ 80 ∷ []);
    destination_socket = some destination;
  };
  server = record server1 {
    event_pool = record {
      total_events_count = 2;
      events =
          record { id = 0; client = 0; type = client_read }
          ∷ record { id = 1; client = 0; type = client_read }
          ∷ [];
      free_events = 0 ∷ 1 ∷ [];
    };
  };
}

abbrev relayed : Machine
relayed = end_of (handle_client_write kind_os 10 granted)

relayed_run : handle_client_write kind_os 10 granted ≡ done relayed
unfolding handle_client_write client_write_body reply_written on_reply_written read_from_client
    read_until handle_client_read client_read_at client_read_body forward_read is_read_completed
    add_destination_read_request add_destination_write_request with_destination submit_event
    submit_obtained await_one obtain_event take_front write_event submit
relayed_run = refl

handle_client_write-pipelined_example : IsRelay (some 9) granted relayed
handle_client_write-pipelined_example =
    handle_client_write-pipelined kind_os granted relayed destination 71 (69 ∷ []) refl refl refl
      relayed_run
