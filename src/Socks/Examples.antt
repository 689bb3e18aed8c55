-- ===== src/Socks/Examples.antt =====
-- hw2-socks5-server: one session of a server for one connection, whose first read has completed.
use modern_cpp_hw.Prelude.{
  ℕ, ◌+◌, ◌*◌, ◌≤◌, ◌≡◌, refl, get_elem?, [], ◌∷◌, some, true, get_or, arith, inl,
}
use modern_cpp_hw.Prelude.{◌++◌, length}
use modern_cpp_hw.Socks.Outcome.{Outcome, done}
use modern_cpp_hw.Socks.Events.{obtain_event, take_front}
use modern_cpp_hw.Socks.Ring.{client_read_sqe, add_client_write_request, submit_obtained, await_one}
use modern_cpp_hw.Socks.Transfer.{write_to_client, copy_to_buffer1}
use modern_cpp_hw.Socks.Handshake.{method_reply}
use modern_cpp_hw.Socks.Handlers.{client_written, insert_read}
use modern_cpp_hw.Socks.Kernel.{fill}
use modern_cpp_hw.Socks.Ring.Sent.{IsPassedOn}
use modern_cpp_hw.Socks.Buffers.{read_memory}
use modern_cpp_hw.Socks.Kernel.Bytes.{
  client_written-IsPassedOn, insert_read-fill, write_to_client-IsPassedOn,
}
use modern_cpp_hw.Socks.Outcome.{Ends, fault}
use modern_cpp_hw.Socks.Events.{Event, EventPool, client_read}
use modern_cpp_hw.Socks.Buffers.{
  BufferPool, half_buffer_size, buffer_pool, buffer_half0, buffer_half1,
}
use modern_cpp_hw.Socks.Buffers.Layout.{iovecs-halves}
use modern_cpp_hw.Socks.Handshake.{connect_ipv4_destination, connect_ipv6_destination}
use modern_cpp_hw.Socks.Handshake.Refused.{connect_destination-fault}
use modern_cpp_hw.Socks.Session.{proxying_requests, at_least, reading_client_greeting}
use modern_cpp_hw.Socks.Ring.{IoUring, Machine, Sqe, read_fixed, submit_event}
use modern_cpp_hw.Socks.Handlers.{handle_client_read}
use modern_cpp_hw.Socks.Handlers.Depth.{handle_client_read-Ends}
use modern_cpp_hw.Socks.Server.{dispatch}
use modern_cpp_hw.Socks.Flight.{IsSound}
use modern_cpp_hw.Socks.Flight.Submit.{Submitted, submit_event-Submitted}
use modern_cpp_hw.Socks.Safety.{IsKind, GoesFrom}
use modern_cpp_hw.Socks.Safety.Dispatch.{waited-Goes}
use modern_cpp_hw.Socks.Scenario.{kind_os, poor_os, raw_session, greeting}

abbrev event_at : ℕ → Event
event_at i = record { id = i; client = 0; type = client_read }

abbrev events : EventPool
events = record {
  total_events_count = 4;
  events = event_at 0 ∷ event_at 1 ∷ event_at 2 ∷ event_at 3 ∷ [];
  free_events = 1 ∷ 2 ∷ 3 ∷ [];
}

-- The client's greeting stands in the only buffer.
abbrev buffers : BufferPool
buffers = record {
  total_buffer_count = 1;
  memory = λ k. get_or greeting k 0;
  memory_size = 2 * half_buffer_size;
  free_buffers = [];
  iovecs = [];
}

abbrev ring : IoUring
ring = record {
  socket_fd = some 3;
  event_pool = events;
  buffer_pool = buffers;
  is_root = true;
  pending = [];
  closed = [];
}

abbrev greeted : Machine
greeted = record {
  this = 0;
  session = record raw_session {
    fd = some 7;
    awaiting_events_count = 1;
    read_goal = at_least 3;
    auth_methods_count = 0;
  };
  server = ring;
}

handle_client_read-Ends_example : Ends (handle_client_read kind_os 3 greeted)
handle_client_read-Ends_example = handle_client_read-Ends kind_os 3 greeted

events-IsSound : IsSound (0 ∷ []) events []
events-IsSound = record {
  once = λ i. ground arith;
  total = refl;
  labelled = λ i v. event_at-labelled i v;
}
  where
    event_at-labelled : (i : ℕ) (v : Event) → get_elem? events.events i ≡ some v → v.id ≡ i
    event_at-labelled i v e = ground arith

pub kind_os-IsKind : IsKind kind_os
kind_os-IsKind = record { closes = λ fd. refl; opens = λ f. (9, refl); knows = λ name he e. cc }

abbrev first_read : Sqe
first_read = read_fixed (some 7) 0 half_buffer_size 0 0

submit_event-Submitted_example :
    Submitted
      (0 ∷ [])
      greeted
      (record { type = client_read; size = half_buffer_size } ∷ [])
      (submit_event client_read first_read greeted)
submit_event-Submitted_example =
    submit_event-Submitted (0 ∷ []) client_read first_read greeted events-IsSound (omega arith)

waited-Goes_example : GoesFrom (0 ∷ []) greeted (dispatch kind_os client_read 3 greeted)
waited-Goes_example =
    waited-Goes (0 ∷ []) kind_os kind_os-IsKind greeted
      (record { sound = events-IsSound; room = omega arith }) refl (omega arith) tt (7, refl)
      reading_client_greeting (record { type = client_read; size = half_buffer_size })
      (record { type = client_read; size = half_buffer_size } ∷ []) 3 refl
      (half_buffer_size, refl, refl) (omega arith) (inl (refl, refl))

iovecs-halves_example :
    (get_elem? (buffer_pool 3).iovecs (2 * 2)
      ≡ some (record { iov_base = (buffer_half0 2).start; iov_len = half_buffer_size }))
    × (get_elem? (buffer_pool 3).iovecs (2 * 2 + 1)
        ≡ some (record { iov_base = (buffer_half1 2).start; iov_len = half_buffer_size }))
    × ((buffer_half0 2).start + half_buffer_size ≡ (buffer_half0 2).stop)
    × ((buffer_half0 2).stop ≡ (buffer_half1 2).start)
    × ((buffer_half1 2).start + half_buffer_size ≡ (buffer_half1 2).stop)
    × ((buffer_half1 2).stop ≤ (buffer_pool 3).memory_size)
iovecs-halves_example = iovecs-halves 3 2 (omega arith) (omega arith)

connect_destination-fault_example :
    (connect_ipv4_destination poor_os greeted ≡ fault)
    × (connect_ipv6_destination poor_os greeted ≡ fault)
connect_destination-fault_example =
    connect_destination-fault poor_os greeted 24 24 refl refl refl refl refl

insert_read-fill_example :
    (insert_read (length greeting) (record greeted {
      server =
          fill (client_read_sqe greeted.server.is_root greeted.session) greeting greeted.server;
    })).session.read_buffer
    ≡ greeted.session.read_buffer ++ greeting
insert_read-fill_example =
    insert_read-fill greeted greeting (omega arith, (omega arith, (omega arith, tt)))

-- With the reply to the methods to be written.
abbrev replying : Machine
replying = record greeted {
  session = record greeted.session {
    buffer1 = record { start = 16384; stop = 32768 };
    write_client_buffer = method_reply;
  };
}

abbrev end_of : Outcome Machine → Machine
end_of (done m) = m
end_of r = greeted

replied : write_to_client replying ≡ done (end_of (write_to_client replying))
unfolding write_to_client copy_to_buffer1 add_client_write_request submit_event submit_obtained
    obtain_event take_front await_one
replied = refl

write_to_client-IsPassedOn_example :
    IsPassedOn method_reply (some 7) replying (end_of (write_to_client replying))
write_to_client-IsPassedOn_example =
    write_to_client-IsPassedOn replying (end_of (write_to_client replying))
      (omega arith, (omega arith, tt)) (omega arith) replied

-- Ten bytes of the destination are to be written to the client.
abbrev relaying : Machine
relaying = record greeted {
  session = record greeted.session {
    state = proxying_requests;
    buffer1 = record { start = 16384; stop = 32768 };
    client_write_size = 10;
    client_write_offset = 0;
  };
}

relayed : client_written 4 relaying ≡ done (end_of (client_written 4 relaying))
unfolding client_written add_client_write_request submit_event submit_obtained obtain_event
    take_front await_one
relayed = refl

client_written-IsPassedOn_example :
    IsPassedOn
      (read_memory relaying.server.buffer_pool.memory 16384 6)
      (some 7)
      relaying
      (end_of (client_written 4 relaying))
client_written-IsPassedOn_example =
    client_written-IsPassedOn 4 relaying (end_of (client_written 4 relaying)) (omega arith)
      (omega arith) relayed
