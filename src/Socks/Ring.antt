-- ===== src/Socks/Ring.antt =====
-- hw2-socks5-server: IoUring and its add_*_request functions (include/server.hpp, src/server.cpp).
-- liburing is not part of the repository. Of it the model keeps the requests that were submitted and
-- have not completed, newest first; io_uring_get_sqe finds an entry and io_uring_submit succeeds.
pub mod Sent
use modern_cpp_hw.Prelude.{ℕ, List, ◌∷◌, Option, none, some, Bool, true, false, incr_size}
use modern_cpp_hw.Socks.Outcome.{Outcome, done, fault}
use modern_cpp_hw.Socks.Events.{
  EventType, client_read, client_write, destination_connect, destination_read, destination_write,
  EventPool, obtain_event, write_event,
}
use modern_cpp_hw.Socks.Buffers.{BufferPool, half_buffer_size, buffer_size}
use modern_cpp_hw.Socks.Sockets.{Socket, SockAddr, address_length}
use modern_cpp_hw.Socks.Session.{Session}

-- What io_uring_prep_* writes: descriptor, then offset into m_buffers, length and file offset, and for
-- the _fixed forms the index of the registered buffer.
pub data Sqe : Type 0 where
  accept : Option ℕ → Sqe
  connect : Option ℕ → SockAddr → ℕ → Sqe
  read write : Option ℕ → ℕ → ℕ → ℕ → Sqe
  read_fixed write_fixed : Option ℕ → ℕ → ℕ → ℕ → ℕ → Sqe

-- The user data is the id of the event, or none for the null pointer.
pub record Request : Type 0 where
  pub sqe : Sqe
  pub user_data : Option ℕ

-- `pending` is what m_ring has been asked for; `closed` is the trace of the calls of ::close.
pub record IoUring : Type 0 where
  pub socket_fd : Option ℕ
  pub event_pool : EventPool
  pub buffer_pool : BufferPool
  pub is_root : Bool
  pub pending : List Request
  pub closed : List (Option ℕ)

-- What a member function of Session sees: `this`, the session there, and m_server with its pools.
pub record Machine : Type 0 where
  pub this : ℕ
  pub session : Session
  pub server : IoUring

unfoldable pub submit : Sqe → Option ℕ → IoUring → IoUring
submit sqe user_data r = record r {
  pending = record { sqe = sqe; user_data = user_data } ∷ r.pending;
}

unfoldable pub add_client_accept_request : IoUring → IoUring
add_client_accept_request r = submit (accept r.socket_fd) none r

-- Event& event = m_event_pool.obtain_event(), its two writes, and the submission.
unfoldable pub submit_obtained :
    EventType → Sqe → Machine → Option (ℕ × EventPool) → Outcome Machine
submit_obtained type sqe m none = fault
submit_obtained type sqe m (some (i, pool)) = done (record m {
  server = submit sqe (some i) (record m.server { event_pool = write_event i m.this type pool });
})

unfoldable pub submit_event : EventType → Sqe → Machine → Outcome Machine
submit_event type sqe m = submit_obtained type sqe m (obtain_event m.server.event_pool)

-- ++client->awaiting_events_count
unfoldable pub await_one : Machine → Machine
await_one m = record m {
  session = record m.session { awaiting_events_count = incr_size m.session.awaiting_events_count };
}

-- A process with no root privileges asks for the whole buffer, as the source does.
unfoldable pub client_read_sqe : Bool → Session → Sqe
client_read_sqe true s = read_fixed s.fd s.buffer0.start half_buffer_size 0 s.buffer0_index
client_read_sqe false s = read s.fd s.buffer0.start buffer_size 0

unfoldable pub add_client_read_request : Machine → Outcome Machine
add_client_read_request m =
    submit_event client_read (client_read_sqe m.server.is_root m.session) (await_one m)

unfoldable pub client_write_sqe : Bool → Session → ℕ → ℕ → Sqe
client_write_sqe true s nbytes offset =
    write_fixed s.fd s.buffer1.start nbytes offset s.buffer1_index
client_write_sqe false s nbytes offset = write s.fd s.buffer1.start nbytes offset

unfoldable pub add_client_write_request : ℕ → ℕ → Machine → Outcome Machine
add_client_write_request nbytes offset m =
    submit_event client_write (client_write_sqe m.server.is_root m.session nbytes offset)
      (await_one m)

-- client->destination_socket()->...: a null pointer is a fault.
unfoldable pub with_destination : (Socket → Machine → Outcome Machine) → Machine → Outcome Machine
with_destination f m = elim m.session.destination_socket [ none ↦ fault | some d ↦ f d m ]

-- This one leaves awaiting_events_count alone.
unfoldable pub add_destination_connect_request : Machine → Outcome Machine
add_destination_connect_request =
    with_destination
      λ d m. submit_event destination_connect (connect d.fd d.address (address_length d.address)) m

unfoldable pub destination_read_sqe : Bool → Session → Socket → Sqe
destination_read_sqe true s d = read_fixed d.fd s.buffer1.start half_buffer_size 0 s.buffer1_index
destination_read_sqe false s d = read d.fd s.buffer1.start half_buffer_size 0

unfoldable pub add_destination_read_request : Machine → Outcome Machine
add_destination_read_request = with_destination λ d m.
    submit_event destination_read (destination_read_sqe m.server.is_root m.session d) (await_one m)

unfoldable pub destination_write_sqe : Bool → Session → Socket → ℕ → ℕ → Sqe
destination_write_sqe true s d nbytes offset =
    write_fixed d.fd s.buffer0.start nbytes offset s.buffer0_index
destination_write_sqe false s d nbytes offset = write d.fd s.buffer0.start nbytes offset

unfoldable pub add_destination_write_request : ℕ → ℕ → Machine → Outcome Machine
add_destination_write_request nbytes offset = with_destination λ d m.
    submit_event destination_write
      (destination_write_sqe m.server.is_root m.session d nbytes offset) (await_one m)
