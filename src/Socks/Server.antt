-- ===== src/Socks/Server.antt =====
-- hw2-socks5-server: IoUring::handle_accept and IoUring::event_loop (src/server.cpp).
-- The store holds the sessions that `new` made and `delete` has not freed; a pointer is never used
-- for two sessions, so that a use of a freed one shows as a fault.
pub mod Store
pub mod Invariant
pub mod Settle
pub mod Delete
pub mod Completion
use modern_cpp_hw.Prelude.{
  ℕ, ◌+◌, List, [], ◌∷◌, Option, none, some, Bool, not, if◌then◌else◌, ◌&&◌, ◌==◌, u32, decr_size,
  get_elem?,
}
use modern_cpp_hw.Socks.Outcome.{Outcome, done, fault, ◌>>=◌}
use modern_cpp_hw.Socks.Os.{Os}
use modern_cpp_hw.Socks.Events.{
  EventType, client_accept, client_read, client_write, destination_connect, destination_read,
  destination_write, Event, return_event, event_pool,
}
use modern_cpp_hw.Socks.Buffers.{BufferPool, return_buffer, buffer_pool}
use modern_cpp_hw.Socks.Sockets.{close, or_exit, close_unless_absent, destroy_socket}
use modern_cpp_hw.Socks.Session.{Session, new_session}
use modern_cpp_hw.Socks.Ring.{IoUring, Machine, add_client_accept_request}
use modern_cpp_hw.Socks.Transfer.{with_session, or_fault, read_some_from_client, fail_immediately}
use modern_cpp_hw.Socks.Handlers.{
  handle_client_read, handle_client_write, handle_destination_connect, handle_destination_read,
  handle_destination_write,
}

-- cqe->res: a negative value is -errno.
pub data Res : Type 0 where
  negative : ℕ → Res
  count : ℕ → Res

pub record Server : Type 0 where
  pub uring : IoUring
  pub sessions : List (ℕ × Session)
  pub next_session : ℕ

unfoldable pub lookup : ℕ → List (ℕ × Session) → Option Session
lookup p [] = none
lookup p ((q, s) ∷ rest) = if q == p then some s else lookup p rest

unfoldable pub update : ℕ → Session → List (ℕ × Session) → List (ℕ × Session)
update p s [] = []
update p s ((q, t) ∷ rest) = if q == p then (q, s) ∷ rest else (q, t) ∷ update p s rest

unfoldable pub erase : ℕ → List (ℕ × Session) → List (ℕ × Session)
erase p [] = []
erase p ((q, t) ∷ rest) = if q == p then rest else (q, t) ∷ erase p rest

-- The constructor: geteuid, io_uring_queue_init_params and io_uring_register_buffers answered as wished.
unfoldable pub io_uring : Option ℕ → ℕ → Bool → IoUring
io_uring socket_fd nconnections is_root = record {
  socket_fd = socket_fd;
  event_pool = event_pool nconnections;
  buffer_pool = buffer_pool nconnections;
  is_root = is_root;
  pending = [];
  closed = [];
}

-- The member function has returned: what it did to the session is in the store.
abbrev pub store : Server → Machine → Server
store v m = record v { uring = m.server; sessions = update m.this m.session v.sessions }

unfoldable pub accept_session : Os → ℕ → Server → Option (Session × BufferPool) → Outcome Server
accept_session os fd v none = do
  trace ← close os (some fd) v.uring.closed
  done (record v { uring = record v.uring { closed = trace } })
accept_session os fd v (some (s, pool)) = do
  m ← read_some_from_client (handle_client_read os 0) 3 (record {
    this = v.next_session;
    session = record s { awaiting_events_count = 1 };
    server = record v.uring { buffer_pool = pool };
  })
  done (record {
    uring = m.server;
    sessions = (m.this, m.session) ∷ v.sessions;
    next_session = v.next_session + 1;
  })

unfoldable pub handle_accept : Os → Session → ℕ → Server → Outcome Server
handle_accept os raw fd v =
    let w = record v { uring = add_client_accept_request v.uring } in
    accept_session os fd w (new_session raw fd w.uring.buffer_pool)

-- delete event->client: the body of Session::~Session, then the destructors of the members.
unfoldable pub delete_session : Os → Server → Machine → Outcome Server
delete_session os v m = do
  trace ← or_exit (close_unless_absent os m.session.fd m.server.closed)
  trace' ← destroy_socket os m.session.destination_socket trace
  done (record v {
    uring = record m.server {
      closed = trace';
      buffer_pool = return_buffer m.session.buffer_index m.server.buffer_pool;
    };
    sessions = erase m.this v.sessions;
  })

unfoldable pub finish_event : ℕ → Server → Server
finish_event i v = record v {
  uring = record v.uring { event_pool = return_event i v.uring.event_pool };
}

-- --event->client->awaiting_events_count
unfoldable pub awaited_one : Machine → Machine
awaited_one =
    with_session λ s. record s { awaiting_events_count = decr_size s.awaiting_events_count }

unfoldable pub non_zero_read : Os → (ℕ → Machine → Outcome Machine) → ℕ → Machine → Outcome Machine
non_zero_read os handle n m = if not (n == 0) then handle n m else fail_immediately os m

-- The switch over event->type.
unfoldable pub dispatch : Os → EventType → ℕ → Machine → Outcome Machine
dispatch os client_accept n m = fault
dispatch os client_read n m = non_zero_read os (handle_client_read os) n m
dispatch os client_write n m = handle_client_write os n m
dispatch os destination_connect n m = handle_destination_connect m
dispatch os destination_read n m = non_zero_read os handle_destination_read n m
dispatch os destination_write n m = handle_destination_write n m

-- if (event->client->is_failed() && event->client->awaiting_events_count == 0) delete event->client
unfoldable pub settle : Os → Server → Machine → Outcome Server
settle os v m =
    if m.session.failed && (m.session.awaiting_events_count == 0)
    then delete_session os v m
    else done (store v m)

-- An event whose result is negative.
unfoldable pub on_failure : Os → Server → Machine → Outcome Server
on_failure os v m =
    if m.session.awaiting_events_count == 0
    then delete_session os v m
    else (fail_immediately os m >>= λ m'. done (store v m'))

-- An event whose result is `n`.
unfoldable pub on_success : Os → EventType → ℕ → Server → Machine → Outcome Server
on_success os type n v m =
    if m.session.failed then settle os v m else (dispatch os type n m >>= settle os v)

unfoldable pub on_result : Os → EventType → Res → Server → Machine → Outcome Server
on_result os type (negative e) v m = on_failure os v m
on_result os type (count n) v m = on_success os type (u32 n) v m

unfoldable pub handle_event : Os → Res → Event → Server → Outcome Server
handle_event os res event v = do
  s ← or_fault (lookup event.client v.sessions)
  w ←
      on_result os event.type res v
        (awaited_one (record { this = event.client; session = s; server = v.uring }))
  done (finish_event event.id w)

-- One round of the loop of event_loop. `raw` is the memory that `new` would find.
unfoldable pub handle_cqe : Os → Session → Res → Option ℕ → Server → Outcome Server
handle_cqe os raw (negative e) none v = done v
handle_cqe os raw (count fd) none v = handle_accept os raw fd v
handle_cqe os raw res (some i) v = do
  event ← or_fault (get_elem? v.uring.event_pool.events i)
  handle_event os res event v
