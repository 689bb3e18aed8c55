-- ===== src/Socks/Kernel/Relay.antt =====
-- hw2-socks5-server: the bytes that the relay passes on (Session::handle_client_read,
-- handle_destination_read and handle_client_write of src/server.cpp).
use modern_cpp_hw.Prelude.{
  ℕ, ◌≡◌, ◌∙◌, refl, ap, sym, List, Option, none, some, Bool, true, false, length, IsBytes,
}
use modern_cpp_hw.Socks.Outcome.{done}
use modern_cpp_hw.Socks.Os.{Os}
use modern_cpp_hw.Socks.Buffers.{BufferPool, read_memory, write_memory}
use modern_cpp_hw.Socks.Sockets.{Socket}
use modern_cpp_hw.Socks.Session.{proxying_requests}
use modern_cpp_hw.Socks.Ring.{Machine, Sqe, client_read_sqe, destination_read_sqe, await_one}
use modern_cpp_hw.Socks.Ring.Sent.{
  IsPassedOn, client_written_as, destination_written_as, add_client_write_request-IsSubmitted,
  add_destination_write_request-IsSent,
}
use modern_cpp_hw.Socks.Handlers.{
  handle_client_read, client_read_at, client_read_body, forward_read, handle_destination_read,
}
use modern_cpp_hw.Socks.Kernel.{fill}
use modern_cpp_hw.Socks.Kernel.Memory.{read_memory-write_memory}

-- The kernel has answered the request with these bytes.
abbrev pub filled : Sqe → List ℕ → Machine → Machine
filled sqe bytes m = record m { server = fill sqe bytes m.server }

abbrev stored : ℕ → List ℕ → Machine → Machine
stored at bytes m = record m {
  server = record m.server {
    buffer_pool = record m.server.buffer_pool {
      memory = write_memory m.server.buffer_pool.memory at bytes;
    };
  };
}

destination_filled :
    (root : Bool) (d : Socket) (bytes : List ℕ) (m : Machine)
    → filled (destination_read_sqe root m.session d) bytes m
      ≡ stored m.session.buffer1.start bytes m
unfolding fill destination_read_sqe
destination_filled true d bytes m = refl
destination_filled false d bytes m = refl

client_filled :
    (root : Bool) (bytes : List ℕ) (m : Machine)
    → filled (client_read_sqe root m.session) bytes m ≡ stored m.session.buffer0.start bytes m
unfolding fill client_read_sqe
client_filled true bytes m = refl
client_filled false bytes m = refl

-- Where a read from the destination has found some bytes and its handler returns, the newest request is to
-- write exactly these bytes to the client, with root privileges or without.
pub handle_destination_read-IsPassedOn :
    (m m' : Machine) (d : Socket) (bytes : List ℕ)
    → IsBytes bytes
    → handle_destination_read
        (length bytes)
        (filled (destination_read_sqe m.server.is_root m.session d) bytes m)
      ≡ done m'
    → IsPassedOn bytes m.session.fd m m'
unfolding handle_destination_read await_one
handle_destination_read-IsPassedOn m m' d bytes b e =
    let (i, p, s, w) = add_client_write_request-IsSubmitted (length bytes) 0 _ m' (
      ap (handle_destination_read (length bytes))
        (sym (destination_filled m.server.is_root d bytes m))
      ∙ e) in
    let (x, y) = client_written_as m.server.is_root _ (length bytes) 0 _ in
    let kept =
      ap (λ (p : BufferPool). read_memory p.memory m.session.buffer1.start (length bytes)) w in
    (_, p, x ∙ kept ∙ read_memory-write_memory m.server.buffer_pool.memory _ bytes b, y)

abbrev fd_of : Option Socket → Option ℕ
fd_of (some s) = s.fd
fd_of none = none

-- Where a read from the client in a relay has found some bytes and its handler returns, the newest request
-- is to write exactly these bytes to the session's destination, with root privileges or without.
pub handle_client_read-IsPassedOn :
    (os : Os) (m m' : Machine) (d : Socket) (bytes : List ℕ)
    → IsBytes bytes
    → m.session.state ≡ proxying_requests
    → m.session.destination_socket ≡ some d
    → handle_client_read os
        (length bytes)
        (filled (client_read_sqe m.server.is_root m.session) bytes m)
      ≡ done m'
    → IsPassedOn bytes d.fd m m'
unfolding handle_client_read client_read_at client_read_body forward_read await_one
handle_client_read-IsPassedOn os m m' d bytes b st ds e =
    let n = stored m.session.buffer0.start bytes m in
    let (d', o, (i, p, s, w)) = add_destination_write_request-IsSent (length bytes) 0 _ m' (
      sym (ap (λ s. client_read_body os (client_read_at 2 os 0) s (length bytes) n) st)
      ∙ ap (handle_client_read os (length bytes)) (sym (client_filled m.server.is_root bytes m))
      ∙ e) in
    let (x, y) = destination_written_as m.server.is_root _ d' (length bytes) 0 _ in
    let kept =
      ap (λ (p : BufferPool). read_memory p.memory m.session.buffer0.start (length bytes)) w in
    (
      _,
      p,
      x ∙ kept ∙ read_memory-write_memory m.server.buffer_pool.memory _ bytes b,
      y ∙ ap fd_of (sym o ∙ ds),
    )
