-- ===== src/Socks/Transfer.antt =====
-- hw2-socks5-server: the member functions of Session that read, write and fail (src/server.cpp).
-- The functions that call handle_client_read take that call as the argument `again`.
use modern_cpp_hw.Prelude.{
  ℕ, ◌+◌, List, [], ◌∷◌, Option, none, some, true, if◌then◌else◌, leb, u32, min, length, take, drop,
  get_elem?,
}
use modern_cpp_hw.Socks.Outcome.{Outcome, done, fault, ◌>>=◌}
use modern_cpp_hw.Socks.Os.{Os}
use modern_cpp_hw.Socks.Buffers.{half_buffer_size, write_memory}
use modern_cpp_hw.Socks.Sockets.{destroy_socket, close}
use modern_cpp_hw.Socks.Session.{Session, ReadGoal, non_empty, at_least, is_read_completed}
use modern_cpp_hw.Socks.Ring.{Machine, add_client_read_request, add_client_write_request}

abbrev pub with_session : (Session → Session) → Machine → Machine
with_session f m = record m { session = f m.session }

abbrev pub with_closed : Machine → List (Option ℕ) → Machine
with_closed m trace = record m { server = record m.server { closed = trace } }

-- m_read_buffer[i], outside of the vector a fault.
abbrev pub or_fault {ℓ} : {A : Type ℓ} → Option A → Outcome A
or_fault none = fault
or_fault (some a) = done a

abbrev pub byte_at : List ℕ → ℕ → Outcome ℕ
byte_at bytes i = or_fault (get_elem? bytes i)

-- std::memcpy of `n` bytes from m_read_buffer.data() + at.
abbrev pub slice : List ℕ → ℕ → ℕ → Outcome (List ℕ)
slice bytes at n = if leb (at + n) (length bytes) then done (take n (drop at bytes)) else fault

-- bytes.erase(bytes.begin(), bytes.begin() + n)
abbrev pub erase_front : ℕ → List ℕ → Outcome (List ℕ)
erase_front n bytes = if leb n (length bytes) then done (drop n bytes) else fault

unfoldable pub fail_delayed : Os → Machine → Outcome Machine
fail_delayed os m = do
  trace ← destroy_socket os m.session.destination_socket m.server.closed
  done (
      with_closed (with_session (λ s. record s { failed = true; destination_socket = none }) m)
        trace)

unfoldable pub fail_immediately : Os → Machine → Outcome Machine
fail_immediately os m = do
  m' ← fail_delayed os m
  trace ← close os m'.session.fd m'.server.closed
  done (with_closed (with_session (λ s. record s { fd = none }) m') trace)

unfoldable pub consume_bytes_from_read_buffer : ℕ → Machine → Outcome Machine
consume_bytes_from_read_buffer nread m = do
  rest ← erase_front nread m.session.read_buffer
  done (with_session (λ s. record s { read_buffer = rest }) m)

unfoldable pub read_until : ReadGoal → (Machine → Outcome Machine) → Machine → Outcome Machine
read_until goal again m =
    let m' = with_session (λ s. record s { read_goal = goal }) m in
    if is_read_completed goal m.session.read_buffer then again m' else add_client_read_request m'

unfoldable pub read_from_client : (Machine → Outcome Machine) → Machine → Outcome Machine
read_from_client = read_until non_empty

unfoldable pub read_some_from_client : (Machine → Outcome Machine) → ℕ → Machine → Outcome Machine
read_some_from_client again n = read_until (at_least n) again

-- std::memcpy(m_buffer1.data(), bytes.data(), bytes.size())
unfoldable pub copy_to_buffer1 : List ℕ → Machine → Machine
copy_to_buffer1 bytes m = record m {
  server = record m.server {
    buffer_pool = record m.server.buffer_pool {
      memory = write_memory m.server.buffer_pool.memory m.session.buffer1.start bytes;
    };
  };
}

unfoldable pub write_to_client : Machine → Outcome Machine
write_to_client m =
    let cnt = min half_buffer_size (u32 (length m.session.write_client_buffer)) in
    add_client_write_request cnt 0 (copy_to_buffer1 (take cnt m.session.write_client_buffer) m)

abbrev pub fail_message : ℕ → List ℕ
fail_message error_code = 5 ∷ error_code ∷ 0 ∷ 1 ∷ 0 ∷ 0 ∷ 0 ∷ 0 ∷ 0 ∷ 0 ∷ []

unfoldable pub send_fail_message : Os → ℕ → Machine → Outcome Machine
send_fail_message os error_code m = do
  m' ← fail_delayed os m
  write_to_client
      (with_session (λ s. record s { write_client_buffer = fail_message error_code }) m')
