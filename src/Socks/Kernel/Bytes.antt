-- ===== src/Socks/Kernel/Bytes.antt =====
-- hw2-socks5-server: the bytes that go through the halves of a buffer (Session::handle_client_read,
-- Session::write_to_client and Session::handle_client_write of src/server.cpp).
use modern_cpp_hw.Prelude.{
  ℕ, sub_u32, ◌==◌, ◌^◌, ◌+◌, ◌-◌, ◌≤◌, ◌<◌, ◌≡◌, ◌∙◌, refl, ap, sym, List, [], ◌∷◌, ◌++◌, arith,
  length, take, min, u32, if◌then◌else◌, Bool, true, false,
}
use modern_cpp_hw.Socks.Outcome.{Outcome, done}
use modern_cpp_hw.Socks.Ring.Sent.{
  IsPassedOn, client_written_as, add_client_write_request-IsSubmitted,
}
use modern_cpp_hw.Socks.Buffers.{BufferPool, half_buffer_size, read_memory, write_memory}
use modern_cpp_hw.Socks.Ring.{Machine, client_read_sqe, await_one}
use modern_cpp_hw.Socks.Transfer.{write_to_client, copy_to_buffer1}
use modern_cpp_hw.Socks.Handlers.{insert_read, client_written}
use modern_cpp_hw.Prelude.{IsBytes}
use modern_cpp_hw.Socks.Kernel.{fill}
use modern_cpp_hw.Socks.Kernel.Memory.{read_memory-write_memory}

-- What the kernel writes into the buffer of a client's read request is what handle_client_read then
-- appends to the read buffer, with root privileges or without.
pub insert_read-fill :
    (m : Machine) (bytes : List ℕ)
    → IsBytes bytes
    → (insert_read (length bytes) (record m {
      server = fill (client_read_sqe m.server.is_root m.session) bytes m.server;
    })).session.read_buffer
      ≡ m.session.read_buffer ++ bytes
unfolding insert_read fill client_read_sqe
insert_read-fill m bytes b =
    ap (λ xs. m.session.read_buffer ++ xs)
      (ap (λ f. read_memory f m.session.buffer0.start (length bytes)) (filled m.server.is_root)
        ∙ read_memory-write_memory _ _ bytes b)
  where
    filled :
        (root : Bool)
        → (fill (client_read_sqe root m.session) bytes m.server).buffer_pool.memory
          ≡ write_memory m.server.buffer_pool.memory m.session.buffer0.start bytes
    filled true = refl
    filled false = refl

take_all : (xs : List ℕ) → take (length xs) xs ≡ xs
take_all [] = refl
take_all (x ∷ xs) = ap (λ ys. x ∷ ys) (take_all xs)

-- Where write_to_client returns, with a reply of bytes that fits half a buffer, the newest request is to
-- write exactly the reply to the client, with root privileges or without.
pub write_to_client-IsPassedOn :
    (m m' : Machine)
    → IsBytes m.session.write_client_buffer
    → length m.session.write_client_buffer ≤ half_buffer_size
    → write_to_client m ≡ done m'
    → IsPassedOn m.session.write_client_buffer m.session.fd m m'
unfolding write_to_client copy_to_buffer1 await_one
write_to_client-IsPassedOn m m' b l e =
    let reply = m.session.write_client_buffer in
    let at = m.session.buffer1.start in
    let size : min half_buffer_size (u32 (length reply)) ≡ length reply = omega (arith, l) in
    let (i, p, s, w) = add_client_write_request-IsSubmitted _ 0 _ m' e in
    let (x, y) = client_written_as m.server.is_root _ _ 0 _ in
    (
      _,
      p,
      x
          ∙ ap
              (λ (p : BufferPool).
                read_memory p.memory at (min half_buffer_size (u32 (length reply))))
              w
          ∙ ap (λ k. read_memory (write_memory m.server.buffer_pool.memory at (take k reply)) at k)
              size
          ∙ ap
              (λ bytes.
                read_memory (write_memory m.server.buffer_pool.memory at bytes) at (length reply))
              (take_all reply)
          ∙ read_memory-write_memory m.server.buffer_pool.memory at reply b,
      y,
    )

-- Where a write to the client in the relay has written less than what was left, and client_written
-- returns, the newest request is to write to the client as many bytes as are then left, but again the
-- first ones of the buffer, and not those that follow what has been written.
pub client_written-IsPassedOn :
    (n : ℕ) (m m' : Machine)
    → m.session.client_write_offset + n < m.session.client_write_size
    → m.session.client_write_size < 2 ^ 32
    → client_written n m ≡ done m'
    → IsPassedOn
        (read_memory m.server.buffer_pool.memory m.session.buffer1.start
          (m.session.client_write_size - (m.session.client_write_offset + n)))
        m.session.fd
        m
        m'
unfolding client_written await_one
client_written-IsPassedOn n m m' l b e =
    let at = m.session.buffer1.start in
    let memory = m.server.buffer_pool.memory in
    let offset = u32 (m.session.client_write_offset + n) in
    let asked = sub_u32 m.session.client_write_size offset in
    let (i, p, s, w) =
      add_client_write_request-IsSubmitted _ _ _ m' (sym (when_false _ _ _ unequal) ∙ e) in
    let (x, y) = client_written_as m.server.is_root _ asked offset _ in
    (
      _,
      p,
      x
          ∙ ap (λ (p : BufferPool). read_memory p.memory at asked) w
          ∙ ap (read_memory memory at) count_left,
      y,
    )
  where
    when_false : (b : Bool) (x y : Outcome Machine) → b ≡ false → (if b then x else y) ≡ y
    when_false true x y h = cc
    when_false false x y h = refl

    unequal : (u32 (n + m.session.client_write_offset) == m.session.client_write_size) ≡ false
    unequal = ground (arith, l, b)

    count_left :
        sub_u32 m.session.client_write_size (u32 (m.session.client_write_offset + n))
        ≡ m.session.client_write_size - (m.session.client_write_offset + n)
    count_left = omega (arith, l, b)
