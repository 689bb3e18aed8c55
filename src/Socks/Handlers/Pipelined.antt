-- ===== src/Socks/Handlers/Pipelined.antt =====
-- hw2-socks5-server: bytes that the client has sent behind its request, at the start of the relay
-- (Session::handle_client_write and handle_client_read of src/server.cpp).
use modern_cpp_hw.Prelude.{
  ℕ, ◌≡◌, ◌∙◌, refl, sym, ap, List, [], ◌∷◌, Option, none, some, true, if◌then◌else◌, length, arith,
  drop,
}
use modern_cpp_hw.Socks.Outcome.{Outcome, done, ◌>>=◌, bind-eq-done}
use modern_cpp_hw.Socks.Os.{Os}
use modern_cpp_hw.Socks.Sockets.{Socket}
use modern_cpp_hw.Socks.Session.{
  Session, connecting_to_destination, proxying_requests, is_read_completed, is_empty, non_empty,
}
use modern_cpp_hw.Socks.Ring.{
  Machine, Request, await_one, add_client_read_request, add_destination_read_request,
}
use modern_cpp_hw.Socks.Transfer.{
  write_to_client, with_session, erase_front, read_until, read_from_client,
}
use modern_cpp_hw.Socks.Handlers.{
  handle_client_write, client_write_body, reply_written, on_reply_written, handle_client_read,
  client_read_at, client_read_body, forward_read,
}
use modern_cpp_hw.Socks.Buffers.{read_memory}
use modern_cpp_hw.Socks.Ring.Sent.{
  to_write, descriptor_of, destination_written_as, add_destination_read_request-IsSent,
  add_destination_write_request-IsSent,
}

erase_front-all : (xs : List ℕ) → erase_front (length xs) xs ≡ done []
erase_front-all xs = ground (arith, drop-all xs)
  where
    drop-all : (xs : List ℕ) → drop (length xs) xs ≡ []
    drop-all [] = refl
    drop-all (x ∷ xs) = drop-all xs

abbrev started : Machine → Machine
started m = with_session (λ s. record s { read_goal = non_empty }) m

-- The first read of a relay that finds bytes left.
first_read :
    (os : Os) (m : Machine)
    → is_read_completed non_empty m.session.read_buffer ≡ true
    → m.session.state ≡ proxying_requests
    → read_from_client (handle_client_read os 0) m ≡ forward_read 0 (started m)
unfolding read_from_client read_until handle_client_read client_read_at client_read_body
first_read os m x st =
    ap (λ c. if c then client_read_at 3 os 0 (started m) else add_client_read_request (started m)) x
    ∙ ap (λ s. client_read_body os (client_read_at 2 os 0) s 0 (started m)) st

both : (q r : Request) (xs ys zs : List Request) → xs ≡ q ∷ ys → ys ≡ r ∷ zs → xs ≡ q ∷ r ∷ zs
both q r xs ys zs e f = e ∙ ap (λ qs. q ∷ qs) f

-- The relay has begun with two requests, of which the newest is to write nothing there, and the session
-- keeps what it has read.
abbrev pub IsRelay : Option ℕ → Machine → Machine → Type 0
IsRelay fd m m' =
    (q : Request) × (r : Request) × (m'.server.pending ≡ q ∷ r ∷ m.server.pending)
    × (to_write q.sqe m'.server.buffer_pool.memory ≡ [])
    × (descriptor_of q.sqe ≡ fd)
    × (m'.session.read_buffer ≡ m.session.read_buffer)

abbrev fd_of : Option Socket → Option ℕ
fd_of (some s) = s.fd
fd_of none = none

abbrev forwarding : Machine → Session
forwarding n = record (started n).session {
  destination_write_offset = 0;
  destination_write_size = 0;
}

replied-IsRelay :
    (os : Os) (m m' : Machine) (d : Socket) (b : ℕ) (bytes : List ℕ)
    → m.session.destination_socket ≡ some d
    → m.session.read_buffer ≡ b ∷ bytes
    → on_reply_written os connecting_to_destination m ≡ done m'
    → IsRelay d.fd m m'
unfolding on_reply_written forward_read is_read_completed await_one read_memory
replied-IsRelay os m m' d b bytes o x e =
    let (n, a, e') = bind-eq-done (add_destination_read_request _) _ e in
    let (ds, _, (i, p, q, w)) = add_destination_read_request-IsSent _ n a in
    let left : n.session.read_buffer ≡ b ∷ bytes = ap (λ (s : Session). s.read_buffer) q ∙ x in
    let y =
      sym
        (first_read os n (ap (is_read_completed non_empty) left) (ap (λ (s : Session). s.state) q))
      ∙ e' in
    let (dt, o', (j, p', q', w')) = add_destination_write_request-IsSent 0 0 _ m' y in
    let (u, v) =
      destination_written_as n.server.is_root (forwarding n) dt 0 0 m'.server.buffer_pool.memory in
    (
      _,
      _,
      both _ _ _ _ _ p' p,
      u,
      v ∙ ap fd_of (sym o' ∙ ap (λ (s : Session). s.destination_socket) q ∙ o),
      ap (λ (s : Session). s.read_buffer) q' ∙ ap (λ (s : Session). s.read_buffer) q,
    )

abbrev written : Os → Machine → List ℕ → Outcome Machine
written os m rest =
    let m' = with_session (λ s. record s { write_client_buffer = rest }) m in
    if is_empty rest then on_reply_written os m.session.state m' else write_to_client m'

-- When the reply to a request has been written and bytes of the client are left from before, then, if the
-- handler returns, the newest request is to write no bytes to the descriptor of the destination, and
-- those that are left stay in the read buffer of the session.
pub handle_client_write-pipelined :
    (os : Os) (m m' : Machine) (d : Socket) (b : ℕ) (bytes : List ℕ)
    → m.session.state ≡ connecting_to_destination
    → m.session.destination_socket ≡ some d
    → m.session.read_buffer ≡ b ∷ bytes
    → handle_client_write os (length m.session.write_client_buffer) m ≡ done m'
    → IsRelay d.fd m m'
unfolding handle_client_write client_write_body reply_written
handle_client_write-pipelined os m m' d b bytes st o x e =
    replied-IsRelay os (with_session (λ s. record s { write_client_buffer = [] }) m) m' d b bytes o
      x
      (sym (
          ap (λ s. client_write_body os s (length m.session.write_client_buffer) m) st
          ∙ ap (λ r. r >>= written os m) (erase_front-all m.session.write_client_buffer)
          ∙ ap
              (λ s.
                on_reply_written os s (with_session (λ s. record s { write_client_buffer = [] }) m))
              st)
        ∙ e)
