-- ===== src/Socks/Ring/Sent.antt =====
-- hw2-socks5-server: what the functions that add a request leave behind (src/server.cpp).
use modern_cpp_hw.Socks.Session.{Session}
use modern_cpp_hw.Socks.Buffers.{read_memory}
use modern_cpp_hw.Prelude.{
  List, [], Bool, true, false, refl, ℕ, ◌≡◌, sym, ap, ◌∷◌, Option, none, some,
}
use modern_cpp_hw.Socks.Outcome.{Outcome, done, fault}
use modern_cpp_hw.Socks.Events.{EventType, EventPool, obtain_event}
use modern_cpp_hw.Socks.Sockets.{Socket}
use modern_cpp_hw.Socks.Ring.{
  Machine, add_client_write_request, client_write_sqe, Sqe, submit, submit_event, submit_obtained,
  await_one, with_destination, add_destination_read_request, add_destination_write_request,
  destination_read_sqe, destination_write_sqe, Request, write, write_fixed,
}

abbrev machine_of : Machine → Outcome Machine → Machine
machine_of n (done m) = m
machine_of n r = n

done-machine : (m m' : Machine) → done m ≡ done m' → m' ≡ m
done-machine m m' e = ap (machine_of m) (sym e)

-- What a submission leaves behind it.
abbrev pub IsSubmitted : Sqe → Machine → Machine → Type 0
IsSubmitted sqe m m' =
    (i : ℕ) × (m'.server.pending ≡ record { sqe = sqe; user_data = some i } ∷ m.server.pending)
    × (m'.session ≡ m.session)
    × (m'.server.buffer_pool ≡ m.server.buffer_pool)

pub submit_event-IsSubmitted :
    (type : EventType) (sqe : Sqe) (m m' : Machine)
    → submit_event type sqe m ≡ done m'
    → IsSubmitted sqe m m'
unfolding submit_event submit_obtained submit
submit_event-IsSubmitted type sqe m m' e = go (obtain_event m.server.event_pool) e
  where
    go :
        (o : Option (ℕ × EventPool)) → submit_obtained type sqe m o ≡ done m' → IsSubmitted sqe m m'
    go none e = cc
    go (some (i, pool)) e =
        let x = done-machine _ m' e in
        (
          i,
          ap (λ (n : Machine). n.server.pending) x,
          ap (λ (n : Machine). n.session) x,
          ap (λ (n : Machine). n.server.buffer_pool) x,
        )

-- The same for a request to the destination, which is counted.
abbrev pub IsSent : (Socket → Sqe) → Option Socket → Machine → Machine → Type 0
IsSent sqe o m m' = (d : Socket) × (o ≡ some d) × IsSubmitted (sqe d) (await_one m) m'

sent :
    (type : EventType) (sqe : Socket → Sqe) (m m' : Machine) (o : Option Socket)
    → (elim o [ none ↦ fault | some d ↦ submit_event type (sqe d) (await_one m) ]) ≡ done m'
    → IsSent sqe o m m'
sent type sqe m m' none e = cc
sent type sqe m m' (some d) e = (d, refl, submit_event-IsSubmitted type (sqe d) (await_one m) m' e)

pub add_destination_read_request-IsSent :
    (m m' : Machine)
    → add_destination_read_request m ≡ done m'
    → IsSent (destination_read_sqe m.server.is_root m.session) m.session.destination_socket m m'
unfolding add_destination_read_request with_destination
add_destination_read_request-IsSent m m' e = sent _ _ m m' m.session.destination_socket e

pub add_destination_write_request-IsSent :
    (n offset : ℕ) (m m' : Machine)
    → add_destination_write_request n offset m ≡ done m'
    → IsSent
        (λ d. destination_write_sqe m.server.is_root m.session d n offset)
        m.session.destination_socket
        m
        m'
unfolding add_destination_write_request with_destination
add_destination_write_request-IsSent n offset m m' e = sent _ _ m m' m.session.destination_socket e

pub add_client_write_request-IsSubmitted :
    (n offset : ℕ) (m m' : Machine)
    → add_client_write_request n offset m ≡ done m'
    → IsSubmitted (client_write_sqe m.server.is_root m.session n offset) (await_one m) m'
unfolding add_client_write_request
add_client_write_request-IsSubmitted n offset m m' e =
    submit_event-IsSubmitted _ _ (await_one m) m' e

-- What the kernel reads for a request that writes, and where to.
abbrev pub to_write : Sqe → (ℕ → ℕ) → List ℕ
to_write (write fd at n offset) memory = read_memory memory at n
to_write (write_fixed fd at n offset index) memory = read_memory memory at n
to_write _ memory = []

abbrev pub descriptor_of : Sqe → Option ℕ
descriptor_of (write fd at n offset) = fd
descriptor_of (write_fixed fd at n offset index) = fd
descriptor_of _ = none

-- The newest request is to write these bytes there.
abbrev pub IsPassedOn : List ℕ → Option ℕ → Machine → Machine → Type 0
IsPassedOn bytes fd m m' =
    (q : Request) × (m'.server.pending ≡ q ∷ m.server.pending)
    × (to_write q.sqe m'.server.buffer_pool.memory ≡ bytes)
    × (descriptor_of q.sqe ≡ fd)

pub client_written_as :
    (root : Bool) (s : Session) (n offset : ℕ) (memory : ℕ → ℕ)
    → (to_write (client_write_sqe root s n offset) memory ≡ read_memory memory s.buffer1.start n)
      × (descriptor_of (client_write_sqe root s n offset) ≡ s.fd)
unfolding client_write_sqe
client_written_as true s n offset memory = (refl, refl)
client_written_as false s n offset memory = (refl, refl)

pub destination_written_as :
    (root : Bool) (s : Session) (d : Socket) (n offset : ℕ) (memory : ℕ → ℕ)
    → (to_write (destination_write_sqe root s d n offset) memory
        ≡ read_memory memory s.buffer0.start n)
      × (descriptor_of (destination_write_sqe root s d n offset) ≡ d.fd)
unfolding destination_write_sqe
destination_written_as true s d n offset memory = (refl, refl)
destination_written_as false s d n offset memory = (refl, refl)
