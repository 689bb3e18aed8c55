-- ===== src/Socks/Safety.antt =====
-- hw2-socks5-server: what a session waits for in each state, against what is pending for it
-- (Session of src/server.cpp).
pub mod Leaves
pub mod Failing
pub mod Pieces
pub mod Reading
pub mod Address
pub mod Client
pub mod Relay
pub mod Replies
pub mod Removed
pub mod Dispatch
use modern_cpp_hw.Prelude.{
  IsBytes, ℕ, zero, suc, ◌+◌, ◌≤◌, ◌<◌, ◌≡◌, ◌≢◌, refl, List, [], ◌∷◌, ◌++◌, Option, none, some,
  Bool, true, false, length, ◌⊎◌,
}
use modern_cpp_hw.Socks.Outcome.{Outcome, done}
use modern_cpp_hw.Socks.Os.{Os, opened, other_family, HostEntry, Family}
use modern_cpp_hw.Socks.Events.{
  EventType, EventPool, client_read, client_write, destination_connect, destination_read,
  destination_write,
}
use modern_cpp_hw.Socks.Session.{
  Session, State, reading_client_greeting, reading_auth_methods, reading_client_connection_request,
  reading_domain_name_length, reading_address, connecting_to_destination, proxying_requests,
  AddressType, ipv4, domain_name, ipv6, ReadGoal, at_least,
}
use modern_cpp_hw.Socks.Buffers.{BufferPool, Span}
use modern_cpp_hw.Socks.Sockets.{Socket}
use modern_cpp_hw.Socks.Ring.{Machine, Request}
use modern_cpp_hw.Socks.Flight.{Flight, IsSound, Steps, ids, in_flight}

-- The count that handle_accept starts with stands for the connect request, which is not counted.
abbrev pub debt : State → ℕ
debt connecting_to_destination = 0
debt proxying_requests = 0
debt _ = 1

abbrev pub address_size : AddressType → ℕ → ℕ
address_size ipv4 n = 6
address_size domain_name n = n + 2
address_size ipv6 n = 18

abbrev pub IsShort : AddressType → ℕ → Type 0
IsShort domain_name n = n < 256
IsShort _ n = Unit {0}

-- The bytes that a state of the handshake needs are those that the session reads for.
abbrev pub GoalIn : State → ReadGoal → ℕ → AddressType → ℕ → Type 0
GoalIn reading_client_greeting g count type n = g ≡ at_least 3
GoalIn reading_auth_methods g count type n = g ≡ at_least count
GoalIn reading_client_connection_request g count type n = g ≡ at_least 4
GoalIn reading_domain_name_length g count type n = (g ≡ at_least 1) × (type ≡ domain_name)
GoalIn reading_address g count type n = (g ≡ at_least (address_size type n)) × IsShort type n
GoalIn connecting_to_destination g count type n = ⊥
GoalIn proxying_requests g count type n = ⊥

abbrev pub Goal : Session → Type 0
Goal s = GoalIn s.state s.read_goal s.auth_methods_count s.address_type s.domain_name_length

abbrev pub HasSocket : Session → Type 0
HasSocket s = (d : Socket) × (s.destination_socket ≡ some d)

abbrev pub HasFd : Session → Type 0
HasFd s = (fd : ℕ) × (s.fd ≡ some fd)

abbrev pub IsReading : Session → List Flight → Type 0
IsReading s fs = (n : ℕ) × (fs ≡ record { type = client_read; size = n } ∷ []) × Goal s

-- No more is being written than the reply that is left.
abbrev pub IsReplying : Session → List Flight → Type 0
IsReplying s fs =
    (n : ℕ) × (fs ≡ record { type = client_write; size = n } ∷ [])
    × (n ≤ length s.write_client_buffer)

abbrev pub IsConnecting : List Flight → Type 0
IsConnecting fs = (n : ℕ) × (fs ≡ record { type = destination_connect; size = n } ∷ [])

-- From the destination to the client, and the other way.
abbrev pub IsDown : EventType → Type 0
IsDown t = (t ≡ destination_read) ⊎ (t ≡ client_write)

abbrev pub IsUp : EventType → Type 0
IsUp t = (t ≡ client_read) ⊎ (t ≡ destination_write)

abbrev pub IsRelaying : List Flight → Type 0
IsRelaying fs =
    (a : Flight) × (b : Flight) × (fs ≡ a ∷ b ∷ [])
    × ((IsDown a.type × IsUp b.type) ⊎ (IsUp a.type × IsDown b.type))

abbrev pub Waits : State → Session → List Flight → Type 0
Waits reading_auth_methods s fs = IsReading s fs ⊎ IsReplying s fs
Waits connecting_to_destination s fs =
    (IsConnecting fs ⊎ IsReplying s fs) × HasSocket s × (s.address_type ≢ domain_name)
Waits proxying_requests s fs = IsRelaying fs × HasSocket s
Waits _ s fs = IsReading s fs

-- A session `s` and the requests `fs` that are pending for it.
pub record Fits (s : Session) (fs : List Flight) : Type 0 where
  pub counted : s.awaiting_events_count ≡ debt s.state + length fs
  pub bounded : s.awaiting_events_count ≤ 2
  pub shut_late : s.fd ≡ none → s.awaiting_events_count ≤ 1
  pub bytes : IsBytes s.read_buffer
  pub alive : s.failed ≡ false → HasFd s × Waits s.state s fs

-- Between two system calls that fail: ::close of an open descriptor and ::socket succeed, and the
-- resolver knows no other families than the two of IP.
pub record IsKind (os : Os) : Type 0 where
  pub closes : (fd : ℕ) → os.close (some fd) ≡ none
  pub opens : (f : Family) → (fd : ℕ) × (os.socket f ≡ opened fd)
  pub knows :
      (name : List ℕ) (he : HostEntry)
      → os.gethostbyname name ≡ some he
      → he.addrtype ≢ other_family

abbrev pub own : Machine → List Flight
own m = in_flight m.this m.server.event_pool.events m.server.pending

-- There is room for two more requests.
pub record IsReady (busy : List ℕ) (e : EventPool) (qs : List Request) : Type 0 where
  pub sound : IsSound busy e qs
  pub room : length busy + length (ids qs) + 1 < length e.events

abbrev pub Ready : List ℕ → Machine → Type 0
Ready busy m = IsReady busy m.server.event_pool m.server.pending

-- A session of which no request is pending, in the middle of a handler.
pub record Resting (awaiting : ℕ) (st : State) (read : List ℕ) (fd : Option ℕ) : Type 0 where
  pub rest_counted : awaiting ≡ debt st
  pub rest_bytes : IsBytes read
  pub rest_fd : (n : ℕ) × (fd ≡ some n)

abbrev pub Rests : Session → Type 0
Rests s = Resting s.awaiting_events_count s.state s.read_buffer s.fd

-- The buffer of a session before the free ones, and the halves that the session uses.
abbrev pub Held : Type 0
Held = List ℕ × Span × Span

abbrev pub held : Session → BufferPool → Held
held s b = (s.buffer_index ∷ b.free_buffers, s.buffer0, s.buffer1)

-- From the session `p`, this pool and ring, what the session holds and these free buffers the function
-- returns, with a session that fits what is then pending for it and holds the same.
pub record Goes (busy : List ℕ) (p : ℕ) (e : EventPool) (qs : List Request) (free : Held)
    (r : Outcome Machine) : Type 0 where
  pub end : Machine
  pub added : List Flight
  pub returns : r ≡ done end
  pub same : end.this ≡ p
  pub steps : Steps busy p added e qs end.server.event_pool end.server.pending
  pub fits : Fits end.session (added ++ in_flight p e.events qs)
  -- the session has the buffer and the halves that it had, and the same buffers are free
  pub kept : held end.session end.server.buffer_pool ≡ free

abbrev pub GoesFrom : List ℕ → Machine → Outcome Machine → Type 0
GoesFrom busy m r =
    Goes busy m.this m.server.event_pool m.server.pending (held m.session m.server.buffer_pool) r
