-- ===== src/Socks/Stream.antt =====
-- hw2-socks5-server: the messages of the client as RFC 1928 lays them out, by which the reading states
-- of Session (src/server.cpp) are measured: a client's bytes are a list, whichever reads bring them.
pub mod Steps
pub mod Greeting
pub mod Request
pub mod Address
pub mod Prefix
pub mod Reads
pub mod Runs
mod Tests
use modern_cpp_hw.Prelude.{
  ℕ, ◌+◌, ◌≡◌, List, [], ◌∷◌, ◌++◌, ◌⊎◌, Bool, true, false, not, if◌then◌else◌, ◌==◌, leb, u32,
  IsBytes, length, take, drop,
}
use modern_cpp_hw.Socks.Outcome.{Outcome, done, ◌>>=◌}
use modern_cpp_hw.Socks.Os.{Os}
use modern_cpp_hw.Socks.Session.{
  Session, State, connecting_to_destination, proxying_requests, reading_auth_methods,
  reading_client_greeting, reading_client_connection_request, reading_domain_name_length,
  reading_address, command_connect, AddressType, ipv4, domain_name, ipv6, ReadGoal, always,
  at_least,
}
use modern_cpp_hw.Socks.Buffers.{read_memory}
use modern_cpp_hw.Socks.Handlers.{handle_client_read}
use modern_cpp_hw.Socks.Ring.{Machine, add_client_read_request}
use modern_cpp_hw.Socks.Transfer.{with_session, fail_immediately, fail_delayed, write_to_client}
use modern_cpp_hw.Socks.Handshake.{
  connect_ipv4_destination, connect_ipv6_destination, connect_host, c_string,
}

-- What a client asks for, with the bytes that follow its message.
pub data Asked : Type 0 where
  unfinished : Asked
  -- the code of the reply
  rejected : ℕ → Asked
  to_ipv4 to_ipv6 to_host : List ℕ → List ℕ → List ℕ → Asked
  -- a greeting without an answer, and the methods of one
  dropped : Asked
  offers : List ℕ → List ℕ → Asked

-- An address of `n` bytes, and a port.
abbrev pub address_in : ℕ → (List ℕ → List ℕ → List ℕ → Asked) → List ℕ → Asked
address_in n ask bytes =
    if leb (n + 2) (length bytes)
    then ask (take n bytes) (take 2 (drop n bytes)) (drop (n + 2) bytes)
    else unfinished

abbrev pub name_in : List ℕ → Asked
name_in [] = unfinished
name_in (n ∷ bytes) = address_in n to_host bytes

abbrev pub address_of : ℕ → List ℕ → Asked
address_of type bytes =
    if type == 1
    then address_in 4 to_ipv4 bytes
    else if type == 3
    then name_in bytes
    else if type == 4
    then address_in 16 to_ipv6 bytes
    else rejected 8

abbrev pub request_of : List ℕ → Asked
request_of (version ∷ command ∷ reserved ∷ type ∷ bytes) =
    if not (version == 5)
    then rejected 7
    else if not (command == 1)
    then rejected 7
    else if not (reserved == 0)
    then rejected 7
    else address_of type bytes
request_of _ = unfinished

abbrev pub methods_in : ℕ → List ℕ → Asked
methods_in n bytes =
    if leb n (length bytes) then offers (take n bytes) (drop n bytes) else unfinished

-- A greeting offers one method at least.
abbrev pub greeting_of : List ℕ → Asked
greeting_of (version ∷ count ∷ method ∷ bytes) =
    if not (version == 5)
    then dropped
    else if count == 0
    then dropped
    else methods_in count (method ∷ bytes)
greeting_of _ = unfinished

-- The message that a state reads.
abbrev pub layout : State → List ℕ → Asked
layout reading_client_greeting = greeting_of
layout reading_auth_methods = greeting_of
layout _ = request_of

abbrev pub on_session : Machine → Session → Machine
on_session m s = record m { session = s }

-- A session without what the handshake writes as it reads.
abbrev pub cleared : Session → Session
cleared s = record s {
  state = reading_client_greeting;
  read_goal = always;
  read_buffer = [];
  auth_methods_count = 0;
  auth_method = 0;
  command = command_connect;
  address_type = ipv4;
  domain_name_length = 0;
  domain_name_text = [];
  ipv4_address = [];
  ipv6_address = [];
  port = [];
}

abbrev pub AddressHeard : AddressType → ReadGoal → ℕ → List ℕ → List ℕ → Type 0
AddressHeard ipv4 goal n left bytes = (goal ≡ at_least 6) × (bytes ≡ 5 ∷ 1 ∷ 0 ∷ 1 ∷ left)
AddressHeard ipv6 goal n left bytes = (goal ≡ at_least 18) × (bytes ≡ 5 ∷ 1 ∷ 0 ∷ 4 ∷ left)
AddressHeard domain_name goal n left bytes =
    (goal ≡ at_least (u32 (n + 2))) × (bytes ≡ 5 ∷ 1 ∷ 0 ∷ 3 ∷ n ∷ left)

abbrev pub HeardIn : State → ℕ → AddressType → ReadGoal → ℕ → List ℕ → List ℕ → Type 0
HeardIn reading_client_greeting count type goal n left bytes = (goal ≡ at_least 3) × (bytes ≡ left)
HeardIn reading_auth_methods count type goal n left bytes =
    (goal ≡ at_least count) × (bytes ≡ 5 ∷ count ∷ left) × ((count == 0) ≡ false)
HeardIn reading_client_connection_request count type goal n left bytes =
    (goal ≡ at_least 4) × (bytes ≡ left)
HeardIn reading_domain_name_length count type goal n left bytes =
    (goal ≡ at_least 1) × (bytes ≡ 5 ∷ 1 ∷ 0 ∷ 3 ∷ left) × (type ≡ domain_name)
HeardIn reading_address count type goal n left bytes = AddressHeard type goal n left bytes
HeardIn connecting_to_destination count type goal n left bytes = ⊥
HeardIn proxying_requests count type goal n left bytes = ⊥

-- The session has taken in exactly these bytes of a message of this layout, and reads on.
abbrev pub Heard : (List ℕ → Asked) → Session → List ℕ → Type 0
Heard lay s bytes =
    (layout s.state ≡ lay)
    × HeardIn s.state s.auth_methods_count s.address_type s.read_goal s.domain_name_length
        s.read_buffer bytes

-- A write of these bytes to the client, with these left in the read buffer.
abbrev pub answer : List ℕ → List ℕ → Machine → Outcome Machine
answer reply rest m =
    write_to_client
      (with_session (λ s. record s { write_client_buffer = reply; read_buffer = rest }) m)

-- The session fails, and the client is told the code, as RFC 1928 lays a reply out.
abbrev pub refuse : Os → ℕ → Machine → Outcome Machine
refuse os code m = fail_delayed os m >>= λ m'. write_to_client (
    with_session
      (λ s. record s { write_client_buffer = 5 ∷ code ∷ 0 ∷ 1 ∷ 0 ∷ 0 ∷ 0 ∷ 0 ∷ 0 ∷ 0 ∷ [] }) m')

abbrev pub Among : ℕ → List ℕ → Type 0
Among n [] = ⊥
Among n (x ∷ xs) = (x ≡ n) ⊎ Among n xs

-- With the method 0 among those that are offered it is chosen and the client is told so. Without it the
-- method is 0xFF, and the session fails, but the reply is 05 00 all the same.
abbrev pub Chooses : Os → Machine → Session → List ℕ → List ℕ → Outcome Machine → Type 0
Chooses os m s methods rest r =
    (Among 0 methods → r ≡ answer (5 ∷ 0 ∷ []) rest (on_session m (record s { auth_method = 0 })))
    × ((Among 0 methods → ⊥)
        → r ≡ (
            fail_delayed os (on_session m (record s { auth_method = 255 })) >>= λ m'.
            answer (5 ∷ 0 ∷ []) rest m'))

-- `r` is what is due once this much of a message is there, from a session that differs from that of `m`
-- by what the handshake writes.
abbrev pub Serves : (List ℕ → Asked) → Os → Machine → List ℕ → Asked → Outcome Machine → Type 0
Serves lay os m bytes unfinished r =
    (s : Session) × (r ≡ add_client_read_request (on_session m s))
    × (cleared s ≡ cleared m.session)
    × Heard lay s bytes
Serves lay os m bytes (rejected code) r =
    (s : Session) × (r ≡ refuse os code (on_session m s)) × (cleared s ≡ cleared m.session)
Serves lay os m bytes (to_ipv4 addr port rest) r =
    (s : Session) × (r ≡ connect_ipv4_destination os (on_session m s))
    × (cleared s ≡ cleared m.session)
    × (s.ipv4_address ≡ addr)
    × (s.port ≡ port)
    × (s.read_buffer ≡ rest)
Serves lay os m bytes (to_ipv6 addr port rest) r =
    (s : Session) × (r ≡ connect_ipv6_destination os (on_session m s))
    × (cleared s ≡ cleared m.session)
    × (s.ipv6_address ≡ addr)
    × (s.port ≡ port)
    × (s.read_buffer ≡ rest)
Serves lay os m bytes (to_host name port rest) r =
    (s : Session) × (r ≡ connect_host os (os.gethostbyname (c_string name)) (on_session m s))
    × (cleared s ≡ cleared m.session)
    × (s.domain_name_text ≡ name)
    × (s.port ≡ port)
    × (s.read_buffer ≡ rest)
Serves lay os m bytes dropped r =
    (s : Session) × (r ≡ fail_immediately os (on_session m s)) × (cleared s ≡ cleared m.session)
Serves lay os m bytes (offers methods rest) r =
    (s : Session) × Chooses os m s methods rest r × (cleared s ≡ cleared m.session)

-- What a read of `n` bytes has left in the first half of the session's buffer.
abbrev pub arrived : ℕ → Machine → List ℕ
arrived n m = read_memory m.server.buffer_pool.memory m.session.buffer0.start n

-- The event loop counts a completion before it calls the handler.
abbrev pub uncounted : Session → Session
uncounted s = record s { awaiting_events_count = 0 }

-- A session that has come to expect a message has been given these bytes, by reads that each found it as
-- the one before left it, in whatever states of the server and of the memory.
pub data Feeds (os : Os) (lay : List ℕ → Asked) : List ℕ → Session → Type 0 where
  expects :
      (s : Session)
      → Heard lay s s.read_buffer
      → IsBytes s.read_buffer
      → Feeds os lay s.read_buffer s
  reads :
      {bytes : List ℕ} {s : Session} (m m' : Machine) (n : ℕ)
      → Feeds os lay bytes s
      → uncounted m.session ≡ uncounted s
      → handle_client_read os n m ≡ done m'
      → Feeds os lay (bytes ++ arrived n m) m'.session
