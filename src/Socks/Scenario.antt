-- ===== src/Socks/Scenario.antt =====
-- hw2-socks5-server: a client, a kernel and a destination for the tests.
use modern_cpp_hw.Prelude.{ℕ, List, [], ◌∷◌, none, some, true, false, length}
use modern_cpp_hw.Socks.Os.{Os, opened, refused}
use modern_cpp_hw.Socks.Session.{Session, reading_client_greeting, always, command_connect, ipv4}
use modern_cpp_hw.Socks.Ring.{IoUring}
use modern_cpp_hw.Socks.Server.{Res, count, io_uring}
use modern_cpp_hw.Socks.Kernel.{Round}

-- System calls that all succeed; names do not resolve.
abbrev pub kind_os : Os
kind_os = record {
  socket = λ _. opened 9;
  has_memory = λ _. true;
  close = λ fd. elim fd [ none ↦ some 9 | some _ ↦ none ];
  gethostbyname = λ _. none;
}

-- The kernel refuses to make a socket.
abbrev pub poor_os : Os
poor_os = record kind_os { socket = λ _. refused 24 }

abbrev pub raw_session : Session
raw_session = record {
  fd = none;
  state = reading_client_greeting;
  awaiting_events_count = 0;
  buffer_index = 0;
  buffer0_index = 0;
  buffer1_index = 0;
  buffer0 = record { start = 0; stop = 0 };
  buffer1 = record { start = 0; stop = 0 };
  read_goal = always;
  read_buffer = [];
  write_client_buffer = [];
  auth_methods_count = 0;
  auth_method = 0;
  command = command_connect;
  address_type = ipv4;
  domain_name_length = 0;
  domain_name_text = [];
  ipv4_address = [];
  ipv6_address = [];
  port = [];
  destination_socket = none;
  client_write_size = 0;
  client_write_offset = 0;
  destination_write_size = 0;
  destination_write_offset = 0;
  failed = false;
}

abbrev pub at_place : ℕ → Res → List ℕ → Round
at_place i res bytes = record {
  place = i;
  res = res;
  bytes = bytes;
  os = kind_os;
  raw = raw_session;
}

-- The newest pending request finds these bytes, or has written `n` of them.
abbrev pub finds : List ℕ → Round
finds bytes = at_place 0 (count (length bytes)) bytes

abbrev pub writes : ℕ → Round
writes n = at_place 0 (count n) []

-- The accept, which is the only pending request of a new server, gives descriptor 7.
abbrev pub arrives : Round
arrives = at_place 0 (count 7) []

abbrev pub server1 : IoUring
server1 = io_uring (some 3) 1 true

abbrev pub greeting : List ℕ
greeting = 5 ∷ 1 ∷ 0 ∷ []

abbrev pub request : List ℕ
request = 5 ∷ 1 ∷ 0 ∷ 1 ∷ 127 ∷ 0 ∷ 0 ∷ 1 ∷ 0 ∷ 80 ∷ []

-- Up to the relay of traffic.
abbrev pub handshake : List Round
handshake = arrives ∷ finds greeting ∷ writes 2 ∷ finds request ∷ writes 0 ∷ writes 10 ∷ []
