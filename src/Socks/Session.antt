-- ===== src/Socks/Session.antt =====
-- hw2-socks5-server: the members of Session (include/server.hpp) and its constructor (src/server.cpp).
use modern_cpp_hw.Prelude.{
  ℕ, ◌+◌, ◌*◌, List, [], ◌∷◌, Option, none, some, Bool, true, false, leb, u32, length,
}
use modern_cpp_hw.Socks.Buffers.{BufferPool, Span, obtain_free_buffer, buffer_half0, buffer_half1}
use modern_cpp_hw.Socks.Sockets.{Socket}

pub data State : Type 0 where
  reading_client_greeting reading_auth_methods reading_client_connection_request : State
  reading_domain_name_length reading_address connecting_to_destination proxying_requests : State

pub data Command : Type 0 where
  command_connect command_bind command_udp_associate : Command

pub data AddressType : Type 0 where
  ipv4 domain_name ipv6 : AddressType

-- The closures that are stored in m_is_read_completed.
pub data ReadGoal : Type 0 where
  always non_empty : ReadGoal
  at_least : ℕ → ReadGoal

pub record Session : Type 0 where
  -- none for -1
  pub fd : Option ℕ
  pub state : State
  pub awaiting_events_count : ℕ
  pub buffer_index : ℕ
  pub buffer0_index : ℕ
  pub buffer1_index : ℕ
  pub buffer0 : Span
  pub buffer1 : Span
  pub read_goal : ReadGoal
  pub read_buffer : List ℕ
  pub write_client_buffer : List ℕ
  pub auth_methods_count : ℕ
  pub auth_method : ℕ
  pub command : Command
  pub address_type : AddressType
  pub domain_name_length : ℕ
  pub domain_name_text : List ℕ
  pub ipv4_address : List ℕ
  pub ipv6_address : List ℕ
  pub port : List ℕ
  pub destination_socket : Option Socket
  pub client_write_size : ℕ
  pub client_write_offset : ℕ
  pub destination_write_size : ℕ
  pub destination_write_offset : ℕ
  pub failed : Bool

abbrev pub is_empty {ℓ} : {A : Type ℓ} → List A → Bool
is_empty [] = true
is_empty (x ∷ xs) = false

-- m_is_read_completed()
unfoldable pub is_read_completed : ReadGoal → List ℕ → Bool
is_read_completed always bytes = true
is_read_completed non_empty [] = false
is_read_completed non_empty (b ∷ bytes) = true
is_read_completed (at_least n) bytes = leb n (length bytes)

-- `raw` is the memory that `new` found: members with no initialiser keep what stands there.
unfoldable pub init_session : Session → ℕ → ℕ → Session
init_session raw fd index = record raw {
  fd = some fd;
  state = reading_client_greeting;
  awaiting_events_count = 0;
  buffer_index = index;
  buffer0_index = u32 (2 * index);
  buffer1_index = u32 (2 * index + 1);
  buffer0 = buffer_half0 index;
  buffer1 = buffer_half1 index;
  read_goal = always;
  read_buffer = [];
  write_client_buffer = [];
  domain_name_text = [];
  destination_socket = none;
  failed = false;
}

unfoldable pub session_with : Session → ℕ → Option (ℕ × BufferPool) → Option (Session × BufferPool)
session_with raw fd none = none
session_with raw fd (some (index, pool)) = some (init_session raw fd index, pool)

-- Session::Session; `none` is the InsufficientBuffersException of the pool.
unfoldable pub new_session : Session → ℕ → BufferPool → Option (Session × BufferPool)
new_session raw fd pool = session_with raw fd (obtain_free_buffer pool)
