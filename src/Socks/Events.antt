-- ===== src/Socks/Events.antt =====
-- hw2-socks5-server: EventType, Event and EventPool (include/server.hpp, src/server.cpp).
-- A Session* is the number under which the server's store holds the session.
use modern_cpp_hw.Prelude.{
  ℕ, zero, suc, ◌+◌, ◌*◌, List, [], ◌∷◌, ◌++◌, Option, none, some, map, set,
}

pub data EventType : Type 0 where
  client_accept client_read client_write : EventType
  destination_connect destination_read destination_write : EventType

pub record Event : Type 0 where
  pub id : ℕ
  pub client : ℕ
  pub type : EventType

-- `events` is the vector m_events, `free_events` the queue m_free_events, its front first.
pub record EventPool : Type 0 where
  pub total_events_count : ℕ
  pub events : List Event
  pub free_events : List ℕ

-- start, start + 1, ..., `n` numbers in all.
unfoldable pub range_from : ℕ → ℕ → List ℕ
range_from start zero = []
range_from start (suc n) = start ∷ range_from (start + 1) n

-- The event that `std::vector<Event>(n)` holds at first: every member zero.
abbrev pub blank_event : ℕ → Event
blank_event i = record { id = i; client = 0; type = client_accept }

unfoldable pub event_pool : ℕ → EventPool
event_pool nconnections = record {
  total_events_count = 4 * nconnections;
  events = map blank_event (range_from 0 (4 * nconnections));
  free_events = range_from 0 (4 * nconnections);
}

unfoldable pub take_front : EventPool → List ℕ → Option (ℕ × EventPool)
take_front p [] = none
take_front p (i ∷ rest) = some (i, record p { free_events = rest })

-- `none` is the failed assertion that an event is free.
unfoldable pub obtain_event : EventPool → Option (ℕ × EventPool)
obtain_event p = take_front p p.free_events

unfoldable pub return_event : ℕ → EventPool → EventPool
return_event i p = record p { free_events = p.free_events ++ i ∷ [] }

-- event.client = client; event.type = type, on the event that was obtained.
unfoldable pub write_event : ℕ → ℕ → EventType → EventPool → EventPool
write_event i client type p = record p {
  events = set p.events i (record { id = i; client = client; type = type });
}
