-- ===== src/Socks/Flight.antt =====
-- hw2-socks5-server: the requests that are pending for each session, read off the events of the pool
-- (EventPool and the add_*_request functions of src/server.cpp).
pub mod Count
pub mod Submit
use modern_cpp_hw.Prelude.{
  ℕ, zero, suc, ◌+◌, ◌≤◌, ◌<◌, ◌≡◌, ◌≢◌, refl, List, [], ◌∷◌, ◌++◌, Option, none, some, Bool, true,
  false, if◌then◌else◌, ◌==◌, ltb, length, get_elem?,
}
use modern_cpp_hw.Socks.Events.{EventType, Event, EventPool}
use modern_cpp_hw.Socks.Ring.{Sqe, accept, connect, read, write, read_fixed, write_fixed, Request}

-- How many bytes a request is about.
abbrev pub size_of : Sqe → ℕ
size_of (read fd at nbytes offset) = nbytes
size_of (write fd at nbytes offset) = nbytes
size_of (read_fixed fd at nbytes offset index) = nbytes
size_of (write_fixed fd at nbytes offset index) = nbytes
size_of (accept fd) = 0
size_of (connect fd address n) = 0

pub record Flight : Type 0 where
  pub type : EventType
  pub size : ℕ

abbrev pub id_of : Option ℕ → List ℕ → List ℕ
id_of none rest = rest
id_of (some i) rest = i ∷ rest

-- The events that pending requests point to.
abbrev pub ids : List Request → List ℕ
ids [] = []
ids (q ∷ qs) = id_of q.user_data (ids qs)

abbrev pub flight_of_event : ℕ → ℕ → Option Event → List Flight → List Flight
flight_of_event p size none rest = rest
flight_of_event p size (some e) rest =
    if e.client == p then record { type = e.type; size = size } ∷ rest else rest

abbrev pub flight_of : ℕ → ℕ → List Event → Option ℕ → List Flight → List Flight
flight_of p size events none rest = rest
flight_of p size events (some i) rest = flight_of_event p size (get_elem? events i) rest

-- The pending requests of the session `p`, newest first.
abbrev pub in_flight : ℕ → List Event → List Request → List Flight
in_flight p events [] = []
in_flight p events (q ∷ qs) = flight_of p (size_of q.sqe) events q.user_data (in_flight p events qs)

abbrev pub occurrences : ℕ → List ℕ → ℕ
occurrences i [] = 0
occurrences i (x ∷ xs) = (if x == i then 1 else 0) + occurrences i xs

-- Every event of the pool is exactly once pending, free, or busy: in the hands of the event loop.
pub record IsSound (busy : List ℕ) (e : EventPool) (qs : List Request) : Type 0 where
  pub once :
      (i : ℕ)
      → occurrences i busy + (occurrences i (ids qs) + occurrences i e.free_events)
        ≡ (if ltb i (length e.events) then 1 else 0)
  pub total : length busy + (length (ids qs) + length e.free_events) ≡ length e.events
  pub labelled : (i : ℕ) (v : Event) → get_elem? e.events i ≡ some v → v.id ≡ i

-- From one pool and ring to another by requests of the session `p`, and by nothing else.
pub record Steps (busy : List ℕ) (p : ℕ) (fs : List Flight) (e : EventPool) (qs : List Request)
    (e' : EventPool) (qs' : List Request) : Type 0 where
  pub own : in_flight p e'.events qs' ≡ fs ++ in_flight p e.events qs
  pub others : (q : ℕ) → q ≢ p → in_flight q e'.events qs' ≡ in_flight q e.events qs
  pub sound : IsSound busy e' qs'
  pub more : length (ids qs') ≡ length fs + length (ids qs)
  pub size : length e'.events ≡ length e.events
