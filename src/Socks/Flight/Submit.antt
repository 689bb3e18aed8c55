-- ===== src/Socks/Flight/Submit.antt =====
-- The submission of a request with an event (the ends of the add_*_request functions of
-- src/server.cpp).
use modern_cpp_hw.Prelude.{
  ℕ, ◌+◌, ◌<◌, ◌≡◌, ◌≢◌, refl, ap, List, [], ◌∷◌, some, length, get_elem?, set, arith,
  get_elem?-set_ne, length-set, get_elem?-set_self,
}
use modern_cpp_hw.Socks.Outcome.{Outcome, done}
use modern_cpp_hw.Socks.Events.{EventType, Event, EventPool, obtain_event, take_front, write_event}
use modern_cpp_hw.Socks.Ring.{Request, Sqe, Machine, submit, submit_obtained, submit_event}
use modern_cpp_hw.Socks.Flight.{Flight, ids, in_flight, size_of, occurrences, IsSound, Steps}
use modern_cpp_hw.Socks.Flight.Count.{in_flight-set}

abbrev event_for : ℕ → ℕ → EventType → Event
event_for i p type = record { id = i; client = p; type = type }

-- The pool once `i`, the front of the free events, has been obtained and written.
abbrev pool_after : ℕ → List ℕ → ℕ → EventType → EventPool → EventPool
pool_after i rest p type e = record e {
  events = set e.events i (event_for i p type);
  free_events = rest;
}

abbrev ring_after : ℕ → Sqe → List Request → List Request
ring_after i sqe qs = record { sqe = sqe; user_data = some i } ∷ qs

module _ (busy : List ℕ) (e : EventPool) (qs : List Request) (i : ℕ) (rest : List ℕ) (p : ℕ)
    (type : EventType) (sqe : Sqe) (h : IsSound busy e qs) (front : e.free_events ≡ i ∷ rest) where
  obtained-lt : i < length e.events
  obtained-lt = ground (arith, h.once i)

  obtained-fresh : occurrences i (ids qs) ≡ 0
  obtained-fresh = ground (arith, h.once i)

  own-after :
      in_flight p (set e.events i (event_for i p type)) (ring_after i sqe qs)
      ≡ record { type = type; size = size_of sqe } ∷ in_flight p e.events qs
  own-after = ground (
    arith,
    get_elem?-set_self e.events i (event_for i p type) obtained-lt,
    in_flight-set e.events i (event_for i p type) p qs obtained-fresh,
  )

  others-after :
      (q : ℕ)
      → q ≢ p
      → in_flight q (set e.events i (event_for i p type)) (ring_after i sqe qs)
        ≡ in_flight q e.events qs
  others-after q ne = ground (
    arith,
    get_elem?-set_self e.events i (event_for i p type) obtained-lt,
    in_flight-set e.events i (event_for i p type) q qs obtained-fresh,
  )

  labelled-after :
      (j : ℕ) (v : Event) → get_elem? (set e.events i (event_for i p type)) j ≡ some v → v.id ≡ j
  labelled-after j v g = ground (
    arith,
    get_elem?-set_self e.events i (event_for i p type) obtained-lt,
    get_elem?-set_ne e.events {i = i} {j = j} (event_for i p type),
    h.labelled j v,
  )

  IsSound-after : IsSound busy (pool_after i rest p type e) (ring_after i sqe qs)
  IsSound-after = record {
    once = λ j. ground (arith, h.once j, length-set e.events i (event_for i p type));
    total = ground (arith, h.total, length-set e.events i (event_for i p type));
    labelled = labelled-after;
  }

  Steps-after :
      Steps busy p
        (record { type = type; size = size_of sqe } ∷ [])
        e
        qs
        (pool_after i rest p type e)
        (ring_after i sqe qs)
  Steps-after = record {
    own = own-after;
    others = others-after;
    sound = IsSound-after;
    more = omega arith;
    size = length-set e.events i (event_for i p type);
  }

front-cases : (xs : List ℕ) → 0 < length xs → (i : ℕ) × (rest : List ℕ) × (xs ≡ i ∷ rest)
front-cases [] h = elim h [ ]
front-cases (i ∷ rest) h = (i, rest, refl)

abbrev pub with_ring : Machine → EventPool → List Request → Machine
with_ring m e qs = record m { server = record m.server { event_pool = e; pending = qs } }

-- What a submission for the session `m.this` does, as the flights that it adds.
abbrev pub Submitted : List ℕ → Machine → List Flight → Outcome Machine → Type 0
Submitted busy m fs r =
    (e : EventPool) × (qs : List Request) × (r ≡ done (with_ring m e qs))
    × Steps busy m.this fs m.server.event_pool m.server.pending e qs

submit_event_front :
    (type : EventType) (sqe : Sqe) (m : Machine) (i : ℕ) (rest : List ℕ)
    → m.server.event_pool.free_events ≡ i ∷ rest
    → submit_event type sqe m
      ≡ done (
          with_ring m
            (pool_after i rest m.this type m.server.event_pool)
            (ring_after i sqe m.server.pending))
unfolding submit_event submit_obtained obtain_event take_front submit write_event
submit_event_front type sqe m i rest front =
    ap (λ xs. submit_obtained type sqe m (take_front m.server.event_pool xs)) front

Submitted-front :
    (busy : List ℕ) (type : EventType) (sqe : Sqe) (m : Machine)
    → IsSound busy m.server.event_pool m.server.pending
    → (i : ℕ) × (rest : List ℕ) × (m.server.event_pool.free_events ≡ i ∷ rest)
    → Submitted busy m (record { type = type; size = size_of sqe } ∷ []) (submit_event type sqe m)
Submitted-front busy type sqe m h (i, rest, front) = (
  pool_after i rest m.this type m.server.event_pool,
  ring_after i sqe m.server.pending,
  submit_event_front type sqe m i rest front,
  Steps-after busy m.server.event_pool m.server.pending i rest m.this type sqe h front,
)

-- With every event once pending, free or busy, and one of them free, a submission returns, and its
-- request is the newest one in flight for the session; nothing changes for the others, and every
-- event is once pending, free or busy again.
pub submit_event-Submitted :
    (busy : List ℕ) (type : EventType) (sqe : Sqe) (m : Machine)
    → IsSound busy m.server.event_pool m.server.pending
    → length busy + length (ids m.server.pending) < length m.server.event_pool.events
    → Submitted busy m (record { type = type; size = size_of sqe } ∷ []) (submit_event type sqe m)
submit_event-Submitted busy type sqe m h room =
    Submitted-front busy type sqe m h
      (front-cases m.server.event_pool.free_events (omega (arith, h.total)))
