-- ===== src/Socks/Flight/Count.antt =====
-- Counting the events that are pending, free or busy.
use modern_cpp_hw.Prelude.{
  ℕ, ◌+◌, ◌≡◌, refl, ap, ◌∙◌, List, [], ◌∷◌, ◌++◌, Option, none, some, set, arith, get_elem?-set_ne,
}
use modern_cpp_hw.Socks.Events.{Event}
use modern_cpp_hw.Socks.Ring.{Request}
use modern_cpp_hw.Socks.Flight.{
  Flight, id_of, ids, in_flight, flight_of, flight_of_event, size_of, occurrences,
}

pub occurrences-append :
    (i : ℕ) (xs ys : List ℕ) → occurrences i (xs ++ ys) ≡ occurrences i xs + occurrences i ys
occurrences-append i [] ys = omega arith
occurrences-append i (x ∷ xs) ys = omega (arith, occurrences-append i xs ys)

set-other :
    (events : List Event) (i : ℕ) (v : Event) (q : ℕ) (k : Option ℕ) (n : ℕ) (rest : List Flight)
    (xs : List ℕ)
    → occurrences i (id_of k xs) ≡ 0
    → flight_of q n (set events i v) k rest ≡ flight_of q n events k rest
set-other events i v q none n rest xs h = refl
set-other events i v q (some j) n rest xs h =
    ap (λ o. flight_of_event q n o rest)
      (get_elem?-set_ne events {i = i} {j = j} v (λ e. ground arith))

rest-zero :
    (i : ℕ) (k : Option ℕ) (xs : List ℕ) → occurrences i (id_of k xs) ≡ 0 → occurrences i xs ≡ 0
rest-zero i none xs h = h
rest-zero i (some j) xs h = ground arith

-- A write to an event that no pending request points to changes nothing in flight.
pub in_flight-set :
    (events : List Event) (i : ℕ) (v : Event) (q : ℕ) (qs : List Request)
    → occurrences i (ids qs) ≡ 0
    → in_flight q (set events i v) qs ≡ in_flight q events qs
in_flight-set events i v q [] h = refl
in_flight-set events i v q (r ∷ qs) h =
    set-other events i v q r.user_data (size_of r.sqe) _ (ids qs) h
    ∙ ap (flight_of q (size_of r.sqe) events r.user_data)
        (in_flight-set events i v q qs (rest-zero i r.user_data (ids qs) h))
