-- ===== src/Socks/Safety/Relay.antt =====
-- The relay of traffic.
use modern_cpp_hw.Prelude.{
  ℕ, ◌+◌, ◌<◌, ◌≡◌, refl, ap, List, [], ◌∷◌, ◌++◌, Option, none, some, length, ◌⊎◌, inl, inr, arith,
  append_assoc,
}
use modern_cpp_hw.Socks.Outcome.{Outcome, ◌>>=◌}
use modern_cpp_hw.Socks.Os.{Os}
use modern_cpp_hw.Socks.Events.{
  EventType, EventPool, client_read, client_write, destination_read, destination_write,
}
use modern_cpp_hw.Socks.Session.{
  Session, State, reading_client_greeting, reading_auth_methods, reading_client_connection_request,
  reading_domain_name_length, reading_address, connecting_to_destination, proxying_requests,
  non_empty, is_read_completed,
}
use modern_cpp_hw.Socks.Sockets.{Socket}
use modern_cpp_hw.Socks.Ring.{
  Machine, Request, await_one, with_destination, add_client_read_request, add_client_write_request,
  add_destination_read_request, add_destination_write_request,
}
use modern_cpp_hw.Socks.Transfer.{with_session, read_from_client, read_until}
use modern_cpp_hw.Socks.Handlers.{
  client_read_body, client_read_at, handle_client_read, forward_read,
}
use modern_cpp_hw.Socks.Flight.{Flight, IsSound, Steps, ids}
use modern_cpp_hw.Socks.Flight.Submit.{with_ring, Submitted, submit_event-Submitted}
use modern_cpp_hw.Socks.Safety.{debt, HasSocket, IsDown, IsUp, Waits, Fits, own, GoesFrom}
use modern_cpp_hw.Prelude.{IsBytes}
use modern_cpp_hw.Socks.Safety.Leaves.{awaits, goes_by}
use modern_cpp_hw.Socks.Safety.Failing.{Steps-trans}
use modern_cpp_hw.Socks.Safety.Pieces.{if-Goes}

pub none-some : (o : Option ℕ) → o ≡ none → (n : ℕ) × (o ≡ some n) → ⊥
none-some none e (n, h) = cc
none-some (some c) e h = cc

abbrev Facing : EventType → Flight → Type 0
Facing t b = (IsDown t × IsUp b.type) ⊎ (IsUp t × IsDown b.type)

-- A session that relays traffic, in the middle of a handler.
pub record Relaying (st : State) (n : ℕ) (read : List ℕ) (fd : Option ℕ) (socket : Option Socket)
    : Type 0 where
  pub relay_state : st ≡ proxying_requests
  pub relay_count : n ≡ 1
  pub relay_bytes : IsBytes read
  pub relay_fd : (c : ℕ) × (fd ≡ some c)
  pub relay_socket : (d : Socket) × (socket ≡ some d)

abbrev pub Relays : Session → Type 0
Relays s = Relaying s.state s.awaiting_events_count s.read_buffer s.fd s.destination_socket

Waits-relaying :
    (st : State) (s : Session) (f b : Flight)
    → st ≡ proxying_requests
    → HasSocket s
    → Facing f.type b
    → Waits st s (f ∷ b ∷ [])
Waits-relaying proxying_requests s f b e d h = ((f, b, refl, h), d)
Waits-relaying reading_client_greeting s f b e d h = cc
Waits-relaying reading_auth_methods s f b e d h = cc
Waits-relaying reading_client_connection_request s f b e d h = cc
Waits-relaying reading_domain_name_length s f b e d h = cc
Waits-relaying reading_address s f b e d h = cc
Waits-relaying connecting_to_destination s f b e d h = cc

debt_relaying : (st : State) → st ≡ proxying_requests → debt st ≡ 0
debt_relaying st e = ap debt e

Fits-relaying :
    (s : Session) (f b : Flight) (fs : List Flight)
    → Relays s
    → fs ≡ b ∷ []
    → Facing f.type b
    → Fits (awaits s) (f ∷ fs)
Fits-relaying s f b fs r e h = rw e (record {
  counted = omega (arith, r.relay_count, debt_relaying s.state r.relay_state);
  bounded = omega (arith, r.relay_count);
  shut_late = λ c. absurd (none-some _ c r.relay_fd);
  bytes = r.relay_bytes;
  alive = λ _. (r.relay_fd, Waits-relaying s.state (awaits s) f b r.relay_state r.relay_socket h);
})

-- Room for one request.
module _ (busy : List ℕ) (m : Machine) (sound : IsSound busy m.server.event_pool m.server.pending)
    (room : length busy + length (ids m.server.pending) < length m.server.event_pool.events)
    (b : Flight) (e : own m ≡ b ∷ []) (r : Relays m.session) where
  pub client_read-Goes : IsDown b.type → GoesFrom busy m (add_client_read_request m)
  unfolding add_client_read_request await_one
  client_read-Goes d =
      goes_by busy (with_session awaits m) _ _
        (Fits-relaying m.session _ b _ r e (inr (inl refl, d)))
        (submit_event-Submitted busy client_read _ (with_session awaits m) sound room)

  pub client_write-Goes :
      (n offset : ℕ) → IsUp b.type → GoesFrom busy m (add_client_write_request n offset m)
  unfolding add_client_write_request await_one
  client_write-Goes n offset u =
      goes_by busy (with_session awaits m) _ _
        (Fits-relaying m.session _ b _ r e (inl (inr refl, u)))
        (submit_event-Submitted busy client_write _ (with_session awaits m) sound room)

  pub destination_read-Goes : IsUp b.type → GoesFrom busy m (add_destination_read_request m)
  unfolding add_destination_read_request await_one with_destination
  destination_read-Goes u =
      rw (r.relay_socket.1, with_destination)
        (goes_by busy (with_session awaits m) _ _
          (Fits-relaying m.session _ b _ r e (inl (inl refl, u)))
          (submit_event-Submitted busy destination_read _ (with_session awaits m) sound room))

  pub destination_write-Goes :
      (n offset : ℕ) → IsDown b.type → GoesFrom busy m (add_destination_write_request n offset m)
  unfolding add_destination_write_request await_one with_destination
  destination_write-Goes n offset d =
      rw (r.relay_socket.1, with_destination)
        (goes_by busy (with_session awaits m) _ _
          (Fits-relaying m.session _ b _ r e (inr (inr refl, d)))
          (submit_event-Submitted busy destination_write _ (with_session awaits m) sound room))

-- A second request behind one that has been submitted.
pub then-Goes :
    (busy : List ℕ) (m : Machine) (f : Flight) (r : Outcome Machine) (g : Machine → Outcome Machine)
    → Submitted busy m (f ∷ []) r
    → ((e : EventPool) (qs : List Request)
        → Steps busy m.this (f ∷ []) m.server.event_pool m.server.pending e qs
        → GoesFrom busy (with_ring m e qs) (g (with_ring m e qs)))
    → GoesFrom busy m (r >>= g)
then-Goes busy m f r g (e, qs, eq, st) next = rw eq (record {
  end = z.end;
  added = z.added ++ f ∷ [];
  returns = z.returns;
  same = z.same;
  steps = Steps-trans busy m.this (f ∷ []) z.added _ _ _ _ _ _ st z.steps;
  fits = rw (append_assoc z.added (f ∷ []) (own m)) (rw st.own at z.fits);
  kept = z.kept;
})
  where
    z : GoesFrom busy (with_ring m e qs) (g (with_ring m e qs))
    z = next e qs st

body-forward :
    (os : Os) (again : Machine → Outcome Machine) (s : State) (n : ℕ) (m : Machine)
    → s ≡ proxying_requests
    → client_read_body os again s n m ≡ forward_read n m
unfolding client_read_body
body-forward os again proxying_requests n m e = refl
body-forward os again reading_client_greeting n m e = cc
body-forward os again reading_auth_methods n m e = cc
body-forward os again reading_client_connection_request n m e = cc
body-forward os again reading_domain_name_length n m e = cc
body-forward os again reading_address n m e = cc
body-forward os again connecting_to_destination n m e = cc

-- handle_client_read(0) of a session that relays traffic already.
pub forwards-Goes :
    (busy : List ℕ) (os : Os) (m : Machine) (b : Flight) (n : ℕ)
    → IsSound busy m.server.event_pool m.server.pending
    → length busy + length (ids m.server.pending) < length m.server.event_pool.events
    → own m ≡ b ∷ []
    → Relays m.session
    → IsDown b.type
    → GoesFrom busy m (handle_client_read os n m)
unfolding handle_client_read client_read_at client_read_body forward_read
forwards-Goes busy os m b n s l e r d =
    rw (body-forward os _ m.session.state n m r.relay_state)
      (destination_write-Goes busy _ s l b e r n 0 d)

pub read_on-Goes :
    (busy : List ℕ) (os : Os) (m : Machine) (b : Flight)
    → IsSound busy m.server.event_pool m.server.pending
    → length busy + length (ids m.server.pending) < length m.server.event_pool.events
    → own m ≡ b ∷ []
    → Relays m.session
    → IsDown b.type
    → GoesFrom busy m (read_from_client (handle_client_read os 0) m)
unfolding read_from_client read_until
read_on-Goes busy os m b s l e r d =
    if-Goes (is_read_completed non_empty m.session.read_buffer) _ _
      (λ _. forwards-Goes busy os _ b 0 s l e r d) (λ _. client_read-Goes busy _ s l b e r d)
