-- ===== src/Socks/Safety/Dispatch.antt =====
-- The switch over the type of an event, for the requests that a session waits for
-- (IoUring::event_loop of src/server.cpp).
use modern_cpp_hw.Prelude.{
  ℕ, ◌+◌, ◌≤◌, ◌≡◌, ◌≢◌, refl, ap, List, [], ◌∷◌, length, ◌⊎◌, inl, inr, arith, ◌==◌,
}
use modern_cpp_hw.Socks.Os.{Os}
use modern_cpp_hw.Socks.Events.{EventType, client_read, client_write, destination_connect}
use modern_cpp_hw.Socks.Session.{
  State, reading_client_greeting, reading_auth_methods, reading_client_connection_request,
  reading_domain_name_length, reading_address, connecting_to_destination, proxying_requests,
  domain_name,
}
use modern_cpp_hw.Socks.Ring.{Machine}
use modern_cpp_hw.Socks.Handlers.{
  client_written, client_write_body, handle_client_write, reply_granted, destination_connected,
  handle_destination_connect, handle_destination_read,
}
use modern_cpp_hw.Socks.Transfer.{fail_immediately}
use modern_cpp_hw.Socks.Server.{dispatch, non_zero_read}
use modern_cpp_hw.Socks.Flight.{Flight}
use modern_cpp_hw.Socks.Safety.{
  debt, Goal, GoalIn, HasSocket, HasFd, IsDown, IsUp, Waits, IsReading, IsReplying, IsRelaying,
  IsKind, own, Ready, Rests, GoesFrom,
}
use modern_cpp_hw.Prelude.{IsBytes}
use modern_cpp_hw.Socks.Safety.Leaves.{ReplyIn}
use modern_cpp_hw.Socks.Safety.Failing.{fail_immediately-Goes}
use modern_cpp_hw.Socks.Safety.Pieces.{unless-Goes}
use modern_cpp_hw.Socks.Safety.Client.{handle_client_read-Goes}
use modern_cpp_hw.Socks.Safety.Relay.{Relays, forwards-Goes, client_write-Goes}
use modern_cpp_hw.Socks.Safety.Replies.{
  reply_written-Goes, client_write_as, client_written-Goes, destination_written-Goes, granted-Goes,
  reply_connecting,
}
use modern_cpp_hw.Socks.Safety.Removed.{Removed, Removed-one, Removed-two}

connected_as :
    (st : State) (m : Machine)
    → st ≡ connecting_to_destination
    → destination_connected st m ≡ reply_granted m.session.address_type m
unfolding destination_connected
connected_as connecting_to_destination m e = refl
connected_as reading_auth_methods m e = cc
connected_as reading_client_greeting m e = cc
connected_as reading_client_connection_request m e = cc
connected_as reading_domain_name_length m e = cc
connected_as reading_address m e = cc
connected_as proxying_requests m e = cc

relay_write :
    (os : Os) (st : State) (n : ℕ) (m : Machine)
    → st ≡ proxying_requests
    → client_write_body os st n m ≡ client_written n m
unfolding client_write_body
relay_write os proxying_requests n m e = refl
relay_write os reading_auth_methods n m e = cc
relay_write os reading_client_greeting n m e = cc
relay_write os reading_client_connection_request n m e = cc
relay_write os reading_domain_name_length n m e = cc
relay_write os reading_address n m e = cc
relay_write os connecting_to_destination n m e = cc

module _ (busy : List ℕ) (os : Os) (k : IsKind os) (m : Machine) (h : Ready busy m)
    (counted : m.session.awaiting_events_count ≡ debt m.session.state + length (own m))
    (bounded : m.session.awaiting_events_count ≤ 1) (bytes : IsBytes m.session.read_buffer)
    (fd : HasFd m.session) where
  -- A read of no bytes.
  disconnects : GoesFrom busy m (fail_immediately os m)
  disconnects = fail_immediately-Goes busy os m k h fd counted bounded bytes

  rests : own m ≡ [] → Rests m.session
  rests e = record {
    rest_counted = omega (arith, counted, ap length e);
    rest_bytes = bytes;
    rest_fd = fd;
  }

  reads-Goes : (n : ℕ) → own m ≡ [] → Goal m.session → GoesFrom busy m (dispatch os client_read n m)
  unfolding dispatch non_zero_read
  reads-Goes n e g =
      unless-Goes (n == 0) _ _ (λ _. handle_client_read-Goes busy os k n m h e (rests e) g)
        (λ _. disconnects)

  replies-Goes :
      (n : ℕ)
      → own m ≡ []
      → ReplyIn m.session.state m.session
      → n ≤ length m.session.write_client_buffer
      → GoesFrom busy m (dispatch os client_write n m)
  unfolding dispatch handle_client_write
  replies-Goes n e w l =
      rw (client_write_as os m.session.state n m w)
        (reply_written-Goes busy os n m k h e (rests e) w l)

  connects-Goes :
      (n : ℕ)
      → own m ≡ []
      → m.session.state ≡ connecting_to_destination
      → HasSocket m.session
      → m.session.address_type ≢ domain_name
      → GoesFrom busy m (dispatch os destination_connect n m)
  unfolding dispatch handle_destination_connect
  connects-Goes n e st d ne =
      rw (connected_as m.session.state m st)
        (granted-Goes busy m m.session.address_type h e (rests e) st d ne refl)

  relays :
      (b : Flight)
      → own m ≡ b ∷ []
      → m.session.state ≡ proxying_requests
      → HasSocket m.session
      → Relays m.session
  relays b e st d = record {
    relay_state = st;
    relay_count = omega (arith, counted, ap length e, ap debt st);
    relay_bytes = bytes;
    relay_fd = fd;
    relay_socket = d;
  }

  -- One direction of the relay, while the request `b` of the other is pending.
  down-Goes :
      (type : EventType) (n : ℕ) (b : Flight)
      → IsDown type
      → IsUp b.type
      → own m ≡ b ∷ []
      → m.session.state ≡ proxying_requests
      → HasSocket m.session
      → GoesFrom busy m (dispatch os type n m)
  down-Goes type n b (inl t) u e st d = rw t (
      unfold dispatch non_zero_read handle_destination_read in
      unless-Goes (n == 0) _ _
        (λ _. client_write-Goes busy _ h.sound (omega (arith, h.room)) b e (relays b e st d) n 0 u)
        (λ _. disconnects))
  down-Goes type n b (inr t) u e st d = rw t (
      unfold dispatch handle_client_write in
      rw (relay_write os m.session.state n m st)
        (client_written-Goes busy n m b h e (relays b e st d) u))

  up-Goes :
      (type : EventType) (n : ℕ) (b : Flight)
      → IsUp type
      → IsDown b.type
      → own m ≡ b ∷ []
      → m.session.state ≡ proxying_requests
      → HasSocket m.session
      → GoesFrom busy m (dispatch os type n m)
  up-Goes type n b (inl t) u e st d = rw t (
      unfold dispatch non_zero_read in
      unless-Goes (n == 0) _ _
        (λ _. forwards-Goes busy os m b n h.sound (omega (arith, h.room)) e (relays b e st d) u)
        (λ _. disconnects))
  up-Goes type n b (inr t) u e st d =
      rw t (unfold dispatch in destination_written-Goes busy n m b h e (relays b e st d) u)

  Goal-as :
      (st : State)
      → m.session.state ≡ st
      → Goal m.session
      → GoalIn st m.session.read_goal m.session.auth_methods_count m.session.address_type
          m.session.domain_name_length
  Goal-as st e g = rw e at g

  reading-Goes :
      (f : Flight) (fs : List Flight) (n : ℕ)
      → IsReading m.session fs
      → Removed f fs (own m)
      → GoesFrom busy m (dispatch os f.type n m)
  reading-Goes f fs n (c, e, g) q =
      let (x, o) = Removed-one f _ fs (own m) e q in
      rw (← ap (λ (y : Flight). y.type) x) (reads-Goes n o g)

  replying-Goes :
      (f : Flight) (fs : List Flight) (n : ℕ)
      → ReplyIn m.session.state m.session
      → IsReplying m.session fs
      → n ≤ f.size
      → Removed f fs (own m)
      → GoesFrom busy m (dispatch os f.type n m)
  replying-Goes f fs n w (c, e, l) le q =
      let (x, o) = Removed-one f _ fs (own m) e q in
      rw (← ap (λ (y : Flight). y.type) x)
        (replies-Goes n o w (omega (arith, ap (λ (y : Flight). y.size) x)))

  relaying-Goes :
      (f : Flight) (fs : List Flight) (n : ℕ)
      → m.session.state ≡ proxying_requests
      → HasSocket m.session
      → IsRelaying fs
      → Removed f fs (own m)
      → GoesFrom busy m (dispatch os f.type n m)
  relaying-Goes f fs n st d (a, b, e, w) q = pick (Removed-two f a b fs (own m) e q) w
    where
      first :
          (x : Flight) (y : Flight)
          → x ≡ f
          → own m ≡ y ∷ []
          → (IsDown x.type × IsUp y.type) ⊎ (IsUp x.type × IsDown y.type)
          → GoesFrom busy m (dispatch os f.type n m)
      first x y p o (inl (dn, up)) = rw (← p) (down-Goes x.type n y dn up o st d)
      first x y p o (inr (up, dn)) = rw (← p) (up-Goes x.type n y up dn o st d)

      swapped :
          (IsDown a.type × IsUp b.type) ⊎ (IsUp a.type × IsDown b.type)
          → (IsDown b.type × IsUp a.type) ⊎ (IsUp b.type × IsDown a.type)
      swapped (inl (x, y)) = inr (y, x)
      swapped (inr (x, y)) = inl (y, x)

      pick :
          ((a ≡ f) × (own m ≡ b ∷ [])) ⊎ ((b ≡ f) × (own m ≡ a ∷ []))
          → (IsDown a.type × IsUp b.type) ⊎ (IsUp a.type × IsDown b.type)
          → GoesFrom busy m (dispatch os f.type n m)
      pick (inl (p, o)) w' = first a b p o w'
      pick (inr (p, o)) w' = first b a p o (swapped w')

  -- Let the session of `m` have an open descriptor, bytes in its read buffer, a count that is right for
  -- what is pending and at most 1, and let there be room for two requests. If it waits, in its state,
  -- for what is pending and for one request `f` more, which completes with no more than it asked for,
  -- then the handler for `f` returns, under a system whose calls succeed, with a session that fits
  -- what is then pending for it, and nothing changes for the other sessions.
  pub waited-Goes :
      (st : State) (f : Flight) (fs : List Flight) (n : ℕ)
      → m.session.state ≡ st
      → Waits st m.session fs
      → n ≤ f.size
      → Removed f fs (own m)
      → GoesFrom busy m (dispatch os f.type n m)
  waited-Goes reading_client_greeting f fs n e w l q = reading-Goes f fs n w q
  waited-Goes reading_auth_methods f fs n e (inl w) l q = reading-Goes f fs n w q
  waited-Goes reading_auth_methods f fs n e (inr w) l q = replying-Goes f fs n (rw e tt) w l q
  waited-Goes reading_client_connection_request f fs n e w l q = reading-Goes f fs n w q
  waited-Goes reading_domain_name_length f fs n e w l q = reading-Goes f fs n w q
  waited-Goes reading_address f fs n e w l q = reading-Goes f fs n w q
  waited-Goes connecting_to_destination f fs n e (inl (c, o), d, ne) l q =
      let (x, g) = Removed-one f _ fs (own m) o q in
      rw (← ap (λ (y : Flight). y.type) x) (connects-Goes n g e d ne)
  waited-Goes connecting_to_destination f fs n e (inr w, d, ne) l q =
      replying-Goes f fs n (reply_connecting m.session.state m.session e d ne) w l q
  waited-Goes proxying_requests f fs n e (w, d) l q = relaying-Goes f fs n e d w q
