-- ===== src/Socks/Safety/Replies.antt =====
-- The replies of the handshake, and how it passes to the relay (Session::handle_client_write and
-- Session::handle_destination_connect of src/server.cpp).
use modern_cpp_hw.Prelude.{
  ℕ, ◌+◌, ◌≤◌, ◌≡◌, ◌≢◌, ◌∙◌, refl, ap, List, [], ◌∷◌, length, inl, arith, u32, drop, ◌==◌,
}
use modern_cpp_hw.Socks.Os.{Os}
use modern_cpp_hw.Socks.Events.{EventPool, destination_read}
use modern_cpp_hw.Socks.Session.{
  Session, State, reading_client_greeting, reading_auth_methods, reading_client_connection_request,
  reading_domain_name_length, reading_address, connecting_to_destination, proxying_requests,
  AddressType, ipv4, domain_name, ipv6, at_least, is_empty,
}
use modern_cpp_hw.Socks.Ring.{
  Machine, Request, await_one, with_destination, add_destination_read_request,
}
use modern_cpp_hw.Socks.Transfer.{
  with_session, erase_front, read_some_from_client, read_from_client,
}
use modern_cpp_hw.Socks.Handlers.{
  handle_client_read, client_written, on_reply_written, reply_written, client_write_body,
  reply_granted, handle_destination_write,
}
use modern_cpp_hw.Socks.Flight.{Flight, Steps}
use modern_cpp_hw.Socks.Flight.Submit.{with_ring, submit_event-Submitted}
use modern_cpp_hw.Socks.Safety.{debt, HasSocket, IsDown, IsUp, IsKind, own, Ready, Rests, GoesFrom}
use modern_cpp_hw.Socks.Safety.Leaves.{awaits, ReplyIn, write_to_client-Goes}
use modern_cpp_hw.Socks.Safety.Pieces.{read_until-Goes, if-Goes, done-Goes}
use modern_cpp_hw.Socks.Safety.Client.{handle_client_read-Goes}
use modern_cpp_hw.Socks.Safety.Relay.{
  Relays, then-Goes, read_on-Goes, client_read-Goes, client_write-Goes, destination_read-Goes,
  destination_write-Goes,
}

abbrev entering : Machine → Machine
entering = with_session (λ s. awaits (record s { state = proxying_requests }))

-- The session has become one that relays traffic, and the destination is being read.
entered-Goes :
    (busy : List ℕ) (os : Os) (m : Machine) (f : Flight) (e1 : EventPool) (qs1 : List Request)
    → Steps busy m.this (f ∷ []) m.server.event_pool m.server.pending e1 qs1
    → IsDown f.type
    → Ready busy m
    → own m ≡ []
    → Rests m.session
    → m.session.state ≡ connecting_to_destination
    → HasSocket m.session
    → GoesFrom busy
        (with_ring (entering m) e1 qs1)
        (read_from_client (handle_client_read os 0) (with_ring (entering m) e1 qs1))
entered-Goes busy os m f e1 qs1 st1 d h e r st sock =
    read_on-Goes busy os (with_ring (entering m) e1 qs1) f st1.sound
      (omega (arith, st1.more, st1.size, h.room)) (st1.own ∙ ap (λ x. f ∷ x) e)
      (record {
        relay_state = refl;
        relay_count = omega (arith, r.rest_counted, ap debt st);
        relay_bytes = r.rest_bytes;
        relay_fd = r.rest_fd;
        relay_socket = sock;
      })
      d

-- What follows the reply to a granted request.
connected-Goes :
    (busy : List ℕ) (os : Os) (m : Machine)
    → Ready busy m
    → own m ≡ []
    → Rests m.session
    → m.session.state ≡ connecting_to_destination
    → HasSocket m.session
    → GoesFrom busy m (on_reply_written os connecting_to_destination m)
unfolding on_reply_written add_destination_read_request await_one with_destination
connected-Goes busy os m h e r st (d, hd) =
    rw (hd, with_destination)
      (then-Goes busy (entering m) _ _ _
        (submit_event-Submitted busy destination_read _ (entering m) h.sound
          (omega (arith, h.room)))
        λ e1 qs1 st1. entered-Goes busy os m _ e1 qs1 st1 (inl refl) h e r st (d, hd))

replied-Goes :
    (busy : List ℕ) (os : Os) (m : Machine) (st : State)
    → IsKind os
    → m.session.state ≡ st
    → Ready busy m
    → own m ≡ []
    → Rests m.session
    → ReplyIn st m.session
    → GoesFrom busy m (on_reply_written os st m)
replied-Goes busy os m reading_auth_methods k st h e r w = auth-Goes
  where
    auth-Goes : GoesFrom busy m (on_reply_written os reading_auth_methods m)
    auth-Goes =
        unfold on_reply_written read_some_from_client in
        read_until-Goes busy (at_least 4) (handle_client_read os 0) 3 _
          (λ m' l' h' e' r' g'. handle_client_read-Goes busy os k 0 m' h' e' r' g') (omega arith) h
          e
          (record {
            rest_counted = r.rest_counted ∙ ap debt st;
            rest_bytes = r.rest_bytes;
            rest_fd = r.rest_fd;
          })
          refl
replied-Goes busy os m connecting_to_destination k st h e r w =
    connected-Goes busy os m h e r st w.0
replied-Goes busy os m reading_client_greeting k st h e r w = absurd w
replied-Goes busy os m reading_client_connection_request k st h e r w = absurd w
replied-Goes busy os m reading_domain_name_length k st h e r w = absurd w
replied-Goes busy os m reading_address k st h e r w = absurd w
replied-Goes busy os m proxying_requests k st h e r w = absurd w

reply_again :
    (st : State) (s : Session) (l : List ℕ) (n : ℕ)
    → ReplyIn st s
    → ReplyIn st (record s { write_client_buffer = l; awaiting_events_count = n })
reply_again reading_auth_methods s l n h = h
reply_again connecting_to_destination s l n h = h
reply_again reading_client_greeting s l n h = h
reply_again reading_client_connection_request s l n h = h
reply_again reading_domain_name_length s l n h = h
reply_again reading_address s l n h = h
reply_again proxying_requests s l n h = h

-- A reply, or the first `n` bytes of it, has been written.
pub reply_written-Goes :
    (busy : List ℕ) (os : Os) (n : ℕ) (m : Machine)
    → IsKind os
    → Ready busy m
    → own m ≡ []
    → Rests m.session
    → ReplyIn m.session.state m.session
    → n ≤ length m.session.write_client_buffer
    → GoesFrom busy m (reply_written os n m)
unfolding reply_written
reply_written-Goes busy os n m k h e r w l =
    done-Goes (erase_front n m.session.write_client_buffer) (drop n m.session.write_client_buffer) _
      (ground arith)
      (if-Goes (is_empty (drop n m.session.write_client_buffer)) _ _
        (λ _.
          replied-Goes busy os
            (with_session
              (λ s. record s { write_client_buffer = drop n m.session.write_client_buffer }) m)
            m.session.state k refl h e r (reply_again m.session.state m.session _ _ w))
        (λ _. write_to_client-Goes busy _ h e r (λ _. reply_again m.session.state m.session _ _ w)))

pub client_write_as :
    (os : Os) (st : State) (n : ℕ) (m : Machine)
    → ReplyIn st m.session
    → client_write_body os st n m ≡ reply_written os n m
unfolding client_write_body
client_write_as os reading_auth_methods n m w = refl
client_write_as os connecting_to_destination n m w = refl
client_write_as os proxying_requests n m w = absurd w
client_write_as os reading_client_greeting n m w = absurd w
client_write_as os reading_client_connection_request n m w = absurd w
client_write_as os reading_domain_name_length n m w = absurd w
client_write_as os reading_address n m w = absurd w

-- A part of what came from the destination has been written to the client.
pub client_written-Goes :
    (busy : List ℕ) (n : ℕ) (m : Machine) (b : Flight)
    → Ready busy m
    → own m ≡ b ∷ []
    → Relays m.session
    → IsUp b.type
    → GoesFrom busy m (client_written n m)
unfolding client_written
client_written-Goes busy n m b h e r u =
    if-Goes (u32 (n + m.session.client_write_offset) == m.session.client_write_size) _ _
      (λ _. destination_read-Goes busy m h.sound (omega (arith, h.room)) b e r u)
      (λ _. client_write-Goes busy _ h.sound (omega (arith, h.room)) b e r _ _ u)

pub destination_written-Goes :
    (busy : List ℕ) (n : ℕ) (m : Machine) (b : Flight)
    → Ready busy m
    → own m ≡ b ∷ []
    → Relays m.session
    → IsDown b.type
    → GoesFrom busy m (handle_destination_write n m)
unfolding handle_destination_write
destination_written-Goes busy n m b h e r u =
    if-Goes (u32 (n + m.session.destination_write_offset) == m.session.destination_write_size) _ _
      (λ _. client_read-Goes busy m h.sound (omega (arith, h.room)) b e r u)
      (λ _. destination_write-Goes busy _ h.sound (omega (arith, h.room)) b e r _ _ u)

pub reply_connecting :
    (st : State) (s : Session)
    → st ≡ connecting_to_destination
    → HasSocket s
    → s.address_type ≢ domain_name
    → ReplyIn st s
reply_connecting connecting_to_destination s e d ne = (d, ne)
reply_connecting reading_auth_methods s e d ne = cc
reply_connecting reading_client_greeting s e d ne = cc
reply_connecting reading_client_connection_request s e d ne = cc
reply_connecting reading_domain_name_length s e d ne = cc
reply_connecting reading_address s e d ne = cc
reply_connecting proxying_requests s e d ne = cc

pub granted-Goes :
    (busy : List ℕ) (m : Machine) (type : AddressType)
    → Ready busy m
    → own m ≡ []
    → Rests m.session
    → m.session.state ≡ connecting_to_destination
    → HasSocket m.session
    → m.session.address_type ≢ domain_name
    → m.session.address_type ≡ type
    → GoesFrom busy m (reply_granted type m)
unfolding reply_granted
granted-Goes busy m ipv4 h e r st d ne t =
    write_to_client-Goes busy _ h e r (λ _. reply_connecting _ _ st d ne)
granted-Goes busy m ipv6 h e r st d ne t =
    write_to_client-Goes busy _ h e r (λ _. reply_connecting _ _ st d ne)
granted-Goes busy m domain_name h e r st d ne t = absurd (ne t)
