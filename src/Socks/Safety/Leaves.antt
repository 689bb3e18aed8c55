-- ===== src/Socks/Safety/Leaves.antt =====
-- The requests that end each handler.
use modern_cpp_hw.Prelude.{
  ℕ, ◌≤◌, ◌≡◌, ◌≢◌, refl, ap, List, [], ◌∷◌, Bool, true, false, length, inl, inr, arith, incr_size,
}
use modern_cpp_hw.Socks.Outcome.{Outcome}
use modern_cpp_hw.Socks.Events.{EventType, client_read, client_write, destination_connect}
use modern_cpp_hw.Socks.Session.{
  Session, State, reading_client_greeting, reading_auth_methods, reading_client_connection_request,
  reading_domain_name_length, reading_address, connecting_to_destination, proxying_requests,
  AddressType, domain_name, ReadGoal,
}
use modern_cpp_hw.Socks.Ring.{
  Machine, Sqe, await_one, submit_event, add_client_read_request, client_read_sqe,
  add_client_write_request, client_write_sqe, with_destination, add_destination_connect_request,
}
use modern_cpp_hw.Socks.Transfer.{with_session, write_to_client, copy_to_buffer1}
use modern_cpp_hw.Socks.Handshake.{start_connect}
use modern_cpp_hw.Socks.Flight.{Flight, size_of}
use modern_cpp_hw.Socks.Flight.Submit.{with_ring, Submitted, submit_event-Submitted}
use modern_cpp_hw.Socks.Safety.{
  debt, Goal, GoalIn, HasSocket, IsReading, IsReplying, Waits, Fits, own, Ready, Rests, GoesFrom,
}

-- A handler that ends by one request, and leaves a session that fits it.
pub goes_by :
    (busy : List ℕ) (m : Machine) (f : Flight) (r : Outcome Machine)
    → Fits m.session (f ∷ own m)
    → Submitted busy m (f ∷ []) r
    → GoesFrom busy m r
goes_by busy m f r fit (e, qs, eq, st) = record {
  end = with_ring m e qs;
  added = f ∷ [];
  returns = eq;
  same = refl;
  steps = st;
  fits = fit;
  kept = refl;
}

pub debt-le : (st : State) → debt st ≤ 1
debt-le connecting_to_destination = omega arith
debt-le _ = omega arith

pub submitted :
    (busy : List ℕ) (type : EventType) (sqe : Sqe) (m : Machine)
    → Ready busy m
    → Submitted busy m (record { type = type; size = size_of sqe } ∷ []) (submit_event type sqe m)
submitted busy type sqe m h = submit_event-Submitted busy type sqe m h.sound (omega (arith, h.room))

Waits-reading :
    (st : State) (g : ReadGoal) (c : ℕ) (t : AddressType) (n : ℕ) (s : Session) (fs : List Flight)
    → GoalIn st g c t n
    → IsReading s fs
    → Waits st s fs
Waits-reading reading_client_greeting g c t n s fs h r = r
Waits-reading reading_auth_methods g c t n s fs h r = inl r
Waits-reading reading_client_connection_request g c t n s fs h r = r
Waits-reading reading_domain_name_length g c t n s fs h r = r
Waits-reading reading_address g c t n s fs h r = r
Waits-reading connecting_to_destination g c t n s fs h r = absurd h
Waits-reading proxying_requests g c t n s fs h r = absurd h

-- ++awaiting_events_count
abbrev pub awaits : Session → Session
awaits s = record s { awaiting_events_count = incr_size s.awaiting_events_count }

Fits-reading :
    (s : Session) (n : ℕ) (fs : List Flight)
    → fs ≡ []
    → Rests s
    → Goal s
    → Fits (awaits s) (record { type = client_read; size = n } ∷ fs)
Fits-reading s n fs e h g = record {
  counted = ground (arith, debt-le s.state);
  bounded = ground (arith, debt-le s.state);
  shut_late = ground (arith, h.rest_fd);
  bytes = h.rest_bytes;
  alive = λ _. (
    h.rest_fd,
    Waits-reading s.state s.read_goal s.auth_methods_count s.address_type s.domain_name_length
        (awaits s) _ g (n, ap (λ r. record { type = client_read; size = n } ∷ r) e, g),
  );
}

pub add_client_read_request-Goes :
    (busy : List ℕ) (m : Machine)
    → Ready busy m
    → own m ≡ []
    → Rests m.session
    → Goal m.session
    → GoesFrom busy m (add_client_read_request m)
unfolding add_client_read_request await_one
add_client_read_request-Goes busy m h e r g =
    goes_by busy (with_session awaits m) _ _ (Fits-reading m.session _ _ e r g) (
      submitted busy client_read (client_read_sqe m.server.is_root m.session)
        (with_session awaits m) h)

-- A reply is written after the choice of a method, to grant the request, or to a failed session.
abbrev pub ReplyIn : State → Session → Type 0
ReplyIn reading_auth_methods s = Unit {0}
ReplyIn connecting_to_destination s = HasSocket s × (s.address_type ≢ domain_name)
ReplyIn _ s = ⊥

Waits-replying :
    (st : State) (s : Session) (fs : List Flight) → ReplyIn st s → IsReplying s fs → Waits st s fs
Waits-replying reading_auth_methods s fs h r = inr r
Waits-replying connecting_to_destination s fs h r = (inr r, h.0, h.1)
Waits-replying reading_client_greeting s fs h r = absurd h
Waits-replying reading_client_connection_request s fs h r = absurd h
Waits-replying reading_domain_name_length s fs h r = absurd h
Waits-replying reading_address s fs h r = absurd h
Waits-replying proxying_requests s fs h r = absurd h

Fits-replying :
    (s : Session) (n : ℕ) (fs : List Flight)
    → fs ≡ []
    → n ≤ length s.write_client_buffer
    → Rests s
    → (s.failed ≡ false → ReplyIn s.state (awaits s))
    → Fits (awaits s) (record { type = client_write; size = n } ∷ fs)
Fits-replying s n fs e l h g = record {
  counted = ground (arith, debt-le s.state);
  bounded = ground (arith, debt-le s.state);
  shut_late = ground (arith, h.rest_fd);
  bytes = h.rest_bytes;
  alive = λ a. (
    h.rest_fd,
    Waits-replying s.state (awaits s) _ (g a)
        (n, ap (λ r. record { type = client_write; size = n } ∷ r) e, l),
  );
}

size_client_write :
    (root : Bool) (s : Session) (n offset : ℕ) → size_of (client_write_sqe root s n offset) ≡ n
unfolding client_write_sqe
size_client_write true s n offset = refl
size_client_write false s n offset = refl

pub write_to_client-Goes :
    (busy : List ℕ) (m : Machine)
    → Ready busy m
    → own m ≡ []
    → Rests m.session
    → (m.session.failed ≡ false → ReplyIn m.session.state (awaits m.session))
    → GoesFrom busy m (write_to_client m)
unfolding write_to_client copy_to_buffer1 add_client_write_request await_one client_write_sqe
write_to_client-Goes busy m h e r g =
    goes_by busy _ _ _
      (Fits-replying m.session _ _ e (rw (size_client_write m.server.is_root) (omega arith)) r g)
      (submitted busy client_write _ _ h)

Fits-connecting :
    (s : Session) (n : ℕ) (fs : List Flight)
    → fs ≡ []
    → s.awaiting_events_count ≡ 1
    → Rests s
    → HasSocket s
    → s.address_type ≢ domain_name
    → Fits
        (record s { state = connecting_to_destination })
        (record { type = destination_connect; size = n } ∷ fs)
Fits-connecting s n fs e c h d t = record {
  counted = ground (arith, e);
  bounded = omega arith;
  shut_late = λ _. omega arith;
  bytes = h.rest_bytes;
  alive = λ _.
      (h.rest_fd, (inl (n, ap (λ r. record { type = destination_connect; size = n } ∷ r) e), d, t));
}

pub start_connect-Goes :
    (busy : List ℕ) (m : Machine)
    → Ready busy m
    → own m ≡ []
    → m.session.awaiting_events_count ≡ 1
    → Rests m.session
    → HasSocket m.session
    → m.session.address_type ≢ domain_name
    → GoesFrom busy m (start_connect m)
unfolding start_connect add_destination_connect_request with_destination
start_connect-Goes busy m h e c r (d, hd) t =
    rw (hd, with_destination)
      (goes_by busy (with_session (λ s. record s { state = connecting_to_destination }) m) _ _
        (Fits-connecting m.session _ _ e c r (d, hd) t)
        (submitted busy destination_connect _
          (with_session (λ s. record s { state = connecting_to_destination }) m) h))
