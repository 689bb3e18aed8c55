-- ===== src/Socks/Accepts/Sessions.antt =====
-- hw2-socks5-server: the member functions of Session (src/server.cpp) add requests with an event only.
use modern_cpp_hw.Prelude.{
  ℕ, List, Option, none, some, Option-cases, inl, inr, ◌==◌, Bool, true, false,
}
use modern_cpp_hw.Socks.Outcome.{Outcome, fault, ◌>>=◌}
use modern_cpp_hw.Socks.Os.{Os}
use modern_cpp_hw.Socks.Events.{EventType, obtain_event}
use modern_cpp_hw.Socks.Sockets.{destroy_socket, close, Socket}
use modern_cpp_hw.Socks.Session.{ReadGoal}
use modern_cpp_hw.Socks.Ring.{
  Machine, Sqe, submit_event, submit_obtained, submit, await_one, add_destination_read_request,
  with_destination, add_client_read_request, add_client_write_request,
  add_destination_connect_request, add_destination_write_request,
}
use modern_cpp_hw.Socks.Transfer.{
  byte_at, erase_front, slice, fail_delayed, fail_immediately, consume_bytes_from_read_buffer,
  write_to_client, copy_to_buffer1, send_fail_message, read_until, read_some_from_client,
}
use modern_cpp_hw.Socks.Handshake.{
  read_client_greeting, read_auth_methods, choose_auth_method, read_client_connection_request,
  read_domain_name_length, read_address_type,
}
use modern_cpp_hw.Socks.Accepts.{
  HasAccepts, Leaves, bind-Leaves, chain-Leaves, if-Leaves, done-Leaves,
}

-- `a` accepts are pending.
module _ (a : ℕ) where
  submit_event-Leaves :
      (type : EventType) (sqe : Sqe) (m : Machine)
      → HasAccepts a m
      → Leaves a (submit_event type sqe m)
  unfolding submit_event submit_obtained submit
  submit_event-Leaves type sqe m h = elim (Option-cases (obtain_event m.server.event_pool)) [
    | inl y ↦ rw y (λ m' e. cc)
    | inr (y, z) ↦ rw z (done-Leaves a _ h)
  ]

  found-Leaves :
      (o : Option Socket) (x : Socket → Outcome Machine)
      → ((d : Socket) → Leaves a (x d))
      → Leaves a (elim o [ none ↦ fault | some d ↦ x d ])
  found-Leaves none x h = λ m e. cc
  found-Leaves (some d) x h = h d

  with_destination-Leaves :
      (f : Socket → Machine → Outcome Machine) (m : Machine)
      → ((d : Socket) → Leaves a (f d m))
      → Leaves a (with_destination f m)
  unfolding with_destination
  with_destination-Leaves f m h = found-Leaves m.session.destination_socket (λ d. f d m) h

  pub add_client_read_request-Leaves :
      (m : Machine) → HasAccepts a m → Leaves a (add_client_read_request m)
  unfolding add_client_read_request await_one
  add_client_read_request-Leaves m h = submit_event-Leaves _ _ _ h

  pub add_client_write_request-Leaves :
      (n offset : ℕ) (m : Machine) → HasAccepts a m → Leaves a (add_client_write_request n offset m)
  unfolding add_client_write_request await_one
  add_client_write_request-Leaves n offset m h = submit_event-Leaves _ _ _ h

  pub add_destination_connect_request-Leaves :
      (m : Machine) → HasAccepts a m → Leaves a (add_destination_connect_request m)
  unfolding add_destination_connect_request
  add_destination_connect_request-Leaves m h =
      with_destination-Leaves _ m (λ d. submit_event-Leaves _ _ _ h)

  pub add_destination_read_request-Leaves :
      (m : Machine) → HasAccepts a m → Leaves a (add_destination_read_request m)
  unfolding add_destination_read_request await_one
  add_destination_read_request-Leaves m h =
      with_destination-Leaves _ m (λ d. submit_event-Leaves _ _ _ h)

  pub add_destination_write_request-Leaves :
      (n offset : ℕ) (m : Machine)
      → HasAccepts a m
      → Leaves a (add_destination_write_request n offset m)
  unfolding add_destination_write_request await_one
  add_destination_write_request-Leaves n offset m h =
      with_destination-Leaves _ m (λ d. submit_event-Leaves _ _ _ h)

  fail_delayed-Leaves : (os : Os) (m : Machine) → HasAccepts a m → Leaves a (fail_delayed os m)
  unfolding fail_delayed
  fail_delayed-Leaves os m h =
      bind-Leaves a (destroy_socket os m.session.destination_socket m.server.closed) _
        (λ t e. done-Leaves a _ h)

  pub fail_immediately-Leaves :
      (os : Os) (m : Machine) → HasAccepts a m → Leaves a (fail_immediately os m)
  unfolding fail_immediately
  fail_immediately-Leaves os m h = chain-Leaves a _ _ (fail_delayed-Leaves os m h) (λ m' h'.
      bind-Leaves a (close os m'.session.fd m'.server.closed) _ (λ t e. done-Leaves a _ h'))

  pub consume-Leaves :
      (n : ℕ) (m : Machine) → HasAccepts a m → Leaves a (consume_bytes_from_read_buffer n m)
  unfolding consume_bytes_from_read_buffer
  consume-Leaves n m h =
      bind-Leaves a (erase_front n m.session.read_buffer) _ (λ rest e. done-Leaves a _ h)

  pub write_to_client-Leaves : (m : Machine) → HasAccepts a m → Leaves a (write_to_client m)
  unfolding write_to_client copy_to_buffer1
  write_to_client-Leaves m h = add_client_write_request-Leaves _ _ _ h

  pub send_fail_message-Leaves :
      (os : Os) (e : ℕ) (m : Machine) → HasAccepts a m → Leaves a (send_fail_message os e m)
  unfolding send_fail_message
  send_fail_message-Leaves os e m h =
      chain-Leaves a _ _ (fail_delayed-Leaves os m h) (λ m' h'. write_to_client-Leaves _ h')

  -- What the recursive call is known to do.
  abbrev pub Again : (Machine → Outcome Machine) → Type 0
  Again again = (m : Machine) → HasAccepts a m → Leaves a (again m)

  pub read_until-Leaves :
      (goal : ReadGoal) (again : Machine → Outcome Machine) (m : Machine)
      → Again again
      → HasAccepts a m
      → Leaves a (read_until goal again m)
  unfolding read_until
  read_until-Leaves goal again m ih h =
      if-Leaves a _ _ _ (ih _ h) (add_client_read_request-Leaves _ h)

  byte-Leaves :
      (xs : List ℕ) (i : ℕ) (f : ℕ → Outcome Machine)
      → ((b : ℕ) → Leaves a (f b))
      → Leaves a (byte_at xs i >>= f)
  byte-Leaves xs i f h = bind-Leaves a (byte_at xs i) f (λ b e. h b)

  pub slice-Leaves :
      (xs : List ℕ) (at n : ℕ) (f : List ℕ → Outcome Machine)
      → ((ys : List ℕ) → Leaves a (f ys))
      → Leaves a (slice xs at n >>= f)
  slice-Leaves xs at n f h = bind-Leaves a (slice xs at n) f (λ ys e. h ys)

  pub read_client_greeting-Leaves :
      (os : Os) (again : Machine → Outcome Machine) (m : Machine)
      → Again again
      → HasAccepts a m
      → Leaves a (read_client_greeting os again m)
  unfolding read_client_greeting read_some_from_client
  read_client_greeting-Leaves os again m ih h = byte-Leaves m.session.read_buffer 0 _ λ v.
      if-Leaves a _ _ _ (fail_immediately-Leaves os m h) (
        byte-Leaves m.session.read_buffer 1 _ λ c.
          if-Leaves a _ _ _ (fail_immediately-Leaves os _ h) (
            chain-Leaves a _ _ (consume-Leaves 2 _ h) (λ m' h'. read_until-Leaves _ again _ ih h')))

  choose_auth_method-Leaves :
      (os : Os) (b : Bool) (m : Machine) → HasAccepts a m → Leaves a (choose_auth_method os b m)
  unfolding choose_auth_method
  choose_auth_method-Leaves os true m h = done-Leaves a _ h
  choose_auth_method-Leaves os false m h = fail_delayed-Leaves os _ h

  pub read_auth_methods-Leaves :
      (os : Os) (m : Machine) → HasAccepts a m → Leaves a (read_auth_methods os m)
  unfolding read_auth_methods
  read_auth_methods-Leaves os m h =
      slice-Leaves m.session.read_buffer 0 m.session.auth_methods_count _ λ methods.
        chain-Leaves a _ _ (choose_auth_method-Leaves os _ m h) λ m1 h1.
          chain-Leaves a _ _ (consume-Leaves _ m1 h1) (λ m2 h2. write_to_client-Leaves _ h2)

  read_address_type-Leaves :
      (os : Os) (again : Machine → Outcome Machine) (type : ℕ) (m : Machine)
      → Again again
      → HasAccepts a m
      → Leaves a (read_address_type os again type m)
  unfolding read_address_type read_some_from_client
  read_address_type-Leaves os again type m ih h =
      if-Leaves a (type == 1) _ _ (read_until-Leaves _ again _ ih h) (
        if-Leaves a (type == 3) _ _ (read_until-Leaves _ again _ ih h) (
          if-Leaves a (type == 4) _ _ (read_until-Leaves _ again _ ih h)
            (send_fail_message-Leaves os 8 m h)))

  pub read_client_connection_request-Leaves :
      (os : Os) (again : Machine → Outcome Machine) (m : Machine)
      → Again again
      → HasAccepts a m
      → Leaves a (read_client_connection_request os again m)
  unfolding read_client_connection_request
  read_client_connection_request-Leaves os again m ih h = byte-Leaves m.session.read_buffer 0 _ λ v.
      if-Leaves a _ _ _ (send_fail_message-Leaves os 7 m h) (
        byte-Leaves m.session.read_buffer 1 _ λ c.
          if-Leaves a _ _ _ (send_fail_message-Leaves os 7 m h) (
            byte-Leaves m.session.read_buffer 2 _ λ z.
              if-Leaves a _ _ _ (send_fail_message-Leaves os 7 _ h) (
                byte-Leaves m.session.read_buffer 3 _ λ t.
                  chain-Leaves a _ _ (consume-Leaves 4 _ h)
                    (λ m' h'. read_address_type-Leaves os again t m' ih h'))))

  pub read_domain_name_length-Leaves :
      (again : Machine → Outcome Machine) (m : Machine)
      → Again again
      → HasAccepts a m
      → Leaves a (read_domain_name_length again m)
  unfolding read_domain_name_length read_some_from_client
  read_domain_name_length-Leaves again m ih h =
      byte-Leaves m.session.read_buffer 0 _
        λ n. chain-Leaves a _ _ (consume-Leaves 1 _ h) (λ m' h'. read_until-Leaves _ again _ ih h')
