-- ===== src/Socks/Safety/Reading.antt =====
-- The steps of the handshake that read from the client (Session of src/server.cpp).
use modern_cpp_hw.Prelude.{
  ℕ, ◌≤◌, ◌≡◌, refl, ap, List, [], Option, Bool, true, false, length, arith, ◌==◌,
}
use modern_cpp_hw.Socks.Outcome.{Outcome, ◌>>=◌}
use modern_cpp_hw.Socks.Os.{Os}
use modern_cpp_hw.Socks.Session.{
  reading_client_greeting, reading_auth_methods, reading_client_connection_request,
  reading_domain_name_length, reading_address, domain_name,
}
use modern_cpp_hw.Socks.Ring.{Machine}
use modern_cpp_hw.Socks.Transfer.{with_session, read_some_from_client}
use modern_cpp_hw.Socks.Handshake.{
  read_client_greeting, read_auth_methods, read_client_connection_request, read_address_type,
  read_domain_name_length, choose_auth_method, has_zero,
}
use modern_cpp_hw.Socks.Safety.{debt, IsKind, own, Ready, Rests, GoesFrom}
use modern_cpp_hw.Socks.Safety.Leaves.{write_to_client-Goes}
use modern_cpp_hw.Socks.Safety.Failing.{send_fail_message-Goes, fail_delayed-done, delayed}
use modern_cpp_hw.Socks.Safety.Pieces.{
  GoesBelow, read_until-Goes, if-Goes, unless-Goes, done-Goes, byte-Goes, slice-Goes, consume-Goes,
  rests_on, fails-Goes, reply_auth, domain_goal,
}

-- What the handlers of the handshake share: a kind system, and a session of which nothing is pending.
module _ (busy : List ℕ) (os : Os) (again : Machine → Outcome Machine) (m : Machine) (k : IsKind os)
    (h : Ready busy m) (e : own m ≡ []) (r : Rests m.session) where
  pub read_client_greeting-Goes :
      GoesBelow busy 1 again
      → m.session.state ≡ reading_client_greeting
      → 3 ≤ length m.session.read_buffer
      → GoesFrom busy m (read_client_greeting os again m)
  unfolding read_client_greeting read_some_from_client
  read_client_greeting-Goes ih st full = byte-Goes _ 0 _ (omega arith) r.rest_bytes λ b _.
      unless-Goes (b == 5) _ _ (λ _. fails-Goes busy os m k h e r)
        λ _. byte-Goes _ 1 _ (omega arith) r.rest_bytes λ c _.
          if-Goes (c == 0) _ _ (λ _. fails-Goes busy os _ k h e r)
            λ _. consume-Goes 2 _ _ (omega arith) (
              read_until-Goes busy _ again 1 _ ih (omega arith) h e
                (rests_on reading_auth_methods 2 (ap debt st) r) refl)

  chosen-Goes :
      (found : Bool) (f : Machine → Outcome Machine)
      → ((t : List (Option ℕ))
          → GoesFrom busy m (f (delayed t (with_session (λ s. record s { auth_method = 0xff }) m))))
      → GoesFrom busy m (f (with_session (λ s. record s { auth_method = 0x00 }) m))
      → GoesFrom busy m (choose_auth_method os found m >>= f)
  unfolding choose_auth_method
  chosen-Goes true f lose win = win
  chosen-Goes false f lose win =
      let (t, eq) =
        fail_delayed-done os (with_session (λ s. record s { auth_method = 0xff }) m) k in
      done-Goes _ _ f eq (lose t)

  pub read_auth_methods-Goes :
      m.session.state ≡ reading_auth_methods
      → m.session.auth_methods_count ≤ length m.session.read_buffer
      → GoesFrom busy m (read_auth_methods os m)
  unfolding read_auth_methods
  read_auth_methods-Goes st full = slice-Goes _ 0 _ _ (omega arith) λ methods.
      chosen-Goes (has_zero methods) _
        (λ t.
          consume-Goes _ _ _ full
            (write_to_client-Goes busy _ h e (rests_on m.session.state _ refl r) (λ a. cc)))
        (consume-Goes _ _ _ full (
          write_to_client-Goes busy _ h e (rests_on m.session.state _ refl r)
            (λ _. reply_auth _ _ st)))

  pub read_client_connection_request-Goes :
      GoesBelow busy 2 again
      → m.session.state ≡ reading_client_connection_request
      → 4 ≤ length m.session.read_buffer
      → GoesFrom busy m (read_client_connection_request os again m)
  unfolding read_client_connection_request read_address_type read_some_from_client
  read_client_connection_request-Goes ih st full = byte-Goes _ 0 _ (omega arith) r.rest_bytes λ b _.
      unless-Goes (b == 5) _ _ (λ _. send_fail_message-Goes busy os 7 m k h e r)
        λ _. byte-Goes _ 1 _ (omega arith) r.rest_bytes λ c _.
          unless-Goes (c == 1) _ _ (λ _. send_fail_message-Goes busy os 7 m k h e r)
            λ _. byte-Goes _ 2 _ (omega arith) r.rest_bytes λ z _.
              unless-Goes (z == 0) _ _ (λ _. send_fail_message-Goes busy os 7 _ k h e r)
                λ _. byte-Goes _ 3 _ (omega arith) r.rest_bytes λ t _.
                  consume-Goes 4 _ _ (omega arith) (
                    if-Goes (t == 1) _ _
                      (λ _.
                        read_until-Goes busy _ again 2 _ ih (omega arith) h e
                          (rests_on reading_address 4 (ap debt st) r) (refl, tt))
                      λ _.
                        if-Goes (t == 3) _ _
                          (λ _.
                            read_until-Goes busy _ again 2 _ ih (omega arith) h e
                              (rests_on reading_domain_name_length 4 (ap debt st) r) (refl, refl))
                          λ _.
                            if-Goes (t == 4) _ _
                              (λ _.
                                read_until-Goes busy _ again 2 _ ih (omega arith) h e
                                  (rests_on reading_address 4 (ap debt st) r) (refl, tt))
                              λ _.
                                send_fail_message-Goes busy os 8 _ k h e
                                  (rests_on m.session.state 4 refl r))

  pub read_domain_name_length-Goes :
      GoesBelow busy 1 again
      → m.session.state ≡ reading_domain_name_length
      → m.session.address_type ≡ domain_name
      → 1 ≤ length m.session.read_buffer
      → GoesFrom busy m (read_domain_name_length again m)
  unfolding read_domain_name_length read_some_from_client
  read_domain_name_length-Goes ih st type full =
      byte-Goes _ 0 _ (omega arith) r.rest_bytes λ n short. consume-Goes 1 _ _ (omega arith) (
        read_until-Goes busy _ again 1 _ ih (omega arith) h e
          (rests_on reading_address 1 (ap debt st) r)
          (domain_goal m.session.address_type n type short))
