-- ===== src/Socks/Stream/Reads.antt =====
-- hw2-socks5-server: the reads of a request (Session::handle_client_read of src/server.cpp), against the layout of the whole.
use mathlib.Core.Path.{subst}
use modern_cpp_hw.Prelude.{
  ℕ, zero, suc, ◌≤◌, ◌≡◌, refl, ap, sym, List, ◌++◌, true, if◌then◌else◌, inl, inr, arith,
  Bool-cases, IsBytes, append-nil,
}
use modern_cpp_hw.Socks.Outcome.{Outcome}
use modern_cpp_hw.Socks.Os.{Os}
use modern_cpp_hw.Socks.Session.{
  State, reading_client_greeting, reading_auth_methods, reading_client_connection_request,
  reading_domain_name_length, reading_address, connecting_to_destination, proxying_requests,
  AddressType, ipv4, domain_name, ipv6, ReadGoal, is_read_completed,
}
use modern_cpp_hw.Socks.Buffers.{read_memory}
use modern_cpp_hw.Socks.Ring.{Machine, add_client_read_request}
use modern_cpp_hw.Socks.Handshake.{read_address}
use modern_cpp_hw.Socks.Handlers.{
  on_read_completed, insert_read, collect_read, client_read_body, client_read_at,
  handle_client_read,
}
use modern_cpp_hw.Socks.Handlers.Depth.{rank, rank-pos, rank-le}
use modern_cpp_hw.Socks.Stream.{Asked, layout, HeardIn, Heard, Serves, arrived}
use modern_cpp_hw.Socks.Stream.Steps.{Heard-unfinished, Serves-kept, ServesBelow, at_least-le}
use modern_cpp_hw.Socks.Stream.Greeting.{greeting-Serves, methods-Serves}
use modern_cpp_hw.Socks.Stream.Request.{name_length-Serves, request-Serves}
use modern_cpp_hw.Socks.Stream.Address.{address-Serves}

module _ (os : Os) (again : Machine → Outcome Machine) (d : ℕ) (m : Machine) (bytes : List ℕ)
    (b : IsBytes bytes) where
  -- The state is `st`, and reads a message of the layout `lay`.
  state_completed-Serves :
      (st : State)
      → rank st ≤ suc d
      → ServesBelow (layout st) os d again
      → HeardIn st m.session.auth_methods_count m.session.address_type m.session.read_goal
          m.session.domain_name_length m.session.read_buffer bytes
      → is_read_completed m.session.read_goal m.session.read_buffer ≡ true
      → Serves (layout st) os m bytes (layout st bytes) (on_read_completed os again st m)
  unfolding on_read_completed read_address
  state_completed-Serves reading_client_greeting k ih (g, e) full =
      greeting-Serves os again m bytes b (λ m' ys k'. ih m' ys (omega arith)) e
        (at_least-le _ 3 _ g full)
  state_completed-Serves reading_auth_methods k ih (g, e, z) full =
      methods-Serves os m bytes z e (at_least-le _ _ _ g full)
  state_completed-Serves reading_client_connection_request k ih (g, e) full =
      request-Serves os again m bytes b (λ m' ys k'. ih m' ys (omega arith)) e
        (at_least-le _ 4 _ g full)
  state_completed-Serves reading_domain_name_length k ih (g, e, t) full =
      name_length-Serves os again m bytes b (λ m' ys k'. ih m' ys (omega arith)) t e
        (at_least-le _ 1 _ g full)
  state_completed-Serves reading_address k ih h full = address-Serves os m bytes _ b h full
  state_completed-Serves connecting_to_destination k ih h full = elim h [ ]
  state_completed-Serves proxying_requests k ih h full = elim h [ ]

  on_read_completed-Serves :
      (lay : List ℕ → Asked)
      → rank m.session.state ≤ suc d
      → ServesBelow lay os d again
      → Heard lay m.session bytes
      → is_read_completed m.session.read_goal m.session.read_buffer ≡ true
      → Serves lay os m bytes (lay bytes) (on_read_completed os again m.session.state m)
  on_read_completed-Serves lay k ih (l, h) full =
      subst (λ f. Serves f os m bytes (f bytes) (on_read_completed os again m.session.state m)) l
        (state_completed-Serves m.session.state k (subst (λ f. ServesBelow f os d again) (sym l) ih)
          h full)

collected-Serves :
    (lay : List ℕ → Asked) (os : Os) (again : Machine → Outcome Machine) (d : ℕ) (m : Machine)
    (bytes : List ℕ)
    → rank m.session.state ≤ suc d
    → ServesBelow lay os d again
    → Heard lay m.session bytes
    → IsBytes bytes
    → Serves lay os m bytes (lay bytes) (
        if is_read_completed m.session.read_goal m.session.read_buffer
        then on_read_completed os again m.session.state m
        else add_client_read_request m)
collected-Serves lay os again d m bytes k ih h b =
    elim (Bool-cases (is_read_completed m.session.read_goal m.session.read_buffer)) [
      | inl full ↦ rw full (on_read_completed-Serves os again d m bytes b lay k ih h full)
      | inr short ↦
          rw (short, Heard-unfinished lay m.session bytes h b short) (m.session, refl, refl, h)
    ]

Heard-append :
    (st : State) (count : ℕ) (type : AddressType) (goal : ReadGoal) (n : ℕ)
    (left bytes more : List ℕ)
    → HeardIn st count type goal n left bytes
    → HeardIn st count type goal n (left ++ more) (bytes ++ more)
Heard-append reading_client_greeting count type goal n left bytes more (g, e) =
    (g, ap (λ xs. xs ++ more) e)
Heard-append reading_auth_methods count type goal n left bytes more (g, e, z) =
    (g, ap (λ xs. xs ++ more) e, z)
Heard-append reading_client_connection_request count type goal n left bytes more (g, e) =
    (g, ap (λ xs. xs ++ more) e)
Heard-append reading_domain_name_length count type goal n left bytes more (g, e, t) =
    (g, ap (λ xs. xs ++ more) e, t)
Heard-append reading_address count ipv4 goal n left bytes more (g, e) = (g, ap (λ xs. xs ++ more) e)
Heard-append reading_address count ipv6 goal n left bytes more (g, e) = (g, ap (λ xs. xs ++ more) e)
Heard-append reading_address count domain_name goal n left bytes more (g, e) =
    (g, ap (λ xs. xs ++ more) e)
Heard-append connecting_to_destination count type goal n left bytes more h = h
Heard-append proxying_requests count type goal n left bytes more h = h

collect_read-Serves :
    (lay : List ℕ → Asked) (os : Os) (again : Machine → Outcome Machine) (d n : ℕ) (m : Machine)
    (bytes : List ℕ)
    → rank m.session.state ≤ suc d
    → ServesBelow lay os d again
    → Heard lay m.session bytes
    → IsBytes (bytes ++ arrived n m)
    → Serves lay os m
        (bytes ++ arrived n m)
        (lay (bytes ++ arrived n m))
        (collect_read os again n m)
unfolding collect_read insert_read
collect_read-Serves lay os again d n m bytes k ih h b =
    Serves-kept lay os m (insert_read n m).session _ _ _ refl (
      collected-Serves lay os again d (insert_read n m) (bytes ++ arrived n m) k ih
        (h.0, Heard-append m.session.state _ _ _ _ _ bytes (arrived n m) h.1) b)

body-collects :
    (os : Os) (again : Machine → Outcome Machine) (st : State) (count : ℕ) (type : AddressType)
    (goal : ReadGoal) (k n : ℕ) (left bytes : List ℕ) (m : Machine)
    → HeardIn st count type goal k left bytes
    → client_read_body os again st n m ≡ collect_read os again n m
unfolding client_read_body
body-collects os again reading_client_greeting count type goal k n left bytes m h = refl
body-collects os again reading_auth_methods count type goal k n left bytes m h = refl
body-collects os again reading_client_connection_request count type goal k n left bytes m h = refl
body-collects os again reading_domain_name_length count type goal k n left bytes m h = refl
body-collects os again reading_address count type goal k n left bytes m h = refl
body-collects os again connecting_to_destination count type goal k n left bytes m h = elim h [ ]
body-collects os again proxying_requests count type goal k n left bytes m h = elim h [ ]

Serves-of :
    (lay : List ℕ → Asked) (os : Os) (m : Machine) (xs ys : List ℕ) (r : Outcome Machine)
    → xs ≡ ys
    → Serves lay os m xs (lay xs) r
    → Serves lay os m ys (lay ys) r
Serves-of lay os m xs ys r e h = rw (sym e) h

client_read_at-Serves :
    (lay : List ℕ → Asked) (d : ℕ) (os : Os) (n : ℕ) (m : Machine) (bytes : List ℕ)
    → rank m.session.state ≤ d
    → Heard lay m.session bytes
    → IsBytes (bytes ++ arrived n m)
    → Serves lay os m (bytes ++ arrived n m) (lay (bytes ++ arrived n m)) (client_read_at d os n m)
unfolding client_read_at read_memory
client_read_at-Serves lay zero os n m bytes k h b = absurd (rank-pos m.session.state (omega arith))
client_read_at-Serves lay (suc d) os n m bytes k h b =
    rw (body-collects os (client_read_at d os 0) m.session.state _ _ _ _ n _ bytes m h.1) (
      collect_read-Serves lay os _ d n m bytes k
        (λ m' ys k' h' b'.
          Serves-of lay os m' _ ys _ (append-nil ys)
            (client_read_at-Serves lay d os 0 m' ys k' h' (rw (append-nil ys) b')))
        h b)

pub handle_client_read-Serves :
    (lay : List ℕ → Asked) (os : Os) (n : ℕ) (m : Machine) (bytes : List ℕ)
    → Heard lay m.session bytes
    → IsBytes (bytes ++ arrived n m)
    → Serves lay os m
        (bytes ++ arrived n m)
        (lay (bytes ++ arrived n m))
        (handle_client_read os n m)
unfolding handle_client_read
handle_client_read-Serves lay os n m bytes h b =
    client_read_at-Serves lay 3 os n m bytes (rank-le m.session.state) h b
