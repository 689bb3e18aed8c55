-- ===== src/Socks/Safety/Client.antt =====
-- handle_client_read during the handshake.
use modern_cpp_hw.Prelude.{
  ℕ, zero, suc, ◌+◌, ◌≤◌, ◌≡◌, refl, List, [], ◌∷◌, ◌++◌, true, length, inl, inr, arith, Bool-cases,
}
use modern_cpp_hw.Socks.Outcome.{Outcome}
use modern_cpp_hw.Socks.Os.{Os}
use modern_cpp_hw.Socks.Buffers.{read_memory}
use modern_cpp_hw.Socks.Session.{
  State, reading_client_greeting, reading_auth_methods, reading_client_connection_request,
  reading_domain_name_length, reading_address, connecting_to_destination, proxying_requests,
  ReadGoal, always, non_empty, at_least, is_read_completed,
}
use modern_cpp_hw.Socks.Ring.{Machine}
use modern_cpp_hw.Socks.Handshake.{read_address}
use modern_cpp_hw.Socks.Handlers.{
  on_read_completed, insert_read, collect_read, client_read_body, client_read_at,
  handle_client_read,
}
use modern_cpp_hw.Socks.Handlers.Depth.{rank, rank-le, rank-pos}
use modern_cpp_hw.Socks.Safety.{Goal, GoalIn, IsKind, own, Ready, Rests, GoesFrom}
use modern_cpp_hw.Prelude.{IsBytes}
use modern_cpp_hw.Socks.Safety.Leaves.{add_client_read_request-Goes}
use modern_cpp_hw.Socks.Safety.Reading.{
  read_client_greeting-Goes, read_auth_methods-Goes, read_client_connection_request-Goes,
  read_domain_name_length-Goes,
}
use modern_cpp_hw.Socks.Safety.Pieces.{GoesBelow}
use modern_cpp_hw.Socks.Safety.Address.{read_address_of-Goes}

full :
    (g : ReadGoal) (n : ℕ) (xs : List ℕ)
    → g ≡ at_least n
    → is_read_completed g xs ≡ true
    → n ≤ length xs
unfolding is_read_completed
full always n xs e h = cc
full non_empty n xs e h = cc
full (at_least k) n xs e h = ground arith

pub read_memory-IsBytes : (memory : ℕ → ℕ) (at n : ℕ) → IsBytes (read_memory memory at n)
unfolding read_memory
read_memory-IsBytes memory at zero = tt
read_memory-IsBytes memory at (suc n) = (omega arith, read_memory-IsBytes memory (at + 1) n)

pub append-IsBytes : (xs ys : List ℕ) → IsBytes xs → IsBytes ys → IsBytes (xs ++ ys)
append-IsBytes [] ys hx hy = hy
append-IsBytes (x ∷ xs) ys hx hy = (hx.0, append-IsBytes xs ys hx.1 hy)

module _ (busy : List ℕ) (os : Os) (k : IsKind os) (again : Machine → Outcome Machine) (d : ℕ)
    (ih : GoesBelow busy d again) (m : Machine) (h : Ready busy m) (e : own m ≡ [])
    (r : Rests m.session) where
  Goal-at :
      (s : State)
      → m.session.state ≡ s
      → Goal m.session
      → GoalIn s m.session.read_goal m.session.auth_methods_count m.session.address_type
          m.session.domain_name_length
  Goal-at s st g = rw st at g

  completed-Goes :
      (s : State)
      → m.session.state ≡ s
      → rank s ≤ suc d
      → GoalIn s m.session.read_goal m.session.auth_methods_count m.session.address_type
          m.session.domain_name_length
      → is_read_completed m.session.read_goal m.session.read_buffer ≡ true
      → GoesFrom busy m (on_read_completed os again s m)
  unfolding on_read_completed read_address
  completed-Goes reading_client_greeting st l g c =
      read_client_greeting-Goes busy os again m k h e r (λ m' l'. ih m' (omega arith)) st
        (full _ 3 _ g c)
  completed-Goes reading_auth_methods st l g c =
      read_auth_methods-Goes busy os again m k h e r st (full _ _ _ g c)
  completed-Goes reading_client_connection_request st l g c =
      read_client_connection_request-Goes busy os again m k h e r (λ m' l'. ih m' (omega arith)) st
        (full _ 4 _ g c)
  completed-Goes reading_domain_name_length st l g c =
      read_domain_name_length-Goes busy os again m k h e r (λ m' l'. ih m' (omega arith)) st g.1
        (full _ 1 _ g.0 c)
  completed-Goes reading_address st l g c =
      read_address_of-Goes busy os k m h e r st m.session.address_type refl g.1 (full _ _ _ g.0 c)
  completed-Goes connecting_to_destination st l g c = absurd g
  completed-Goes proxying_requests st l g c = absurd g

collect_read-Goes :
    (busy : List ℕ) (os : Os) (k : IsKind os) (again : Machine → Outcome Machine) (d : ℕ)
    (ih : GoesBelow busy d again) (n : ℕ) (m : Machine)
    → Ready busy m
    → own m ≡ []
    → Rests m.session
    → rank m.session.state ≤ suc d
    → Goal m.session
    → GoesFrom busy m (collect_read os again n m)
unfolding collect_read insert_read
collect_read-Goes busy os k again d ih n m h e r l g =
    elim (Bool-cases
      (is_read_completed m.session.read_goal (insert_read n m).session.read_buffer)) [
        | inl c ↦ rw c (
            completed-Goes busy os k again d ih (insert_read n m) h e rests m.session.state refl l g
              c)
        | inr c ↦ rw c (add_client_read_request-Goes busy (insert_read n m) h e rests g)
      ]
  where
    rests : Rests (insert_read n m).session
    rests = record {
      rest_counted = r.rest_counted;
      rest_bytes = append-IsBytes _ _ r.rest_bytes (read_memory-IsBytes _ _ n);
      rest_fd = r.rest_fd;
    }

body-Goes :
    (busy : List ℕ) (os : Os) (k : IsKind os) (again : Machine → Outcome Machine) (d : ℕ)
    (ih : GoesBelow busy d again) (n : ℕ) (m : Machine) (s : State)
    → m.session.state ≡ s
    → Ready busy m
    → own m ≡ []
    → Rests m.session
    → rank m.session.state ≤ suc d
    → Goal m.session
    → GoesFrom busy m (client_read_body os again s n m)
unfolding client_read_body
body-Goes busy os k again d ih n m proxying_requests st h e r l g = absurd (rw st at g)
body-Goes busy os k again d ih n m reading_address st h e r l g =
    collect_read-Goes busy os k again d ih n m h e r l g
body-Goes busy os k again d ih n m _ st h e r l g =
    collect_read-Goes busy os k again d ih n m h e r l g

pub client_read_at-Goes :
    (busy : List ℕ) (os : Os) (k : IsKind os) (d n : ℕ) (m : Machine)
    → rank m.session.state ≤ d
    → Ready busy m
    → own m ≡ []
    → Rests m.session
    → Goal m.session
    → GoesFrom busy m (client_read_at d os n m)
unfolding client_read_at
client_read_at-Goes busy os k zero n m l h e r g = absurd (rank-pos m.session.state (omega arith))
client_read_at-Goes busy os k (suc d) n m l h e r g =
    body-Goes busy os k (client_read_at d os 0) d
      (λ m' l' h' e' r' g'. client_read_at-Goes busy os k d 0 m' l' h' e' r' g') n m m.session.state
      refl h e r l g

pub handle_client_read-Goes :
    (busy : List ℕ) (os : Os) (k : IsKind os) (n : ℕ) (m : Machine)
    → Ready busy m
    → own m ≡ []
    → Rests m.session
    → Goal m.session
    → GoesFrom busy m (handle_client_read os n m)
unfolding handle_client_read
handle_client_read-Goes busy os k n m =
    client_read_at-Goes busy os k 3 n m (rank-le m.session.state)
