-- ===== src/Socks/Safety/Failing.antt =====
-- The two ways to fail (Session::fail_delayed and Session::fail_immediately of src/server.cpp).
use modern_cpp_hw.Prelude.{
  ℕ, ◌+◌, ◌≤◌, ◌≡◌, refl, ap, sym, List, [], ◌∷◌, ◌++◌, ◌∙◌, Option, none, some, true, length,
  length-append, append_assoc, inl, inr, arith, Option-cases,
}
use modern_cpp_hw.Socks.Outcome.{done}
use modern_cpp_hw.Socks.Os.{Os}
use modern_cpp_hw.Socks.Events.{EventPool}
use modern_cpp_hw.Socks.Sockets.{Socket, destroy_socket, or_exit, close_unless_absent, closed_by}
use modern_cpp_hw.Socks.Ring.{Machine, Request}
use modern_cpp_hw.Socks.Transfer.{
  with_session, with_closed, fail_delayed, fail_immediately, send_fail_message,
}
use modern_cpp_hw.Socks.Flight.{Flight, IsSound, Steps}
use modern_cpp_hw.Socks.Safety.{debt, HasFd, Fits, IsKind, own, Ready, Rests, GoesFrom}
use modern_cpp_hw.Prelude.{IsBytes}
use modern_cpp_hw.Socks.Safety.Leaves.{write_to_client-Goes}

pub Steps-refl :
    (busy : List ℕ) (p : ℕ) (e : EventPool) (qs : List Request)
    → IsSound busy e qs
    → Steps busy p [] e qs e qs
Steps-refl busy p e qs h = record {
  own = refl;
  others = λ q ne. refl;
  sound = h;
  more = omega arith;
  size = refl;
}

pub Steps-trans :
    (busy : List ℕ) (p : ℕ) (fs gs : List Flight) (e : EventPool) (qs : List Request)
    (e' : EventPool) (qs' : List Request) (e'' : EventPool) (qs'' : List Request)
    → Steps busy p fs e qs e' qs'
    → Steps busy p gs e' qs' e'' qs''
    → Steps busy p (gs ++ fs) e qs e'' qs''
Steps-trans busy p fs gs e qs e' qs' e'' qs'' a b = record {
  own = b.own ∙ ap (◌++◌ gs) a.own ∙ sym (append_assoc gs fs _);
  others = λ q ne. b.others q ne ∙ a.others q ne;
  sound = b.sound;
  more = omega (arith, length-append gs fs, a.more, b.more);
  size = b.size ∙ a.size;
}

pub destroy_socket-done :
    (os : Os) (s : Option Socket) (trace : List (Option ℕ))
    → IsKind os
    → (t : List (Option ℕ)) × (destroy_socket os s trace ≡ done t)
unfolding destroy_socket or_exit close_unless_absent closed_by
destroy_socket-done os none trace h = (trace, refl)
destroy_socket-done os (some s) trace h = elim (Option-cases s.fd) [
  | inl e ↦ (trace, rw e)
  | inr (fd, e) ↦ (some fd ∷ trace, rw e (rw (h.closes fd)))
]

abbrev pub delayed : List (Option ℕ) → Machine → Machine
delayed t m =
    with_closed (with_session (λ s. record s { failed = true; destination_socket = none }) m) t

pub fail_delayed-done :
    (os : Os) (m : Machine)
    → IsKind os
    → (t : List (Option ℕ)) × (fail_delayed os m ≡ done (delayed t m))
unfolding fail_delayed
fail_delayed-done os m h =
    let (t, e) = destroy_socket-done os m.session.destination_socket m.server.closed h in (t, rw e)

pub send_fail_message-Goes :
    (busy : List ℕ) (os : Os) (code : ℕ) (m : Machine)
    → IsKind os
    → Ready busy m
    → own m ≡ []
    → Rests m.session
    → GoesFrom busy m (send_fail_message os code m)
unfolding send_fail_message
send_fail_message-Goes busy os code m k h e r =
    let (t, f) = fail_delayed-done os m k in rw f (write_to_client-Goes busy _ h e r (λ a. cc))

abbrev shut : List (Option ℕ) → Machine → Machine
shut t m =
    with_closed
      (with_session (λ s. record s { failed = true; destination_socket = none; fd = none }) m) t

closed_open :
    (os : Os) (o : Option ℕ) (fd : ℕ) (t : List (Option ℕ))
    → IsKind os
    → o ≡ some fd
    → closed_by o t (os.close o) ≡ done (o ∷ t)
unfolding closed_by
closed_open os none fd t k e = cc
closed_open os (some c) fd t k e = rw (k.closes c)

fail_immediately-done :
    (os : Os) (m : Machine)
    → IsKind os
    → HasFd m.session
    → (t : List (Option ℕ)) × (fail_immediately os m ≡ done (shut t m))
unfolding fail_immediately
fail_immediately-done os m k (fd, hf) =
    let (t, f) = fail_delayed-done os m k in
    (m.session.fd ∷ t, rw f (rw (closed_open os m.session.fd fd t k hf)))

pub fail_immediately-Goes :
    (busy : List ℕ) (os : Os) (m : Machine)
    → IsKind os
    → Ready busy m
    → HasFd m.session
    → m.session.awaiting_events_count ≡ debt m.session.state + length (own m)
    → m.session.awaiting_events_count ≤ 1
    → IsBytes m.session.read_buffer
    → GoesFrom busy m (fail_immediately os m)
fail_immediately-Goes busy os m k h hf c l b =
    let (t, f) = fail_immediately-done os m k hf in
    record {
      end = shut t m;
      added = [];
      returns = f;
      same = refl;
      steps = Steps-refl busy m.this _ _ h.sound;
      fits = late;
      kept = refl;
    }
  where
    late : Fits (shut [] m).session (own m)
    late = record {
      counted = c;
      bounded = omega arith;
      shut_late = λ _. l;
      bytes = b;
      alive = λ a. cc;
    }
