-- ===== src/Socks/Accepts/Runs.antt =====
-- hw2-socks5-server: the pending accepts over a run of the event loop (IoUring::event_loop of
-- src/server.cpp).
use modern_cpp_hw.Prelude.{
  ℕ, ◌≤◌, ◌≡◌, ◌≢◌, ◌∙◌, refl, sym, ap, List, [], ◌∷◌, Option, none, some, Bool, arith,
}
use modern_cpp_hw.Socks.Outcome.{done, bind-eq-done}
use modern_cpp_hw.Socks.Ring.{Request, add_client_accept_request, submit}
use modern_cpp_hw.Socks.Server.{Server, negative, handle_cqe, io_uring}
use modern_cpp_hw.Socks.Kernel.{Round, round, rounds, complete, pick, event_loop}
use modern_cpp_hw.Socks.Kernel.Pick.{pick-Picked}
use modern_cpp_hw.Socks.Kernel.Safe.{fill_as}
use modern_cpp_hw.Socks.Kernel.Runs.{started}
use modern_cpp_hw.Socks.Accepts.{accepts, count_accept}
use modern_cpp_hw.Socks.Accepts.Loop.{Continues, done-inj}
use modern_cpp_hw.Socks.Accepts.Rounds.{
  Turn, of_session, accepted, not_accepted, round-Turn, Picked-accepts,
}

Continues-trans : (a b : ℕ) (u v w : Server) → Continues a u v → Continues b v w → Continues b u w
Continues-trans a b u v w g h = record {
  accepting = h.accepting;
  made = h.made ∙ g.made;
  none_new = λ p l. h.none_new p (g.none_new p l);
}

idle_round : (k : Round) (v w : Server) → accepts v.uring.pending ≡ 0 → Turn k v w → Continues 0 v w
idle_round k v w z (of_session c) = rw z at c
idle_round k v w z (accepted a n e) = absurd (omega (arith, z, n))
idle_round k v w z (not_accepted a e q rest p u r n c) = absurd (omega (arith, z, n))

idle_rounds :
    (ks : List Round) (v w : Server)
    → accepts v.uring.pending ≡ 0
    → rounds ks v ≡ done w
    → Continues 0 v w
unfolding rounds
idle_rounds [] v w z e =
    rw (sym (done-inj v w e)) (record { accepting = z; made = refl; none_new = λ p l. l })
idle_rounds (k ∷ ks) v w z e =
    let (u, d, e') = bind-eq-done (round k v) (rounds ks) e in
    let c = idle_round k v u z (round-Turn k v u d) in
    Continues-trans 0 0 v u w c (idle_rounds ks u w c.accepting e')

round_at_most :
    (k : Round) (v w : Server) → Turn k v w → accepts w.uring.pending ≤ accepts v.uring.pending
round_at_most k v w (of_session c) = omega (arith, c.accepting)
round_at_most k v w (accepted a n e) = omega (arith, e)
round_at_most k v w (not_accepted a e q rest p u r n c) = omega (arith, n, c.accepting)

rounds_at_most :
    (ks : List Round) (v w : Server)
    → rounds ks v ≡ done w
    → accepts w.uring.pending ≤ accepts v.uring.pending
unfolding rounds
rounds_at_most [] v w e = rw (sym (done-inj v w e)) (omega arith)
rounds_at_most (k ∷ ks) v w e =
    let (u, d, e') = bind-eq-done (round k v) (rounds ks) e in
    omega (arith, round_at_most k v u (round-Turn k v u d), rounds_at_most ks u w e')

-- No accept that is completed on the way has failed.
abbrev pub NoneFails : List Round → Server → Type 0
NoneFails [] v = Unit {0}
NoneFails (k ∷ ks) v =
    ((q : Request) (rest : List Request) (e : ℕ)
      → pick k.place v.uring.pending ≡ some (q, rest)
      → q.user_data ≡ none
      → k.res ≢ negative e)
    × ((w : Server) → round k v ≡ done w → NoneFails ks w)

rounds_keep :
    (ks : List Round) (v w : Server)
    → NoneFails ks v
    → rounds ks v ≡ done w
    → accepts w.uring.pending ≡ accepts v.uring.pending
unfolding rounds
rounds_keep [] v w f e = ap (λ (x : Server). accepts x.uring.pending) (sym (done-inj v w e))
rounds_keep (k ∷ ks) v w (f, later) e =
    let (u, d, e') = bind-eq-done (round k v) (rounds ks) e in
    rounds_keep ks u w (later u d) e' ∙ kept u (round-Turn k v u d)
  where
    kept : (u : Server) → Turn k v u → accepts u.uring.pending ≡ accepts v.uring.pending
    kept u (of_session c) = c.accepting
    kept u (accepted a n e) = e
    kept u (not_accepted a e q rest p t r n c) = absurd (f q rest e p t r)

-- Whatever the system answers and the clients do, at no time after the start of the event loop is more
-- than one accept pending.
pub event_loop-accepts :
    (socket_fd : Option ℕ) (n : ℕ) (is_root : Bool) (ks : List Round) (w : Server)
    → event_loop ks (io_uring socket_fd n is_root) ≡ done w
    → accepts w.uring.pending ≤ 1
unfolding event_loop add_client_accept_request submit io_uring
event_loop-accepts socket_fd n is_root ks w e = rounds_at_most ks _ w e

-- Whatever else the system answers and the clients do, as long as no accept has failed exactly one accept
-- is pending after every round of the event loop.
pub event_loop-accepts_on :
    (socket_fd : Option ℕ) (n : ℕ) (is_root : Bool) (ks : List Round) (w : Server)
    → NoneFails ks (started socket_fd n is_root)
    → event_loop ks (io_uring socket_fd n is_root) ≡ done w
    → accepts w.uring.pending ≡ 1
unfolding event_loop add_client_accept_request submit io_uring
event_loop-accepts_on socket_fd n is_root ks w f e = rounds_keep ks _ w f e

failing_round :
    (k : Round) (v w : Server) (q : Request) (rest : List Request) (c : ℕ)
    → pick k.place v.uring.pending ≡ some (q, rest)
    → q.user_data ≡ none
    → k.res ≡ negative c
    → accepts v.uring.pending ≤ 1
    → round k v ≡ done w
    → Continues 0 v w
unfolding round complete handle_cqe
failing_round k v w q rest c p u r one e =
    let n = Picked-accepts q (pick-Picked _ _ _ _ p) ∙ ap (λ o. count_accept o (accepts rest)) u in
    let (memory, f) = fill_as q.sqe k.bytes v rest in
    rw (sym (done-inj _ w (rw (p, f, u, r) at e)))
      (record { accepting = omega (arith, n, one); made = refl; none_new = λ p l. l })

-- Once an accept has failed, whatever the system answers and the clients do in any later rounds, no
-- accept is ever pending again and no session is made: none is found that was not there before.
pub failed_accept_is_last :
    (socket_fd : Option ℕ) (n : ℕ) (is_root : Bool) (js ks : List Round) (k : Round) (v w : Server)
    (q : Request) (rest : List Request) (c : ℕ)
    → event_loop js (io_uring socket_fd n is_root) ≡ done v
    → pick k.place v.uring.pending ≡ some (q, rest)
    → q.user_data ≡ none
    → k.res ≡ negative c
    → rounds (k ∷ ks) v ≡ done w
    → Continues 0 v w
unfolding rounds event_loop add_client_accept_request submit io_uring
failed_accept_is_last socket_fd n is_root js ks k v w q rest c s p u r e =
    let (x, d, e') = bind-eq-done (round k v) (rounds ks) e in
    let f = failing_round k v x q rest c p u r (rounds_at_most js _ v s) d in
    Continues-trans 0 0 v x w f (idle_rounds ks x w f.accepting e')
