-- ===== src/Socks/Accepts/Rounds.antt =====
-- hw2-socks5-server: the pending accepts from round to round of the event loop (IoUring::event_loop and
-- handle_accept of src/server.cpp).
use modern_cpp_hw.Prelude.{
  ℕ, suc, ◌≡◌, ◌∙◌, refl, sym, ap, List, Option, none, some, Option-cases, inl, inr,
}
use modern_cpp_hw.Socks.Outcome.{done, fault, bind-eq-done}
use modern_cpp_hw.Socks.Os.{Os}
use modern_cpp_hw.Socks.Sockets.{close}
use modern_cpp_hw.Socks.Session.{Session, new_session}
use modern_cpp_hw.Socks.Buffers.{BufferPool}
use modern_cpp_hw.Socks.Ring.{Request, add_client_accept_request, submit}
use modern_cpp_hw.Socks.Transfer.{read_some_from_client}
use modern_cpp_hw.Socks.Handlers.{handle_client_read}
use modern_cpp_hw.Socks.Server.{
  Server, Res, negative, count, accept_session, handle_accept, handle_cqe,
}
use modern_cpp_hw.Socks.Kernel.{Round, round, complete, pick}
use modern_cpp_hw.Socks.Kernel.Pick.{Picked, here, there, pick-Picked}
use modern_cpp_hw.Socks.Kernel.Safe.{served, fill_as}
use modern_cpp_hw.Socks.Accepts.{accepts, count_accept}
use modern_cpp_hw.Socks.Accepts.Sessions.{read_until-Leaves}
use modern_cpp_hw.Socks.Accepts.Handlers.{handle_client_read-Leaves}
use modern_cpp_hw.Socks.Accepts.Loop.{Continues, event-Continues, done-inj}

swap :
    (o p : Option ℕ) (n : ℕ) → count_accept o (count_accept p n) ≡ count_accept p (count_accept o n)
swap none none n = refl
swap none (some i) n = refl
swap (some i) none n = refl
swap (some i) (some j) n = refl

pub Picked-accepts :
    (q : Request) {rest qs : List Request}
    → Picked q rest qs
    → accepts qs ≡ count_accept q.user_data (accepts rest)
Picked-accepts q (here qs) = refl
Picked-accepts q (there r {rest} {qs} p) =
    ap (count_accept r.user_data) (Picked-accepts q p) ∙ swap r.user_data q.user_data (accepts rest)

accept_session-accepts :
    (os : Os) (fd : ℕ) (v w : Server) (o : Option (Session × BufferPool))
    → accept_session os fd v o ≡ done w
    → accepts w.uring.pending ≡ accepts v.uring.pending
unfolding accept_session read_some_from_client
accept_session-accepts os fd v w none e =
    let (t, d, e') = bind-eq-done (close os (some fd) v.uring.closed) _ e in
    ap (λ (x : Server). accepts x.uring.pending) (sym (done-inj _ w e'))
accept_session-accepts os fd v w (some (s, pool)) e =
    let (m, d, e') = bind-eq-done (read_some_from_client (handle_client_read os 0) 3 _) _ e in
    ap (λ (x : Server). accepts x.uring.pending) (sym (done-inj _ w e'))
    ∙ read_until-Leaves (accepts v.uring.pending) _ _ _ (handle_client_read-Leaves _ os 0) refl m d

handle_accept-accepts :
    (os : Os) (raw : Session) (fd : ℕ) (v w : Server)
    → handle_accept os raw fd v ≡ done w
    → accepts w.uring.pending ≡ suc (accepts v.uring.pending)
unfolding handle_accept add_client_accept_request submit
handle_accept-accepts os raw fd v w e =
    accept_session-accepts os fd _ w (new_session raw fd v.uring.buffer_pool) e

-- What a round may be: the completion of a session's request, an accept that gives a client, or one
-- that fails.
pub data Turn (k : Round) (v w : Server) : Type 0 where
  of_session : Continues (accepts v.uring.pending) v w → Turn k v w
  accepted :
      (a : ℕ)
      → accepts v.uring.pending ≡ suc a
      → accepts w.uring.pending ≡ accepts v.uring.pending
      → Turn k v w
  not_accepted :
      (a e : ℕ) (q : Request) (rest : List Request)
      → pick k.place v.uring.pending ≡ some (q, rest)
      → q.user_data ≡ none
      → k.res ≡ negative e
      → accepts v.uring.pending ≡ suc a
      → Continues a v w
      → Turn k v w

accept-Turn :
    (k : Round) (v w : Server) (q : Request) (rest : List Request) (memory : ℕ → ℕ) (res : Res)
    → pick k.place v.uring.pending ≡ some (q, rest)
    → q.user_data ≡ none
    → k.res ≡ res
    → accepts v.uring.pending ≡ suc (accepts rest)
    → handle_cqe k.os k.raw res none (served v memory rest) ≡ done w
    → Turn k v w
unfolding handle_cqe
accept-Turn k v w q rest memory (negative c) p u r n e =
    not_accepted (accepts rest) c q rest p u r n
      (rw (sym (done-inj _ w e)) (record { accepting = refl; made = refl; none_new = λ p l. l }))
accept-Turn k v w q rest memory (count fd) p u r n e =
    accepted (accepts rest) n
      (handle_accept-accepts k.os k.raw fd (served v memory rest) w e ∙ sym n)

picked-Turn :
    (k : Round) (v w : Server) (q : Request) (rest : List Request) (memory : ℕ → ℕ)
    (user_data : Option ℕ)
    → pick k.place v.uring.pending ≡ some (q, rest)
    → q.user_data ≡ user_data
    → handle_cqe k.os k.raw k.res user_data (served v memory rest) ≡ done w
    → Turn k v w
picked-Turn k v w q rest memory none p u e =
    accept-Turn k v w q rest memory k.res p u refl
      (Picked-accepts q (pick-Picked _ _ _ _ p) ∙ ap (λ o. count_accept o (accepts rest)) u) e
picked-Turn k v w q rest memory (some i) p u e = of_session (
    let n = Picked-accepts q (pick-Picked _ _ _ _ p) ∙ ap (λ o. count_accept o (accepts rest)) u in
    let c = event-Continues _ (served v memory rest) k.os k.raw k.res i (sym n) w e in
    record { accepting = c.accepting; made = c.made; none_new = c.none_new })

pub round-Turn : (k : Round) (v w : Server) → round k v ≡ done w → Turn k v w
unfolding round complete
round-Turn k v w e = elim (Option-cases (pick k.place v.uring.pending)) [
  | inl n ↦ absurd (no_fault w (rw n at e))
  | inr ((q, rest), p) ↦
      let (memory, f) = fill_as q.sqe k.bytes v rest in
      picked-Turn k v w q rest memory q.user_data p refl (rw (p, f) at e)
]
  where
    no_fault : (w : Server) → fault ≡ done w → ⊥
    no_fault w e = cc
