-- ===== src/Socks/Server/Completion.antt =====
-- The handling of a completion, from the decrement of the count to the return of the event
-- (IoUring::event_loop of src/server.cpp).
use modern_cpp_hw.Prelude.{
  ℕ, suc, ◌+◌, ◌≤◌, ◌<◌, ◌≡◌, ◌∙◌, refl, ap, List, [], ◌∷◌, Bool, true, false, ◌&&◌, ◌==◌,
  if◌then◌else◌, length, arith, Option-cases, Bool-cases, inl, inr, decr_size, u32, ◌^◌,
}
use modern_cpp_hw.Socks.Outcome.{Outcome, done, ◌>>=◌}
use modern_cpp_hw.Socks.Os.{Os}
use modern_cpp_hw.Socks.Session.{
  Session, State, reading_client_greeting, reading_auth_methods, reading_client_connection_request,
  reading_domain_name_length, reading_address, connecting_to_destination, proxying_requests,
}
use modern_cpp_hw.Socks.Ring.{Machine}
use modern_cpp_hw.Socks.Flight.{Flight, ids}
use modern_cpp_hw.Socks.Safety.{held}
use modern_cpp_hw.Socks.Safety.{Fits, debt, IsKind, HasFd, Waits, Goes, GoesFrom, Ready}
use modern_cpp_hw.Socks.Safety.Failing.{Steps-refl, fail_immediately-Goes}
use modern_cpp_hw.Socks.Safety.Dispatch.{waited-Goes}
use modern_cpp_hw.Socks.Safety.Removed.{Removed, Removed-length}
use modern_cpp_hw.Socks.Server.{
  Server, Res, negative, count, store, dispatch, settle, on_failure, on_success, on_result,
}
use modern_cpp_hw.Socks.Server.Store.{length-erase, lookup-update_ne}
use modern_cpp_hw.Socks.Server.Invariant.{Elsewhere, Inv, Handling, flights}
use modern_cpp_hw.Socks.Server.Settle.{store-Inv}
use modern_cpp_hw.Socks.Server.Delete.{delete_session-Inv}

-- The function returns, with a server for which the invariant holds while `i` is busy.
abbrev pub Settled : ℕ → ℕ → ℕ → Server → Outcome Server → Type 0
Settled i n p v r = (w : Server) × (r ≡ done w) × Inv (i ∷ []) n w × Elsewhere p v w

and_left : (a b : Bool) → (a && b) ≡ true → b ≡ true
and_left true b e = e
and_left false b e = cc

when_true : (b : Bool) (x y : Outcome Server) → b ≡ true → (if b then x else y) ≡ x
when_true true x y e = refl
when_true false x y e = cc

when_false : (b : Bool) (x y : Outcome Server) → b ≡ false → (if b then x else y) ≡ y
when_false true x y e = cc
when_false false x y e = refl

redirect :
    {i n : ℕ} (p : ℕ) (v : Server) {r r' : Outcome Server}
    → r ≡ r'
    → Settled i n p v r'
    → Settled i n p v r
redirect p v e (w, d, inv, els) = (w, e ∙ d, inv, els)

store-Elsewhere : (p : ℕ) (v : Server) (m : Machine) → m.this ≡ p → Elsewhere p v (store v m)
store-Elsewhere p v m e c ne = lookup-update_ne m.this c m.session v.sessions (rw e ne)

Waits-count :
    (st : State) (s : Session) (k : ℕ) (fs : List Flight)
    → Waits st s fs
    → Waits st (record s { awaiting_events_count = k }) fs
Waits-count reading_client_greeting s k fs w = w
Waits-count reading_auth_methods s k fs w = w
Waits-count reading_client_connection_request s k fs w = w
Waits-count reading_domain_name_length s k fs w = w
Waits-count reading_address s k fs w = w
Waits-count connecting_to_destination s k fs w = w
Waits-count proxying_requests s k fs w = w

module _ (os : Os) (k : IsKind os) (i n p : ℕ) (s : Session) (v : Server)
    (h : Handling i n p s v) where
  settle-Settled :
      (r : Outcome Machine)
      (g : Goes (i ∷ []) p v.uring.event_pool v.uring.pending (held s v.uring.buffer_pool) r)
      → Settled i n p v (settle os v g.end)
  unfolding settle
  settle-Settled r g =
      elim (Bool-cases (g.end.session.failed && (g.end.session.awaiting_events_count == 0))) [
        | inl y ↦
            let (w, d, inv, els) =
              delete_session-Inv i n p s v h g.end g.added g.same g.steps g.kept
                (is_zero _
                  (and_left g.end.session.failed (g.end.session.awaiting_events_count == 0) y))
                g.fits.counted os k in
            (w, rw y d, inv, els)
        | inr y ↦ (
          store v g.end,
          rw y refl,
          store-Inv i n p s v h g.end g.added g.same g.steps g.kept g.fits,
          store-Elsewhere p v g.end g.same,
        )
      ]
    where
      is_zero : (x : ℕ) → (x == 0) ≡ true → x ≡ 0
      is_zero x q = ground arith

  abbrev stays :
      (m : Machine)
      → m.this ≡ p
      → m.server ≡ v.uring
      → Fits m.session (flights p v)
      → held m.session v.uring.buffer_pool ≡ held s v.uring.buffer_pool
      → Goes (i ∷ []) p v.uring.event_pool v.uring.pending (held s v.uring.buffer_pool) (done m)
  stays m e u f b = record {
    end = m;
    added = [];
    returns = refl;
    same = e;
    steps = rw u (Steps-refl (i ∷ []) p _ _ h.h_sound);
    fits = f;
    kept = ap (λ r. held m.session r.buffer_pool) u ∙ b;
  }

  -- The session with one event less to wait for.
  abbrev taken : Machine
  taken = record {
    this = p;
    session = record s { awaiting_events_count = decr_size s.awaiting_events_count };
    server = v.uring;
  }

  module _ (f : Flight) (fs : List Flight) (fit : Fits s fs)
      (one : Removed f fs (flights p v)) where
    left : s.awaiting_events_count ≡ suc (debt s.state + length (flights p v))
    left = omega (arith, fit.counted, Removed-length f fs (flights p v) one)

    taken_counted : decr_size s.awaiting_events_count ≡ debt s.state + length (flights p v)
    taken_counted = omega (arith, left, fit.bounded)

    taken_bounded : decr_size s.awaiting_events_count ≤ 1
    taken_bounded = omega (arith, taken_counted, left, fit.bounded)

    taken_room :
        length (i ∷ []) + length (ids v.uring.pending) + 1 < length v.uring.event_pool.events
    taken_room =
        omega
          (arith, h.h_many, h.h_small, h.h_slots, h.h_events, length-erase p s v.sessions h.h_here)

    taken-Ready : Ready (i ∷ []) taken
    taken-Ready = record { sound = h.h_sound; room = taken_room }

    -- Once it has failed, it only waits.
    failed-Fits : s.failed ≡ true → Fits taken.session (flights p v)
    failed-Fits e = record {
      counted = taken_counted;
      bounded = omega (arith, taken_bounded);
      shut_late = λ _. omega (arith, taken_bounded);
      bytes = fit.bytes;
      alive = λ a. cc;
    }

    dispatched-Goes :
        (c : ℕ)
        → c ≤ f.size
        → s.failed ≡ false
        → GoesFrom (i ∷ []) taken (dispatch os f.type c taken)
    dispatched-Goes c l e =
        let (fd, w) = fit.alive e in
        waited-Goes (i ∷ []) os k taken taken-Ready taken_counted taken_bounded fit.bytes fd s.state
          f fs c refl (Waits-count s.state s _ fs w) l one

    on_success-Settled : (c : ℕ) → c ≤ f.size → Settled i n p v (on_success os f.type c v taken)
    unfolding on_success
    on_success-Settled c l = elim (Bool-cases s.failed) [
      | inl y ↦
          redirect p v (when_true s.failed _ _ y)
            (settle-Settled (done taken) (stays taken refl refl (failed-Fits y) refl))
      | inr y ↦
          let g = dispatched-Goes c l y in
          redirect p v (when_false s.failed _ _ y ∙ ap (λ r. r >>= settle os v) g.returns)
            (settle-Settled _ g)
    ]

    on_failure-Settled : Settled i n p v (on_failure os v taken)
    unfolding on_failure
    on_failure-Settled = elim (Bool-cases (decr_size s.awaiting_events_count == 0)) [
      | inl y ↦
          let (w, d, inv, els) =
            delete_session-Inv i n p s v h taken [] refl (Steps-refl (i ∷ []) p _ _ h.h_sound) refl
              (is_zero _ y) taken_counted os k in
          (w, rw y d, inv, els)
      | inr y ↦
          let g =
            fail_immediately-Goes (i ∷ []) os taken k taken-Ready (still_open y) taken_counted
              taken_bounded fit.bytes in
          (
            store v g.end,
            rw (y, g.returns) refl,
            store-Inv i n p s v h g.end g.added g.same g.steps g.kept g.fits,
            store-Elsewhere p v g.end g.same,
          )
    ]
      where
        is_zero : (x : ℕ) → (x == 0) ≡ true → x ≡ 0
        is_zero x q = ground arith

        -- A descriptor that is closed is waited for once at most.
        still_open : (decr_size s.awaiting_events_count == 0) ≡ false → HasFd taken.session
        still_open y = elim (Option-cases s.fd) [
          | inl e ↦ absurd (ground (arith, fit.shut_late e, left))
          | inr e ↦ e
        ]

    pub on_result-Settled :
        (res : Res)
        → ((c : ℕ) → res ≡ count c → (c ≤ f.size) × (c < 2 ^ 32))
        → Settled i n p v (on_result os f.type res v taken)
    unfolding on_result
    on_result-Settled (negative e) b = on_failure-Settled
    on_result-Settled (count c) b = rw (small c (b c refl).1) (on_success-Settled c (b c refl).0)
      where
        small : (c : ℕ) → c < 2 ^ 32 → u32 c ≡ c
        small c l = omega arith
