-- ===== src/Socks/Kernel/Accept.antt =====
-- The completion of an accept (IoUring::handle_accept of src/server.cpp).
use native.Mathlib.Decide.{ℕ_discrete}
use modern_cpp_hw.Prelude.{
  ℕ, ◌+◌, ◌≤◌, ◌≡◌, ◌≢◌, ◌∙◌, refl, ap, sym, List, [], ◌∷◌, Option, none, some, true, false, length,
  length-append, arith, inl, inr, ◌==◌, ◌⊎◌,
}
use modern_cpp_hw.Socks.Outcome.{done}
use modern_cpp_hw.Socks.Os.{Os}
use modern_cpp_hw.Socks.Buffers.{BufferPool, obtain_free_buffer, take_front}
use modern_cpp_hw.Socks.Sockets.{closed_by}
use modern_cpp_hw.Socks.Session.{
  Session, at_least, is_read_completed, init_session, session_with, new_session,
}
use modern_cpp_hw.Socks.Ring.{
  Machine, Request, submit, add_client_accept_request, add_client_read_request,
}
use modern_cpp_hw.Socks.Transfer.{read_until, read_some_from_client}
use modern_cpp_hw.Socks.Flight.{Flight, occurrences}
use modern_cpp_hw.Socks.Buffers.{buffer_half0, buffer_half1}
use modern_cpp_hw.Socks.Server.Settle.{first}
use modern_cpp_hw.Socks.Safety.{Held}
use modern_cpp_hw.Socks.Safety.{Fits, IsKind, GoesFrom, own}
use modern_cpp_hw.Socks.Safety.Leaves.{add_client_read_request-Goes}
use modern_cpp_hw.Socks.Server.{
  Server, Res, negative, count, lookup, accept_session, handle_accept, handle_cqe,
}
use modern_cpp_hw.Socks.Server.Store.{expected, total-le}
use modern_cpp_hw.Socks.Server.Invariant.{IsInPlace, Grows, Inv, flights}
use modern_cpp_hw.Socks.Kernel.Pick.{Picked, accepted_ids, accepted_flights}
use modern_cpp_hw.Socks.Kernel.Safe.{served}

few : (s : Session) (fs : List Flight) → Fits s fs → expected s ≤ 2
few s fs f = omega (arith, f.bounded)

-- A new session of descriptor `fd` in the buffer `i`, before its first read.
abbrev newcomer : Session → ℕ → ℕ → Server → List ℕ → Machine
newcomer raw fd i v rest = record {
  this = v.next_session;
  session = record (init_session raw fd i) { awaiting_events_count = 1; read_goal = at_least 3 };
  server = record v.uring { buffer_pool = record v.uring.buffer_pool { free_buffers = rest } };
}

module _ (os : Os) (k : IsKind os) (n : ℕ) (v : Server) (h : Inv [] n v) (raw : Session)
    (fd : ℕ) where
  refused-Inv : (w : Server) × (accept_session os fd v none ≡ done w) × Inv [] n w × Grows v w
  unfolding accept_session closed_by
  refused-Inv = (
    record v { uring = record v.uring { closed = some fd ∷ v.uring.closed } },
    rw (k.closes fd) refl,
    record {
      sound = h.sound;
      events = h.events;
      fits = h.fits;
      absent = h.absent;
      fresh = h.fresh;
      distinct = h.distinct;
      many = h.many;
      buffers = h.buffers;
      halves = h.halves;
      slots = h.slots;
    },
    λ p s l. l,
  )

  module _ (i : ℕ) (rest : List ℕ) (front : v.uring.buffer_pool.free_buffers ≡ i ∷ rest) where
    abbrev new : Machine
    new = newcomer raw fd i v rest

    nothing_yet : own new ≡ []
    nothing_yet = h.absent v.next_session (h.fresh v.next_session (omega arith))

    reads : GoesFrom [] new (add_client_read_request new)
    unfolding init_session
    reads =
        add_client_read_request-Goes [] new
          (record {
            sound = h.sound;
            room = omega (
              arith,
              h.events,
              h.many,
              h.slots,
              ap (λ (l : List ℕ). length l) front,
              total-le v.sessions h.distinct (λ c s m. few s _ (h.fits c s m)),
            );
          })
          nothing_yet (record { rest_counted = refl; rest_bytes = tt; rest_fd = (fd, refl) }) refl

    -- With the new session in the store.
    abbrev joined : Server
    joined = record {
      uring = reads.end.server;
      sessions = (v.next_session, reads.end.session) ∷ v.sessions;
      next_session = v.next_session + 1;
    }

    equal : (c : ℕ) → (c == c) ≡ true
    equal c = ground arith

    differ : (a b : ℕ) → b ≢ a → (a == b) ≡ false
    differ a b e = ground arith

    lookup_new : lookup v.next_session joined.sessions ≡ some reads.end.session
    unfolding lookup
    lookup_new = rw (equal v.next_session) refl

    lookup_old : (c : ℕ) → c ≢ v.next_session → lookup c joined.sessions ≡ lookup c v.sessions
    unfolding lookup
    lookup_old c ne = rw (differ v.next_session c ne) refl

    joined-Fits :
        (c : ℕ) (s : Session) → lookup c joined.sessions ≡ some s → Fits s (flights c joined)
    joined-Fits c s l = elim (ℕ_discrete c v.next_session) [
      | yes y ↦
          rw (y, reads.steps.own) (rw (same_session _ _ s lookup_new (rw y at l)) at reads.fits)
      | no ne ↦ rw (reads.steps.others c ne) (h.fits c s (sym (lookup_old c ne) ∙ l))
    ]
      where
        same_session : (o : Option Session) (s t : Session) → o ≡ some s → o ≡ some t → s ≡ t
        same_session o s t a b = cc

    joined_absent : (c : ℕ) → lookup c joined.sessions ≡ none → flights c joined ≡ []
    joined_absent c l = elim (ℕ_discrete c v.next_session) [
      | yes y ↦ absurd (some-none _ reads.end.session lookup_new (rw y at l))
      | no ne ↦ reads.steps.others c ne ∙ h.absent c (sym (lookup_old c ne) ∙ l)
    ]
      where
        some-none : (o : Option Session) (t : Session) → o ≡ some t → o ≡ none → ⊥
        some-none o t a b = cc

    new_halves : IsInPlace reads.end.session
    unfolding init_session
    new_halves =
        let j = ap (λ (x : Held). first x.0) (sym reads.kept) in
        (
          ap (λ (x : Held). x.1) reads.kept ∙ ap buffer_half0 j,
          ap (λ (x : Held). x.2) reads.kept ∙ ap buffer_half1 j,
        )

    joined_halves : (c : ℕ) (s : Session) → lookup c joined.sessions ≡ some s → IsInPlace s
    joined_halves c s l = elim (ℕ_discrete c v.next_session) [
      | yes y ↦ rw (same _ _ s lookup_new (rw y at l)) at new_halves
      | no ne ↦ h.halves c s (sym (lookup_old c ne) ∙ l)
    ]
      where
        same : (o : Option Session) (s t : Session) → o ≡ some s → o ≡ some t → s ≡ t
        same o s t a b = cc

    joined-Inv : Inv [] n joined
    unfolding init_session
    joined-Inv = record {
      sound = reads.steps.sound;
      events = reads.steps.size ∙ h.events;
      fits = joined-Fits;
      absent = joined_absent;
      fresh = λ c l. lookup_old c (λ e. ground arith) ∙ h.fresh c (omega (arith, l));
      distinct = (h.fresh v.next_session (omega arith), h.distinct);
      many = omega (
        arith,
        h.many,
        reads.steps.more,
        reads.fits.counted,
        length-append reads.added (own new),
        ap (λ (l : List Flight). length l) nothing_yet,
      );
      buffers = λ k. omega (
        arith,
        h.buffers k,
        ap (occurrences k) front,
        ap (λ (x : Held). occurrences k x.0) reads.kept,
      );
      halves = joined_halves;
      slots = omega (
        arith,
        h.slots,
        ap (λ (l : List ℕ). length l) front,
        ap (λ (x : Held). length x.0) reads.kept,
      );
    }

    joined-Grows : Grows v joined
    joined-Grows c s l = elim (ℕ_discrete c v.next_session) [
      | yes y ↦ absurd (none_some _ s (rw y at l) (h.fresh v.next_session (omega arith)))
      | no ne ↦ lookup_old c ne ∙ l
    ]
      where
        none_some : (o : Option Session) (t : Session) → o ≡ some t → o ≡ none → ⊥
        none_some o t a b = cc

    accepted-Inv :
        (w : Server) × (accept_session os fd v
            (some (init_session raw fd i, record v.uring.buffer_pool { free_buffers = rest }))
          ≡ done w)
        × Inv [] n w
        × Grows v w
    unfolding accept_session read_some_from_client read_until is_read_completed init_session
    accepted-Inv = (joined, rw (reads.returns, reads.same) refl, joined-Inv, joined-Grows)

requested-Inv :
    (n : ℕ) (v : Server)
    → Inv [] n v
    → Inv [] n (record v { uring = add_client_accept_request v.uring })
unfolding add_client_accept_request submit
requested-Inv n v h = record {
  sound = record { once = h.sound.once; total = h.sound.total; labelled = h.sound.labelled };
  events = h.events;
  fits = h.fits;
  absent = h.absent;
  fresh = h.fresh;
  distinct = h.distinct;
  many = h.many;
  buffers = h.buffers;
  halves = h.halves;
  slots = h.slots;
}

front_or_empty : (xs : List ℕ) → (xs ≡ []) ⊎ ((i : ℕ) × (rest : List ℕ) × (xs ≡ i ∷ rest))
front_or_empty [] = inl refl
front_or_empty (i ∷ rest) = inr (i, rest, refl)

new_session-none :
    (raw : Session) (fd : ℕ) (b : BufferPool) → b.free_buffers ≡ [] → new_session raw fd b ≡ none
unfolding new_session session_with obtain_free_buffer take_front
new_session-none raw fd b e = ap (λ xs. session_with raw fd (take_front b xs)) e

new_session-some :
    (raw : Session) (fd : ℕ) (b : BufferPool) (i : ℕ) (rest : List ℕ)
    → b.free_buffers ≡ i ∷ rest
    → new_session raw fd b ≡ some (init_session raw fd i, record b { free_buffers = rest })
unfolding new_session session_with obtain_free_buffer take_front
new_session-some raw fd b i rest e = ap (λ xs. session_with raw fd (take_front b xs)) e

joins-Inv :
    (os : Os) (k : IsKind os) (n : ℕ) (v : Server) (h : Inv [] n v) (raw : Session) (fd : ℕ)
    → (w : Server) × (accept_session os fd v (new_session raw fd v.uring.buffer_pool) ≡ done w)
      × Inv [] n w
      × Grows v w
joins-Inv os k n v h raw fd = elim (front_or_empty v.uring.buffer_pool.free_buffers) [
  | inl e ↦ rw (new_session-none raw fd v.uring.buffer_pool e) (refused-Inv os k n v h raw fd)
  | inr (i, rest, e) ↦
      rw (new_session-some raw fd v.uring.buffer_pool i rest e)
        (accepted-Inv os k n v h raw fd i rest e)
]

handle_accept-Grows :
    (os : Os) (k : IsKind os) (n : ℕ) (v : Server) (h : Inv [] n v) (raw : Session) (fd : ℕ)
    → (w : Server) × (handle_accept os raw fd v ≡ done w) × Inv [] n w × Grows v w
unfolding handle_accept
handle_accept-Grows os k n v h raw fd =
    joins-Inv os k n (record v { uring = add_client_accept_request v.uring }) (requested-Inv n v h)
      raw fd

-- Where ::close of an open descriptor succeeds and the invariant of the loop holds for `n`
-- connections, handle_accept returns and the invariant holds again, whether a buffer is free for the
-- new client or it is turned away.
pub handle_accept-Inv :
    (os : Os) (k : IsKind os) (n : ℕ) (v : Server) (h : Inv [] n v) (raw : Session) (fd : ℕ)
    → (w : Server) × (handle_accept os raw fd v ≡ done w) × Inv [] n w
handle_accept-Inv os k n v h raw fd =
    let (w, d, inv, grows) = handle_accept-Grows os k n v h raw fd in (w, d, inv)

-- An accept that is no longer pending was in flight for no session.
pub accepted_served-Inv :
    (n : ℕ) (v : Server) (q : Request) (rest : List Request) (memory : ℕ → ℕ)
    → Inv [] n v
    → Picked q rest v.uring.pending
    → q.user_data ≡ none
    → Inv [] n (served v memory rest)
accepted_served-Inv n v q rest memory h p accepts = record {
  sound = record {
    once = λ j. omega (arith, h.sound.once j, ap (occurrences j) (accepted_ids q accepts p));
    total = omega (arith, h.sound.total, ap (λ (l : List ℕ). length l) (accepted_ids q accepts p));
    labelled = h.sound.labelled;
  };
  events = h.events;
  fits = λ c s l. rw (← accepted_flights q accepts c v.uring.event_pool.events p) (h.fits c s l);
  absent = λ c l. sym (accepted_flights q accepts c v.uring.event_pool.events p) ∙ h.absent c l;
  fresh = h.fresh;
  distinct = h.distinct;
  many = ap (λ (l : List ℕ). length l) (sym (accepted_ids q accepts p)) ∙ h.many;
  buffers = h.buffers;
  halves = h.halves;
  slots = h.slots;
}

-- The completion of an accept, which may have failed.
pub accept-Inv :
    (os : Os) (k : IsKind os) (n : ℕ) (v : Server) (h : Inv [] n v) (raw : Session) (res : Res)
    → (w : Server) × (handle_cqe os raw res none v ≡ done w) × Inv [] n w × Grows v w
unfolding handle_cqe
accept-Inv os k n v h raw (negative e) = (v, refl, h, λ p s l. l)
accept-Inv os k n v h raw (count fd) = handle_accept-Grows os k n v h raw fd
