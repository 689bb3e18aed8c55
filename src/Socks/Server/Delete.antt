-- ===== src/Socks/Server/Delete.antt =====
-- The deletion of a session that waits for nothing (Session::~Session of src/server.cpp).
use native.Mathlib.Decide.{ℕ_discrete}
use modern_cpp_hw.Prelude.{
  ℕ, ◌+◌, ◌≤◌, ◌≡◌, ◌∙◌, refl, ap, sym, List, [], ◌∷◌, ◌++◌, Option, none, some, length,
  length-append, arith,
}
use modern_cpp_hw.Socks.Outcome.{done}
use modern_cpp_hw.Socks.Os.{Os}
use modern_cpp_hw.Socks.Buffers.{return_buffer}
use modern_cpp_hw.Socks.Sockets.{or_exit, close_unless_absent, closed_by, destroy_socket}
use modern_cpp_hw.Socks.Session.{Session}
use modern_cpp_hw.Socks.Ring.{Machine}
use modern_cpp_hw.Socks.Flight.{Flight, Steps, in_flight, occurrences}
use modern_cpp_hw.Socks.Flight.Count.{occurrences-append}
use modern_cpp_hw.Socks.Safety.{Held, held, Fits, debt, IsKind}
use modern_cpp_hw.Socks.Safety.Failing.{destroy_socket-done}
use modern_cpp_hw.Socks.Server.{Server, lookup, erase, delete_session}
use modern_cpp_hw.Socks.Server.Store.{
  lookup-erase_self, lookup-erase_ne, erase-Distinct, length-erase, total-erase, holders-erase,
}
use modern_cpp_hw.Socks.Server.Invariant.{IsInPlace, Elsewhere, Inv, Handling, flights}
use modern_cpp_hw.Socks.Server.Settle.{elsewhere, empty_elsewhere}

no_flights : (fs : List Flight) → length fs ≡ 0 → fs ≡ []
no_flights [] h = refl
no_flights (f ∷ fs) h = absurd (ground arith)

some-none : (o : Option Session) (t : Session) → o ≡ some t → o ≡ none → ⊥
some-none o t a b = cc

close_unless_absent-done :
    (os : Os) (fd : Option ℕ) (trace : List (Option ℕ))
    → IsKind os
    → (trace' : List (Option ℕ)) × (or_exit (close_unless_absent os fd trace) ≡ done trace')
unfolding or_exit close_unless_absent closed_by
close_unless_absent-done os none trace k = (trace, refl)
close_unless_absent-done os (some fd) trace k = (some fd ∷ trace, rw (k.closes fd) refl)

module _ (i n p : ℕ) (s : Session) (v : Server) (h : Handling i n p s v) (m : Machine)
    (added : List Flight) (same : m.this ≡ p)
    (steps : Steps
      (i ∷ [])
      p
      added
      v.uring.event_pool
      v.uring.pending
      m.server.event_pool
      m.server.pending)
    (kept : held m.session m.server.buffer_pool ≡ held s v.uring.buffer_pool)
    (zero_left : m.session.awaiting_events_count ≡ 0)
    (counted : m.session.awaiting_events_count
      ≡ debt m.session.state + length (added ++ flights p v)) where
  abbrev now : ℕ → List Flight
  now q = in_flight q m.server.event_pool.events m.server.pending

  nothing_left : now p ≡ []
  nothing_left = steps.own ∙ no_flights (added ++ flights p v) (omega (arith, zero_left, counted))

  -- What the deletion leaves.
  abbrev without : List (Option ℕ) → Server
  without trace = record v {
    uring = record m.server {
      closed = trace;
      buffer_pool = return_buffer m.session.buffer_index m.server.buffer_pool;
    };
    sessions = erase p v.sessions;
  }

  erased-Fits : (q : ℕ) (t : Session) → lookup q (erase p v.sessions) ≡ some t → Fits t (now q)
  erased-Fits q t e = elim (ℕ_discrete q p) [
    | yes y ↦ absurd (
        some-none (lookup p (erase p v.sessions)) t (rw y at e)
          (lookup-erase_self p v.sessions h.h_distinct))
    | no ne ↦
        elsewhere i n p s v h m added same steps kept q t ne
          (sym (lookup-erase_ne p q v.sessions ne) ∙ e)
  ]

  erased_halves : (q : ℕ) (t : Session) → lookup q (erase p v.sessions) ≡ some t → IsInPlace t
  erased_halves q t e = elim (ℕ_discrete q p) [
    | yes y ↦ absurd (
        some-none (lookup p (erase p v.sessions)) t (rw y at e)
          (lookup-erase_self p v.sessions h.h_distinct))
    | no ne ↦ h.h_halves q t (sym (lookup-erase_ne p q v.sessions ne) ∙ e)
  ]

  erased_absent : (q : ℕ) → lookup q (erase p v.sessions) ≡ none → now q ≡ []
  erased_absent q e = elim (ℕ_discrete q p) [
    | yes y ↦ rw y nothing_left
    | no ne ↦
        empty_elsewhere i n p s v h m added same steps kept q ne
          (sym (lookup-erase_ne p q v.sessions ne) ∙ e)
  ]

  erased_fresh : (q : ℕ) → v.next_session ≤ q → lookup q (erase p v.sessions) ≡ none
  erased_fresh q l = elim (ℕ_discrete q p) [
    | yes y ↦ absurd (some-none (lookup p v.sessions) s h.h_here (rw y at (h.h_fresh q l)))
    | no ne ↦ lookup-erase_ne p q v.sessions ne ∙ h.h_fresh q l
  ]

  erased-Inv : (trace : List (Option ℕ)) → Inv (i ∷ []) n (without trace)
  unfolding return_buffer
  erased-Inv trace = record {
    sound = steps.sound;
    events = steps.size ∙ h.h_events;
    fits = erased-Fits;
    absent = erased_absent;
    fresh = erased_fresh;
    distinct = erase-Distinct p v.sessions h.h_distinct;
    many = omega (
      arith,
      total-erase p s v.sessions h.h_here,
      steps.more,
      h.h_many,
      h.h_expected,
      zero_left,
      counted,
      length-append added (flights p v),
    );
    buffers = λ k. omega (
      arith,
      holders-erase k p s v.sessions h.h_here,
      h.h_buffers k,
      ap (λ (x : Held). occurrences k x.0) kept,
      occurrences-append k m.server.buffer_pool.free_buffers (m.session.buffer_index ∷ []),
    );
    halves = erased_halves;
    slots = omega (
      arith,
      length-erase p s v.sessions h.h_here,
      h.h_slots,
      ap (λ (x : Held). length x.0) kept,
      length-append m.server.buffer_pool.free_buffers (m.session.buffer_index ∷ []),
    );
  }

  deleted_as :
      (os : Os) (trace trace' : List (Option ℕ))
      → or_exit (close_unless_absent os m.session.fd m.server.closed) ≡ done trace
      → destroy_socket os m.session.destination_socket trace ≡ done trace'
      → delete_session os v m ≡ done (without trace')
  unfolding delete_session
  deleted_as os trace trace' a b = rw (a, b, same) refl

  pub delete_session-Inv :
      (os : Os)
      → IsKind os
      → (w : Server) × (delete_session os v m ≡ done w) × Inv (i ∷ []) n w × Elsewhere p v w
  delete_session-Inv os k =
      let (trace, a) = close_unless_absent-done os m.session.fd m.server.closed k in
      let (trace', b) = destroy_socket-done os m.session.destination_socket trace k in
      (
        without trace',
        deleted_as os trace trace' a b,
        erased-Inv trace',
        λ c ne. lookup-erase_ne p c v.sessions ne,
      )
