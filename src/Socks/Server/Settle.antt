-- ===== src/Socks/Server/Settle.antt =====
-- How the handling of an event ends: the session is stored, or deleted.
use native.Mathlib.Decide.{ℕ_discrete}
use modern_cpp_hw.Prelude.{
  ℕ, ◌≤◌, ◌≡◌, ◌≢◌, ◌∙◌, ap, sym, List, [], ◌∷◌, ◌++◌, Option, none, some, length, length-append,
  arith,
}
use modern_cpp_hw.Socks.Session.{Session}
use modern_cpp_hw.Socks.Ring.{Machine}
use modern_cpp_hw.Socks.Flight.{Flight, Steps, in_flight, occurrences}
use modern_cpp_hw.Socks.Safety.{Held, held, Fits}
use modern_cpp_hw.Socks.Server.{Server, lookup, update, store}
use modern_cpp_hw.Socks.Buffers.{buffer_half0, buffer_half1}
use modern_cpp_hw.Socks.Server.Store.{
  lookup-update_self, lookup-update_ne, length-update, total-update, update-Distinct,
  holders-update,
}
use modern_cpp_hw.Socks.Server.Invariant.{IsInPlace, Inv, Handling, flights}

same_session : (o : Option Session) (s t : Session) → o ≡ some s → o ≡ some t → s ≡ t
same_session o s t a b = cc

not_found : (o : Option Session) (s : Session) → o ≡ some s → o ≡ none → ⊥
not_found o s a b = cc

abbrev pub first : List ℕ → ℕ
first [] = 0
first (x ∷ xs) = x

module _ (i n p : ℕ) (s : Session) (v : Server) (h : Handling i n p s v) (m : Machine)
    (added : List Flight) (same : m.this ≡ p)
    (steps : Steps
      (i ∷ [])
      p
      added
      v.uring.event_pool
      v.uring.pending
      m.server.event_pool
      m.server.pending)
    (kept : held m.session m.server.buffer_pool ≡ held s v.uring.buffer_pool) where
  abbrev pub now : ℕ → List Flight
  now q = in_flight q m.server.event_pool.events m.server.pending

  pub elsewhere : (q : ℕ) (t : Session) → q ≢ p → lookup q v.sessions ≡ some t → Fits t (now q)
  elsewhere q t ne e = rw (steps.others q ne) (h.h_others q t ne e)

  pub empty_elsewhere : (q : ℕ) → q ≢ p → lookup q v.sessions ≡ none → now q ≡ []
  empty_elsewhere q ne e = steps.others q ne ∙ h.h_absent q e

  abbrev kept_server : Server
  kept_server = record v { uring = m.server; sessions = update p m.session v.sessions }

  stored-Fits :
      Fits m.session (added ++ flights p v)
      → (q : ℕ) (t : Session) → lookup q (update p m.session v.sessions) ≡ some t
      → Fits t (now q)
  stored-Fits f q t e = elim (ℕ_discrete q p) [
    | yes y ↦
        rw (y, steps.own)
          (rw
            (← same_session (lookup p (update p m.session v.sessions)) m.session t
              (lookup-update_self p s m.session v.sessions h.h_here) (rw y at e))
            f)
    | no ne ↦ elsewhere q t ne (sym (lookup-update_ne p q m.session v.sessions ne) ∙ e)
  ]

  kept_halves : IsInPlace m.session
  kept_halves =
      let (x, y) = h.h_halves p s h.h_here in
      let i = ap (λ (x : Held). first x.0) (sym kept) in
      (
        ap (λ (x : Held). x.1) kept ∙ x ∙ ap buffer_half0 i,
        ap (λ (x : Held). x.2) kept ∙ y ∙ ap buffer_half1 i,
      )

  stored_absent : (q : ℕ) → lookup q (update p m.session v.sessions) ≡ none → now q ≡ []
  stored_absent q e = elim (ℕ_discrete q p) [
    | yes y ↦
        absurd
          (not_found _ m.session (lookup-update_self p s m.session v.sessions h.h_here) (rw y at e))
    | no ne ↦ empty_elsewhere q ne (sym (lookup-update_ne p q m.session v.sessions ne) ∙ e)
  ]

  stored_fresh : (q : ℕ) → v.next_session ≤ q → lookup q (update p m.session v.sessions) ≡ none
  stored_fresh q l = elim (ℕ_discrete q p) [
    | yes y ↦ absurd (not_found _ s h.h_here (rw y at (h.h_fresh q l)))
    | no ne ↦ lookup-update_ne p q m.session v.sessions ne ∙ h.h_fresh q l
  ]

  stored_halves :
      (q : ℕ) (t : Session) → lookup q (update p m.session v.sessions) ≡ some t → IsInPlace t
  stored_halves q t e = elim (ℕ_discrete q p) [
    | yes y ↦
        rw
          (← same_session (lookup p (update p m.session v.sessions)) m.session t
            (lookup-update_self p s m.session v.sessions h.h_here) (rw y at e))
          kept_halves
    | no ne ↦ h.h_halves q t (sym (lookup-update_ne p q m.session v.sessions ne) ∙ e)
  ]

  kept-Inv : Fits m.session (added ++ flights p v) → Inv (i ∷ []) n kept_server
  kept-Inv f = record {
    sound = steps.sound;
    events = steps.size ∙ h.h_events;
    fits = stored-Fits f;
    absent = stored_absent;
    fresh = stored_fresh;
    distinct = update-Distinct p m.session v.sessions h.h_distinct;
    many = omega (
      arith,
      total-update p s m.session v.sessions h.h_here,
      steps.more,
      h.h_many,
      h.h_expected,
      f.counted,
      length-append added (flights p v),
    );
    buffers = λ k. omega (
      arith,
      holders-update k p s m.session v.sessions h.h_here,
      h.h_buffers k,
      ap (λ (x : Held). occurrences k x.0) kept,
    );
    halves = stored_halves;
    slots = omega (
      arith,
      length-update p m.session v.sessions,
      ap (λ (x : Held). length x.0) kept,
      h.h_slots,
    );
  }

  -- The session goes back to the store.
  pub store-Inv : Fits m.session (added ++ flights p v) → Inv (i ∷ []) n (store v m)
  store-Inv f = rw same (kept-Inv f)
