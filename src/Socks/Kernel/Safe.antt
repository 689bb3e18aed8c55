-- ===== src/Socks/Kernel/Safe.antt =====
-- The completion of a request of a session (IoUring::event_loop of src/server.cpp).
use native.Mathlib.Decide.{ℕ_discrete}
use modern_cpp_hw.Prelude.{
  ℕ, zero, suc, ◌≤◌, ◌<◌, ◌^◌, ◌≡◌, ◌≢◌, ◌∙◌, refl, sym, List, [], ◌∷◌, none, some, length,
  length-append, arith, Option-cases, inl, inr, get_elem?,
}
use modern_cpp_hw.Socks.Outcome.{done}
use modern_cpp_hw.Socks.Os.{Os}
use modern_cpp_hw.Socks.Events.{Event, return_event}
use modern_cpp_hw.Socks.Session.{Session}
use modern_cpp_hw.Socks.Ring.{Sqe, read, write, read_fixed, write_fixed, accept, connect, Request}
use modern_cpp_hw.Socks.Flight.{Flight, IsSound, size_of}
use modern_cpp_hw.Socks.Flight.Count.{occurrences-append}
use modern_cpp_hw.Socks.Safety.{Fits, IsKind}
use modern_cpp_hw.Socks.Safety.Removed.{Removed, Removed-length}
use modern_cpp_hw.Socks.Server.{
  Server, Res, negative, count, lookup, finish_event, handle_event, handle_cqe, awaited_one,
  on_result,
}
use modern_cpp_hw.Socks.Server.Store.{expected, total-le}
use modern_cpp_hw.Socks.Server.Invariant.{Keeps, Inv, Handling, flights}
use modern_cpp_hw.Socks.Server.Completion.{Settled, on_result-Settled}
use modern_cpp_hw.Socks.Kernel.{fill}
use modern_cpp_hw.Socks.Kernel.Pick.{
  Picked, Picked-occurrences, Picked-length, Picked-own, Picked-others,
}

-- The server, with another content of its buffers and other pending requests.
abbrev pub served : Server → (ℕ → ℕ) → List Request → Server
served v memory qs = record v {
  uring = record v.uring {
    pending = qs;
    buffer_pool = record v.uring.buffer_pool { memory = memory };
  };
}

pub fill_as :
    (sqe : Sqe) (bytes : List ℕ) (v : Server) (rest : List Request)
    → (memory : ℕ → ℕ) × (record v { uring = fill sqe bytes (record v.uring { pending = rest }) }
        ≡ served v memory rest)
unfolding fill
fill_as (read fd at nbytes offset) bytes v rest = (_, refl)
fill_as (read_fixed fd at nbytes offset index) bytes v rest = (_, refl)
fill_as (write fd at nbytes offset) bytes v rest = (v.uring.buffer_pool.memory, refl)
fill_as (write_fixed fd at nbytes offset index) bytes v rest = (v.uring.buffer_pool.memory, refl)
fill_as (accept fd) bytes v rest = (v.uring.buffer_pool.memory, refl)
fill_as (connect fd address n) bytes v rest = (v.uring.buffer_pool.memory, refl)

-- The event goes back to the pool.
finish_event-Inv : (i n : ℕ) (w : Server) → Inv (i ∷ []) n w → Inv [] n (finish_event i w)
unfolding finish_event return_event
finish_event-Inv i n w h = record {
  sound = record {
    once = λ j.
        omega (arith, h.sound.once j, occurrences-append j w.uring.event_pool.free_events (i ∷ []));
    total = omega (arith, h.sound.total, length-append w.uring.event_pool.free_events (i ∷ []));
    labelled = h.sound.labelled;
  };
  events = h.events;
  fits = h.fits;
  absent = h.absent;
  fresh = h.fresh;
  distinct = h.distinct;
  many = h.many;
  buffers = h.buffers;
  halves = h.halves;
  slots = h.slots;
}

found :
    (events : List Event) (i : ℕ) → i < length events → (e : Event) × (get_elem? events i ≡ some e)
found [] i l = absurd (ground arith)
found (x ∷ xs) zero l = (x, refl)
found (x ∷ xs) (suc i) l = found xs i (omega arith)

at_most_two : (s : Session) (fs : List Flight) → Fits s fs → expected s ≤ 2
at_most_two s fs f = omega (arith, f.bounded)

not-Removed : (f : Flight) (fs gs : List Flight) → fs ≡ [] → Removed f fs gs → ⊥
not-Removed f fs gs e r = rw e at r

module _ (os : Os) (k : IsKind os) (n : ℕ) (v : Server) (h : Inv [] n v) (q : Request)
    (rest : List Request) (p : Picked q rest v.uring.pending) (memory : ℕ → ℕ) where
  abbrev now : Server
  now = served v memory rest

  module _ (i : ℕ) (mine : q.user_data ≡ some i) (res : Res)
      (within : (c : ℕ) → res ≡ count c → (c ≤ size_of q.sqe) × (c < 2 ^ 32)) where
    known : i < length v.uring.event_pool.events
    known = ground (arith, h.sound.once i, Picked-occurrences q i mine i p)

    busy-IsSound : IsSound (i ∷ []) v.uring.event_pool rest
    busy-IsSound = record {
      once = λ j. omega (arith, h.sound.once j, Picked-occurrences q i mine j p);
      total = omega (arith, h.sound.total, Picked-length q i mine p);
      labelled = h.sound.labelled;
    }

    module _ (e : Event) (is : get_elem? v.uring.event_pool.events i ≡ some e) where
      gone :
          Removed
            (record { type = e.type; size = size_of q.sqe })
            (flights e.client v)
            (flights e.client now)
      gone = Picked-own q i mine v.uring.event_pool.events e is p

      others : (c : ℕ) → c ≢ e.client → flights c v ≡ flights c now
      others c ne = Picked-others q i mine v.uring.event_pool.events e is c ne p

      absent_now : (c : ℕ) → lookup c v.sessions ≡ none → flights c now ≡ []
      absent_now c a = elim (ℕ_discrete c e.client) [
        | yes y ↦ absurd (not-Removed _ _ _ (rw y at (h.absent c a)) gone)
        | no ne ↦ sym (others c ne) ∙ h.absent c a
      ]

      handling : (s : Session) → lookup e.client v.sessions ≡ some s → Handling i n e.client s now
      handling s l = record {
        h_sound = busy-IsSound;
        h_events = h.events;
        h_here = l;
        h_expected = omega (arith, (h.fits e.client s l).counted, Removed-length _ _ _ gone);
        h_others = λ c t ne m. rw (← others c ne) (h.fits c t m);
        h_absent = absent_now;
        h_fresh = h.fresh;
        h_distinct = h.distinct;
        h_many = omega (arith, h.many, Picked-length q i mine p);
        h_small = total-le v.sessions h.distinct (λ c s m. at_most_two s _ (h.fits c s m));
        h_buffers = h.buffers;
        h_halves = h.halves;
        h_slots = h.slots;
      }

      settled :
          (s : Session)
          → lookup e.client v.sessions ≡ some s
          → Settled i n e.client now (
              on_result os e.type res now
                (awaited_one (record { this = e.client; session = s; server = now.uring })))
      unfolding awaited_one
      settled s l =
          on_result-Settled os k i n e.client s now (handling s l) _ _ (h.fits e.client s l) gone
            res within

      not_idle : (c : ℕ) → flights c v ≡ [] → c ≢ e.client
      not_idle c idle y = not-Removed _ _ _ (rw y at idle) gone

      finished :
          (s : Session)
          → lookup e.client v.sessions ≡ some s
          → (w : Server) × (handle_event os res e now ≡ done w) × Inv [] n w × Keeps v w
      unfolding handle_event finish_event
      finished s l =
          let (w, d, inv, els) = settled s l in
          (
            finish_event i w,
            rw (l, d, h.sound.labelled i e is) refl,
            finish_event-Inv i n w inv,
            λ c t m idle. els c (not_idle c idle) ∙ m,
          )

      pub handle_event-Inv :
          (w : Server) × (handle_event os res e now ≡ done w) × Inv [] n w × Keeps v w
      handle_event-Inv = elim (Option-cases (lookup e.client v.sessions)) [
        | inl a ↦ absurd (not-Removed _ _ _ (h.absent e.client a) gone)
        | inr (s, l) ↦ finished s l
      ]

    pub event-Inv :
        (raw : Session)
        → (w : Server) × (handle_cqe os raw res (some i) now ≡ done w) × Inv [] n w × Keeps v w
    unfolding handle_cqe
    event-Inv raw =
        let (e, is) = found v.uring.event_pool.events i known in
        let (w, d, inv, keeps) = handle_event-Inv e is in (w, by_event res e is w d, inv, keeps)
      where
        by_event :
            (res : Res) (e : Event)
            → get_elem? v.uring.event_pool.events i ≡ some e
            → (w : Server) → handle_event os res e now ≡ done w
            → handle_cqe os raw res (some i) now ≡ done w
        by_event (negative c) e is w d = rw is d
        by_event (count c) e is w d = rw is d
