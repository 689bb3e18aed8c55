-- ===== src/Socks/Kernel/Runs.antt =====
-- Runs of the event loop from its start (IoUring::event_loop of src/server.cpp).
use modern_cpp_hw.Prelude.{
  ℕ, zero, suc, ◌+◌, ◌*◌, ◌≤◌, ◌<◌, ◌^◌, ◌≡◌, ◌∙◌, refl, ap, List, [], ◌∷◌, Option, none, some,
  Bool, false, length, arith, inl, inr, ltb, if◌then◌else◌, get_elem?, map,
}
use modern_cpp_hw.Socks.Outcome.{Outcome, done}
use modern_cpp_hw.Socks.Events.{Event, event_pool, range_from, blank_event}
use modern_cpp_hw.Socks.Buffers.{buffer_pool}
use modern_cpp_hw.Socks.Session.{
  Session, State, reading_client_greeting, reading_auth_methods, reading_client_connection_request,
  reading_domain_name_length, reading_address, connecting_to_destination, proxying_requests,
}
use modern_cpp_hw.Socks.Ring.{Request, submit, add_client_accept_request}
use modern_cpp_hw.Socks.Flight.{Flight, occurrences, size_of}
use modern_cpp_hw.Socks.Safety.{IsKind, Waits}
use modern_cpp_hw.Socks.Server.{Server, count, lookup, io_uring, handle_cqe}
use modern_cpp_hw.Socks.Server.Invariant.{Keeps, Inv, flights}
use modern_cpp_hw.Socks.Kernel.{Round, pick, complete, round, rounds, event_loop}
use modern_cpp_hw.Socks.Kernel.Pick.{pick-Picked}
use modern_cpp_hw.Socks.Kernel.Safe.{served, fill_as, event-Inv}
use modern_cpp_hw.Socks.Kernel.Accept.{accept-Inv, accepted_served-Inv}

-- A request of a session moves no more bytes than it asked for; a result is an `int`.
abbrev pub IsWithin : Option ℕ → ℕ → ℕ → Type 0
IsWithin none size c = Unit {0}
IsWithin (some i) size c = (c ≤ size) × (c < 2 ^ 32)

-- The round completes a pending request, with a result that the request allows.
pub record IsAnswer (k : Round) (v : Server) : Type 0 where
  pub kind : IsKind k.os
  pub request : Request
  pub rest : List Request
  pub picked : pick k.place v.uring.pending ≡ some (request, rest)
  pub within : (c : ℕ) → k.res ≡ count c → IsWithin request.user_data (size_of request.sqe) c

module _ (k : Round) (n : ℕ) (v : Server) (h : Inv [] n v) (a : IsAnswer k v) where
  handled-Inv :
      (user_data : Option ℕ) (memory : ℕ → ℕ)
      → a.request.user_data ≡ user_data
      → (w : Server) × (handle_cqe k.os k.raw k.res user_data (served v memory a.rest) ≡ done w)
        × Inv [] n w
        × Keeps v w
  handled-Inv none memory e =
      let (w, d, inv, grows) =
        accept-Inv k.os a.kind n (served v memory a.rest)
          (accepted_served-Inv n v a.request a.rest memory h (pick-Picked _ _ _ _ a.picked) e) k.raw
          k.res in
      (w, d, inv, λ p s l idle. grows p s l)
  handled-Inv (some i) memory e =
      event-Inv k.os a.kind n v h a.request a.rest (pick-Picked _ _ _ _ a.picked) memory i e k.res
        (λ c r. rw e at (a.within c r)) k.raw

  pub round-Keeps : (w : Server) × (round k v ≡ done w) × Inv [] n w × Keeps v w
  unfolding round complete
  round-Keeps =
      let (memory, f) = fill_as a.request.sqe k.bytes v a.rest in
      let (w, d, inv, keeps) = handled-Inv a.request.user_data memory refl in
      (w, rw (a.picked, f) d, inv, keeps)

  -- From a server for which the invariant of the loop holds for `n` connections, a round that answers a
  -- pending request within what it asked for, under a system whose calls succeed, returns: it neither
  -- faults, nor throws, nor exits, and the invariant holds again.
  pub round-Inv : (w : Server) × (round k v ≡ done w) × Inv [] n w
  round-Inv = let (w, d, inv, keeps) = round-Keeps in (w, d, inv)

-- Every round of a run answers a request that is then pending.
abbrev pub Answers : List Round → Server → Type 0
Answers [] v = Unit {0}
Answers (k ∷ ks) v = IsAnswer k v × ((w : Server) → round k v ≡ done w → Answers ks w)

pub rounds-Inv :
    (ks : List Round) (n : ℕ) (v : Server)
    → Inv [] n v
    → Answers ks v
    → (w : Server) × (rounds ks v ≡ done w) × Inv [] n w
unfolding rounds
rounds-Inv [] n v h a = (v, refl, h)
rounds-Inv (k ∷ ks) n v h (a, later) =
    let (w, d, inv) = round-Inv k n v h a in
    let (w', d', inv') = rounds-Inv ks n w inv (later w d) in (w', rw d d', inv')

-- From a server for which the invariant of the loop holds for `n` connections, no run of rounds that
-- answer pending requests, however long, deletes or changes a session for which nothing is pending.
pub idle_session_stays :
    (ks : List Round) (n : ℕ) (v : Server)
    → Inv [] n v
    → Answers ks v
    → (p : ℕ) (s : Session) → lookup p v.sessions ≡ some s
    → flights p v ≡ []
    → (w : Server) × (rounds ks v ≡ done w) × (lookup p w.sessions ≡ some s)
unfolding rounds
idle_session_stays [] n v h a p s l idle = (v, refl, l)
idle_session_stays (k ∷ ks) n v h (a, later) p s l idle =
    let (w, d, inv, keeps) = round-Keeps k n v h a in
    let (w', d', l') = idle_session_stays ks n w inv (later w d) p s (keeps p s l idle) (
      still_idle (flights p w) (
        omega (
          arith,
          (h.fits p s l).counted,
          ap (λ (fs : List Flight). length fs) idle,
          (inv.fits p s (keeps p s l idle)).counted,
        ))) in
    (w', rw d d', l')
  where
    still_idle : (fs : List Flight) → length fs ≡ 0 → fs ≡ []
    still_idle [] e = refl
    still_idle (f ∷ fs) e = absurd (ground arith)

occurrences-range_from :
    (start k i : ℕ)
    → (i < start → occurrences i (range_from start k) ≡ 0)
      × (start ≤ i → occurrences i (range_from start k) ≡ (if ltb i (start + k) then 1 else 0))
unfolding range_from
occurrences-range_from start zero i = (λ l. refl, λ l. ground arith)
occurrences-range_from start (suc k) i =
    let (a, b) = occurrences-range_from (start + 1) k i in
    (λ l. ground (arith, a), λ l. ground (arith, a, b))

length-range_from : (start k : ℕ) → length (range_from start k) ≡ k
unfolding range_from
length-range_from start zero = refl
length-range_from start (suc k) = ap suc (length-range_from (start + 1) k)

length-blank : (xs : List ℕ) → length (map blank_event xs) ≡ length xs
length-blank [] = refl
length-blank (x ∷ xs) = ap suc (length-blank xs)

blank_labelled :
    (start k i : ℕ) (v : Event)
    → get_elem? (map blank_event (range_from start k)) i ≡ some v
    → v.id ≡ start + i
unfolding range_from
blank_labelled start zero i v e = cc
blank_labelled start (suc k) zero v e = omega (arith, ap id_of (some_blank e))
  where
    id_of : Event → ℕ
    id_of x = x.id

    some_blank : some (blank_event start) ≡ some v → blank_event start ≡ v
    some_blank e = cc
blank_labelled start (suc k) (suc i) v e = omega (arith, blank_labelled (start + 1) k i v e)

-- The server before its first round.
abbrev pub started : Option ℕ → ℕ → Bool → Server
started socket_fd n is_root = record {
  uring = add_client_accept_request (io_uring socket_fd n is_root);
  sessions = [];
  next_session = 0;
}

blank_range : (k : ℕ) → length (map blank_event (range_from 0 k)) ≡ k
blank_range k = length-blank (range_from 0 k) ∙ length-range_from 0 k

free_once :
    (k i : ℕ)
    → 0 + (0 + occurrences i (range_from 0 k))
      ≡ (if ltb i (length (map blank_event (range_from 0 k))) then 1 else 0)
free_once k i = rw (blank_range k) (
    omega
      (arith, by_limit (0 + k) k (omega arith) ((occurrences-range_from 0 k i).1 (omega arith))))
  where
    by_limit :
        (a b : ℕ)
        → a ≡ b
        → occurrences i (range_from 0 k) ≡ (if ltb i a then 1 else 0)
        → occurrences i (range_from 0 k) ≡ (if ltb i b then 1 else 0)
    by_limit a b e h = rw (← e) h

pub started-Inv :
    (socket_fd : Option ℕ) (n : ℕ) (is_root : Bool) → Inv [] n (started socket_fd n is_root)
unfolding add_client_accept_request submit io_uring event_pool buffer_pool lookup
started-Inv socket_fd n is_root = record {
  sound = record {
    once = free_once (4 * n);
    total = omega (arith, blank_range (4 * n), length-range_from 0 (4 * n));
    labelled = λ i v e. omega (arith, blank_labelled 0 (4 * n) i v e);
  };
  events = blank_range (4 * n);
  fits = λ p s e. cc;
  absent = λ p e. refl;
  fresh = λ p l. refl;
  distinct = tt;
  many = refl;
  buffers = λ k. omega (arith, rw (blank_range n) at (free_once n k));
  halves = λ p s e. cc;
  slots = omega (arith, length-range_from 0 n);
}

-- From its start on, the event loop of a server for `n` connections returns from every run of rounds,
-- whatever the clients send, in which each round answers a pending request within what it asked for,
-- under a system whose ::socket and whose ::close of an open descriptor succeed and whose resolver answers
-- with a family of IP: the loop neither faults, nor throws, nor exits, and its invariant holds at the end,
-- by which every event is once pending or free, every session fits what is pending for it, and every
-- buffer is once free or in use by one session, which uses its halves.
pub event_loop-Inv :
    (socket_fd : Option ℕ) (n : ℕ) (is_root : Bool) (ks : List Round)
    → Answers ks (started socket_fd n is_root)
    → (w : Server) × (event_loop ks (io_uring socket_fd n is_root) ≡ done w) × Inv [] n w
unfolding event_loop
event_loop-Inv socket_fd n is_root ks a =
    rounds-Inv ks n (started socket_fd n is_root) (started-Inv socket_fd n is_root) a

-- After any such run from the start, a session of the store that has not failed has a request pending.
pub live_session_waits :
    (socket_fd : Option ℕ) (n : ℕ) (is_root : Bool) (ks : List Round) (v : Server)
    → Answers ks (started socket_fd n is_root)
    → event_loop ks (io_uring socket_fd n is_root) ≡ done v
    → (p : ℕ) (s : Session) → lookup p v.sessions ≡ some s
    → s.failed ≡ false
    → 0 < length (flights p v)
live_session_waits socket_fd n is_root ks v a r p s l f =
    let (w, d, inv) = event_loop-Inv socket_fd n is_root ks a in
    waited v w inv (same_server v w (event_loop ks (io_uring socket_fd n is_root)) r d) l
  where
    same_server : (v w : Server) (o : Outcome Server) → o ≡ done v → o ≡ done w → w ≡ v
    same_server v w o a b = cc

    pending : (st : State) (fs : List Flight) → Waits st s fs → 0 < length fs
    pending reading_client_greeting fs (n, e, g) =
        omega (arith, ap (λ (l : List Flight). length l) e)
    pending reading_auth_methods fs (inl (n, e, g)) =
        omega (arith, ap (λ (l : List Flight). length l) e)
    pending reading_auth_methods fs (inr (n, e, g)) =
        omega (arith, ap (λ (l : List Flight). length l) e)
    pending reading_client_connection_request fs (n, e, g) =
        omega (arith, ap (λ (l : List Flight). length l) e)
    pending reading_domain_name_length fs (n, e, g) =
        omega (arith, ap (λ (l : List Flight). length l) e)
    pending reading_address fs (n, e, g) = omega (arith, ap (λ (l : List Flight). length l) e)
    pending connecting_to_destination fs (inl (n, e), d, g) =
        omega (arith, ap (λ (l : List Flight). length l) e)
    pending connecting_to_destination fs (inr (n, e, l), d, g) =
        omega (arith, ap (λ (l : List Flight). length l) e)
    pending proxying_requests fs ((a, b, e, w), g) =
        omega (arith, ap (λ (l : List Flight). length l) e)

    waited :
        (v w : Server)
        → Inv [] n w
        → w ≡ v
        → lookup p v.sessions ≡ some s
        → 0 < length (flights p v)
    waited v w inv e l =
        rw (← e) (pending s.state (flights p w) ((inv.fits p s (rw e l)).alive f).1)
