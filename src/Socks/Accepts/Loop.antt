-- ===== src/Socks/Accepts/Loop.antt =====
-- hw2-socks5-server: the pending accepts and the sessions, when the event loop handles a completion and
-- from round to round (IoUring::event_loop of src/server.cpp).
use modern_cpp_hw.Prelude.{
  ℕ, ◌≡◌, refl, sym, none, some, Bool, true, false, if◌then◌else◌, ◌==◌, ◌&&◌, u32, get_elem?,
}
use modern_cpp_hw.Socks.Outcome.{Outcome, done, ◌>>=◌, bind-eq-done}
use modern_cpp_hw.Socks.Os.{Os}
use modern_cpp_hw.Socks.Events.{Event, EventType}
use modern_cpp_hw.Socks.Sockets.{or_exit, close_unless_absent, destroy_socket}
use modern_cpp_hw.Socks.Session.{Session}
use modern_cpp_hw.Socks.Ring.{Machine}
use modern_cpp_hw.Socks.Transfer.{or_fault, fail_immediately}
use modern_cpp_hw.Socks.Server.{
  Server, Res, negative, count, lookup, store, delete_session, settle, dispatch, on_failure,
  on_success, on_result, handle_event, handle_cqe, awaited_one, finish_event,
}
use modern_cpp_hw.Socks.Server.Store.{lookup-update-none, lookup-erase-none}
use modern_cpp_hw.Socks.Accepts.{accepts, HasAccepts}
use modern_cpp_hw.Socks.Accepts.Sessions.{fail_immediately-Leaves}
use modern_cpp_hw.Socks.Accepts.Dispatch.{dispatch-Leaves}

-- From one server to another: this many accepts are pending then, and no session is new.
pub record Continues (a : ℕ) (v w : Server) : Type 0 where
  pub accepting : accepts w.uring.pending ≡ a
  pub made : w.next_session ≡ v.next_session
  pub none_new : (p : ℕ) → lookup p v.sessions ≡ none → lookup p w.sessions ≡ none

abbrev ContinuesBy : ℕ → Server → Outcome Server → Type 0
ContinuesBy a v r = (w : Server) → r ≡ done w → Continues a v w

pub done-inj : {A : Type 0} (x y : A) → done x ≡ done y → x ≡ y
done-inj x y e = cc

module _ (a : ℕ) (v : Server) where
  done-Continues : (w : Server) → Continues a v w → ContinuesBy a v (done w)
  done-Continues w h w' e = rw (sym (done-inj w w' e)) h

  store-Continues : (m : Machine) → HasAccepts a m → ContinuesBy a v (done (store v m))
  store-Continues m h = done-Continues (store v m) (record {
    accepting = h;
    made = refl;
    none_new = λ p l. lookup-update-none m.this p m.session v.sessions l;
  })

  bind-Continues {ℓ} :
      {A : Type ℓ} (r : Outcome A) (f : A → Outcome Server)
      → ((x : A) → r ≡ done x → ContinuesBy a v (f x))
      → ContinuesBy a v (r >>= f)
  bind-Continues r f h w e = let (x, d, e') = bind-eq-done r f e in h x d w e'

  if-Continues :
      (c : Bool) (x y : Outcome Server)
      → ContinuesBy a v x
      → ContinuesBy a v y
      → ContinuesBy a v (if c then x else y)
  if-Continues true x y h k = h
  if-Continues false x y h k = k

  delete_session-Continues :
      (os : Os) (m : Machine) → HasAccepts a m → ContinuesBy a v (delete_session os v m)
  unfolding delete_session
  delete_session-Continues os m h =
      bind-Continues (or_exit (close_unless_absent os m.session.fd m.server.closed)) _ λ t e.
        bind-Continues (destroy_socket os m.session.destination_socket t) _ λ t' e'.
          done-Continues _ (record {
            accepting = h;
            made = refl;
            none_new = λ p l. lookup-erase-none m.this p v.sessions l;
          })

  settle-Continues : (os : Os) (m : Machine) → HasAccepts a m → ContinuesBy a v (settle os v m)
  unfolding settle
  settle-Continues os m h =
      if-Continues (m.session.failed && (m.session.awaiting_events_count == 0)) _ _
        (delete_session-Continues os m h) (store-Continues m h)

  on_result-Continues :
      (os : Os) (t : EventType) (res : Res) (m : Machine)
      → HasAccepts a m
      → ContinuesBy a v (on_result os t res v m)
  unfolding on_result on_failure on_success
  on_result-Continues os t (negative e) m h =
      if-Continues (m.session.awaiting_events_count == 0) _ _ (delete_session-Continues os m h) (
        bind-Continues (fail_immediately os m) _
          (λ m' d. store-Continues m' (fail_immediately-Leaves a os m h m' d)))
  on_result-Continues os t (count n) m h =
      if-Continues m.session.failed _ _ (settle-Continues os m h) (
        bind-Continues (dispatch os t (u32 n) m) _
          (λ m' d. settle-Continues os m' (dispatch-Leaves a os t (u32 n) m h m' d)))

  handle_event-Continues :
      (os : Os) (res : Res) (event : Event)
      → accepts v.uring.pending ≡ a
      → ContinuesBy a v (handle_event os res event v)
  unfolding handle_event awaited_one finish_event
  handle_event-Continues os res event h =
      bind-Continues (or_fault (lookup event.client v.sessions)) _ λ s e.
        bind-Continues (on_result os event.type res v _) _ λ w d. done-Continues _ (
          let c = on_result-Continues os event.type res _ h w d in
          record { accepting = c.accepting; made = c.made; none_new = c.none_new })

  -- The completion of a request with an event.
  pub event-Continues :
      (os : Os) (raw : Session) (res : Res) (i : ℕ)
      → accepts v.uring.pending ≡ a
      → ContinuesBy a v (handle_cqe os raw res (some i) v)
  unfolding handle_cqe
  event-Continues os raw (negative e) i h =
      bind-Continues (or_fault (get_elem? v.uring.event_pool.events i)) _
        (λ event d. handle_event-Continues os (negative e) event h)
  event-Continues os raw (count n) i h =
      bind-Continues (or_fault (get_elem? v.uring.event_pool.events i)) _
        (λ event d. handle_event-Continues os (count n) event h)
