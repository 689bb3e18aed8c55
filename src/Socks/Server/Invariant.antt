-- ===== src/Socks/Server/Invariant.antt =====
-- The invariant of the event loop, and the moments between a completion and the end of its handling.
use modern_cpp_hw.Prelude.{
  ℕ, suc, ◌+◌, ◌*◌, ◌≤◌, ◌≡◌, ◌≢◌, List, [], ◌∷◌, none, some, length, if◌then◌else◌, ltb,
}
use modern_cpp_hw.Socks.Session.{Session}
use modern_cpp_hw.Socks.Buffers.{buffer_half0, buffer_half1}
use modern_cpp_hw.Socks.Flight.{Flight, IsSound, ids, in_flight, occurrences}
use modern_cpp_hw.Socks.Safety.{Fits, debt}
use modern_cpp_hw.Socks.Server.{Server, lookup}
use modern_cpp_hw.Socks.Server.Store.{total, Distinct, holders}

abbrev pub flights : ℕ → Server → List Flight
flights p v = in_flight p v.uring.event_pool.events v.uring.pending

-- A session uses the halves of the buffer that it has.
abbrev pub IsInPlace : Session → Type 0
IsInPlace s = (s.buffer0 ≡ buffer_half0 s.buffer_index) × (s.buffer1 ≡ buffer_half1 s.buffer_index)

-- For `n` connections, with the events `busy` in the hands of the loop.
pub record Inv (busy : List ℕ) (n : ℕ) (v : Server) : Type 0 where
  -- every event is once pending, free or busy, and there are four for each connection
  pub sound : IsSound busy v.uring.event_pool v.uring.pending
  pub events : length v.uring.event_pool.events ≡ 4 * n
  -- each session waits for what is pending for it, and nothing is pending for any other
  pub fits : (p : ℕ) (s : Session) → lookup p v.sessions ≡ some s → Fits s (flights p v)
  pub absent : (p : ℕ) → lookup p v.sessions ≡ none → flights p v ≡ []
  pub fresh : (p : ℕ) → v.next_session ≤ p → lookup p v.sessions ≡ none
  pub distinct : Distinct v.sessions
  pub many : length (ids v.uring.pending) ≡ total v.sessions
  -- every buffer is once free, or in use by one session
  pub buffers :
      (k : ℕ)
      → holders k v.sessions + occurrences k v.uring.buffer_pool.free_buffers
        ≡ (if ltb k n then 1 else 0)
  -- and that session uses its halves
  pub halves : (p : ℕ) (s : Session) → lookup p v.sessions ≡ some s → IsInPlace s
  pub slots : length v.sessions + length v.uring.buffer_pool.free_buffers ≡ n

-- The event `i` of the session `p`, held as `s`, has completed and is being handled.
pub record Handling (i n p : ℕ) (s : Session) (v : Server) : Type 0 where
  pub h_sound : IsSound (i ∷ []) v.uring.event_pool v.uring.pending
  pub h_events : length v.uring.event_pool.events ≡ 4 * n
  pub h_here : lookup p v.sessions ≡ some s
  pub h_expected : s.awaiting_events_count ≡ suc (debt s.state + length (flights p v))
  pub h_others : (q : ℕ) (t : Session) → q ≢ p → lookup q v.sessions ≡ some t → Fits t (flights q v)
  pub h_absent : (q : ℕ) → lookup q v.sessions ≡ none → flights q v ≡ []
  pub h_fresh : (q : ℕ) → v.next_session ≤ q → lookup q v.sessions ≡ none
  pub h_distinct : Distinct v.sessions
  pub h_many : suc (length (ids v.uring.pending)) ≡ total v.sessions
  pub h_small : total v.sessions ≤ 2 * length v.sessions
  pub h_buffers :
      (k : ℕ)
      → holders k v.sessions + occurrences k v.uring.buffer_pool.free_buffers
        ≡ (if ltb k n then 1 else 0)
  pub h_halves : (q : ℕ) (t : Session) → lookup q v.sessions ≡ some t → IsInPlace t
  pub h_slots : length v.sessions + length v.uring.buffer_pool.free_buffers ≡ n

-- The sessions but for `p` are the same.
abbrev pub Elsewhere : ℕ → Server → Server → Type 0
Elsewhere p v w = (c : ℕ) → c ≢ p → lookup c w.sessions ≡ lookup c v.sessions

-- No session is lost or changed.
abbrev pub Grows : Server → Server → Type 0
Grows v w = (p : ℕ) (s : Session) → lookup p v.sessions ≡ some s → lookup p w.sessions ≡ some s

-- No session is lost or changed for which nothing was pending.
abbrev pub Keeps : Server → Server → Type 0
Keeps v w =
    (p : ℕ) (s : Session)
    → lookup p v.sessions ≡ some s
    → flights p v ≡ []
    → lookup p w.sessions ≡ some s
