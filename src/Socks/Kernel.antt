-- ===== src/Socks/Kernel.antt =====
-- hw2-socks5-server: the loop of IoUring::event_loop against the kernel's side of the ring.
-- The kernel picks any pending request, answers it within what was asked, and writes what it read
-- into the buffer of the request; then the server handles the completion.
pub mod Pick
pub mod Safe
pub mod Accept
pub mod Runs
pub mod Memory
pub mod Bytes
pub mod Relay
mod Tests
use modern_cpp_hw.Prelude.{ℕ, zero, suc, List, [], ◌∷◌, Option, none, some}
use modern_cpp_hw.Socks.Outcome.{Outcome, done, fault, ◌>>=◌}
use modern_cpp_hw.Socks.Os.{Os}
use modern_cpp_hw.Socks.Buffers.{write_memory}
use modern_cpp_hw.Socks.Session.{Session}
use modern_cpp_hw.Socks.Ring.{Sqe, read, read_fixed, Request, IoUring, add_client_accept_request}
use modern_cpp_hw.Socks.Server.{Res, Server, handle_cqe}

-- What the kernel decides in one round: the request by its place among the pending ones, its result,
-- the bytes that a read found, the answers to the server's system calls, and raw memory for `new`.
pub record Round : Type 0 where
  pub place : ℕ
  pub res : Res
  pub bytes : List ℕ
  pub os : Os
  pub raw : Session

-- The pending request at a place, and the others.
unfoldable pub pick : ℕ → List Request → Option (Request × List Request)
pick i [] = none
pick zero (r ∷ rs) = some (r, rs)
pick (suc i) (r ∷ rs) = elim (pick i rs) [ none ↦ none | some (q, qs) ↦ some (q, r ∷ qs) ]

unfoldable pub fill : Sqe → List ℕ → IoUring → IoUring
fill (read fd at nbytes offset) bytes r = record r {
  buffer_pool = record r.buffer_pool { memory = write_memory r.buffer_pool.memory at bytes };
}
fill (read_fixed fd at nbytes offset index) bytes r = record r {
  buffer_pool = record r.buffer_pool { memory = write_memory r.buffer_pool.memory at bytes };
}
fill _ bytes r = r

unfoldable pub complete : Round → Server → Option (Request × List Request) → Outcome Server
complete k v none = fault
complete k v (some (q, rest)) =
    handle_cqe k.os k.raw k.res q.user_data
      (record v { uring = fill q.sqe k.bytes (record v.uring { pending = rest }) })

-- One round: a place where nothing is pending is no round, and counts as a fault.
unfoldable pub round : Round → Server → Outcome Server
round k v = complete k v (pick k.place v.uring.pending)

unfoldable pub rounds : List Round → Server → Outcome Server
rounds [] v = done v
rounds (k ∷ ks) v = round k v >>= rounds ks

-- event_loop after so many rounds.
unfoldable pub event_loop : List Round → IoUring → Outcome Server
event_loop ks r =
    rounds ks (record { uring = add_client_accept_request r; sessions = []; next_session = 0 })
