-- ===== src/Socks/Accepts/Tests.antt =====
-- hw2-socks5-server: a server whose second accept fails.
use modern_cpp_hw.Prelude.{◌≤◌, ◌≡◌, refl, [], ◌∷◌, some, true, none}
use modern_cpp_hw.Socks.Outcome.{done}
use modern_cpp_hw.Socks.Ring.{Request, accept}
use modern_cpp_hw.Socks.Server.{Server, negative}
use modern_cpp_hw.Socks.Kernel.{Round, rounds}
use modern_cpp_hw.Socks.Kernel.Runs.{started}
use modern_cpp_hw.Socks.Scenario.{at_place, arrives, finds, greeting}
use modern_cpp_hw.Socks.Trials.{after, started_loop, run, server_of}
use modern_cpp_hw.Socks.Accepts.{accepts}
use modern_cpp_hw.Socks.Accepts.Loop.{Continues}
use modern_cpp_hw.Socks.Accepts.Runs.{
  NoneFails, event_loop-accepts, event_loop-accepts_on, failed_accept_is_last,
}

event_loop-accepts_example : accepts after.uring.pending ≤ 1
event_loop-accepts_example = event_loop-accepts (some 3) 1 true (arrives ∷ []) after started_loop

arrives-NoneFails : NoneFails (arrives ∷ []) (started (some 3) 1 true)
arrives-NoneFails = (λ q rest e p u r. cc, λ w e. tt)

event_loop-accepts_on_example : accepts after.uring.pending ≡ 1
event_loop-accepts_on_example =
    event_loop-accepts_on (some 3) 1 true (arrives ∷ []) after arrives-NoneFails started_loop

-- EMFILE for the accept, which is older than the read of the client.
abbrev refused : Round
refused = at_place 1 (negative 24) []

abbrev later : Server
later = server_of (rounds (refused ∷ finds greeting ∷ []) after)

later_loop : rounds (refused ∷ finds greeting ∷ []) after ≡ done later
unfolding run
later_loop = refl

abbrev the_accept : Request
the_accept = record { sqe = accept (some 3); user_data = none }

failed_accept_is_last_example : Continues 0 after later
unfolding run
failed_accept_is_last_example =
    failed_accept_is_last (some 3) 1 true (arrives ∷ []) (finds greeting ∷ []) refused after later
      the_accept _ 24 started_loop refl refl refl later_loop
