-- ===== src/Socks/Stream/Runs.antt =====
-- hw2-socks5-server: the reads of a message (Session::handle_client_read of src/server.cpp), one after the
-- other, against the layout of the whole.
use modern_cpp_hw.Prelude.{ℕ, ◌≡◌, List}
use modern_cpp_hw.Socks.Outcome.{Outcome, done}
use modern_cpp_hw.Socks.Os.{Os}
use modern_cpp_hw.Socks.Session.{Session, State}
use modern_cpp_hw.Socks.Ring.{Machine}
use modern_cpp_hw.Socks.Stream.{Asked, layout}

abbrev session_of : Outcome Machine → Machine → Session
session_of (done m) n = m.session
session_of _ n = n.session

abbrev IsLayout : (List ℕ → Asked) → Type 0
IsLayout lay = (st : State) × (layout st ≡ lay)
