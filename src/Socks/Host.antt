-- ===== src/Socks/Host.antt =====
-- hw2-socks5-server: what main and its threads ask of the system, and how they end (src/syscall.cpp).
-- TCLAP, the kernel and liburing are not part of the repository: their answers are an argument.
use modern_cpp_hw.Prelude.{ℕ, List, [], ◌∷◌, ◌++◌, Option, Bool, if◌then◌else◌}
use modern_cpp_hw.Socks.Sockets.{SockAddr}

-- The command line after its parse, with the values that were given.
pub record Arguments : Type 0 where
  pub threads : Option ℕ
  pub port : ℕ
  pub kernel_polling : Bool

pub data Parsed : Type 0 where
  parsed : Arguments → Parsed
  -- TCLAP::ArgException
  refused : Parsed
  -- the parser itself calls std::exit
  left : ℕ → Parsed

pub data Signal : Type 0 where
  sigpipe sigint sigquit : Signal

pub data Resource : Type 0 where
  nofile memlock : Resource

-- A system call, or a call of liburing, with what it is given.
pub data Call : Type 0 where
  signal : Signal → Call
  socket : Call
  setsockopt_reuseaddr : ℕ → Call
  bind : ℕ → SockAddr → Call
  listen : ℕ → ℕ → Call
  getrlimit : Resource → Call
  -- the new rlim_cur
  setrlimit : Resource → ℕ → Call
  close : ℕ → Call
  queue_init : ℕ → Bool → Call
  register_buffers : ℕ → Call
  -- the thread of this index
  start_thread : ℕ → Call

-- What becomes of event_loop: an exception leaves it, it ends the program by std::exit, it comes to a
-- failed assertion or to what C++ leaves undefined, or it goes on for ever.
pub data Leaves : Type 0 where
  throws exits faults stays : Leaves

pub record Host : Type 0 where
  pub hardware_concurrency : ℕ
  pub command_line : Parsed
  pub is_root : Bool
  -- the descriptor of ::socket, where it succeeds
  pub descriptor : ℕ
  pub succeeds : Call → Bool
  pub leaves : Leaves

-- How a part of main ends: with a value, by an exception, by the return of main, by std::exit, by
-- std::terminate, or by what C++ leaves undefined; or not at all.
pub data Step (A : Type 0) : Type 0 where
  value : A → Step A
  error : Step A
  returned : ℕ → Step A
  exited : ℕ → Step A
  terminated : Step A
  fault : Step A
  unending : Step A

-- With the calls so far.
abbrev pub Run : Type 0 → Type 0
Run A = List Call → Step A × List Call

abbrev pub continue : {A B : Type 0} → (A → Run B) → Step A × List Call → Step B × List Call
continue f (value a, t) = f a t
continue f (error, t) = (error, t)
continue f (returned n, t) = (returned n, t)
continue f (exited n, t) = (exited n, t)
continue f (terminated, t) = (terminated, t)
continue f (fault, t) = (fault, t)
continue f (unending, t) = (unending, t)

infixl 5 ◌>>=◌ ◌>>◌
abbrev pub ◌>>=◌ : {A B : Type 0} → Run A → (A → Run B) → Run B
m >>= f = λ t. continue f (m t)

abbrev pub ◌>>◌ : {B : Type 0} → Run (Unit {0}) → Run B → Run B
m >> k = m >>= λ _. k

abbrev pub end_with : {A : Type 0} → Step A → Run A
end_with s = λ t. (s, t)

-- A call, and what follows where it fails.
abbrev pub call : Host → Call → Step (Unit {0}) → Run (Unit {0})
call host c failure = λ t. (if host.succeeds c then value tt else failure, t ++ c ∷ [])

-- The wrappers of src/syscall.cpp throw where their call fails.
unfoldable pub attempt : Host → Call → Run (Unit {0})
attempt host c = call host c error
