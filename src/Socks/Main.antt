-- ===== src/Socks/Main.antt =====
-- hw2-socks5-server: parse_cmd_line and main (src/main.cpp), with MainSocket (src/socket.cpp) and the
-- constructor of IoUring (src/server.cpp). The other threads are started, and are not followed further.
pub mod Ends
mod Trial
use modern_cpp_hw.Prelude.{
  ℕ, zero, suc, ◌-◌, ◌*◌, ◌/◌, ◌%◌, ◌^◌, ◌==◌, List, [], ◌∷◌, Option, none, some, Bool, true, false,
  not, ◌&&◌, if◌then◌else◌, length, sub_u32,
}
use modern_cpp_hw.Socks.Sockets.{SockAddr, construct_address_ipv4}
use modern_cpp_hw.Socks.Buffers.{buffer_pool}
use modern_cpp_hw.Socks.Ring.{IoUring}
use modern_cpp_hw.Socks.Server.{io_uring}
use modern_cpp_hw.Socks.Host.{
  Arguments, Parsed, parsed, refused, left, Signal, sigpipe, sigint, sigquit, nofile, memlock, Call,
  signal, socket, setsockopt_reuseaddr, bind, listen, getrlimit, setrlimit, close, queue_init,
  register_buffers, start_thread, Leaves, throws, exits, faults, stays, Host, Step, value, error,
  returned, exited, terminated, fault, unending, Run, continue, ◌>>=◌, ◌>>◌, end_with, call,
  attempt,
}

abbrev pub exit_success : ℕ
exit_success = 0

abbrev pub exit_failure : ℕ
exit_failure = 1

pub record Params : Type 0 where
  pub threads_count : ℕ
  pub port : ℕ
  pub kernel_polling : Bool

abbrev pub given : ℕ → Option ℕ → ℕ
given default none = default
given default (some n) = n

abbrev pub unless_zero : ℕ → ℕ → ℕ
unless_zero default n = if n == 0 then default else n

abbrev pub chosen_params : ℕ → Arguments → Params
chosen_params default a = record {
  threads_count = unless_zero default (given default a.threads);
  port = a.port;
  kernel_polling = a.kernel_polling;
}

abbrev pub params_of : ℕ → Parsed → Run (Option Params)
params_of default (parsed a) = end_with (value (some (chosen_params default a)))
params_of default refused = end_with (value none)
params_of default (left n) = end_with (exited n)

unfoldable pub parse_cmd_line : Host → Run (Option Params)
parse_cmd_line host = params_of host.hardware_concurrency host.command_line

abbrev pub or_failure : {A : Type 0} → Option A → Run A
or_failure none = end_with (returned exit_failure)
or_failure (some a) = end_with (value a)

-- ::signal, and the return of main where it fails.
abbrev pub set_handler : Host → Signal → Run (Unit {0})
set_handler host s = call host (signal s) (returned exit_failure)

-- Socket::~Socket of an open socket.
unfoldable pub close_socket : Host → ℕ → Run (Unit {0})
close_socket host fd = call host (close fd) (exited exit_failure)

-- A block at whose end the socket is destroyed, also when an exception leaves it.
abbrev pub closing : {A : Type 0} → Run (Unit {0}) → Step A × List Call → Step A × List Call
closing destroy (value a, t) = continue (λ _. end_with (value a)) (destroy t)
closing destroy (error, t) = continue (λ _. end_with error) (destroy t)
closing destroy (returned n, t) = continue (λ _. end_with (returned n)) (destroy t)
closing destroy (exited n, t) = (exited n, t)
closing destroy (terminated, t) = (terminated, t)
closing destroy (fault, t) = (fault, t)
closing destroy (unending, t) = (unending, t)

-- A constructor whose base is destroyed when an exception leaves it.
abbrev pub unwinding : {A : Type 0} → Run (Unit {0}) → Step A × List Call → Step A × List Call
unwinding destroy (value a, t) = (value a, t)
unwinding destroy (error, t) = continue (λ _. end_with error) (destroy t)
unwinding destroy (returned n, t) = (returned n, t)
unwinding destroy (exited n, t) = (exited n, t)
unwinding destroy (terminated, t) = (terminated, t)
unwinding destroy (fault, t) = (fault, t)
unwinding destroy (unending, t) = (unending, t)

unfoldable pub htons : ℕ → List ℕ
htons port = port / 256 % 256 ∷ port % 256 ∷ []

abbrev pub any_address : List ℕ
any_address = 0 ∷ 0 ∷ 0 ∷ 0 ∷ []

-- The body of the constructor of MainSocket.
unfoldable pub set_up : Host → ℕ → ℕ → ℕ → Run ℕ
set_up host fd port maxqueue = do
  attempt host (setsockopt_reuseaddr fd)
  attempt host (bind fd (construct_address_ipv4 any_address (htons port)))
  attempt host (listen fd maxqueue)
  end_with (value fd)

-- MainSocket::MainSocket
unfoldable pub main_socket : Host → ℕ → ℕ → Run ℕ
main_socket host port maxqueue = do
  attempt host socket
  λ t. unwinding (close_socket host host.descriptor) (set_up host host.descriptor port maxqueue t)

abbrev pub when : Bool → Run (Unit {0}) → Run (Unit {0})
when false m = end_with (value tt)
when true m = m

-- IoUring::IoUring
unfoldable pub make_io_uring : Host → ℕ → ℕ → Bool → Run IoUring
make_io_uring host fd nconnections kernel_polling = do
  when (kernel_polling && not host.is_root) (end_with error)
  attempt host (queue_init nconnections kernel_polling)
  when host.is_root (attempt host (register_buffers (length (buffer_pool nconnections).iovecs)))
  end_with (value (io_uring (some fd) nconnections host.is_root))

abbrev pub leave : Leaves → Step (Unit {0})
leave throws = error
leave exits = exited exit_failure
leave faults = fault
leave stays = unending

-- The closure of main that a thread runs.
unfoldable pub thread_function : Host → ℕ → ℕ → Bool → Run (Unit {0})
thread_function host fd nconnections kernel_polling = do
  uring ← make_io_uring host fd nconnections kernel_polling
  end_with (leave host.leaves)

-- An exception that leaves the block of the threads destroys them: one that has been started and not
-- been joined ends the program.
abbrev pub unwind_threads : ℕ → Step (Unit {0}) × List Call → Step (Unit {0}) × List Call
unwind_threads zero r = r
unwind_threads (suc started) (error, t) = (terminated, t)
unwind_threads (suc started) (value a, t) = (terminated, t)
unwind_threads (suc started) r = r

-- The loop that starts the threads from the index `i` on, and what follows it.
unfoldable pub start_threads : Host → ℕ → ℕ → Run (Unit {0}) → Run (Unit {0})
start_threads host i zero body = λ t. unwind_threads i (body t)
start_threads host i (suc n) body = λ t.
    unwind_threads i
      (continue (λ _. start_threads host (suc i) n body) (call host (start_thread i) error t))

abbrev max_connections : ℕ
max_connections = 2 ^ 15

-- The division of main, whose denominator may be zero.
abbrev pub per_thread : ℕ → Run ℕ
per_thread zero = end_with fault
per_thread (suc n) = end_with (value (max_connections / suc n))

abbrev pub raise_limit : Host → Call → Call → Run (Unit {0})
raise_limit host get set = attempt host get >> attempt host set

-- From the limits of main on, with the listening socket.
unfoldable pub serve : Host → Params → ℕ → ℕ → Run (Unit {0})
serve host p connections fd = do
  raise_limit host (getrlimit nofile) (setrlimit nofile (max_connections * 2))
  raise_limit host (getrlimit memlock) (setrlimit memlock (2 ^ 16))
  start_threads host 0 (sub_u32 p.threads_count 1)
      (thread_function host fd connections p.kernel_polling)

-- From the listening socket of main on.
unfoldable pub listening : Host → Params → ℕ → Run (Unit {0})
listening host p connections = do
  fd ← main_socket host p.port max_connections
  λ t. closing (close_socket host fd) (serve host p connections fd t)

-- From the signal handlers of main on.
unfoldable pub with_params : Host → Params → Run (Unit {0})
with_params host p = do
  set_handler host sigpipe
  set_handler host sigint
  set_handler host sigquit
  connections ← per_thread p.threads_count
  listening host p connections

unfoldable pub run_server : Host → Run (Unit {0})
run_server host = do params ← parse_cmd_line host; p ← or_failure params; with_params host p

-- What main does with an exception, and its last statement.
abbrev pub caught : Step (Unit {0}) → Step (Unit {0})
caught (value a) = returned exit_success
caught error = returned exit_success
caught s = s

unfoldable pub main : Host → Step (Unit {0}) × List Call
main host = let (s, t) = run_server host [] in (caught s, t)
