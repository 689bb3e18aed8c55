-- ===== src/Socks/Main/Ends.antt =====
-- How main ends, and what becomes of its listening socket (src/main.cpp).
use modern_cpp_hw.Prelude.{
  ℕ, zero, suc, ◌+◌, ◌≡◌, ◌≢◌, ◌∙◌, refl, ap, List, [], ◌∷◌, ◌++◌, Bool, true, false, not, ◌&&◌,
  Bool-cases, inl, inr, ◌⊎◌, if◌then◌else◌, arith,
}
use modern_cpp_hw.Socks.Host.{
  Arguments, parsed, sigpipe, sigint, sigquit, Call, signal, socket, close, start_thread, Leaves,
  throws, exits, faults, stays, Host, Step, value, error, returned, exited, terminated, fault,
  unending, Run, continue, ◌>>=◌, end_with, attempt,
}
use modern_cpp_hw.Socks.Main.{
  exit_success, exit_failure, Params, given, unless_zero, parse_cmd_line, close_socket, closing,
  unwinding, set_up, main_socket, when, make_io_uring, leave, thread_function, unwind_threads,
  start_threads, per_thread, serve, listening, run_server, with_params, chosen_params, params_of,
  or_failure, caught, main,
}

abbrev pub opened : Host → Call → ℕ
opened host socket = if host.succeeds socket then 1 else 0
opened host _ = 0

abbrev pub closed : Call → ℕ
closed (close fd) = 1
closed _ = 0

-- The sockets that have been opened, and those that have been closed.
abbrev pub opens : Host → List Call → ℕ
opens host [] = 0
opens host (c ∷ rest) = opened host c + opens host rest

abbrev pub closes : List Call → ℕ
closes [] = 0
closes (c ∷ rest) = closed c + closes rest

opens-append :
    (host : Host) (t : List Call) (c : Call)
    → opens host (t ++ c ∷ []) ≡ opens host t + opened host c
opens-append host [] c = omega arith
opens-append host (d ∷ t) c = omega (arith, opens-append host t c)

closes-append : (t : List Call) (c : Call) → closes (t ++ c ∷ []) ≡ closes t + closed c
closes-append [] c = omega arith
closes-append (d ∷ t) c = omega (arith, closes-append t c)

module _ (host : Host) where
  -- So many sockets are open.
  abbrev pub AreOpen : ℕ → List Call → Type 0
  AreOpen k t = opens host t ≡ closes t + k

  -- A part of main that does not return from main, and faults or does not end only where the event loop
  -- does, with the sockets that are open after a value and after an exception.
  abbrev Leaving : {A : Type 0} → ℕ → ℕ → Step A × List Call → Type 0
  Leaving v e (value a, t) = AreOpen v t
  Leaving v e (error, t) = AreOpen e t
  Leaving v e (returned n, t) = ⊥
  Leaving v e (exited n, t) = n ≡ exit_failure
  Leaving v e (terminated, t) = Unit {0}
  Leaving v e (fault, t) = host.leaves ≡ faults
  Leaving v e (unending, t) = host.leaves ≡ stays

  abbrev Leads : {A : Type 0} → ℕ → Run A → ℕ → ℕ → Type 0
  Leads k m v e = (t : List Call) → AreOpen k t → Leaving v e (m t)

  continue-Leaving :
      {A B : Type 0} (k v e : ℕ) (f : A → Run B) (r : Step A × List Call)
      → Leaving k e r
      → ((a : A) → Leads k (f a) v e)
      → Leaving v e (continue f r)
  continue-Leaving k v e f (value a, t) l h = h a t l
  continue-Leaving k v e f (error, t) l h = l
  continue-Leaving k v e f (returned n, t) l h = absurd l
  continue-Leaving k v e f (exited n, t) l h = l
  continue-Leaving k v e f (terminated, t) l h = l
  continue-Leaving k v e f (fault, t) l h = l
  continue-Leaving k v e f (unending, t) l h = l

  bind-Leads :
      {A B : Type 0} (k l v e : ℕ) (m : Run A) (f : A → Run B)
      → Leads k m l e
      → ((a : A) → Leads l (f a) v e)
      → Leads k (m >>= f) v e
  bind-Leads k l v e m f h g t o = continue-Leaving l v e f (m t) (h t o) g

  attempt-Leads :
      (k : ℕ) (c : Call) → opened host c ≡ 0 → closed c ≡ 0 → Leads k (attempt host c) k k
  unfolding attempt
  attempt-Leads k c p q t o = elim (Bool-cases (host.succeeds c)) [
    | inl s ↦ rw s (omega (arith, opens-append host t c, closes-append t c, p, q, o))
    | inr s ↦ rw s (omega (arith, opens-append host t c, closes-append t c, p, q, o))
  ]

  socket-Leads : Leads 0 (attempt host socket) 1 0
  unfolding attempt
  socket-Leads t o = elim (Bool-cases (host.succeeds socket)) [
    | inl s ↦ rw s (omega (arith, rw s at (opens-append host t socket), closes-append t socket, o))
    | inr s ↦ rw s (omega (arith, rw s at (opens-append host t socket), closes-append t socket, o))
  ]

  close_socket-Leads : (fd e : ℕ) → Leads 1 (close_socket host fd) 0 e
  unfolding close_socket
  close_socket-Leads fd e t o = elim (Bool-cases (host.succeeds (close fd))) [
    | inl s ↦ rw s (omega (arith, opens-append host t (close fd), closes-append t (close fd), o))
    | inr s ↦ rw s refl
  ]

  set_up-Leads : (fd port maxqueue : ℕ) → Leads 1 (set_up host fd port maxqueue) 1 1
  unfolding set_up
  set_up-Leads fd port maxqueue = bind-Leads 1 1 1 1 _ _ (attempt-Leads 1 _ refl refl) λ _.
      bind-Leads 1 1 1 1 _ _ (attempt-Leads 1 _ refl refl)
        λ _. bind-Leads 1 1 1 1 _ _ (attempt-Leads 1 _ refl refl) λ _ t o. o

  unwinding-Leaving :
      {A : Type 0} (fd : ℕ) (r : Step A × List Call)
      → Leaving 1 1 r
      → Leaving 1 0 (unwinding (close_socket host fd) r)
  unwinding-Leaving fd (value a, t) l = l
  unwinding-Leaving {A = A} fd (error, t) l =
      continue-Leaving {B = A} 0 1 0 (λ _. end_with error) (close_socket host fd t)
        (close_socket-Leads fd 0 t l) λ _ t o. o
  unwinding-Leaving fd (returned n, t) l = absurd l
  unwinding-Leaving fd (exited n, t) l = l
  unwinding-Leaving fd (terminated, t) l = l
  unwinding-Leaving fd (fault, t) l = l
  unwinding-Leaving fd (unending, t) l = l

  closing-Leaving :
      {A : Type 0} (fd : ℕ) (r : Step A × List Call)
      → Leaving 1 1 r
      → Leaving 0 0 (closing (close_socket host fd) r)
  closing-Leaving {A = A} fd (value a, t) l =
      continue-Leaving {B = A} 0 0 0 (λ _. end_with (value a)) (close_socket host fd t)
        (close_socket-Leads fd 0 t l) λ _ t o. o
  closing-Leaving {A = A} fd (error, t) l =
      continue-Leaving {B = A} 0 0 0 (λ _. end_with error) (close_socket host fd t)
        (close_socket-Leads fd 0 t l) λ _ t o. o
  closing-Leaving fd (returned n, t) l = absurd l
  closing-Leaving fd (exited n, t) l = l
  closing-Leaving fd (terminated, t) l = l
  closing-Leaving fd (fault, t) l = l
  closing-Leaving fd (unending, t) l = l

  main_socket-Leads : (port maxqueue : ℕ) → Leads 0 (main_socket host port maxqueue) 1 0
  unfolding main_socket
  main_socket-Leads port maxqueue =
      bind-Leads 0 1 1 0 _ _ socket-Leads λ _ t o.
        unwinding-Leaving host.descriptor _ (set_up-Leads host.descriptor port maxqueue t o)

  when-Leads : (k : ℕ) (b : Bool) (m : Run (Unit {0})) → Leads k m k k → Leads k (when b m) k k
  when-Leads k false m h t o = o
  when-Leads k true m h t o = h t o

  make_io_uring-Leads :
      (k fd n : ℕ) (polling : Bool) → Leads k (make_io_uring host fd n polling) k k
  unfolding make_io_uring
  make_io_uring-Leads k fd n polling =
      bind-Leads k k k k _ _ (when-Leads k (polling && not host.is_root) _ λ t o. o) λ _.
        bind-Leads k k k k _ _ (attempt-Leads k _ refl refl) λ _.
          bind-Leads k k k k _ _ (when-Leads k host.is_root _ (attempt-Leads k _ refl refl))
            λ _ t o. o

  leave-Leads : (k : ℕ) (l : Leaves) → host.leaves ≡ l → Leads k (end_with (leave l)) k k
  leave-Leads k throws h t o = o
  leave-Leads k exits h t o = refl
  leave-Leads k faults h t o = h
  leave-Leads k stays h t o = h

  thread_function-Leads :
      (k fd n : ℕ) (polling : Bool) → Leads k (thread_function host fd n polling) k k
  unfolding thread_function
  thread_function-Leads k fd n polling =
      bind-Leads k k k k _ _ (make_io_uring-Leads k fd n polling)
        λ _. leave-Leads k host.leaves refl

  unwind_threads-Leaving :
      (i k : ℕ) (r : Step (Unit {0}) × List Call) → Leaving k k r → Leaving k k (unwind_threads i r)
  unwind_threads-Leaving zero k r l = l
  unwind_threads-Leaving (suc i) k (value a, t) l = tt
  unwind_threads-Leaving (suc i) k (error, t) l = tt
  unwind_threads-Leaving (suc i) k (returned n, t) l = absurd l
  unwind_threads-Leaving (suc i) k (exited n, t) l = l
  unwind_threads-Leaving (suc i) k (terminated, t) l = l
  unwind_threads-Leaving (suc i) k (fault, t) l = l
  unwind_threads-Leaving (suc i) k (unending, t) l = l

  start_threads-Leads :
      (k i n : ℕ) (body : Run (Unit {0}))
      → Leads k body k k
      → Leads k (start_threads host i n body) k k
  unfolding start_threads attempt
  start_threads-Leads k i zero body h t o = unwind_threads-Leaving i k (body t) (h t o)
  start_threads-Leads k i (suc n) body h t o = unwind_threads-Leaving i k _ (
      bind-Leads k k k k (attempt host (start_thread i)) _ (attempt-Leads k _ refl refl)
        (λ _. start_threads-Leads k (suc i) n body h) t o)

  serve-Leads : (p : Params) (connections fd : ℕ) → Leads 1 (serve host p connections fd) 1 1
  unfolding serve
  serve-Leads p connections fd =
      bind-Leads 1 1 1 1 _ _
        (bind-Leads 1 1 1 1 _ _ (attempt-Leads 1 _ refl refl) λ _. attempt-Leads 1 _ refl refl)
        λ _.
          bind-Leads 1 1 1 1 _ _
            (bind-Leads 1 1 1 1 _ _ (attempt-Leads 1 _ refl refl) λ _. attempt-Leads 1 _ refl refl)
            λ _.
              start_threads-Leads 1 0 _ _ (thread_function-Leads 1 fd connections p.kernel_polling)

  -- The signals can be handled.
  pub record HandlesSignals : Type 0 where
    pub pipe : host.succeeds (signal sigpipe) ≡ true
    pub int : host.succeeds (signal sigint) ≡ true
    pub quit : host.succeeds (signal sigquit) ≡ true

  -- The end of a started server: a return with EXIT_SUCCESS after which each socket that these calls have
  -- opened is closed, std::exit with EXIT_FAILURE, or std::terminate; or the event loop has come to
  -- undefined behaviour, or goes on for ever.
  abbrev pub EndsWell : Step (Unit {0}) × List Call → Type 0
  EndsWell (s, t) =
      ((s ≡ returned exit_success) × AreOpen 0 t)
      ⊎ (s ≡ exited exit_failure)
      ⊎ (s ≡ terminated)
      ⊎ ((s ≡ fault) × (host.leaves ≡ faults))
      ⊎ ((s ≡ unending) × (host.leaves ≡ stays))

  caught-EndsWell : (r : Step (Unit {0}) × List Call) → Leaving 0 0 r → EndsWell (caught r.0, r.1)
  caught-EndsWell (value a, t) l = inl (refl, l)
  caught-EndsWell (error, t) l = inl (refl, l)
  caught-EndsWell (returned n, t) l = absurd l
  caught-EndsWell (exited n, t) l = inr (inl (ap exited l))
  caught-EndsWell (terminated, t) l = inr (inr (inl refl))
  caught-EndsWell (fault, t) l = inr (inr (inr (inl (refl, l))))
  caught-EndsWell (unending, t) l = inr (inr (inr (inr (refl, l))))

  abbrev pub threads_for : Arguments → ℕ
  threads_for a = unless_zero host.hardware_concurrency (given host.hardware_concurrency a.threads)

  listening-Leads : (p : Params) (connections : ℕ) → Leads 0 (listening host p connections) 0 0
  unfolding listening
  listening-Leads p connections =
      bind-Leads 0 1 0 0 _ _ (main_socket-Leads p.port _)
        λ fd t o. closing-Leaving fd _ (serve-Leads p connections fd t o)

  signals : List Call
  signals = signal sigpipe ∷ signal sigint ∷ signal sigquit ∷ []

  per_thread-Leads : (p : Params) (n : ℕ) → n ≢ 0 → Leads 0 (per_thread n >>= listening host p) 0 0
  per_thread-Leads p zero z = absurd (z refl)
  per_thread-Leads p (suc n) z =
      bind-Leads 0 0 0 0 (per_thread (suc n)) (listening host p) (λ t o. o) (listening-Leads p)

  with_params-eq :
      (p : Params)
      → HandlesSignals
      → with_params host p [] ≡ (per_thread p.threads_count >>= listening host p) signals
  unfolding with_params signals
  with_params-eq p s = rw (s.pipe, s.int, s.quit) refl

  run_server-eq :
      (a : Arguments)
      → host.command_line ≡ parsed a
      → HandlesSignals
      → run_server host []
        ≡ (per_thread (threads_for a)
              >>= listening host (chosen_params host.hardware_concurrency a))
            signals
  unfolding run_server parse_cmd_line
  run_server-eq a e s =
      ap
        (λ c.
          (params_of host.hardware_concurrency c >>= λ params.
          or_failure params >>= with_params host)
            [])
        e
      ∙ with_params-eq (chosen_params host.hardware_concurrency a) s

  -- Where the command line is parsed and the signals can be handled, main faults if the number of threads
  -- is zero, by its division. Otherwise it returns EXIT_SUCCESS with its listening socket closed, also
  -- where an exception has ended it, or it ends by std::exit with EXIT_FAILURE or by std::terminate, or the
  -- event loop of its thread comes to undefined behaviour or goes on for ever. The sockets of sessions,
  -- which the event loop opens, are not counted, and the other threads are not followed.
  pub main-ends :
      (a : Arguments)
      → host.command_line ≡ parsed a
      → HandlesSignals
      → (threads_for a ≡ 0 → (main host).0 ≡ fault) × (threads_for a ≢ 0 → EndsWell (main host))
  unfolding main signals
  main-ends a e s = (
    λ z. ap (λ r. caught r.0) (run_server-eq a e s) ∙ rw z refl,
    λ z. rw (run_server-eq a e s) (
        caught-EndsWell _ (
          per_thread-Leads (chosen_params host.hardware_concurrency a) (threads_for a) z signals
            refl)),
  )
