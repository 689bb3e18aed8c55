-- ===== src/Serialization/Generate/Program.antt =====
-- hw1-binary-serialization: the program that generates messages (main of generate-data/src/main.cpp).
-- Boost.Program_options and the streams are not part of the repository: what they answer is an argument.
use modern_cpp_hw.Prelude.{All}
use modern_cpp_hw.Prelude.{
  ℕ, ◌^◌, ◌≤◌, ◌<◌, ◌≡◌, ◌∙◌, ◌⊎◌, inl, inr, refl, ap, List, Option, none, some, Bool, true, false,
  if◌then◌else◌, arith, length,
}
use modern_cpp_hw.Serialization.Result.{Result, done, bad_alloc, runtime_error, fault, exhausted}
use modern_cpp_hw.Serialization.Message.{Message, MessageVector}
use modern_cpp_hw.Serialization.Msgpack.{Msgpack, IsMsgpack, converted}
use modern_cpp_hw.Serialization.Message.Msgpack.{object_of_messages, message_vector_of_sbuffer}
use modern_cpp_hw.Serialization.Message.Msgpack.RoundTrip.{packed, vector_read}
use modern_cpp_hw.Serialization.Generate.{Random, Options, generate_checked}
use modern_cpp_hw.Serialization.Generate.Bounds.{
  IsRandom, Settles, IsGenerated, generate_checked-IsGenerated,
}
use modern_cpp_hw.Serialization.Generate.Values.{generated-AreMessages, generated-AreShort}

-- The options that are given; --output has no default.
pub record Given : Type 0 where
  pub help : Bool
  pub output : Option (List ℕ)
  pub count : Option ℕ
  pub text_from : Option ℕ
  pub text_to : Option ℕ
  pub attach_count_from : Option ℕ
  pub attach_count_to : Option ℕ
  pub attach_size_from : Option ℕ
  pub attach_size_to : Option ℕ

-- po::store(parse_command_line(argc, argv, desc), vm)
pub data CommandLine : Type 0 where
  -- po::error
  refused : CommandLine
  stored : Given → CommandLine

abbrev pub default_value : ℕ → Option ℕ → ℕ
default_value n none = n
default_value n (some x) = x

unfoldable pub options_of : Given → Options
options_of given = record {
  text_from = default_value 0 given.text_from;
  text_to = default_value 250 given.text_to;
  attach_count_from = default_value 0 given.attach_count_from;
  attach_count_to = default_value 10 given.attach_count_to;
  attach_size_from = default_value 512 given.attach_size_from;
  attach_size_to = default_value 4194304 given.attach_size_to;
}

abbrev pub IsDisordered : Options → Type 0
IsDisordered o =
    (o.text_to < o.text_from)
    ⊎ (o.attach_count_to < o.attach_count_from)
    ⊎ (o.attach_size_to < o.attach_size_from)

abbrev pub IsRejected : CommandLine → Type 0
IsRejected refused = Unit {0}
IsRejected (stored given) =
    (given.help ≡ false) × ((given.output ≡ none) ⊎ IsDisordered (options_of given))

-- How main ends: with a status and, where the output file was opened, what was written to it.
pub data Ended : Type 0 where
  returned : ℕ → Option (List ℕ) → Ended
  undefined : Ended
  -- the bound on the rounds of a loop was too small
  endless : Ended

module _ (lib : Random) (msgpack : Msgpack) (opens : List ℕ → Bool) where
  -- From msgpack::pack on, whose exceptions are caught by the handler of main too.
  unfoldable pub write_packed : List ℕ → Option (List ℕ) → Ended
  write_packed name none = returned 1 none
  write_packed name (some file) = if opens name then returned 0 (some file) else returned 1 none

  -- From the call of the generator on; its exceptions are caught by the handler of main.
  unfoldable pub write_messages : List ℕ → Result (List Message × lib.Engine) → Ended
  write_messages name (done (messages, g)) =
      write_packed name (msgpack.pack (object_of_messages msgpack messages))
  write_messages name bad_alloc = returned 1 none
  write_messages name runtime_error = returned 1 none
  write_messages name fault = undefined
  write_messages name exhausted = endless

  -- po::notify(vm): a required option that is missing is a po::error.
  unfoldable pub notified : ℕ → lib.Engine → Given → Option (List ℕ) → Ended
  notified rounds g given none = returned 1 none
  notified rounds g given (some name) =
      write_messages name
        (generate_checked lib rounds (default_value 1000 given.count) (options_of given) g)

  unfoldable pub main : ℕ → lib.Engine → CommandLine → Ended
  main rounds g refused = returned 1 none
  main rounds g (stored given) =
      if given.help then returned 0 none else notified rounds g given given.output

  -- With msgpack-c as it is documented, draws that have values of their types and loops that end, a
  -- command line with an output file that opens, with ordered bounds and with fewer than 2^32 messages,
  -- chars, attachments and bytes to ask for makes main return 0, having
  -- written a file that is read as as many messages as were asked for, each with a printable text and with
  -- the length of its text, the count of its attachments and their sizes within the bounds.
  pub main-written :
      (k : IsRandom lib) (laws : IsMsgpack msgpack) (rounds : ℕ) (g : lib.Engine) (given : Given)
      (name : List ℕ) (w : Settles lib rounds (options_of given))
      → given.help ≡ false
      → given.output ≡ some name
      → opens name ≡ true
      → (options_of given).text_from ≤ (options_of given).text_to
      → (options_of given).attach_count_from ≤ (options_of given).attach_count_to
      → (options_of given).attach_size_from ≤ (options_of given).attach_size_to
      → default_value 1000 given.count < 2 ^ 32
      → (options_of given).text_to < 2 ^ 32
      → (options_of given).attach_count_to < 2 ^ 32
      → (options_of given).attach_size_to < 2 ^ 32
      → (file : List ℕ) × (v : MessageVector) × (main rounds g (stored given)
          ≡ returned 0 (some file))
        × (message_vector_of_sbuffer msgpack file ≡ converted v)
        × (length v.messages ≡ default_value 1000 given.count)
        × All (IsGenerated lib (options_of given)) v.messages
  unfolding main notified write_messages write_packed
  main-written k laws rounds g given name w h o p texts counts sizes few t c l =
      let (ms, g', e, n, all) =
        generate_checked-IsGenerated lib k rounds (options_of given) w
          (default_value 1000 given.count) g texts counts sizes in
      let v : MessageVector = record { messages = ms } in
      let are = generated-AreMessages lib (options_of given) ms all in
      let short = generated-AreShort lib (options_of given) ms t c l all in
      let (b, q, u) = packed msgpack laws v are (omega (arith, n, few)) short in
      (
        b,
        v,
        ap (λ b. if b then returned 0 none else notified rounds g given given.output) h
            ∙ ap (notified rounds g given) o
            ∙ ap (write_messages name) e
            ∙ ap (write_packed name) q
            ∙ ap (λ x. if x then returned 0 (some b) else returned 1 none) p,
        vector_read msgpack laws v b are (omega (arith, n, few)) short u,
        n,
        all,
      )

  disordered :
      (rounds size : ℕ) (o : Options) (g : lib.Engine)
      → IsDisordered o
      → generate_checked lib rounds size o g ≡ runtime_error
  unfolding generate_checked
  disordered rounds size o g h = ground arith

  rejected_stored :
      (rounds : ℕ) (g : lib.Engine) (given : Given)
      → (given.output ≡ none) ⊎ IsDisordered (options_of given)
      → notified rounds g given given.output ≡ returned 1 none
  unfolding notified write_messages
  rejected_stored rounds g given (inl o) = ap (notified rounds g given) o
  rejected_stored rounds g given (inr d) = go given.output
    where
      go : (o : Option (List ℕ)) → notified rounds g given o ≡ returned 1 none
      go none = refl
      go (some name) =
          ap (write_messages name)
            (disordered rounds (default_value 1000 given.count) (options_of given) g d)

  -- A command line that the parser refuses, or that does not ask for help and has no output file or gives
  -- bounds in a wrong order, makes main return 1 without writing a file, whatever would be drawn.
  pub main-rejects :
      (rounds : ℕ) (g : lib.Engine) (line : CommandLine)
      → IsRejected line
      → main rounds g line ≡ returned 1 none
  unfolding main
  main-rejects rounds g refused h = refl
  main-rejects rounds g (stored given) (h, d) =
      ap (λ b. if b then returned 0 none else notified rounds g given given.output) h
      ∙ rejected_stored rounds g given d
