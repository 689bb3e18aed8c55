-- ===== src/Serialization/Generate/Trial.antt =====
-- An engine that draws a newline and an A by turns.
use modern_cpp_hw.Prelude.{All}
use modern_cpp_hw.Prelude.{
  refl, inl, inr, [], ◌∷◌, none, some, Bool, true, false, ℕ, zero, suc, ◌<◌, ◌≡◌, List, ltb, ◌&&◌,
  length, arith,
}
use modern_cpp_hw.Serialization.Result.{done}
use modern_cpp_hw.Serialization.Message.{Message, MessageVector}
use modern_cpp_hw.Serialization.Generate.{Random, Options, generate_checked}
use modern_cpp_hw.Serialization.Generate.Bounds.{
  IsRandom, Settles, Accepts, IsGenerated, generate_checked-IsGenerated,
}
use modern_cpp_hw.Serialization.Msgpack.{converted}
use modern_cpp_hw.Serialization.Msgpack.Tree.{objects, objects-IsMsgpack}
use modern_cpp_hw.Serialization.Message.Msgpack.{message_vector_of_sbuffer}
use modern_cpp_hw.Serialization.Generate.Program.{
  Given, stored, options_of, returned, IsRejected, main, main-written, main-rejects,
}

abbrev by_turns : ℕ → ℕ × ℕ
by_turns zero = (10, 1)
by_turns (suc n) = (65, 0)

abbrev turns : Random
turns = record {
  Engine = ℕ;
  draw_char = by_turns;
  draw_byte = λ g. (7, g);
  draw_user_id = λ g. (1, g);
  draw_size = λ from to g. (from, g);
  draw_attach_count = λ to g. (to, g);
  draw_attach_size = λ to g. (to, g);
  isprint = λ c. ltb 31 c && ltb c 127;
}

by_turns_fits : (g : ℕ) → (by_turns g).0 < 256
by_turns_fits zero = omega arith
by_turns_fits (suc n) = omega arith

turns-IsRandom : IsRandom turns
turns-IsRandom = record {
  char_fits = by_turns_fits;
  byte_fits = λ g. omega arith;
  user_id_fits = λ g. omega arith;
  size_within = λ from to g l. (omega arith, l);
}

abbrev options : Options
options = record {
  text_from = 3;
  text_to = 4;
  attach_count_from = 0;
  attach_count_to = 2;
  attach_size_from = 1;
  attach_size_to = 5;
}

some_char : (g : ℕ) → Accepts turns by_turns turns.isprint 2 g
some_char zero e = λ f. cc
some_char (suc n) e = cc

turns-Settles : Settles turns 2 options
turns-Settles = record { chars = some_char; counts = λ g e. cc; sizes = λ g e. cc }

generate_checked-IsGenerated_example :
    (ms : List Message) × (g' : ℕ) × (generate_checked turns 2 2 options 0 ≡ done (ms, g'))
    × (length ms ≡ 2)
    × All (IsGenerated turns options) ms
generate_checked-IsGenerated_example =
    generate_checked-IsGenerated turns turns-IsRandom 2 options turns-Settles 2 0 (omega arith)
      (omega arith) (omega arith)

abbrev asked : Given
asked = record {
  help = false;
  output = some (111 ∷ 117 ∷ 116 ∷ []);
  count = some 2;
  text_from = some 3;
  text_to = some 4;
  attach_count_from = none;
  attach_count_to = some 2;
  attach_size_from = some 1;
  attach_size_to = some 5;
}

asked-Settles : Settles turns 2 (options_of asked)
unfolding options_of
asked-Settles = turns-Settles

abbrev opens_all : List ℕ → Bool
opens_all name = true

main-written_example :
    (file : List ℕ) × (v : MessageVector) × (main turns objects opens_all 2 0 (stored asked)
      ≡ returned 0 (some file))
    × (message_vector_of_sbuffer objects file ≡ converted v)
    × (length v.messages ≡ 2)
    × All (IsGenerated turns (options_of asked)) v.messages
unfolding options_of
main-written_example =
    main-written turns objects opens_all turns-IsRandom objects-IsMsgpack 2 0 asked
      (111 ∷ 117 ∷ 116 ∷ []) asked-Settles refl refl refl (omega arith) (omega arith) (omega arith)
      (omega arith) (omega arith) (omega arith) (omega arith)

-- Three characters at least, and two at most.
abbrev wrong : Given
wrong = record asked { text_to = some 2 }

wrong-IsRejected : IsRejected (stored wrong)
unfolding options_of
wrong-IsRejected = (refl, inr (inl (omega arith)))

main-rejects_example : main turns objects opens_all 2 0 (stored wrong) ≡ returned 1 none
main-rejects_example = main-rejects turns objects opens_all 2 0 (stored wrong) wrong-IsRejected
