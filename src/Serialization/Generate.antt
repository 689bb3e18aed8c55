-- ===== src/Serialization/Generate.antt =====
-- hw1-binary-serialization: the generator of random messages (generate-data/src/main.cpp).
-- The engine, the distributions and std::isprint are not part of the repository: they are a parameter.
-- A loop that draws until a value is accepted has a bound on its rounds.
pub mod Bounds
pub mod Values
pub mod Program
mod Trial
use modern_cpp_hw.Prelude.{
  ℕ, zero, suc, List, [], ◌∷◌, Bool, true, false, not, ltb, ◌||◌, if◌then◌else◌,
}
use modern_cpp_hw.Serialization.Result.{Result, done, runtime_error, exhausted, ◌>>=◌}
use modern_cpp_hw.Serialization.Message.{Attachment, Message, message}

-- Each draw answers with its value and the next state of g_prng. The counts and sizes of attachments are
-- draws of a gamma distribution, scaled by the upper bound and cast to std::size_t.
pub record Random : Type 1 where
  pub Engine : Type 0
  pub draw_char : Engine → ℕ × Engine
  pub draw_byte : Engine → ℕ × Engine
  pub draw_user_id : Engine → ℕ × Engine
  pub draw_size : ℕ → ℕ → Engine → ℕ × Engine
  pub draw_attach_count : ℕ → Engine → ℕ × Engine
  pub draw_attach_size : ℕ → Engine → ℕ × Engine
  pub isprint : ℕ → Bool

-- The bounds of the options.
pub record Options : Type 0 where
  pub text_from : ℕ
  pub text_to : ℕ
  pub attach_count_from : ℕ
  pub attach_count_to : ℕ
  pub attach_size_from : ℕ
  pub attach_size_to : ℕ

module _ (lib : Random) where
  open lib use {Engine}

  abbrev pub Draw : Type 0 → Type 0
  Draw A = Engine → Result (A × Engine)

  abbrev pub keep : Draw ℕ → (ℕ → Bool) → ℕ × Engine → Result (ℕ × Engine)
  keep again accepted (x, g) = let rest = again g in if accepted x then done (x, g) else rest

  -- do x = draw(g_prng) while it is not accepted
  unfoldable pub draw_until : (Engine → ℕ × Engine) → (ℕ → Bool) → ℕ → Draw ℕ
  draw_until draw accepted zero g = exhausted
  draw_until draw accepted (suc rounds) g = keep (draw_until draw accepted rounds) accepted (draw g)

  -- A loop that appends so many values.
  unfoldable pub repeat : {A : Type 0} → ℕ → Draw A → Draw (List A)
  repeat zero draw g = done ([], g)
  repeat (suc n) draw g = do (x, g1) ← draw g; (rest, g2) ← repeat n draw g1; done (x ∷ rest, g2)

  unfoldable pub generate_text : ℕ → ℕ → Draw (List ℕ)
  generate_text rounds size = repeat size (draw_until lib.draw_char lib.isprint rounds)

  unfoldable pub generate_attachment : ℕ → Draw Attachment
  generate_attachment size g = do
    (ans, g1) ← repeat size (λ g. done (lib.draw_byte g)) g
    done (record { buffer = ans }, g1)

  abbrev pub within : ℕ → ℕ → ℕ → Bool
  within from to x = not (ltb x from || ltb to x)

  -- One round of the loop over the attachments.
  unfoldable pub sized_attachment : ℕ → ℕ → ℕ → Draw Attachment
  sized_attachment rounds from to g = do
    (size, g1) ← draw_until (lib.draw_attach_size to) (within from to) rounds g
    generate_attachment size g1

  unfoldable pub generate_message : ℕ → Options → Draw Message
  generate_message rounds o g =
      let (from, g1) = lib.draw_user_id g in
      let (to, g2) = lib.draw_user_id g1 in
      let (text_size, g3) = lib.draw_size o.text_from o.text_to g2 in
      generate_text rounds text_size g3 >>= λ (text, g4).
      draw_until (lib.draw_attach_count o.attach_count_to)
        (within o.attach_count_from o.attach_count_to) rounds g4
      >>= λ (count, g5).
          repeat count (sized_attachment rounds o.attach_size_from o.attach_size_to) g5
          >>= λ (attachments, g6). done (message from to text attachments, g6)

  unfoldable pub generate_vector_of_messages : ℕ → ℕ → Options → Draw (List Message)
  generate_vector_of_messages rounds size o = repeat size (generate_message rounds o)

  -- The checks of main, and its call of the generator.
  unfoldable pub generate_checked : ℕ → ℕ → Options → Draw (List Message)
  generate_checked rounds msg_count o g =
      let messages = generate_vector_of_messages rounds msg_count o g in
      if ltb o.text_to o.text_from
      then runtime_error
      else if ltb o.attach_count_to o.attach_count_from
      then runtime_error
      else if ltb o.attach_size_to o.attach_size_from
      then runtime_error
      else messages
