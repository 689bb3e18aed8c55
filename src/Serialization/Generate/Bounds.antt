-- ===== src/Serialization/Generate/Bounds.antt =====
-- What the generator makes (generate-data/src/main.cpp).
use modern_cpp_hw.Prelude.{All}
use modern_cpp_hw.Prelude.{
  ℕ, zero, suc, ◌≤◌, ◌<◌, ◌^◌, ◌≡◌, refl, List, [], ◌∷◌, Bool, true, false, ltb, Bool-cases, inl,
  inr, length, arith, IsBytes,
}
use modern_cpp_hw.Serialization.Result.{
  Result, done, bad_alloc, runtime_error, fault, exhausted, ◌>>=◌,
}
use modern_cpp_hw.Serialization.Message.{Attachment, Message, IsMessage, AreAttachments}
use modern_cpp_hw.Serialization.Generate.{
  Random, Options, Draw, draw_until, repeat, generate_text, generate_attachment, within,
  sized_attachment, generate_message, generate_vector_of_messages, generate_checked,
}

-- The draws have values of their types, and a uniform draw lies between its bounds.
pub record IsRandom (lib : Random) : Type 0 where
  pub char_fits : (g : lib.Engine) → (lib.draw_char g).0 < 256
  pub byte_fits : (g : lib.Engine) → (lib.draw_byte g).0 < 256
  pub user_id_fits : (g : lib.Engine) → (lib.draw_user_id g).0 < 2 ^ 64
  pub size_within :
      (from to : ℕ) (g : lib.Engine)
      → from ≤ to
      → (from ≤ (lib.draw_size from to g).0) × ((lib.draw_size from to g).0 ≤ to)

not_less : (from to : ℕ) → from ≤ to → ltb to from ≡ false
not_less from to l = ground (arith, l)

module _ (lib : Random) where
  -- From each state of the engine, one of so many draws is accepted.
  abbrev pub Accepts : (lib.Engine → ℕ × lib.Engine) → (ℕ → Bool) → ℕ → lib.Engine → Type 0
  Accepts draw accepted zero g = ⊥
  Accepts draw accepted (suc rounds) g =
      (accepted (draw g).0 ≡ false) → Accepts draw accepted rounds (draw g).1

  -- The loops that draw until a value is accepted come to an end in so many rounds.
  pub record Settles (rounds : ℕ) (o : Options) : Type 0 where
    pub chars : (g : lib.Engine) → Accepts lib.draw_char lib.isprint rounds g
    pub counts :
        (g : lib.Engine)
        → Accepts
            (lib.draw_attach_count o.attach_count_to)
            (within lib o.attach_count_from o.attach_count_to)
            rounds
            g
    pub sizes :
        (g : lib.Engine)
        → Accepts
            (lib.draw_attach_size o.attach_size_to)
            (within lib o.attach_size_from o.attach_size_to)
            rounds
            g

  -- A draw returns, with such a value.
  abbrev Returns : {A : Type 0} → (A → Type 0) → Result (A × lib.Engine) → Type 0
  Returns P (done (x, g)) = P x
  Returns P bad_alloc = ⊥
  Returns P runtime_error = ⊥
  Returns P fault = ⊥
  Returns P exhausted = ⊥

  bind-Returns :
      {A B : Type 0} (P : A → Type 0) (Q : B → Type 0) (r : Result (A × lib.Engine))
      (f : A × lib.Engine → Result (B × lib.Engine))
      → Returns P r
      → ((x : A) (g : lib.Engine) → P x → Returns Q (f (x, g)))
      → Returns Q (r >>= f)
  bind-Returns P Q (done (x, g)) f p h = h x g p
  bind-Returns P Q bad_alloc f p h = absurd p
  bind-Returns P Q runtime_error f p h = absurd p
  bind-Returns P Q fault f p h = absurd p
  bind-Returns P Q exhausted f p h = absurd p

  -- `P` is what is true of each draw, whether it is accepted or not.
  draw_until-Returns :
      (draw : lib.Engine → ℕ × lib.Engine) (accepted : ℕ → Bool) (P : ℕ → Type 0) (rounds : ℕ)
      (g : lib.Engine)
      → ((g : lib.Engine) → P (draw g).0)
      → Accepts draw accepted rounds g
      → Returns (λ x. P x × (accepted x ≡ true)) (draw_until lib draw accepted rounds g)
  unfolding draw_until
  draw_until-Returns draw accepted P zero g p a = absurd a
  draw_until-Returns draw accepted P (suc rounds) g p a = elim (Bool-cases (accepted (draw g).0)) [
    | inl e ↦ rw e (p g, e)
    | inr e ↦ rw e (draw_until-Returns draw accepted P rounds (draw g).1 p (a e))
  ]

  repeat-Returns :
      {A : Type 0} (P : A → Type 0) (n : ℕ) (draw : Draw lib A) (g : lib.Engine)
      → ((g : lib.Engine) → Returns P (draw g))
      → Returns (λ xs. (length xs ≡ n) × All P xs) (repeat lib n draw g)
  unfolding repeat
  repeat-Returns P zero draw g h = (refl, tt)
  repeat-Returns P (suc n) draw g h = bind-Returns P _ (draw g) _ (h g) λ x g1 p.
      bind-Returns (λ xs. (length xs ≡ n) × All P xs) _ (repeat lib n draw g1) _
        (repeat-Returns P n draw g1 h) λ xs g2 (e, all). (omega (arith, e), (p, all))

  weaken-Returns :
      {A : Type 0} (P Q : A → Type 0) (r : Result (A × lib.Engine))
      → Returns P r
      → ((x : A) → P x → Q x)
      → Returns Q r
  weaken-Returns P Q (done (x, g)) p h = h x p
  weaken-Returns P Q bad_alloc p h = absurd p
  weaken-Returns P Q runtime_error p h = absurd p
  weaken-Returns P Q fault p h = absurd p
  weaken-Returns P Q exhausted p h = absurd p

  map-All :
      {A : Type 0} (P Q : A → Type 0) (xs : List A) → ((x : A) → P x → Q x) → All P xs → All Q xs
  map-All P Q [] h a = tt
  map-All P Q (x ∷ rest) h (p, a) = (h x p, map-All P Q rest h a)

  within-bounds : (from to x : ℕ) → within lib from to x ≡ true → (from ≤ x) × (x ≤ to)
  within-bounds from to x e = (ground (arith, e), ground (arith, e))

  abbrev pub Between : ℕ → ℕ → ℕ → Type 0
  Between from to x = (from ≤ x) × (x ≤ to)

  -- An attachment of bytes, whose size lies between the bounds.
  abbrev pub IsSized : ℕ → ℕ → Attachment → Type 0
  IsSized from to a = Between from to (length a.buffer) × IsBytes a.buffer

  All-IsBytes : (xs : List ℕ) → All (λ x. x < 256) xs → IsBytes xs
  All-IsBytes [] a = tt
  All-IsBytes (x ∷ rest) (p, a) = (p, All-IsBytes rest a)

  All-AreAttachments :
      (from to : ℕ) (xs : List Attachment) → All (IsSized from to) xs → AreAttachments xs
  All-AreAttachments from to [] a = tt
  All-AreAttachments from to (x ∷ rest) (p, a) = (p.1, All-AreAttachments from to rest a)

  -- A message of values of its types, within the bounds of the options, whose text is printable.
  pub record IsGenerated (o : Options) (m : Message) : Type 0 where
    pub fits : IsMessage m
    pub text_length : Between o.text_from o.text_to (length m.text)
    pub printable : All (λ c. lib.isprint c ≡ true) m.text
    pub count : Between o.attach_count_from o.attach_count_to (length m.attachments)
    pub sizes : All (IsSized o.attach_size_from o.attach_size_to) m.attachments

  module _ (k : IsRandom lib) (rounds : ℕ) (o : Options) (w : Settles rounds o) where
    abbrev IsText : ℕ → List ℕ → Type 0
    IsText n s = (length s ≡ n) × All (λ c. (c < 256) × (lib.isprint c ≡ true)) s

    -- A draw until the value lies between the bounds.
    draw_within-Returns :
        (draw : lib.Engine → ℕ × lib.Engine) (from to : ℕ) (g : lib.Engine)
        → Accepts draw (within lib from to) rounds g
        → Returns (Between from to) (draw_until lib draw (within lib from to) rounds g)
    draw_within-Returns draw from to g a =
        weaken-Returns (λ x. Unit {0} × (within lib from to x ≡ true)) _ _
          (draw_until-Returns draw (within lib from to) (λ x. Unit {0}) rounds g (λ g. tt) a)
          λ x p. within-bounds from to x p.1

    generate_text-Returns :
        (size : ℕ) (g : lib.Engine) → Returns (IsText size) (generate_text lib rounds size g)
    unfolding generate_text
    generate_text-Returns size g = repeat-Returns _ size _ g λ g1.
        draw_until-Returns lib.draw_char lib.isprint (λ c. c < 256) rounds g1 k.char_fits
          (w.chars g1)

    sized_attachment-Returns :
        (g : lib.Engine)
        → Returns
            (IsSized o.attach_size_from o.attach_size_to)
            (sized_attachment lib rounds o.attach_size_from o.attach_size_to g)
    unfolding sized_attachment generate_attachment
    sized_attachment-Returns g =
        bind-Returns (Between o.attach_size_from o.attach_size_to)
          (IsSized o.attach_size_from o.attach_size_to) _ _
          (draw_within-Returns (lib.draw_attach_size o.attach_size_to) o.attach_size_from
            o.attach_size_to g (w.sizes g))
          λ size g1 (low, high).
            bind-Returns (λ xs. (length xs ≡ size) × All (λ x. x < 256) xs)
              (IsSized o.attach_size_from o.attach_size_to) _ _
              (repeat-Returns (λ x. x < 256) size (λ g. done (lib.draw_byte g)) g1 k.byte_fits)
              λ ans g2 (l, all).
                ((omega (arith, low, l), omega (arith, high, l)), All-IsBytes ans all)

    generate_message-Returns :
        (g : lib.Engine)
        → o.text_from ≤ o.text_to
        → Returns (IsGenerated o) (generate_message lib rounds o g)
    unfolding generate_message
    generate_message-Returns g ordered =
        let g1 = (lib.draw_user_id g).1 in
        let g2 = (lib.draw_user_id g1).1 in
        let (low, high) = k.size_within o.text_from o.text_to g2 ordered in
        bind-Returns (IsText (lib.draw_size o.text_from o.text_to g2).0) (IsGenerated o) _ _
          (generate_text-Returns (lib.draw_size o.text_from o.text_to g2).0
            (lib.draw_size o.text_from o.text_to g2).1)
          λ text g4 (l, chars).
            bind-Returns (Between o.attach_count_from o.attach_count_to) (IsGenerated o) _ _
              (draw_within-Returns (lib.draw_attach_count o.attach_count_to) o.attach_count_from
                o.attach_count_to g4 (w.counts g4))
              λ count g5 (few, many).
                bind-Returns
                  (λ xs. (length xs ≡ count) × All (IsSized o.attach_size_from o.attach_size_to) xs)
                  (IsGenerated o) _ _
                  (repeat-Returns (IsSized o.attach_size_from o.attach_size_to) count
                    (sized_attachment lib rounds o.attach_size_from o.attach_size_to) g5
                    sized_attachment-Returns)
                  λ attachments g6 (n, all). record {
                    fits = record {
                      from_fits = k.user_id_fits g;
                      to_fits = k.user_id_fits g1;
                      text_fits = All-IsBytes text (map-All _ _ text (λ x p. p.0) chars);
                      attachments_fit = All-AreAttachments _ _ attachments all;
                    };
                    text_length = (omega (arith, l, low), omega (arith, l, high));
                    printable = map-All _ _ text (λ x p. p.1) chars;
                    count = (omega (arith, n, few), omega (arith, n, many));
                    sizes = all;
                  }

    Returns-cases :
        {A : Type 0} (P : A → Type 0) (r : Result (A × lib.Engine))
        → Returns P r
        → (x : A) × (g : lib.Engine) × (r ≡ done (x, g)) × P x
    Returns-cases P (done (x, g)) p = (x, g, refl, p)
    Returns-cases P bad_alloc p = absurd p
    Returns-cases P runtime_error p = absurd p
    Returns-cases P fault p = absurd p
    Returns-cases P exhausted p = absurd p

    -- Where the draws have values of their types and the loops that draw until a value is accepted come to
    -- an end in so many rounds, options with ordered bounds give as many messages as they ask for, each
    -- with members of their types, with a printable text, and with the length of its text, the count of its
    -- attachments and their sizes within the bounds.
    pub generate_checked-IsGenerated :
        (size : ℕ) (g : lib.Engine)
        → o.text_from ≤ o.text_to
        → o.attach_count_from ≤ o.attach_count_to
        → o.attach_size_from ≤ o.attach_size_to
        → (ms : List Message) × (g' : lib.Engine) × (generate_checked lib rounds size o g
            ≡ done (ms, g'))
          × (length ms ≡ size)
          × All (IsGenerated o) ms
    unfolding generate_checked generate_vector_of_messages
    generate_checked-IsGenerated size g texts counts sizes =
        let (ms, g', e, (l, all)) =
          Returns-cases (λ ms. (length ms ≡ size) × All (IsGenerated o) ms) _
            (repeat-Returns (IsGenerated o) size (generate_message lib rounds o) g
              (λ g. generate_message-Returns g texts)) in
        (ms, g', rw (not_less _ _ texts, not_less _ _ counts, not_less _ _ sizes) e, l, all)
