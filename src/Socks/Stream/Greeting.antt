-- ===== src/Socks/Stream/Greeting.antt =====
-- hw2-socks5-server: the states of Session that read a greeting (src/server.cpp) against its layout.
use modern_cpp_hw.Prelude.{
  ℕ, ◌≤◌, true, inl, inr, Bool-cases, ==_iff, Option, ◌≡◌, ◌∙◌, refl, ap, sym, List, [], ◌∷◌, Bool,
  false, not, length, arith, take, drop, IsBytes, ◌==◌,
}
use modern_cpp_hw.Socks.Outcome.{Outcome, done, thrown, exited, fault, exhausted, ◌>>=◌}
use modern_cpp_hw.Socks.Os.{Os}
use modern_cpp_hw.Socks.Ring.{Machine}
use modern_cpp_hw.Socks.Transfer.{
  with_session, write_to_client, fail_delayed, byte_at, read_some_from_client,
  consume_bytes_from_read_buffer,
}
use modern_cpp_hw.Socks.Handshake.{
  read_client_greeting, read_auth_methods, method_reply, choose_auth_method, has_zero,
}
use modern_cpp_hw.Socks.Safety.Pieces.{consume-done}
use modern_cpp_hw.Socks.Safety.Failing.{delayed}
use modern_cpp_hw.Socks.Stream.{greeting_of, methods_in, offers, Serves, Among, Chooses, answer}
use modern_cpp_hw.Socks.Stream.Steps.{
  done-Serves, as-Serves, if-Serves, slice-Serves, read_until-Serves, ServesBelow,
}

three-cons :
    (xs : List ℕ)
    → 3 ≤ length xs
    → (a : ℕ) × (b : ℕ) × (c : ℕ) × (rest : List ℕ) × (xs ≡ a ∷ b ∷ c ∷ rest)
three-cons [] h = elim h [ ]
three-cons (a ∷ []) h = absurd (omega arith)
three-cons (a ∷ b ∷ []) h = absurd (omega arith)
three-cons (a ∷ b ∷ c ∷ rest) h = (a, b, c, rest, refl)

greeting-eq :
    (v c x : ℕ) (left : List ℕ) → not (v == 5) ≡ false → v ∷ c ∷ x ∷ left ≡ 5 ∷ c ∷ x ∷ left
greeting-eq v c x left h = ground arith

counted :
    (c x : ℕ) (left : List ℕ)
    → (c == 0) ≡ false
    → greeting_of (5 ∷ c ∷ x ∷ left) ≡ methods_in c (x ∷ left)
counted c x left z = rw z refl

module _ (os : Os) (again : Machine → Outcome Machine) (m : Machine) (bytes : List ℕ)
    (b : IsBytes bytes) where
  greeting-Serves-cons :
      (v c x : ℕ) (left : List ℕ)
      → ServesBelow greeting_of os 1 again
      → m.session.read_buffer ≡ v ∷ c ∷ x ∷ left
      → bytes ≡ v ∷ c ∷ x ∷ left
      → Serves greeting_of os m bytes
          (greeting_of (v ∷ c ∷ x ∷ left))
          (read_client_greeting os again m)
  unfolding read_client_greeting read_some_from_client
  greeting-Serves-cons v c x left ih r e =
      done-Serves greeting_of os m bytes _ v _ _ (ap (λ xs. byte_at xs 0) r) (
        if-Serves greeting_of os m bytes (not (v == 5)) _ _ _ _ (λ _. (m.session, refl, refl))
          λ v5. done-Serves greeting_of os m bytes _ c _ _ (ap (λ xs. byte_at xs 1) r) (
            if-Serves greeting_of os m bytes (c == 0) _ _ _ _ (λ _. (_, refl, refl))
              λ c0. done-Serves greeting_of os m bytes _ _ _ _ (consume-done 2 _ (ground arith)) (
                let e5 = e ∙ greeting-eq v c x left v5 in
                as-Serves greeting_of os m bytes _ _ _ (ap greeting_of e5 ∙ counted c x left c0) (
                  read_until-Serves greeting_of os _ again 1 _ bytes ih (omega arith)
                    (refl, (refl, e5 ∙ sym (ap (λ xs. 5 ∷ c ∷ drop 2 xs) r), c0)) b))))

  pub greeting-Serves :
      ServesBelow greeting_of os 1 again
      → bytes ≡ m.session.read_buffer
      → 3 ≤ length m.session.read_buffer
      → Serves greeting_of os m bytes (greeting_of bytes) (read_client_greeting os again m)
  greeting-Serves ih e full =
      let (v, c, x, left, r) = three-cons _ full in
      as-Serves greeting_of os m bytes _ _ _ (ap greeting_of (sym (e ∙ r)))
        (greeting-Serves-cons v c x left ih r (e ∙ r))

all-offered :
    (c : ℕ) (xs : List ℕ)
    → (c == 0) ≡ false
    → c ≤ length xs
    → greeting_of (5 ∷ c ∷ xs) ≡ offers (take c xs) (drop c xs)
all-offered c [] z h = absurd (ground arith)
all-offered c (x ∷ left) z h = counted c x left z ∙ ground arith

Among-zero : (xs : List ℕ) → has_zero xs ≡ false → Among 0 xs → ⊥
unfolding has_zero
Among-zero [] e h = h
Among-zero (x ∷ xs) e (inl z) = absurd (ground (arith, z, e))
Among-zero (x ∷ xs) e (inr h) = elim (Bool-cases (x == 0)) [
  | inl z ↦ ground (arith, z, e)
  | inr z ↦ Among-zero xs (rw z at e) h
]

zero-Among : (xs : List ℕ) → has_zero xs ≡ true → Among 0 xs
unfolding has_zero
zero-Among [] e = cc
zero-Among (x ∷ xs) e = elim (Bool-cases (x == 0)) [
  | inl z ↦ inl ((==_iff x 0).0 z)
  | inr z ↦ inr (zero-Among xs (rw z at e))
]

abbrev answered : Os → Bool → Machine → ℕ → Outcome Machine
answered os found m n = choose_auth_method os found m >>= λ chosen.
    consume_bytes_from_read_buffer n chosen >>= λ m'.
    write_to_client (with_session (λ s. record s { write_client_buffer = method_reply }) m')

-- The bytes of the methods are taken off after either choice.
consumed-answer :
    (n : ℕ) (m : Machine)
    → n ≤ length m.session.read_buffer
    → (consume_bytes_from_read_buffer n m >>= λ m'.
        write_to_client (with_session (λ s. record s { write_client_buffer = method_reply }) m'))
      ≡ answer (5 ∷ 0 ∷ []) (drop n m.session.read_buffer) m
consumed-answer n m l = rw (consume-done n m l) refl

failing-answer :
    (n : ℕ) (m : Machine) (o : Outcome (List (Option ℕ)))
    → n ≤ length m.session.read_buffer
    → (o >>= (λ t. done (delayed t m)) >>= λ chosen.
        consume_bytes_from_read_buffer n chosen >>= λ m'.
        write_to_client (with_session (λ s. record s { write_client_buffer = method_reply }) m'))
      ≡ (o >>= (λ t. done (delayed t m)) >>= answer (5 ∷ 0 ∷ []) (drop n m.session.read_buffer))
failing-answer n m (done t) l = consumed-answer n (delayed t m) l
failing-answer n m (thrown e) l = refl
failing-answer n m exited l = refl
failing-answer n m fault l = refl
failing-answer n m exhausted l = refl

answered-Chooses :
    (os : Os) (m : Machine) (found : Bool) (n : ℕ)
    → has_zero (take n m.session.read_buffer) ≡ found
    → n ≤ length m.session.read_buffer
    → Chooses os m m.session
        (take n m.session.read_buffer)
        (drop n m.session.read_buffer)
        (answered os found m n)
unfolding choose_auth_method fail_delayed
answered-Chooses os m true n e l = (
  λ h. consumed-answer n (with_session (λ s. record s { auth_method = 0 }) m) l,
  λ h. absurd (h (zero-Among _ e)),
)
answered-Chooses os m false n e l = (
  λ h. absurd (Among-zero _ e h),
  λ h. failing-answer n (with_session (λ s. record s { auth_method = 255 }) m) _ l,
)

module _ (os : Os) (m : Machine) (bytes : List ℕ) where
  pub methods-Serves :
      (m.session.auth_methods_count == 0) ≡ false
      → bytes ≡ 5 ∷ m.session.auth_methods_count ∷ m.session.read_buffer
      → m.session.auth_methods_count ≤ length m.session.read_buffer
      → Serves greeting_of os m bytes (greeting_of bytes) (read_auth_methods os m)
  unfolding read_auth_methods
  methods-Serves z e full =
      let c = m.session.auth_methods_count in
      let xs = m.session.read_buffer in
      let asked = offers (take c xs) (drop c xs) in
      as-Serves greeting_of os m bytes asked _ _ (sym (ap greeting_of e ∙ all-offered c xs z full))
        (slice-Serves greeting_of os m bytes xs 0 c _ asked (omega (arith, full))
          (m.session, answered-Chooses os m _ c refl full, refl))
