-- ===== src/Serialization/Message/Print/Digits.antt =====
-- hw1-binary-serialization: the numbers and bytes that are printed, read back (message/src/message.cpp).
use modern_cpp_hw.Prelude.{
  ℕ, zero, suc, ◌+◌, ◌-◌, ◌*◌, ◌/◌, ◌%◌, ◌<◌, ◌≡◌, ◌∙◌, refl, ap, sym, List, [], ◌∷◌, ◌++◌, false,
  if◌then◌else◌, ltb, ltb→lt, ◌==◌, ◌||◌, arith, Bool-cases, inl, inr, IsBytes, value_from,
  value_from-append, pow10,
}
use modern_cpp_hw.Serialization.Message.Print.{decimal, hex_digit, hexadecimal, padded, print_bytes}
use modern_cpp_hw.Serialization.Message.Print.Scan.{has, has-append}

pub value_from-decimal : (k n : ℕ) → n < pow10 k → value_from 0 (decimal k n) ≡ n
unfolding decimal
value_from-decimal zero n l = omega (arith, l)
value_from-decimal (suc k) n l = elim (Bool-cases (ltb n 10)) [
  | inl y ↦ rw y (omega arith)
  | inr y ↦ rw y (
      value_from-append 0 (decimal k (n / 10)) (n % 10 + 48)
      ∙ omega (arith, value_from-decimal k (n / 10) (omega (arith, l))))
]

-- Digits are no commas.
pub has-decimal : (k n : ℕ) → has 44 (decimal k n) ≡ false
unfolding decimal
has-decimal zero n = refl
has-decimal (suc k) n = elim (Bool-cases (ltb n 10)) [
  | inl y ↦ rw y (ground arith)
  | inr y ↦ rw y (
      has-append 44 (decimal k (n / 10)) ((n % 10 + 48) ∷ [])
      ∙ ground (arith, has-decimal k (n / 10)))
]

abbrev digit_value : ℕ → ℕ
digit_value c = if ltb c 58 then c - 48 else c - 87

abbrev pub read_bytes : List ℕ → List ℕ
read_bytes (h ∷ l ∷ s ∷ rest) = (digit_value h * 16 + digit_value l) ∷ read_bytes rest
read_bytes _ = []

-- A byte takes two digits.
digits_of : (b : ℕ) → padded 2 48 (hexadecimal b) ≡ hex_digit (b / 16) ∷ hex_digit (b % 16) ∷ []
digits_of b = elim (Bool-cases (ltb b 16)) [
  | inl y ↦
      let q : b / 16 ≡ 0 = omega (arith, ltb→lt b 16 y) in
      let r : b % 16 ≡ b = omega (arith, ltb→lt b 16 y) in
      rw y (
        sym (ap (λ q. hex_digit q ∷ hex_digit (b % 16) ∷ []) q ∙ ap (λ r. 48 ∷ hex_digit r ∷ []) r))
  | inr y ↦ rw y refl
]

digit_value-hex_digit : (d : ℕ) → d < 16 → digit_value (hex_digit d) ≡ d
digit_value-hex_digit d l = ground arith

pub read_bytes-print_bytes :
    (bytes : List ℕ) → IsBytes bytes → read_bytes (print_bytes bytes ++ 125 ∷ []) ≡ bytes
read_bytes-print_bytes [] b = refl
read_bytes-print_bytes (x ∷ xs) (l, ls) =
    ap (λ s. read_bytes ((s ++ 32 ∷ print_bytes xs) ++ 125 ∷ [])) (digits_of x)
    ∙ ap (λ v. v ∷ read_bytes (print_bytes xs ++ 125 ∷ []))
        (ap (λ h. h * 16 + digit_value (hex_digit (x % 16)))
            (digit_value-hex_digit (x / 16) (omega (arith, l)))
          ∙ ap (λ h. x / 16 * 16 + h) (digit_value-hex_digit (x % 16) (omega arith))
          ∙ omega arith)
    ∙ ap (λ r. x ∷ r) (read_bytes-print_bytes xs ls)

-- Neither a quote nor an end of the line is printed for the bytes.
has-hex_digit : (c d : ℕ) → c < 48 → (hex_digit d == c) ≡ false
has-hex_digit c d l = ground (arith, l)

pub has-print_bytes :
    (c : ℕ) (bytes : List ℕ)
    → c < 48
    → (32 == c) ≡ false
    → has c (print_bytes bytes ++ 125 ∷ []) ≡ false
has-print_bytes c [] l e = ground (arith, l)
has-print_bytes c (x ∷ xs) l e =
    ap (λ s. has c ((s ++ 32 ∷ print_bytes xs) ++ 125 ∷ [])) (digits_of x)
    ∙ ap
        (λ b. b || ((hex_digit (x % 16) == c) || ((32 == c) || has c (print_bytes xs ++ 125 ∷ []))))
        (has-hex_digit c (x / 16) l)
    ∙ ap (λ b. b || ((32 == c) || has c (print_bytes xs ++ 125 ∷ []))) (has-hex_digit c (x % 16) l)
    ∙ ap (λ b. b || has c (print_bytes xs ++ 125 ∷ [])) e
    ∙ has-print_bytes c xs l e
