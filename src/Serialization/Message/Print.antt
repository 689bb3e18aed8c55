-- ===== src/Serialization/Message/Print.antt =====
-- hw1-binary-serialization: how messages are printed (the operators << of message/src/message.cpp).
-- Text is a list of character codes; a stream has the flags of a new one when it is printed to.
pub mod Scan
pub mod Digits
pub mod Reading
mod Tests
use modern_cpp_hw.Prelude.{
  ℕ, zero, suc, ◌+◌, ◌-◌, ◌/◌, ◌%◌, List, [], ◌∷◌, ◌++◌, if◌then◌else◌, ltb, length,
}
use modern_cpp_hw.Serialization.Message.{Attachment, Message}

-- An unsigned number with so many decimal digits at most.
unfoldable pub decimal : ℕ → ℕ → List ℕ
decimal zero n = []
decimal (suc k) n =
    let front = decimal k (n / 10) in
    if ltb n 10 then (n + 48) ∷ [] else front ++ (n % 10 + 48) ∷ []

-- Numbers of 64 bits have 20 digits at most.
abbrev pub print_number : ℕ → List ℕ
print_number n = decimal 20 n

abbrev pub hex_digit : ℕ → ℕ
hex_digit d = if ltb d 10 then d + 48 else d + 87

-- A byte under std::hex.
abbrev pub hexadecimal : ℕ → List ℕ
hexadecimal b = if ltb b 16 then hex_digit b ∷ [] else hex_digit (b / 16) ∷ hex_digit (b % 16) ∷ []

abbrev pub repeated : ℕ → ℕ → List ℕ
repeated zero c = []
repeated (suc n) c = c ∷ repeated n c

-- std::setw(width) and std::setfill(fill) for what is printed next.
abbrev pub padded : ℕ → ℕ → List ℕ → List ℕ
padded width fill s = repeated (width - length s) fill ++ s

abbrev pub print_bytes : List ℕ → List ℕ
print_bytes [] = []
print_bytes (b ∷ bytes) = padded 2 48 (hexadecimal b) ++ 32 ∷ print_bytes bytes

-- "{ ", the bytes and '}'.
unfoldable pub print_attachment : Attachment → List ℕ
print_attachment a = 123 ∷ 32 ∷ (print_bytes a.buffer ++ 125 ∷ [])

-- Each between '\t' and '\n'.
unfoldable pub print_attachments : List Attachment → List ℕ
print_attachments [] = []
print_attachments (a ∷ rest) = 9 ∷ (print_attachment a ++ 10 ∷ print_attachments rest)

-- The pieces between are ", ", ", \"", "\",\n{\n" and "}\n".
unfoldable pub print_message : Message → List ℕ
print_message m =
    print_number m.from
    ++ 44
      ∷ 32
      ∷ (print_number m.to
          ++ 44
            ∷ 32
            ∷ 34
            ∷ (m.text
                ++ 34 ∷ 44 ∷ 10 ∷ 123 ∷ 10 ∷ (print_attachments m.attachments ++ 125 ∷ 10 ∷ [])))
