-- ===== src/Serialization/Message/Print/Tests.antt =====
-- hw1-binary-serialization: a message with a quote in its text and an attachment of two bytes, printed.
use modern_cpp_hw.Prelude.{ℕ, ◌≡◌, refl, List, [], ◌∷◌, arith}
use modern_cpp_hw.Serialization.Message.{Message, message, IsMessage}
use modern_cpp_hw.Serialization.Message.Print.{
  decimal, print_message, print_attachment, print_attachments,
}
use modern_cpp_hw.Serialization.Message.Print.Reading.{read_message, read_message-print_message}

abbrev quoting : Message
quoting = message 17 8 (97 ∷ 34 ∷ 98 ∷ []) (record { buffer = 0 ∷ 255 ∷ [] } ∷ [])

quoting-IsMessage : IsMessage quoting
quoting-IsMessage = record {
  from_fits = omega arith;
  to_fits = omega arith;
  text_fits = (omega arith, (omega arith, (omega arith, tt)));
  attachments_fit = ((omega arith, (omega arith, tt)), tt);
}

-- 17, 8, "a"b", and the lines from {.
abbrev printed : List ℕ
printed =
    49 ∷ 55 ∷ 44 ∷ 32 ∷ 56 ∷ 44 ∷ 32 ∷ 34 ∷ 97 ∷ 34 ∷ 98 ∷ 34 ∷ 44 ∷ 10 ∷ 123 ∷ 10 ∷ 9 ∷ 123 ∷ 32
    ∷ 48 ∷ 48 ∷ 32 ∷ 102 ∷ 102 ∷ 32 ∷ 125 ∷ 10 ∷ 125 ∷ 10 ∷ []

print_quoting : print_message quoting ≡ printed
unfolding print_message decimal print_attachments print_attachment
print_quoting = refl

read_message-print_message_example : read_message (print_message quoting) ≡ quoting
read_message-print_message_example = read_message-print_message quoting quoting-IsMessage
