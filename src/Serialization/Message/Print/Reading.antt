-- ===== src/Serialization/Message/Print/Reading.antt =====
-- hw1-binary-serialization: printed messages, read back (message/src/message.cpp).
use modern_cpp_hw.Prelude.{
  ℕ, ◌≡◌, ◌∙◌, refl, ap, List, [], ◌∷◌, ◌++◌, false, if◌then◌else◌, ◌==◌, ◌||◌, arith, Bool-cases,
  inl, inr, append_assoc, value_from,
}
use modern_cpp_hw.Serialization.Message.{Attachment, Message, message, AreAttachments, IsMessage}
use modern_cpp_hw.Serialization.Message.Print.{
  print_number, print_bytes, print_attachment, print_attachments, print_message,
}
use modern_cpp_hw.Serialization.Message.Print.Scan.{
  before, behind, has, before_last, behind_last, before-append, behind-append, has-append,
  before_last-append, behind_last-append,
}
use modern_cpp_hw.Serialization.Message.Print.Digits.{
  value_from-decimal, has-decimal, read_bytes, read_bytes-print_bytes, has-print_bytes,
}

-- The parts of a text between the ends of lines.
abbrev push : ℕ → List (List ℕ) → List (List ℕ)
push c [] = (c ∷ []) ∷ []
push c (l ∷ ls) = (c ∷ l) ∷ ls

abbrev lines : List ℕ → List (List ℕ)
lines [] = [] ∷ []
lines (c ∷ s) = let rest = lines s in if c == 10 then [] ∷ rest else push c rest

lines-append : (xs ys : List ℕ) → has 10 xs ≡ false → lines (xs ++ 10 ∷ ys) ≡ xs ∷ lines ys
lines-append [] ys e = refl
lines-append (x ∷ xs) ys e = elim (Bool-cases (x == 10)) [
  | inl y ↦ ground (arith, y, e)
  | inr y ↦ rw y (ap (push x) (lines-append xs ys (rw y at e)))
]

-- A line that begins with '\t' is an attachment.
abbrev attachment_of : List ℕ → List Attachment → List Attachment
attachment_of (t ∷ brace ∷ space ∷ l) rest =
    if t == 9 then record { buffer = read_bytes l } ∷ rest else rest
attachment_of _ rest = rest

abbrev attachments_of : List (List ℕ) → List Attachment
attachments_of [] = []
attachments_of (l ∷ ls) = attachment_of l (attachments_of ls)

-- The text behind the quotes: the attachments, and "}\n".
abbrev printed_behind : List Attachment → List ℕ
printed_behind list = print_attachments list ++ 125 ∷ 10 ∷ []

-- A line for each attachment.
printed_line :
    (a : Attachment) (rest : List Attachment)
    → printed_behind (a ∷ rest)
      ≡ (9 ∷ 123 ∷ 32 ∷ (print_bytes a.buffer ++ 125 ∷ [])) ++ 10 ∷ printed_behind rest
unfolding print_attachments print_attachment
printed_line a rest =
    ap (λ s. 9 ∷ 123 ∷ 32 ∷ s)
      (append_assoc (print_bytes a.buffer ++ 125 ∷ []) (10 ∷ print_attachments rest)
        (125 ∷ 10 ∷ []))

attachments_of-lines :
    (list : List Attachment)
    → AreAttachments list
    → attachments_of (lines (printed_behind list)) ≡ list
unfolding print_attachments
attachments_of-lines [] f = refl
attachments_of-lines (a ∷ rest) (b, f) =
    ap (λ s. attachments_of (lines s)) (printed_line a rest)
    ∙ ap attachments_of (
        lines-append (9 ∷ 123 ∷ 32 ∷ (print_bytes a.buffer ++ 125 ∷ [])) (printed_behind rest)
          (has-print_bytes 10 a.buffer (omega arith) refl))
    ∙ ap (λ bytes. record { buffer = bytes } ∷ attachments_of (lines (printed_behind rest)))
        (read_bytes-print_bytes a.buffer b)
    ∙ ap (λ list. a ∷ list) (attachments_of-lines rest f)

has-printed_behind : (list : List Attachment) → has 34 (printed_behind list) ≡ false
unfolding print_attachments
has-printed_behind [] = refl
has-printed_behind (a ∷ rest) =
    ap (has 34) (printed_line a rest)
    ∙ has-append 34 (9 ∷ 123 ∷ 32 ∷ (print_bytes a.buffer ++ 125 ∷ [])) (10 ∷ printed_behind rest)
    ∙ ap (λ b. b || has 34 (printed_behind rest)) (has-print_bytes 34 a.buffer (omega arith) refl)
    ∙ has-printed_behind rest

-- The text of a message and what follows it.
abbrev message_from : ℕ → ℕ → List ℕ → Message
message_from from to s =
    message from to (before_last 34 s) (attachments_of (lines (behind_last 34 s)))

-- What a reader makes of a printed message: the numbers up to the commas, the text up to the last
-- quote, and the lines behind it.
abbrev pub read_message : List ℕ → Message
read_message s =
    let second = behind 32 (behind 44 s) in
    message_from (value_from 0 (before 44 s)) (value_from 0 (before 44 second))
      (behind 34 (behind 44 second))

-- A message whose members' values their types hold is read back from what is printed for it, though its
-- text may hold quotes and ends of lines.
pub read_message-print_message : (m : Message) → IsMessage m → read_message (print_message m) ≡ m
unfolding print_message
read_message-print_message m f =
    let tail = 44 ∷ 10 ∷ 123 ∷ 10 ∷ printed_behind m.attachments in
    let behind_to = 32 ∷ 34 ∷ (m.text ++ 34 ∷ tail) in
    let behind_from = 32 ∷ (print_number m.to ++ 44 ∷ behind_to) in
    let from_digits = has-decimal 20 m.from in
    let to_digits = has-decimal 20 m.to in
    let unquoted : has 34 tail ≡ false = has-printed_behind m.attachments in
    rw
      (
        behind-append 44 (print_number m.from) behind_from from_digits,
        before-append 44 (print_number m.from) behind_from from_digits,
        behind-append 44 (print_number m.to) behind_to to_digits,
        before-append 44 (print_number m.to) behind_to to_digits,
        before_last-append 34 m.text tail unquoted,
        behind_last-append 34 m.text tail unquoted,
        attachments_of-lines m.attachments f.attachments_fit,
        value_from-decimal 20 m.from (omega (arith, f.from_fits)),
        value_from-decimal 20 m.to (omega (arith, f.to_fits)),
      )
      refl
