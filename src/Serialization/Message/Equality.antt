-- ===== src/Serialization/Message/Equality.antt =====
-- The comparison of messages (message/include/message.hpp).
use modern_cpp_hw.Prelude.{ℕ, ◌≡◌, refl, ◌↔◌, List, [], ◌∷◌, Bool, true, ◌==◌, arith}
use modern_cpp_hw.Serialization.Message.{
  Attachment, Message, MessageVector, vector_eq, attachment_eq, message_eq, message_vector_eq,
}

-- A test that holds exactly for equal values.
abbrev Decides {ℓ} : {A : Type ℓ} → (A → A → Bool) → Type ℓ
Decides {A = A} eq = (x y : A) → (eq x y ≡ true) ↔ (x ≡ y)

vector_eq-Decides :
    {A : Type 0} (eq : A → A → Bool)
    → Decides eq
    → (xs ys : List A) → (vector_eq eq xs ys ≡ true) ↔ (xs ≡ ys)
unfolding vector_eq
vector_eq-Decides eq h [] [] = (λ e. refl, λ e. refl)
vector_eq-Decides eq h [] (y ∷ ys) = (λ e. cc, λ e. cc)
vector_eq-Decides eq h (x ∷ xs) [] = (λ e. cc, λ e. cc)
vector_eq-Decides eq h (x ∷ xs) (y ∷ ys) = ground (arith, h x y, vector_eq-Decides eq h xs ys)

bytes_eq-Decides : (xs ys : List ℕ) → (vector_eq (λ (x y : ℕ). x == y) xs ys ≡ true) ↔ (xs ≡ ys)
bytes_eq-Decides = vector_eq-Decides (λ x y. x == y) (λ x y. ground arith)

attachment_eq-Decides : (a b : Attachment) → (attachment_eq a b ≡ true) ↔ (a ≡ b)
unfolding attachment_eq
attachment_eq-Decides a b = ground (arith, bytes_eq-Decides a.buffer b.buffer)

message_eq-Decides : (a b : Message) → (message_eq a b ≡ true) ↔ (a ≡ b)
unfolding message_eq
message_eq-Decides a b = ground (
  arith,
  vector_eq-Decides attachment_eq attachment_eq-Decides a.attachments b.attachments,
  bytes_eq-Decides a.text b.text,
)

-- The comparison of two vectors of messages holds exactly where they are equal, member by member.
pub message_vector_eq-Decides : (a b : MessageVector) → (message_vector_eq a b ≡ true) ↔ (a ≡ b)
unfolding message_vector_eq
message_vector_eq-Decides a b =
    ground (arith, vector_eq-Decides message_eq message_eq-Decides a.messages b.messages)
