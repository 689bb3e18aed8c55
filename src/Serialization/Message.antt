-- ===== src/Serialization/Message.antt =====
-- hw1-binary-serialization: Attachment, Message and MessageVector (message/include/message.hpp and
-- message.ipp), with the comparison that the compiler makes for them.
pub mod Equality
pub mod Cbor
pub mod Bson
pub mod Msgpack
pub mod Print
use modern_cpp_hw.Prelude.{ℕ, ◌-◌, ◌^◌, ◌<◌, List, [], ◌∷◌, Bool, true, false, ◌&&◌, ◌==◌, IsBytes}

abbrev pub invalid_user_id : ℕ
invalid_user_id = 2 ^ 64 - 1

pub record Attachment : Type 0 where
  pub buffer : List ℕ

pub record Message : Type 0 where
  pub attachments : List Attachment
  pub text : List ℕ
  pub from : ℕ
  pub to : ℕ

pub record MessageVector : Type 0 where
  pub messages : List Message

-- Message()
abbrev pub default_message : Message
default_message = record {
  attachments = [];
  text = [];
  from = invalid_user_id;
  to = invalid_user_id;
}

abbrev pub message : ℕ → ℕ → List ℕ → List Attachment → Message
message from to text attachments = record {
  attachments = attachments;
  text = text;
  from = from;
  to = to;
}

-- operator== of a std::vector.
unfoldable pub vector_eq {ℓ} : {A : Type ℓ} → (A → A → Bool) → List A → List A → Bool
vector_eq eq [] [] = true
vector_eq eq [] (y ∷ ys) = false
vector_eq eq (x ∷ xs) [] = false
vector_eq eq (x ∷ xs) (y ∷ ys) = eq x y && vector_eq eq xs ys

unfoldable pub attachment_eq : Attachment → Attachment → Bool
attachment_eq a b = vector_eq (λ x y. x == y) a.buffer b.buffer

unfoldable pub message_eq : Message → Message → Bool
message_eq a b =
    vector_eq attachment_eq a.attachments b.attachments
    && vector_eq (λ x y. x == y) a.text b.text
    && (a.from == b.from)
    && (a.to == b.to)

unfoldable pub message_vector_eq : MessageVector → MessageVector → Bool
message_vector_eq a b = vector_eq message_eq a.messages b.messages

-- The values that the members' types hold.
abbrev pub AreAttachments : List Attachment → Type 0
AreAttachments [] = Unit {0}
AreAttachments (a ∷ rest) = IsBytes a.buffer × AreAttachments rest

pub record IsMessage (m : Message) : Type 0 where
  pub from_fits : m.from < 2 ^ 64
  pub to_fits : m.to < 2 ^ 64
  pub text_fits : IsBytes m.text
  pub attachments_fit : AreAttachments m.attachments

abbrev pub AreMessages : List Message → Type 0
AreMessages [] = Unit {0}
AreMessages (m ∷ rest) = IsMessage m × AreMessages rest
