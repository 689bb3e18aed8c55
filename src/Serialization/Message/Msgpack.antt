-- ===== src/Serialization/Message/Msgpack.antt =====
-- hw1-binary-serialization: messages as MessagePack, as objects and as buffers (MSGPACK_DEFINE of
-- message/include/message.hpp, and message/include/message.ipp).
pub mod RoundTrip
use modern_cpp_hw.Prelude.{ℕ, List, [], ◌∷◌, Option, none, some, map}
use modern_cpp_hw.Serialization.Message.{
  Attachment, Message, MessageVector, message, invalid_user_id,
}
use modern_cpp_hw.Serialization.Msgpack.{
  Msgpack, Converted, converted, type_error, ◌>>=◌, or_unpack_error, or_type_error,
  or_size_overflow,
}

-- The conversion of a member that may be left at its first value.
abbrev pub member {ℓ} : {A O : Type ℓ} → A → (O → Converted A) → Option O → Converted A
member first convert none = converted first
member first convert (some o) = convert o

module _ (lib : Msgpack) where
  open lib use {Object}

  abbrev pub uint64_of_object : Object → Converted ℕ
  uint64_of_object o = or_type_error (lib.to_uint64 o)

  abbrev pub string_of_object : Object → Converted (List ℕ)
  string_of_object o = or_type_error (lib.to_string o)

  abbrev pub bytes_of_object : Object → Converted (List ℕ)
  bytes_of_object o = or_type_error (lib.to_bytes o)

  -- A std::vector, element by element.
  unfoldable pub vector_of_objects :
      {A : Type 0} → (Object → Converted A) → List Object → Converted (List A)
  vector_of_objects convert [] = converted []
  vector_of_objects convert (o ∷ os) = do
    a ← convert o
    rest ← vector_of_objects convert os
    converted (a ∷ rest)

  abbrev pub vector_of_object : {A : Type 0} → (Object → Converted A) → Object → Converted (List A)
  vector_of_object convert o = or_type_error (lib.to_array o) >>= vector_of_objects convert

  -- The members of an Attachment, of which there is one.
  unfoldable pub attachment_of_members : List (Option Object) → Converted Attachment
  attachment_of_members (o ∷ []) = do
    bytes ← member [] bytes_of_object o
    converted (record { buffer = bytes })
  attachment_of_members _ = type_error

  unfoldable pub attachment_of_object : Object → Converted Attachment
  attachment_of_object o = or_type_error (lib.to_members 1 o) >>= attachment_of_members

  -- The members of a Message, of which there are four.
  unfoldable pub message_of_members : List (Option Object) → Converted Message
  message_of_members (o0 ∷ o1 ∷ o2 ∷ o3 ∷ []) = do
    from ← member invalid_user_id uint64_of_object o0
    to ← member invalid_user_id uint64_of_object o1
    text ← member [] string_of_object o2
    attachments ← member [] (vector_of_object attachment_of_object) o3
    converted (message from to text attachments)
  message_of_members _ = type_error

  -- Message::Message(const msgpack::object_handle&)
  unfoldable pub message_of_object : Object → Converted Message
  message_of_object o = or_type_error (lib.to_members 4 o) >>= message_of_members

  -- Message::Message(const msgpack::sbuffer&)
  unfoldable pub message_of_sbuffer : List ℕ → Converted Message
  message_of_sbuffer sbuf = or_unpack_error (lib.unpack sbuf) >>= message_of_object

  -- MessageVector::MessageVector(const msgpack::object_handle&)
  unfoldable pub message_vector_of_object : Object → Converted MessageVector
  message_vector_of_object o = do
    messages ← vector_of_object message_of_object o
    converted (record { messages = messages })

  -- MessageVector::MessageVector(const msgpack::sbuffer&)
  unfoldable pub message_vector_of_sbuffer : List ℕ → Converted MessageVector
  message_vector_of_sbuffer sbuf = or_unpack_error (lib.unpack sbuf) >>= message_vector_of_object

  -- MSGPACK_DEFINE(m_buffer)
  unfoldable pub object_of_attachment : Attachment → Object
  object_of_attachment a = lib.of_array (lib.of_bytes a.buffer ∷ [])

  -- MSGPACK_DEFINE(m_from, m_to, m_text, m_attachments)
  unfoldable pub object_of_message : Message → Object
  object_of_message m = lib.of_array (
      lib.of_uint64 m.from
      ∷ lib.of_uint64 m.to
      ∷ lib.of_string m.text
      ∷ lib.of_array (map object_of_attachment m.attachments)
      ∷ [])

  abbrev pub object_of_messages : List Message → Object
  object_of_messages ms = lib.of_array (map object_of_message ms)

  -- Message::to_msgpack_buffer
  unfoldable pub message_to_msgpack_buffer : Message → Converted (List ℕ)
  message_to_msgpack_buffer m = or_size_overflow (lib.pack (object_of_message m))

  -- Message::to_msgpack_dom
  unfoldable pub message_to_msgpack_dom : Message → Converted Object
  message_to_msgpack_dom m = message_to_msgpack_buffer m >>= λ b. or_unpack_error (lib.unpack b)

  -- MessageVector::to_msgpack_buffer
  unfoldable pub message_vector_to_msgpack_buffer : MessageVector → Converted (List ℕ)
  message_vector_to_msgpack_buffer v = or_size_overflow (lib.pack (object_of_messages v.messages))

  -- MessageVector::to_msgpack_dom
  unfoldable pub message_vector_to_msgpack_dom : MessageVector → Converted Object
  message_vector_to_msgpack_dom v =
      message_vector_to_msgpack_buffer v >>= λ b. or_unpack_error (lib.unpack b)
