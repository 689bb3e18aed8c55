-- ===== src/Serialization/Message/Cbor.antt =====
-- hw1-binary-serialization: messages as CBOR, as items and as buffers (message/src/message.cpp and
-- message/include/message.ipp).
pub mod Encoding
pub mod RoundTrip
pub mod Failing
use modern_cpp_hw.Prelude.{ℕ, zero, suc, List, [], ◌∷◌, Option, none, some, length, ◌==◌, get_elem?}
use modern_cpp_hw.Serialization.Result.{
  Result, done, fault, ◌>>=◌, ◌>>◌, assert, or_fault, or_runtime_error, or_bad_alloc,
}
use modern_cpp_hw.Serialization.Message.{Attachment, Message, MessageVector, message}
use modern_cpp_hw.Serialization.Cbor.{
  Libcbor, item_of_buffer, buffer_of_item, array_push, build_uint64, new_definite_array,
  build_string, build_bytestring,
}

module _ (lib : Libcbor) where
  open lib use {Item}

  -- One round of the loop over the attachments.
  unfoldable pub attachment_of_item : Item → Result Attachment
  attachment_of_item current = do
    assert (lib.isa_bytestring current)
    done (record { buffer = lib.bytestring_bytes current })

  -- The loop over so many attachments.
  unfoldable pub attachments_of_items : ℕ → List Item → Result (List Attachment)
  attachments_of_items zero items = done []
  attachments_of_items (suc n) [] = fault
  attachments_of_items (suc n) (current ∷ rest) = do
    a ← attachment_of_item current
    more ← attachments_of_items n rest
    done (a ∷ more)

  abbrev handle_at : Item → ℕ → Result Item
  handle_at item i = or_fault (get_elem? (lib.array_handle item) i)

  -- Message::Message(const cbor::Item&)
  unfoldable pub message_of_item : Item → Result Message
  message_of_item item = do
    assert (lib.isa_array item)
    assert (lib.array_size item == 4)
    i0 ← handle_at item 0
    i1 ← handle_at item 1
    i2 ← handle_at item 2
    i3 ← handle_at item 3
    assert (lib.isa_uint i0)
    assert (lib.isa_uint i1)
    assert (lib.isa_string i2)
    assert (lib.isa_array i3)
    attachments ← attachments_of_items (lib.array_size i3) (lib.array_handle i3)
    done (message (lib.get_uint64 i0) (lib.get_uint64 i1) (lib.string_bytes i2) attachments)

  -- Message::Message(const cbor::Buffer&)
  unfoldable pub message_of_buffer : List ℕ → Result Message
  message_of_buffer buffer = item_of_buffer lib buffer >>= message_of_item

  -- Message(item_handle[i]): a pointer is converted to a Buffer, which Message is made of.
  unfoldable pub message_of_pointer : Item → Result Message
  message_of_pointer item = buffer_of_item lib item >>= message_of_buffer

  -- The loop over so many messages.
  unfoldable pub messages_of_items : ℕ → List Item → Result (List Message)
  messages_of_items zero items = done []
  messages_of_items (suc n) [] = fault
  messages_of_items (suc n) (current ∷ rest) = do
    m ← message_of_pointer current
    more ← messages_of_items n rest
    done (m ∷ more)

  -- MessageVector::MessageVector(const cbor::Item&)
  unfoldable pub message_vector_of_item : Item → Result MessageVector
  message_vector_of_item item = do
    assert (lib.isa_array item)
    messages ← messages_of_items (lib.array_size item) (lib.array_handle item)
    done (record { messages = messages })

  unfoldable pub message_vector_of_buffer : List ℕ → Result MessageVector
  message_vector_of_buffer buffer = item_of_buffer lib buffer >>= message_vector_of_item

  unfoldable pub push_attachments : Item → List Attachment → Result Item
  push_attachments array [] = done array
  push_attachments array (a ∷ rest) = do
    i ← build_bytestring lib a.buffer
    array' ← array_push lib array i
    push_attachments array' rest

  -- Message::to_cbor_dom
  unfoldable pub message_to_cbor_dom : Message → Result Item
  message_to_cbor_dom m = do
    root ← new_definite_array lib 4
    from ← build_uint64 lib m.from
    to ← build_uint64 lib m.to
    text ← build_string lib m.text
    empty ← new_definite_array lib (length m.attachments)
    attachments ← push_attachments empty m.attachments
    root1 ← array_push lib root from
    root2 ← array_push lib root1 to
    root3 ← array_push lib root2 text
    array_push lib root3 attachments

  unfoldable pub message_to_cbor_buffer : Message → Result (List ℕ)
  message_to_cbor_buffer m = message_to_cbor_dom m >>= buffer_of_item lib

  -- The result of cbor_array_push is not looked at: where it is `false` the array stays as it is.
  abbrev pub or_same : Item → Option Item → Item
  or_same array none = array
  or_same array (some array') = array'

  unfoldable pub push_messages : Item → List Message → Result Item
  push_messages array [] = done array
  push_messages array (m ∷ rest) = do
    i ← message_to_cbor_dom m
    push_messages (or_same array (lib.array_push array i)) rest

  -- MessageVector::to_cbor_dom
  unfoldable pub message_vector_to_cbor_dom : MessageVector → Result Item
  message_vector_to_cbor_dom v = do
    root ← new_definite_array lib (length v.messages)
    push_messages root v.messages

  unfoldable pub message_vector_to_cbor_buffer : MessageVector → Result (List ℕ)
  message_vector_to_cbor_buffer v = message_vector_to_cbor_dom v >>= buffer_of_item lib
