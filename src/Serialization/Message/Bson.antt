-- ===== src/Serialization/Message/Bson.antt =====
-- hw1-binary-serialization: messages as BSON (message/src/message.cpp).
-- A loop over a cursor has a bound on its rounds.
pub mod Encoding
pub mod RoundTrip
pub mod Failing
use modern_cpp_hw.Prelude.{ℕ, zero, suc, List, [], ◌∷◌, Bool, true, false, not}
use modern_cpp_hw.Serialization.Result.{Result, done, exhausted, ◌>>=◌, ◌>>◌, assert}
use modern_cpp_hw.Serialization.Message.{Attachment, Message, MessageVector, message}
use modern_cpp_hw.Serialization.Bson.{
  Libbson, SubArray, string_index, sub_array, end_sub_array, increment, sub_append_uint64,
  sub_append_utf8, sub_append_binary, as_uint64, as_utf8, as_binary, as_array,
}

module _ (lib : Libbson) where
  open lib use {Doc, Cursor}

  unfoldable pub append_attachments : SubArray lib → List Attachment → Result (SubArray lib)
  append_attachments a [] = done a
  append_attachments a (x ∷ rest) = do
    a' ← sub_append_binary lib a x.buffer
    append_attachments a' rest

  -- Message::to_bson_buffer
  unfoldable pub message_to_bson_buffer : Doc → List ℕ → Message → Result Doc
  message_to_bson_buffer parent key m = do
    (parent', message0) ← sub_array lib parent key
    message1 ← sub_append_uint64 lib message0 m.from
    message2 ← sub_append_uint64 lib message1 m.to
    message3 ← sub_append_utf8 lib message2 m.text
    index ← string_index message3.index
    (doc, attachments) ← sub_array lib message3.doc index
    let message4 = increment lib (record message3 { doc = doc })
    attachments' ← append_attachments attachments m.attachments
    doc' ← end_sub_array lib message4.doc attachments'
    end_sub_array lib parent' (record message4 { doc = doc' })

  unfoldable pub append_messages : SubArray lib → List Message → Result (SubArray lib)
  append_messages a [] = done a
  append_messages a (m ∷ rest) = do
    index ← string_index a.index
    doc ← message_to_bson_buffer a.doc index m
    append_messages (increment lib (record a { doc = doc })) rest

  -- MessageVector::to_bson_buffer
  unfoldable pub message_vector_to_bson_buffer : MessageVector → Result Doc
  message_vector_to_bson_buffer v = do
    (buffer, a) ← sub_array lib lib.empty (48 ∷ [])
    a' ← append_messages a v.messages
    end_sub_array lib buffer a'

  -- result = iter.next(); assert(result)
  unfoldable pub next : Bool × Cursor → Result Cursor
  next (result, i) = assert result >> done i

  unfoldable pub next_attachment :
      (Cursor → Result (List Attachment)) → Bool × Cursor → Result (List Attachment)
  next_attachment again (false, i) = done []
  next_attachment again (true, i) = do
    binary ← as_binary lib i
    rest ← again i
    done (record { buffer = binary } ∷ rest)

  unfoldable pub attachments_of_iter : ℕ → Cursor → Result (List Attachment)
  attachments_of_iter zero i = exhausted
  attachments_of_iter (suc rounds) i =
      next_attachment (attachments_of_iter rounds) (lib.iter_next i)

  -- Message::Message(bson::Iter&)
  unfoldable pub message_of_iter : ℕ → Cursor → Result Message
  message_of_iter rounds i0 = do
    i1 ← next (lib.iter_next i0)
    from ← as_uint64 lib i1
    i2 ← next (lib.iter_next i1)
    to ← as_uint64 lib i2
    i3 ← next (lib.iter_next i2)
    text ← as_utf8 lib i3
    i4 ← next (lib.iter_next i3)
    attachments_iter ← as_array lib i4
    attachments ← attachments_of_iter rounds attachments_iter
    assert (not (lib.iter_next i4).0)
    done (message from to text attachments)

  unfoldable pub next_message :
      ℕ → (Cursor → Result (List Message)) → Bool × Cursor → Result (List Message)
  next_message rounds again (false, i) = done []
  next_message rounds again (true, i) = do
    message_iter ← as_array lib i
    m ← message_of_iter rounds message_iter
    rest ← again i
    done (m ∷ rest)

  -- Each message may take `inner` rounds for its attachments.
  unfoldable pub messages_of_iter : ℕ → ℕ → Cursor → Result (List Message)
  messages_of_iter inner zero i = exhausted
  messages_of_iter inner (suc rounds) i =
      next_message inner (messages_of_iter inner rounds) (lib.iter_next i)

  -- MessageVector::MessageVector(bson::Iter&)
  unfoldable pub message_vector_of_iter : ℕ → ℕ → Cursor → Result MessageVector
  message_vector_of_iter inner rounds i0 = do
    i1 ← next (lib.iter_next i0)
    array ← as_array lib i1
    messages ← messages_of_iter inner rounds array
    assert (not (lib.iter_next i1).0)
    done (record { messages = messages })
