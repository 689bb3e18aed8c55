-- ===== src/Serialization/Message/Msgpack/RoundTrip.antt =====
-- From messages to MessagePack and back (message/include/message.hpp and message.ipp).
use modern_cpp_hw.Prelude.{
  suc, ◌<◌, ◌^◌, ◌≡◌, refl, ap, List, [], ◌∷◌, map, length, arith, ℕ, some, All,
}
use modern_cpp_hw.Serialization.Message.{Attachment, Message, MessageVector, IsMessage, AreMessages}
use modern_cpp_hw.Serialization.Msgpack.{Msgpack, IsMsgpack, converted, ◌>>=◌}
use modern_cpp_hw.Serialization.Message.Msgpack.{
  vector_of_objects, attachment_of_members, attachment_of_object, message_of_members,
  message_of_object, message_of_sbuffer, message_vector_of_object, message_vector_of_sbuffer,
  object_of_attachment, object_of_message, object_of_messages, message_to_msgpack_buffer,
  message_to_msgpack_dom, message_vector_to_msgpack_buffer, message_vector_to_msgpack_dom,
}

-- Sizes that a buffer can tell.
abbrev pub AreShortAttachments : List Attachment → Type 0
AreShortAttachments [] = Unit {0}
AreShortAttachments (a ∷ rest) = (length a.buffer < 2 ^ 32) × AreShortAttachments rest

abbrev pub IsShort : Message → Type 0
IsShort m =
    (length m.text < 2 ^ 32) × (length m.attachments < 2 ^ 32) × AreShortAttachments m.attachments

abbrev pub AreShort : List Message → Type 0
AreShort [] = Unit {0}
AreShort (m ∷ rest) = IsShort m × AreShort rest

length-map {ℓ} : {A B : Type ℓ} (f : A → B) (xs : List A) → length (map f xs) ≡ length xs
length-map f [] = refl
length-map f (x ∷ xs) = ap suc (length-map f xs)

module _ (lib : Msgpack) (k : IsMsgpack lib) where
  attachment_back :
      (a : Attachment)
      → length a.buffer < 2 ^ 32
      → attachment_of_object lib (object_of_attachment lib a) ≡ converted a
  unfolding attachment_of_object attachment_of_members object_of_attachment
  attachment_back a l =
      rw (k.members (lib.of_bytes a.buffer ∷ []) (omega arith), k.byte_vectors a.buffer l) refl

  attachments_back :
      (xs : List Attachment)
      → AreShortAttachments xs
      → vector_of_objects lib (attachment_of_object lib) (map (object_of_attachment lib) xs)
        ≡ converted xs
  unfolding vector_of_objects
  attachments_back [] l = refl
  attachments_back (x ∷ xs) (l, ls) = rw (attachment_back x l, attachments_back xs ls) refl

  few_objects :
      {A : Type 0} (f : A → lib.Object) (xs : List A)
      → length xs < 2 ^ 32
      → length (map f xs) < 2 ^ 32
  few_objects f xs l = omega (arith, l, length-map f xs)

  message_back :
      (m : Message)
      → IsMessage m
      → IsShort m
      → message_of_object lib (object_of_message lib m) ≡ converted m
  unfolding message_of_object message_of_members object_of_message
  message_back m h (t, n, ls) =
      rw
        (
          k.members
              (lib.of_uint64 m.from
                ∷ lib.of_uint64 m.to
                ∷ lib.of_string m.text
                ∷ lib.of_array (map (object_of_attachment lib) m.attachments)
                ∷ [])
              (omega arith),
          k.uint64s m.from h.from_fits,
          k.uint64s m.to h.to_fits,
          k.strings m.text t,
          k.arrays (map (object_of_attachment lib) m.attachments)
              (few_objects (object_of_attachment lib) m.attachments n),
          attachments_back m.attachments ls,
        )
        refl

  messages_back :
      (ms : List Message)
      → AreMessages ms
      → AreShort ms
      → vector_of_objects lib (message_of_object lib) (map (object_of_message lib) ms)
        ≡ converted ms
  unfolding vector_of_objects
  messages_back [] h s = refl
  messages_back (m ∷ ms) (h, hs) (s, ss) = rw (message_back m h s, messages_back ms hs ss) refl

  attachments-ArePackable :
      (xs : List Attachment)
      → AreShortAttachments xs
      → All k.IsPackable (map (object_of_attachment lib) xs)
  unfolding object_of_attachment
  attachments-ArePackable [] l = tt
  attachments-ArePackable (x ∷ xs) (l, ls) = (
    k.packable_array _ (omega arith) (k.packable_bytes x.buffer l, tt),
    attachments-ArePackable xs ls,
  )

  message-IsPackable :
      (m : Message) → IsMessage m → IsShort m → k.IsPackable (object_of_message lib m)
  unfolding object_of_message
  message-IsPackable m h (t, n, ls) = k.packable_array _ (omega arith) (
    k.packable_uint64 m.from h.from_fits,
    (
      k.packable_uint64 m.to h.to_fits,
      (
        k.packable_string m.text t,
        (
          k.packable_array _ (few_objects (object_of_attachment lib) m.attachments n)
              (attachments-ArePackable m.attachments ls),
          tt,
        ),
      ),
    ),
  )

  messages-ArePackable :
      (ms : List Message)
      → AreMessages ms
      → AreShort ms
      → All k.IsPackable (map (object_of_message lib) ms)
  messages-ArePackable [] h s = tt
  messages-ArePackable (m ∷ ms) (h, hs) (s, ss) =
      (message-IsPackable m h s, messages-ArePackable ms hs ss)

  -- With msgpack-c as it is documented, a message of values that its members hold, whose text, attachments
  -- and their bytes are fewer than 2^32 each, comes back from the buffer and from the object that it is
  -- made into.
  pub message_of_sbuffer-message_to_msgpack_buffer :
      (m : Message)
      → IsMessage m
      → IsShort m
      → ((message_to_msgpack_buffer lib m >>= message_of_sbuffer lib) ≡ converted m)
        × ((message_to_msgpack_dom lib m >>= message_of_object lib) ≡ converted m)
  unfolding message_of_sbuffer message_to_msgpack_buffer message_to_msgpack_dom
  message_of_sbuffer-message_to_msgpack_buffer m h s =
      let (b, p, u) = k.unpacks (object_of_message lib m) (message-IsPackable m h s) in
      (rw (p, u) (message_back m h s), rw (p, u) (message_back m h s))

  vector_back :
      (v : MessageVector)
      → AreMessages v.messages
      → length v.messages < 2 ^ 32
      → AreShort v.messages
      → message_vector_of_object lib (object_of_messages lib v.messages) ≡ converted v
  unfolding message_vector_of_object
  vector_back v h n s =
      rw
        (
          k.arrays (map (object_of_message lib) v.messages)
              (few_objects (object_of_message lib) v.messages n),
          messages_back v.messages h s,
        )
        refl

  -- The file of a vector of messages.
  pub packed :
      (v : MessageVector)
      → AreMessages v.messages
      → length v.messages < 2 ^ 32
      → AreShort v.messages
      → (b : List ℕ) × (lib.pack (object_of_messages lib v.messages) ≡ some b)
        × (lib.unpack b ≡ some (object_of_messages lib v.messages))
  packed v h n s = k.unpacks (object_of_messages lib v.messages) (
      k.packable_array _ (few_objects (object_of_message lib) v.messages n)
        (messages-ArePackable v.messages h s))

  pub vector_read :
      (v : MessageVector) (b : List ℕ)
      → AreMessages v.messages
      → length v.messages < 2 ^ 32
      → AreShort v.messages
      → lib.unpack b ≡ some (object_of_messages lib v.messages)
      → message_vector_of_sbuffer lib b ≡ converted v
  unfolding message_vector_of_sbuffer
  vector_read v b h n s u = rw u (vector_back v h n s)

  -- With msgpack-c as it is documented, a vector of fewer than 2^32 messages of values that their members
  -- hold, whose texts, attachments and their bytes are fewer than 2^32 each, comes back from the buffer
  -- and from the object that it is made into, in its order.
  pub message_vector_of_sbuffer-message_vector_to_msgpack_buffer :
      (v : MessageVector)
      → AreMessages v.messages
      → length v.messages < 2 ^ 32
      → AreShort v.messages
      → ((message_vector_to_msgpack_buffer lib v >>= message_vector_of_sbuffer lib) ≡ converted v)
        × ((message_vector_to_msgpack_dom lib v >>= message_vector_of_object lib) ≡ converted v)
  unfolding message_vector_to_msgpack_buffer message_vector_to_msgpack_dom
  message_vector_of_sbuffer-message_vector_to_msgpack_buffer v h n s =
      let (b, p, u) = packed v h n s in
      (rw p (vector_read v b h n s u), rw (p, u) (vector_back v h n s))
