-- ===== src/Serialization/Message/Bson/RoundTrip.antt =====
-- From messages to BSON and back (message/src/message.cpp).
use modern_cpp_hw.Prelude.{
  ℕ, zero, suc, ◌+◌, ◌<◌, ◌^◌, ◌≡◌, ◌∙◌, refl, List, [], ◌∷◌, some, length, arith, to_int64,
  to_uint64-to_int64,
}
use modern_cpp_hw.Serialization.Result.{done, ◌>>=◌}
use modern_cpp_hw.Serialization.Message.{Attachment, Message, MessageVector, IsMessage, AreMessages}
use modern_cpp_hw.Serialization.Bson.{
  Libbson, iter, is_uint64, as_int64, as_uint64, as_binary, as_utf8, as_array,
}
use modern_cpp_hw.Serialization.Bson.Laws.{
  Element, int64, utf8, binary, array, Elements, field, IsLibbson, HasRoom,
}
use modern_cpp_hw.Serialization.Message.Bson.{
  message_vector_to_bson_buffer, next, next_attachment, attachments_of_iter, message_of_iter,
  next_message, messages_of_iter, message_vector_of_iter,
}
use modern_cpp_hw.Serialization.Message.Bson.Encoding.{
  attachment_elements, message_elements, vector_elements, AreSmall,
  message_vector_to_bson_buffer-elements,
}

-- So many rounds are enough for the attachments of each message.
abbrev pub HaveRounds : ℕ → List Message → Type 0
HaveRounds inner [] = Unit {0}
HaveRounds inner (m ∷ rest) = (length m.attachments < inner) × HaveRounds inner rest

module _ (lib : Libbson) (k : IsLibbson lib) where
  abbrev after : lib.Cursor → lib.Cursor
  after i = (lib.iter_next i).1

  next_field :
      (i : lib.Cursor) (key : List ℕ) (e : Element) (rest : Elements)
      → k.remaining i ≡ field key e rest
      → next lib (lib.iter_next i) ≡ done (after i)
  unfolding next
  next_field i key e rest h = rw (k.steps i key e rest h).0 refl

  as_uint64_of :
      (i : lib.Cursor) (n : ℕ)
      → k.current i ≡ some (int64 (to_int64 n))
      → n < 2 ^ 64
      → as_uint64 lib i ≡ done n
  unfolding as_uint64 is_uint64 as_int64
  as_uint64_of i n e l =
      let (holds, value) = k.reads_int64 i (to_int64 n) e in
      rw (holds, value, to_uint64-to_int64 n l) refl

  as_utf8_of : (i : lib.Cursor) (s : List ℕ) → k.current i ≡ some (utf8 s) → as_utf8 lib i ≡ done s
  unfolding as_utf8
  as_utf8_of i s e = let (holds, value) = k.reads_utf8 i s e in rw (holds, value) refl

  as_binary_of :
      (i : lib.Cursor) (s : List ℕ) → k.current i ≡ some (binary s) → as_binary lib i ≡ done s
  unfolding as_binary
  as_binary_of i s e = let (holds, value) = k.reads_binary i s e in rw (holds, value) refl

  as_array_of :
      (i : lib.Cursor) (es : Elements)
      → k.current i ≡ some (array es)
      → as_array lib i ≡ done (lib.iter_recurse i)
  unfolding as_array
  as_array_of i es e = rw (k.reads_array i es e).0 refl

  attachments_of_elements :
      (rounds : ℕ) (i : lib.Cursor) (attachments : List Attachment)
      → k.remaining i ≡ attachment_elements attachments
      → length attachments < rounds
      → attachments_of_iter lib rounds i ≡ done attachments
  unfolding attachments_of_iter next_attachment
  attachments_of_elements zero i attachments e l = absurd (omega (arith, l))
  attachments_of_elements (suc rounds) i [] e l = rw (k.stops i e) refl
  attachments_of_elements (suc rounds) i (x ∷ rest) e l =
      let (more, here, tail) = k.steps i _ _ _ e in
      rw
        (
          more,
          as_binary_of (after i) x.buffer here,
          attachments_of_elements rounds (after i) rest tail (omega (arith, l)),
        )
        refl

  message_of_elements :
      (rounds : ℕ) (i0 : lib.Cursor) (m : Message)
      → k.remaining i0 ≡ message_elements m
      → IsMessage m
      → length m.attachments < rounds
      → message_of_iter lib rounds i0 ≡ done m
  unfolding message_of_iter
  message_of_elements rounds i0 m e w l =
      let (more1, from, e1) = k.steps i0 _ _ _ e in
      let i1 = after i0 in
      let (more2, to, e2) = k.steps i1 _ _ _ e1 in
      let i2 = after i1 in
      let (more3, text, e3) = k.steps i2 _ _ _ e2 in
      let i3 = after i2 in
      let (more4, attachments, e4) = k.steps i3 _ _ _ e3 in
      let i4 = after i3 in
      rw
        (
          next_field i0 _ _ _ e,
          as_uint64_of i1 m.from from w.from_fits,
          next_field i1 _ _ _ e1,
          as_uint64_of i2 m.to to w.to_fits,
          next_field i2 _ _ _ e2,
          as_utf8_of i3 m.text text,
          next_field i3 _ _ _ e3,
          as_array_of i4 _ attachments,
          attachments_of_elements rounds (lib.iter_recurse i4) m.attachments
              (k.reads_array i4 _ attachments).1 l,
          k.stops i4 e4,
        )
        refl

  messages_of_elements :
      (inner rounds i : ℕ) (c : lib.Cursor) (ms : List Message)
      → k.remaining c ≡ vector_elements i ms
      → AreMessages ms
      → HaveRounds inner ms
      → length ms < rounds
      → messages_of_iter lib inner rounds c ≡ done ms
  unfolding messages_of_iter next_message
  messages_of_elements inner zero i c ms e w h l = absurd (omega (arith, l))
  messages_of_elements inner (suc rounds) i c [] e w h l = rw (k.stops c e) refl
  messages_of_elements inner (suc rounds) i c (m ∷ rest) e (w, ws) (h, hs) l =
      let (more, here, tail) = k.steps c _ _ _ e in
      rw
        (
          more,
          as_array_of (after c) _ here,
          message_of_elements inner (lib.iter_recurse (after c)) m
              (k.reads_array (after c) _ here).1 w h,
          messages_of_elements inner rounds (i + 1) (after c) rest tail ws hs (omega (arith, l)),
        )
        refl

  -- With libbson as it is documented and room enough, fewer than 2^32 messages whose members hold values of
  -- their types and whose sizes pass through the casts become a document, and the document becomes the
  -- same messages, in more rounds than there are messages, and attachments of one message.
  pub message_vector_of_iter-message_vector_to_bson_buffer :
      (r : HasRoom lib) (inner rounds : ℕ) (v : MessageVector)
      → AreMessages v.messages
      → AreSmall v.messages
      → HaveRounds inner v.messages
      → length v.messages < rounds
      → length v.messages < 2 ^ 32
      → (message_vector_to_bson_buffer lib v
          >>= iter lib
          >>= message_vector_of_iter lib inner rounds)
        ≡ done v
  unfolding message_vector_of_iter iter
  message_vector_of_iter-message_vector_to_bson_buffer r inner rounds v w s h l few =
      let (d, made, holds) = message_vector_to_bson_buffer-elements lib k r v few s in
      let (i0, started, all) = k.starts d in
      let (more, here, tail) = k.steps i0 _ _ _ (all ∙ holds) in
      let i1 = after i0 in
      rw
        (
          made,
          started,
          next_field i0 _ _ _ (all ∙ holds),
          as_array_of i1 _ here,
          messages_of_elements inner rounds 0 (lib.iter_recurse i1) v.messages
              (k.reads_array i1 _ here).1 w h l,
          k.stops i1 tail,
        )
        refl
