-- ===== src/Serialization/Message/Bson/Failing.antt =====
-- The documents of messages where libbson may refuse (message/src/message.cpp).
use modern_cpp_hw.Prelude.{
  ℕ, ◌+◌, ◌<◌, ◌^◌, ◌≡◌, ◌∙◌, refl, sym, List, [], ◌∷◌, none, some, length, arith, u32, to_int64,
  to_int, ◌⊎◌, inl, inr, Option-cases,
}
use modern_cpp_hw.Serialization.Result.{done, runtime_error, fault}
use modern_cpp_hw.Serialization.Unless.{
  Failure, refused, Unless, Unless-refused, Unless-bind, Unless-weaken,
}
use modern_cpp_hw.Serialization.Message.{Attachment, Message, MessageVector}
use modern_cpp_hw.Serialization.Bson.{
  Libbson, SubArray, append_int64, append_utf8, append_binary, sub_array, end_sub_array, increment,
  sub_append_int64, sub_append_uint64, sub_append_utf8, sub_append_binary,
}
use modern_cpp_hw.Serialization.Bson.Index.{string_index-value, string_index-length}
use modern_cpp_hw.Serialization.Bson.Laws.{
  int64, utf8, binary, array, Elements, end, field, snoc, whole, IsLibbson,
}
use modern_cpp_hw.Serialization.Message.Bson.{
  append_attachments, message_to_bson_buffer, append_messages, message_vector_to_bson_buffer,
}
use modern_cpp_hw.Serialization.Message.Bson.Encoding.{
  zero_key, attachment_elements, message_elements, vector_elements, AreSmallAttachments, AreSmall,
  join, join-snoc, join-end, low, index_zero, sized-whole,
}

module _ (lib : Libbson) (k : IsLibbson lib)
    (ends : (p c : lib.Doc) → (d : lib.Doc) × (lib.append_array_end p c ≡ some d)) where
  -- The library has refused to begin an array.
  abbrev pub Refuses : Type 0
  Refuses = (d : lib.Doc) × (key : List ℕ) × (lib.append_array_begin d (whole key) ≡ none)

  abbrev failing : Failure
  failing = refused Refuses

  -- The array of this index holds these elements.
  abbrev Array : ℕ → Elements → SubArray lib → Type 0
  Array i es a = (a.index ≡ i) × (k.elements a.doc ≡ es)

  abbrev Document : Elements → lib.Doc → Type 0
  Document es d = k.elements d ≡ es

  -- The parent has these elements before an array under the key, which is empty.
  abbrev Begun : List ℕ → Elements → lib.Doc × SubArray lib → Type 0
  Begun key es (p, a) = (k.before p ≡ es) × (k.key p ≡ key) × Array 0 end a

  Unless-sub_append_uint64 :
      (a : SubArray lib) (n : ℕ) (es : Elements)
      → Array 0 es a
      → Unless failing (Array 0 (snoc es zero_key (int64 (to_int64 n)))) (sub_append_uint64 lib a n)
  unfolding sub_append_uint64 sub_append_int64 append_int64 to_int
  Unless-sub_append_uint64 a n es (z, h) =
      elim (Option-cases (lib.append_int64 a.doc (whole zero_key) (to_int64 n))) [
        | inl e ↦ rw (z, index_zero, e) tt
        | inr (d, e) ↦
            rw (z, index_zero, e)
              (refl, rw (k.appended_int64 a.doc d zero_key (to_int64 n) e, h) refl)
      ]

  Unless-sub_append_utf8 :
      (a : SubArray lib) (s : List ℕ) (es : Elements)
      → length s < 2 ^ 31
      → Array 0 es a
      → Unless failing (Array 0 (snoc es zero_key (utf8 s))) (sub_append_utf8 lib a s)
  unfolding sub_append_utf8 append_utf8 to_int
  Unless-sub_append_utf8 a s es l (z, h) =
      elim (Option-cases (lib.append_utf8 a.doc (whole zero_key) (whole s))) [
        | inl e ↦ rw (z, index_zero, sized-whole s l, e) tt
        | inr (d, e) ↦
            rw (z, index_zero, sized-whole s l, e)
              (refl, rw (k.appended_utf8 a.doc d zero_key s e, h) refl)
      ]

  Unless-sub_append_binary :
      (a : SubArray lib) (s : List ℕ) (es : Elements)
      → length s < 2 ^ 32
      → Array 0 es a
      → Unless failing (Array 0 (snoc es zero_key (binary s))) (sub_append_binary lib a s)
  unfolding sub_append_binary append_binary to_int
  Unless-sub_append_binary a s es l (z, h) =
      elim (Option-cases (lib.append_binary a.doc (whole zero_key) (s, length s))) [
        | inl e ↦ rw (z, index_zero, low (length s) l, e) tt
        | inr (d, e) ↦
            rw (z, index_zero, low (length s) l, e)
              (refl, rw (k.appended_binary a.doc d zero_key s e, h) refl)
      ]

  Unless-sub_array :
      (d : lib.Doc) (key : List ℕ)
      → length key < 2 ^ 31
      → Unless failing (Begun key (k.elements d)) (sub_array lib d key)
  unfolding sub_array
  Unless-sub_array d key l = elim (Option-cases (lib.append_array_begin d (whole key))) [
    | inl e ↦ rw (sized-whole key l, e) (d, key, e)
    | inr ((p, c), e) ↦
        let (c_empty, p_before, p_key) = k.begun d p c key e in
        rw (sized-whole key l, e) (p_before, p_key, (refl, c_empty))
  ]

  Unless-end_sub_array :
      (p : lib.Doc) (a : SubArray lib) (es fs : Elements) (key : List ℕ)
      → k.before p ≡ es
      → k.key p ≡ key
      → k.elements a.doc ≡ fs
      → Unless failing (Document (snoc es key (array fs))) (end_sub_array lib p a)
  unfolding end_sub_array
  Unless-end_sub_array p a es fs key before under held =
      let (d, e) = ends p a.doc in rw e (rw (k.ended p a.doc d e, before, under, held) refl)

  Unless-append_attachments :
      (a : SubArray lib) (attachments : List Attachment) (es : Elements)
      → AreSmallAttachments attachments
      → Array 0 es a
      → Unless failing
          (Array 0 (join es (attachment_elements attachments)))
          (append_attachments lib a attachments)
  unfolding append_attachments
  Unless-append_attachments a [] es s (z, h) = (z, h ∙ sym (join-end es))
  Unless-append_attachments a (x ∷ rest) es (l, s) h =
      Unless-bind failing (Array 0 (snoc es zero_key (binary x.buffer))) _
        (sub_append_binary lib a x.buffer) _ (Unless-sub_append_binary a x.buffer es l h)
        λ b held.
          rw (sym (join-snoc es zero_key (binary x.buffer) (attachment_elements rest)))
            (Unless-append_attachments b rest (snoc es zero_key (binary x.buffer)) s held)

  -- A message is appended to a document under a key.
  Unless-message_to_bson_buffer :
      (parent : lib.Doc) (key : List ℕ) (m : Message) (es : Elements)
      → Document es parent
      → length key < 2 ^ 31
      → length m.text < 2 ^ 31
      → AreSmallAttachments m.attachments
      → Unless failing
          (Document (snoc es key (array (message_elements m))))
          (message_to_bson_buffer lib parent key m)
  unfolding message_to_bson_buffer increment to_int
  Unless-message_to_bson_buffer parent key m es start fits small all_small =
      Unless-bind failing (Begun key (k.elements parent)) _ _ _ (Unless-sub_array parent key fits)
        λ (p, a0) (p_before, p_key, h0).
          Unless-bind failing (Array 0 _) _ _ _ (Unless-sub_append_uint64 a0 m.from end h0) λ a1 h1.
            Unless-bind failing (Array 0 _) _ _ _ (Unless-sub_append_uint64 a1 m.to _ h1) λ a2 h2.
              Unless-bind failing (Array 0 _) _ _ _ (Unless-sub_append_utf8 a2 m.text _ small h2)
                λ a3 (z3, h3).
                  rw (z3, index_zero)
                    (Unless-bind failing (Begun zero_key (k.elements a3.doc)) _ _ _
                      (Unless-sub_array a3.doc zero_key (omega arith))
                      λ (q, b0) (q_before, q_key, g0).
                        Unless-bind failing (Array 0 (attachment_elements m.attachments)) _ _ _
                          (Unless-append_attachments b0 m.attachments end all_small g0)
                          λ b1 (y1, g1).
                            Unless-bind failing (Document (message_elements m)) _ _ _
                              (Unless-end_sub_array q b1 _ _ _ (q_before ∙ h3) q_key g1)
                              λ d held.
                                Unless-end_sub_array p (record { doc = d; index = 1 }) _ _ _
                                  (p_before ∙ start) p_key held)

  Unless-append_messages :
      (a : SubArray lib) (i : ℕ) (ms : List Message) (es : Elements)
      → i + length ms < 2 ^ 32
      → AreSmall ms
      → Array i es a
      → Unless failing
          (Array (i + length ms) (join es (vector_elements i ms)))
          (append_messages lib a ms)
  unfolding append_messages increment
  Unless-append_messages a i [] es few s (z, h) = (omega (arith, z), h ∙ sym (join-end es))
  Unless-append_messages a i (m ∷ rest) es few (text_small, attachments_small, s) (z, h) =
      let (key, e0, v) = string_index-value i (omega (arith, few)) in
      rw (z, e0)
        (Unless-bind failing (Document (snoc es key (array (message_elements m)))) _ _ _
          (Unless-message_to_bson_buffer a.doc key m es h
            (omega (arith, string_index-length i key e0)) text_small attachments_small)
          λ d held.
            Unless-weaken failing
              (Array (i + 1 + length rest)
                (join (snoc es key (array (message_elements m))) (vector_elements (i + 1) rest)))
              _ _
              (Unless-append_messages (record { doc = d; index = u32 (i + 1) }) (i + 1) rest _
                (omega (arith, few)) s (low (i + 1) (omega (arith, few)), held))
              λ b (y, g). (
                omega (arith, y),
                g ∙ join-snoc es key (array (message_elements m)) (vector_elements (i + 1) rest),
              ))

  -- With libbson as it is documented, whose bson_append_array_end succeeds, making a document of fewer than
  -- 2^32 messages whose sizes pass through the casts ends in one of three ways: it returns a document that
  -- holds all the messages in one array, or it ends in std::runtime_error, or in undefined behaviour,
  -- and then bson_append_array_begin has failed.
  pub message_vector_to_bson_buffer-cases :
      (v : MessageVector)
      → length v.messages < 2 ^ 32
      → AreSmall v.messages
      → ((d : lib.Doc) × (message_vector_to_bson_buffer lib v ≡ done d)
          × (k.elements d ≡ field zero_key (array (vector_elements 0 v.messages)) end))
        ⊎ (message_vector_to_bson_buffer lib v ≡ runtime_error)
        ⊎ ((message_vector_to_bson_buffer lib v ≡ fault) × Refuses)
  unfolding message_vector_to_bson_buffer
  message_vector_to_bson_buffer-cases v few s =
      Unless-refused Refuses (Document (field zero_key (array (vector_elements 0 v.messages)) end))
        (message_vector_to_bson_buffer lib v)
        (Unless-bind failing (Begun zero_key (k.elements lib.empty)) _ _ _
          (Unless-sub_array lib.empty zero_key (omega arith))
          λ (p, a) (p_before, p_key, h).
            Unless-bind failing (Array (0 + length v.messages) (vector_elements 0 v.messages)) _ _ _
              (Unless-append_messages a 0 v.messages end (omega (arith, few)) s h)
              λ b (y, g).
                Unless-end_sub_array p b end _ zero_key (p_before ∙ k.starts_empty) p_key g)
