-- ===== src/Serialization/Message/Cbor/Failing.antt =====
-- The items of messages where memory may run out (message/src/message.cpp).
use modern_cpp_hw.Prelude.{
  ℕ, suc, ◌<◌, ◌^◌, ◌≡◌, ◌∙◌, ap, sym, List, [], ◌∷◌, length, arith, ◌⊎◌, inl, inr, Option-cases,
  IsBytes,
}
use modern_cpp_hw.Serialization.Result.{done, bad_alloc}
use modern_cpp_hw.Serialization.Unless.{
  no_memory, Unless, Unless-no_memory, Unless-bind, Unless-weaken,
}
use modern_cpp_hw.Serialization.Message.{
  Attachment, Message, MessageVector, IsMessage, AreAttachments, AreMessages,
}
use modern_cpp_hw.Serialization.Cbor.{
  Libcbor, Value, uint, text, bytestring, array, Values, nil, snoc, array_push, build_uint64,
  new_definite_array, build_string, build_bytestring,
}
use modern_cpp_hw.Serialization.Cbor.Laws.{IsLibcbor}
use modern_cpp_hw.Serialization.Message.Cbor.{
  push_attachments, message_to_cbor_dom, push_messages, message_vector_to_cbor_dom,
}
use modern_cpp_hw.Serialization.Message.Cbor.Encoding.{
  attachment_values, message_value, message_values,
}
use modern_cpp_hw.Serialization.Message.Cbor.RoundTrip.{join, join-nil, join-snoc}

module _ (lib : Libcbor) (k : IsLibcbor lib) where
  -- The item stands for the value.
  abbrev Stands : Value → lib.Item → Type 0
  Stands v i = k.view i ≡ v

  -- An array of so much room that stands for the values.
  abbrev Holds : Values → ℕ → lib.Item → Type 0
  Holds vs n i = (k.view i ≡ array vs) × (k.room i ≡ n)

  Unless-build_bytestring :
      (s : List ℕ) → IsBytes s → Unless no_memory (Stands (bytestring s)) (build_bytestring lib s)
  unfolding build_bytestring
  Unless-build_bytestring s w = elim (Option-cases (lib.build_bytestring s)) [
    | inl e ↦ rw e tt
    | inr (i, e) ↦ rw e (k.built_bytes s i w e)
  ]

  Unless-build_string :
      (s : List ℕ) → IsBytes s → Unless no_memory (Stands (text s)) (build_string lib s)
  unfolding build_string
  Unless-build_string s w = elim (Option-cases (lib.build_stringn s)) [
    | inl e ↦ rw e tt
    | inr (i, e) ↦ rw e (k.built_text s i w e)
  ]

  Unless-build_uint64 :
      (n : ℕ) → n < 2 ^ 64 → Unless no_memory (Stands (uint n)) (build_uint64 lib n)
  unfolding build_uint64
  Unless-build_uint64 n l = elim (Option-cases (lib.build_uint64 n)) [
    | inl e ↦ rw e tt
    | inr (i, e) ↦ rw e (k.built_uint n i l e)
  ]

  Unless-new_definite_array : (n : ℕ) → Unless no_memory (Holds nil n) (new_definite_array lib n)
  unfolding new_definite_array
  Unless-new_definite_array n = elim (Option-cases (lib.new_definite_array n)) [
    | inl e ↦ rw e tt
    | inr (i, e) ↦ rw e (k.built_array n i e)
  ]

  Unless-array_push :
      (a x : lib.Item) (vs : Values) (v : Value) (n : ℕ)
      → Holds vs (suc n) a
      → Stands v x
      → Unless no_memory (Holds (snoc vs v) n) (array_push lib a x)
  unfolding array_push
  Unless-array_push a x vs v n (e, room) s =
      let (b, pushed, seen, left) = k.pushes a x vs e (omega (arith, room)) in
      rw pushed (seen ∙ ap (λ w. array (snoc vs w)) s, omega (arith, room, left))

  Unless-push_attachments :
      (a : lib.Item) (attachments : List Attachment) (vs : Values)
      → Holds vs (length attachments) a
      → AreAttachments attachments
      → Unless no_memory
          (Stands (array (join vs (attachment_values attachments))))
          (push_attachments lib a attachments)
  unfolding push_attachments
  Unless-push_attachments a [] vs (e, room) w = e ∙ ap array (sym (join-nil vs))
  Unless-push_attachments a (x ∷ rest) vs h (w, ws) =
      Unless-bind no_memory (Stands (bytestring x.buffer)) _ (build_bytestring lib x.buffer) _
        (Unless-build_bytestring x.buffer w)
        λ i s.
          Unless-bind no_memory (Holds (snoc vs (bytestring x.buffer)) (length rest)) _
            (array_push lib a i) _ (Unless-array_push a i vs _ _ h s)
            λ b held.
              rw (sym (join-snoc vs (bytestring x.buffer) (attachment_values rest)))
                (Unless-push_attachments b rest (snoc vs (bytestring x.buffer)) held ws)

  -- A message becomes an item that stands for it.
  Unless-message_to_cbor_dom :
      (m : Message)
      → IsMessage m
      → Unless no_memory (Stands (message_value m)) (message_to_cbor_dom lib m)
  unfolding message_to_cbor_dom
  Unless-message_to_cbor_dom m w =
      Unless-bind no_memory (Holds nil 4) _ _ _ (Unless-new_definite_array 4) λ root r.
        Unless-bind no_memory (Stands (uint m.from)) _ _ _ (Unless-build_uint64 m.from w.from_fits)
          λ from f.
            Unless-bind no_memory (Stands (uint m.to)) _ _ _ (Unless-build_uint64 m.to w.to_fits)
              λ to t.
                Unless-bind no_memory (Stands (text m.text)) _ _ _
                  (Unless-build_string m.text w.text_fits)
                  λ s x.
                    Unless-bind no_memory (Holds nil (length m.attachments)) _ _ _
                      (Unless-new_definite_array (length m.attachments))
                      λ empty y.
                        Unless-bind no_memory (Stands (array (attachment_values m.attachments))) _ _
                          _ (Unless-push_attachments empty m.attachments nil y w.attachments_fit)
                          λ a z.
                            Unless-bind no_memory (Holds _ 3) _ _ _
                              (Unless-array_push root from nil _ 3 r f)
                              λ root1 r1.
                                Unless-bind no_memory (Holds _ 2) _ _ _
                                  (Unless-array_push root1 to _ _ 2 r1 t)
                                  λ root2 r2.
                                    Unless-bind no_memory (Holds _ 1) _ _ _
                                      (Unless-array_push root2 s _ _ 1 r2 x)
                                      λ root3 r3.
                                        Unless-weaken no_memory (Holds _ 0) _ _
                                          (Unless-array_push root3 a _ _ 0 r3 z) λ root4 r4. r4.0

  Unless-push_messages :
      (a : lib.Item) (ms : List Message) (vs : Values)
      → Holds vs (length ms) a
      → AreMessages ms
      → Unless no_memory (Stands (array (join vs (message_values ms)))) (push_messages lib a ms)
  unfolding push_messages
  Unless-push_messages a [] vs (e, room) w = e ∙ ap array (sym (join-nil vs))
  Unless-push_messages a (m ∷ rest) vs (e, room) (w, ws) =
      Unless-bind no_memory (Stands (message_value m)) _ (message_to_cbor_dom lib m) _
        (Unless-message_to_cbor_dom m w)
        λ i s.
          let (b, pushed, seen, left) = k.pushes a i vs e (omega (arith, room)) in
          rw (pushed, sym (join-snoc vs (message_value m) (message_values rest)))
            (Unless-push_messages b rest (snoc vs (message_value m))
              (seen ∙ ap (λ v. array (snoc vs v)) s, omega (arith, room, left)) ws)

  Unless-message_vector_to_cbor_dom :
      (v : MessageVector)
      → AreMessages v.messages
      → Unless no_memory
          (Stands (array (message_values v.messages)))
          (message_vector_to_cbor_dom lib v)
  unfolding message_vector_to_cbor_dom
  Unless-message_vector_to_cbor_dom v w =
      Unless-bind no_memory (Holds nil (length v.messages)) _ _ _
        (Unless-new_definite_array (length v.messages))
        λ root r. Unless-push_messages root v.messages nil r w

  -- With libcbor as it is documented, making an item of messages whose members hold values of their types
  -- ends in one of two ways: it returns an item that stands for the array of all the messages, or it
  -- ends in std::bad_alloc.
  pub message_vector_to_cbor_dom-cases :
      (v : MessageVector)
      → AreMessages v.messages
      → ((i : lib.Item) × (message_vector_to_cbor_dom lib v ≡ done i)
          × (k.view i ≡ array (message_values v.messages)))
        ⊎ (message_vector_to_cbor_dom lib v ≡ bad_alloc)
  message_vector_to_cbor_dom-cases v w =
      Unless-no_memory _ _ (Unless-message_vector_to_cbor_dom v w)
