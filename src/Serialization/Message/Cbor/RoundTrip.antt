-- ===== src/Serialization/Message/Cbor/RoundTrip.antt =====
-- From messages to CBOR and back (message/src/message.cpp).
use modern_cpp_hw.Prelude.{◌≤◌, ◌≡◌, ◌∙◌, refl, ap, sym, List, [], ◌∷◌, length, arith}
use modern_cpp_hw.Serialization.Result.{done, ◌>>=◌}
use modern_cpp_hw.Serialization.Message.{
  Attachment, Message, MessageVector, IsMessage, AreAttachments, AreMessages,
}
use modern_cpp_hw.Serialization.Cbor.{
  Libcbor, Value, array, Values, nil, cons, snoc, array_push, build_uint64, new_definite_array,
  build_string, build_bytestring,
}
use modern_cpp_hw.Serialization.Cbor.Laws.{IsLibcbor, HasMemory}
use modern_cpp_hw.Serialization.Message.Cbor.{
  message_of_item, push_attachments, message_to_cbor_dom, or_same, push_messages,
  message_vector_to_cbor_dom,
}
use modern_cpp_hw.Serialization.Message.Cbor.Encoding.{
  attachment_values, message_value, message_values, message_of_view,
}

abbrev pub join : Values → Values → Values
join nil ws = ws
join (cons v vs) ws = cons v (join vs ws)

pub join-snoc : (vs : Values) (v : Value) (ws : Values) → join (snoc vs v) ws ≡ join vs (cons v ws)
join-snoc nil v ws = refl
join-snoc (cons u us) v ws = ap (cons u) (join-snoc us v ws)

pub join-nil : (vs : Values) → join vs nil ≡ vs
join-nil nil = refl
join-nil (cons u us) = ap (cons u) (join-nil us)

module _ (lib : Libcbor) (k : IsLibcbor lib) (h : HasMemory lib) where
  push_attachments-view :
      (a : lib.Item) (attachments : List Attachment) (vs : Values)
      → k.view a ≡ array vs
      → length attachments ≤ k.room a
      → AreAttachments attachments
      → (b : lib.Item) × (push_attachments lib a attachments ≡ done b)
        × (k.view b ≡ array (join vs (attachment_values attachments)))
  unfolding push_attachments build_bytestring array_push
  push_attachments-view a [] vs e l w = (a, refl, e ∙ ap array (sym (join-nil vs)))
  push_attachments-view a (x ∷ attachments) vs e l w =
      let (i, made) = h.bytes_made x.buffer in
      let (b, pushed, seen, left) = k.pushes a i vs e (omega (arith, l)) in
      let (c, rest, all) =
        push_attachments-view b attachments (snoc vs (k.view i)) seen (omega (arith, l, left))
          w.1 in
      (
        c,
        rw (made, pushed) rest,
        all
            ∙ ap array (
                join-snoc vs (k.view i) (attachment_values attachments)
                ∙ ap (λ v. join vs (cons v (attachment_values attachments)))
                    (k.built_bytes x.buffer i w.0 made)),
      )

  -- A message is made into an item that stands for it.
  pub message_to_cbor_dom-view :
      (m : Message)
      → IsMessage m
      → (i : lib.Item) × (message_to_cbor_dom lib m ≡ done i) × (k.view i ≡ message_value m)
  unfolding message_to_cbor_dom build_uint64 new_definite_array build_string array_push
  message_to_cbor_dom-view m w =
      let (root, r) = h.array_made 4 in
      let (from, f) = h.uint_made m.from in
      let (to, t) = h.uint_made m.to in
      let (s, x) = h.text_made m.text in
      let (empty, y) = h.array_made (length m.attachments) in
      let (attachments, z, seen) =
        push_attachments-view empty m.attachments nil (k.built_array _ _ y).0
          (omega (arith, (k.built_array _ _ y).1)) w.attachments_fit in
      let (root1, p1, v1, l1) =
        k.pushes root from nil (k.built_array _ _ r).0 (omega (arith, (k.built_array _ _ r).1)) in
      let (root2, p2, v2, l2) =
        k.pushes root1 to _ v1 (omega (arith, l1, (k.built_array _ _ r).1)) in
      let (root3, p3, v3, l3) =
        k.pushes root2 s _ v2 (omega (arith, l2, l1, (k.built_array _ _ r).1)) in
      let (root4, p4, v4, l4) =
        k.pushes root3 attachments _ v3 (omega (arith, l3, l2, l1, (k.built_array _ _ r).1)) in
      (
        root4,
        rw (r, f, t, x, y, z, p1, p2, p3, p4) refl,
        v4
            ∙ rw
                (
                  k.built_uint _ from w.from_fits f,
                  k.built_uint _ to w.to_fits t,
                  k.built_text _ s w.text_fits x,
                  seen,
                )
                refl,
      )

  push_messages-view :
      (a : lib.Item) (ms : List Message) (vs : Values)
      → k.view a ≡ array vs
      → length ms ≤ k.room a
      → AreMessages ms
      → (b : lib.Item) × (push_messages lib a ms ≡ done b)
        × (k.view b ≡ array (join vs (message_values ms)))
  unfolding push_messages
  push_messages-view a [] vs e l w = (a, refl, e ∙ ap array (sym (join-nil vs)))
  push_messages-view a (m ∷ ms) vs e l w =
      let (i, made, stands) = message_to_cbor_dom-view m w.0 in
      let (b, pushed, seen, left) = k.pushes a i vs e (omega (arith, l)) in
      let (c, rest, all) =
        push_messages-view b ms (snoc vs (k.view i)) seen (omega (arith, l, left)) w.1 in
      (
        c,
        rw made (ap (λ o. push_messages lib (or_same lib a o) ms) pushed ∙ rest),
        all
            ∙ ap array (
                join-snoc vs (k.view i) (message_values ms)
                ∙ ap (λ v. join vs (cons v (message_values ms))) stands),
      )

  pub message_vector_to_cbor_dom-view :
      (v : MessageVector)
      → AreMessages v.messages
      → (i : lib.Item) × (message_vector_to_cbor_dom lib v ≡ done i)
        × (k.view i ≡ array (message_values v.messages))
  unfolding message_vector_to_cbor_dom new_definite_array
  message_vector_to_cbor_dom-view v w =
      let (root, r) = h.array_made (length v.messages) in
      let (i, pushed, seen) =
        push_messages-view root v.messages nil (k.built_array _ _ r).0
          (omega (arith, (k.built_array _ _ r).1)) w in
      (i, rw r pushed, seen)

  -- With libcbor as it is documented and memory enough, a message whose members hold values of their
  -- types becomes an item, and the item becomes the same message.
  pub message_of_item-message_to_cbor_dom :
      (m : Message) → IsMessage m → (message_to_cbor_dom lib m >>= message_of_item lib) ≡ done m
  message_of_item-message_to_cbor_dom m w =
      let (i, made, seen) = message_to_cbor_dom-view m w in rw made (message_of_view lib k i m seen)
