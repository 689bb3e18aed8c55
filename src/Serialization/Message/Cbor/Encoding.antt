-- ===== src/Serialization/Message/Cbor/Encoding.antt =====
-- What the items of messages stand for, and the way back (message/src/message.cpp).
use modern_cpp_hw.Prelude.{◌≡◌, refl, List, [], ◌∷◌, length}
use modern_cpp_hw.Serialization.Result.{done}
use modern_cpp_hw.Serialization.Message.{Attachment, Message}
use modern_cpp_hw.Serialization.Cbor.{
  Libcbor, Value, uint, text, bytestring, array, Values, nil, cons, views,
}
use modern_cpp_hw.Serialization.Cbor.Laws.{IsLibcbor}
use modern_cpp_hw.Serialization.Message.Cbor.{
  attachment_of_item, attachments_of_items, message_of_item,
}

abbrev pub attachment_values : List Attachment → Values
attachment_values [] = nil
attachment_values (a ∷ rest) = cons (bytestring a.buffer) (attachment_values rest)

-- An array of the sender, the receiver, the text and the attachments.
abbrev pub message_value : Message → Value
message_value m = array (
    cons (uint m.from)
      (cons (uint m.to) (cons (text m.text) (cons (array (attachment_values m.attachments)) nil))))

abbrev pub message_values : List Message → Values
message_values [] = nil
message_values (m ∷ rest) = cons (message_value m) (message_values rest)

pub cons_head : (v w : Value) (vs ws : Values) → cons v vs ≡ cons w ws → v ≡ w
cons_head v w vs ws e = cc

pub cons_tail : (v w : Value) (vs ws : Values) → cons v vs ≡ cons w ws → vs ≡ ws
cons_tail v w vs ws e = cc

module _ {A : Type 0} (view : A → Value) where
  no_views : (items : List A) → views view items ≡ nil → items ≡ []
  no_views [] e = refl
  no_views (i ∷ items) e = cc

  first_view :
      (items : List A) (v : Value) (vs : Values)
      → views view items ≡ cons v vs
      → (i : A) × (rest : List A) × (items ≡ i ∷ rest) × (view i ≡ v) × (views view rest ≡ vs)
  first_view [] v vs e = cc
  first_view (i ∷ items) v vs e = (i, items, refl, cons_head _ _ _ _ e, cons_tail _ _ _ _ e)

module _ (lib : Libcbor) (k : IsLibcbor lib) where
  attachments_of_views :
      (items : List lib.Item) (attachments : List Attachment)
      → views k.view items ≡ attachment_values attachments
      → attachments_of_items lib (length items) items ≡ done attachments
  unfolding attachments_of_items attachment_of_item
  attachments_of_views [] [] e = refl
  attachments_of_views [] (a ∷ attachments) e = cc
  attachments_of_views (i ∷ items) [] e = cc
  attachments_of_views (i ∷ items) (a ∷ attachments) e =
      let (isa, read) = k.reads_bytes i a.buffer (cons_head _ _ _ _ e) in
      rw (isa, read, attachments_of_views items attachments (cons_tail _ _ _ _ e)) refl

  -- An item that stands for a message is read as that message.
  pub message_of_view :
      (item : lib.Item) (m : Message)
      → k.view item ≡ message_value m
      → message_of_item lib item ≡ done m
  unfolding message_of_item
  message_of_view item m e =
      let (isa, seen, size) = k.reads_array item _ e in
      let (i0, r0, e0, v0, w0) = first_view k.view _ _ _ seen in
      let (i1, r1, e1, v1, w1) = first_view k.view _ _ _ w0 in
      let (i2, r2, e2, v2, w2) = first_view k.view _ _ _ w1 in
      let (i3, r3, e3, v3, w3) = first_view k.view _ _ _ w2 in
      let (isa3, seen3, size3) = k.reads_array i3 _ v3 in
      rw
        (
          isa,
          size,
          e0,
          e1,
          e2,
          e3,
          no_views k.view r3 w3,
          (k.reads_uint i0 _ v0).0,
          (k.reads_uint i1 _ v1).0,
          (k.reads_text i2 _ v2).0,
          isa3,
          size3,
          attachments_of_views (lib.array_handle i3) m.attachments seen3,
          (k.reads_uint i0 _ v0).1,
          (k.reads_uint i1 _ v1).1,
          (k.reads_text i2 _ v2).1,
        )
        refl
