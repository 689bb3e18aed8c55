-- ===== src/Serialization/Message/Bson/Encoding.antt =====
-- What the documents of messages hold (message/src/message.cpp).
use modern_cpp_hw.Prelude.{
  ℕ, ◌+◌, ◌<◌, ◌^◌, ◌≡◌, ◌∙◌, refl, ap, sym, List, [], ◌∷◌, length, arith, u32, to_int64, to_int,
  to_int_small,
}
use modern_cpp_hw.Serialization.Result.{Result, done}
use modern_cpp_hw.Serialization.Message.{Attachment, Message, MessageVector}
use modern_cpp_hw.Serialization.Bson.{
  Libbson, sized, SubArray, to_chars, string_index, append_int64, append_utf8, append_binary,
  sub_array, end_sub_array, increment, sub_append_int64, sub_append_uint64, sub_append_utf8,
  sub_append_binary,
}
use modern_cpp_hw.Serialization.Bson.Index.{string_index-value, string_index-length}
use modern_cpp_hw.Serialization.Bson.Laws.{
  Element, int64, utf8, binary, array, Elements, end, field, snoc, whole, IsLibbson, HasRoom,
}
use modern_cpp_hw.Serialization.Message.Bson.{
  append_attachments, message_to_bson_buffer, append_messages, message_vector_to_bson_buffer,
}

abbrev pub zero_key : List ℕ
zero_key = 48 ∷ []

abbrev digits : Result (List ℕ) → List ℕ
digits (done s) = s
digits _ = []

-- The key of an index.
abbrev pub key_of : ℕ → List ℕ
key_of n = digits (string_index n)

abbrev pub attachment_elements : List Attachment → Elements
attachment_elements [] = end
attachment_elements (a ∷ rest) = field zero_key (binary a.buffer) (attachment_elements rest)

-- All keys of a message, and of its attachments, are "0".
abbrev pub message_elements : Message → Elements
message_elements m = field zero_key (int64 (to_int64 m.from)) (
    field zero_key (int64 (to_int64 m.to)) (
      field zero_key (utf8 m.text)
        (field zero_key (array (attachment_elements m.attachments)) end)))

-- The messages from the index `i` on have their indices as keys.
abbrev pub vector_elements : ℕ → List Message → Elements
vector_elements i [] = end
vector_elements i (m ∷ rest) =
    field (key_of i) (array (message_elements m)) (vector_elements (i + 1) rest)

-- The sizes of text and attachments pass through the casts.
abbrev pub AreSmallAttachments : List Attachment → Type 0
AreSmallAttachments [] = Unit {0}
AreSmallAttachments (a ∷ rest) = (length a.buffer < 2 ^ 32) × AreSmallAttachments rest

abbrev pub AreSmall : List Message → Type 0
AreSmall [] = Unit {0}
AreSmall (m ∷ rest) = (length m.text < 2 ^ 31) × AreSmallAttachments m.attachments × AreSmall rest

pub low : (n : ℕ) → n < 2 ^ 32 → u32 n ≡ n
low n h = omega arith

abbrev pub join : Elements → Elements → Elements
join end fs = fs
join (field k e es) fs = field k e (join es fs)

pub join-snoc :
    (es : Elements) (k : List ℕ) (e : Element) (fs : Elements)
    → join (snoc es k e) fs ≡ join es (field k e fs)
join-snoc end k e fs = refl
join-snoc (field j d es) k e fs = ap (field j d) (join-snoc es k e fs)

pub join-end : (es : Elements) → join es end ≡ es
join-end end = refl
join-end (field j d es) = ap (field j d) (join-end es)

pub index_zero : string_index 0 ≡ done zero_key
unfolding string_index to_chars
index_zero = refl

pub sized-whole : (s : List ℕ) → length s < 2 ^ 31 → sized s ≡ whole s
sized-whole s l = ap (λ z. (s, z)) (to_int_small (length s) l)

module _ (lib : Libbson) (k : IsLibbson lib) (r : HasRoom lib) where
  abbrev at_zero : lib.Doc → SubArray lib
  at_zero d = record { doc = d; index = 0 }

  -- An append to an array whose index has not been incremented.
  Appends : lib.Doc → Element → Result (SubArray lib) → Type 0
  Appends d e result =
      (d' : lib.Doc) × (result ≡ done (at_zero d'))
      × (k.elements d' ≡ snoc (k.elements d) zero_key e)

  Appends-sub_append_uint64 :
      (d : lib.Doc) (n : ℕ) → Appends d (int64 (to_int64 n)) (sub_append_uint64 lib (at_zero d) n)
  unfolding Appends sub_append_uint64 sub_append_int64 append_int64 to_int
  Appends-sub_append_uint64 d n =
      let (d', e) = r.int64_fits d (whole zero_key) (to_int64 n) in
      (d', rw (index_zero, e) refl, k.appended_int64 d d' zero_key (to_int64 n) e)

  Appends-sub_append_utf8 :
      (d : lib.Doc) (s : List ℕ)
      → length s < 2 ^ 31
      → Appends d (utf8 s) (sub_append_utf8 lib (at_zero d) s)
  unfolding Appends sub_append_utf8 append_utf8 to_int
  Appends-sub_append_utf8 d s l =
      let (d', e) = r.utf8_fits d (whole zero_key) (whole s) in
      (d', rw (index_zero, sized-whole s l, e) refl, k.appended_utf8 d d' zero_key s e)

  Appends-sub_append_binary :
      (d : lib.Doc) (s : List ℕ)
      → length s < 2 ^ 32
      → Appends d (binary s) (sub_append_binary lib (at_zero d) s)
  unfolding Appends sub_append_binary append_binary to_int
  Appends-sub_append_binary d s l =
      let (d', e) = r.binary_fits d (whole zero_key) (s, length s) in
      (d', rw (index_zero, low (length s) l, e) refl, k.appended_binary d d' zero_key s e)

  append_attachments-elements :
      (d : lib.Doc) (attachments : List Attachment)
      → AreSmallAttachments attachments
      → (d' : lib.Doc) × (append_attachments lib (at_zero d) attachments ≡ done (at_zero d'))
        × (k.elements d' ≡ join (k.elements d) (attachment_elements attachments))
  unfolding append_attachments Appends
  append_attachments-elements d [] s = (d, refl, sym (join-end (k.elements d)))
  append_attachments-elements d (x ∷ rest) (l, s) =
      let (d1, e1, h1) = Appends-sub_append_binary d x.buffer l in
      let (d2, e2, h2) = append_attachments-elements d1 rest s in
      (
        d2,
        rw e1 e2,
        h2
            ∙ ap (λ es. join es (attachment_elements rest)) h1
            ∙ join-snoc (k.elements d) zero_key (binary x.buffer) (attachment_elements rest),
      )

  -- A message is appended to a document under a key.
  pub message_to_bson_buffer-elements :
      (parent : lib.Doc) (key : List ℕ) (m : Message)
      → length key < 2 ^ 31
      → length m.text < 2 ^ 31
      → AreSmallAttachments m.attachments
      → (d : lib.Doc) × (message_to_bson_buffer lib parent key m ≡ done d)
        × (k.elements d ≡ snoc (k.elements parent) key (array (message_elements m)))
  unfolding message_to_bson_buffer sub_array end_sub_array increment Appends to_int
  message_to_bson_buffer-elements parent key m fits small all_small =
      let (p, c, e0) = r.array_fits parent (whole key) in
      let (c0_empty, p_before, p_key) = k.begun parent p c key e0 in
      let (c1, e1, h1) = Appends-sub_append_uint64 c m.from in
      let (c2, e2, h2) = Appends-sub_append_uint64 c1 m.to in
      let (c3, e3, h3) = Appends-sub_append_utf8 c2 m.text small in
      let (q, a, e4) = r.array_fits c3 (whole zero_key) in
      let (a_empty, q_before, q_key) = k.begun c3 q a zero_key e4 in
      let (a', e5, h5) = append_attachments-elements a m.attachments all_small in
      let (c4, e6) = r.array_ends q a' in
      let (d, e7) = r.array_ends p c4 in
      (
        d,
        rw (sized-whole key fits, e0, e1, e2, e3, index_zero, e4, e5, e6, e7) refl,
        rw
            (
              k.ended p c4 d e7,
              k.ended q a' c4 e6,
              p_before,
              p_key,
              q_before,
              q_key,
              h5,
              a_empty,
              h3,
              h2,
              h1,
              c0_empty,
            )
            refl,
      )

  -- The messages from an index on are appended under their indices.
  append_messages-elements :
      (d : lib.Doc) (i : ℕ) (ms : List Message)
      → i + length ms < 2 ^ 32
      → AreSmall ms
      → (d' : lib.Doc) × (append_messages lib (record { doc = d; index = i }) ms
          ≡ done (record { doc = d'; index = i + length ms }))
        × (k.elements d' ≡ join (k.elements d) (vector_elements i ms))
  unfolding append_messages increment
  append_messages-elements d i [] few s = (
    d,
    ap (λ z. done (record { doc = d; index = z })) (omega arith),
    sym (join-end (k.elements d)),
  )
  append_messages-elements d i (m ∷ rest) few (text_small, attachments_small, s) =
      let (key, e0, v) = string_index-value i (omega (arith, few)) in
      let (d1, e1, h1) =
        message_to_bson_buffer-elements d key m (omega (arith, string_index-length i key e0))
          text_small attachments_small in
      let (d2, e2, h2) = append_messages-elements d1 (i + 1) rest (omega (arith, few)) s in
      (
        d2,
        rw (e0, e1, low (i + 1) (omega (arith, few)), e2)
            (ap (λ z. done (record { doc = d2; index = z })) (omega arith)),
        rw
            (
              h2,
              h1,
              join-snoc (k.elements d) key (array (message_elements m))
                  (vector_elements (i + 1) rest),
              e0,
            )
            refl,
      )

  -- With libbson as it is documented and room enough, the document that becomes of fewer than 2^32 messages whose
  -- sizes pass through the casts is an array under the key "0" in which the messages have their indices
  -- as keys, while the members of a message, and its attachments, all have the key "0".
  pub message_vector_to_bson_buffer-elements :
      (v : MessageVector)
      → length v.messages < 2 ^ 32
      → AreSmall v.messages
      → (d : lib.Doc) × (message_vector_to_bson_buffer lib v ≡ done d)
        × (k.elements d ≡ field zero_key (array (vector_elements 0 v.messages)) end)
  unfolding message_vector_to_bson_buffer sub_array end_sub_array to_int
  message_vector_to_bson_buffer-elements v few s =
      let (p, c, e0) = r.array_fits lib.empty (whole zero_key) in
      let (c_empty, p_before, p_key) = k.begun lib.empty p c zero_key e0 in
      let (c', e1, h1) = append_messages-elements c 0 v.messages (omega (arith, few)) s in
      let (d, e2) = r.array_ends p c' in
      (
        d,
        rw (e0, e1, e2) refl,
        rw (k.ended p c' d e2, p_before, p_key, h1, c_empty, k.starts_empty) refl,
      )
