-- ===== src/Serialization/Examples.antt =====
-- hw1-binary-serialization: two messages, of which one has two attachments and one is the default.
use modern_cpp_hw.Prelude.{ℕ, ◌+◌, ◌≡◌, ◌↔◌, ◌⊎◌, ◌^◌, List, [], ◌∷◌, true, arith}
use modern_cpp_hw.Serialization.Result.{bad_alloc, runtime_error, fault, done, ◌>>=◌}
use modern_cpp_hw.Serialization.Message.{
  Message, MessageVector, message, default_message, message_vector_eq, IsMessage, AreMessages,
}
use modern_cpp_hw.Serialization.Message.Equality.{message_vector_eq-Decides}
use modern_cpp_hw.Serialization.Cbor.Tree.{tree, tree-IsLibcbor, tree-HasMemory}
use modern_cpp_hw.Serialization.Message.Cbor.{
  message_of_item, message_to_cbor_dom, message_vector_to_cbor_dom,
}
use modern_cpp_hw.Serialization.Message.Cbor.RoundTrip.{message_of_item-message_to_cbor_dom}
use modern_cpp_hw.Serialization.Bson
use modern_cpp_hw.Serialization.Msgpack
use modern_cpp_hw.Serialization.Msgpack.{converted}
use modern_cpp_hw.Serialization.Msgpack.Tree.{objects, objects-IsMsgpack}
use modern_cpp_hw.Serialization.Message.Msgpack.{
  message_of_object, message_of_sbuffer, message_vector_of_object, message_vector_of_sbuffer,
  message_to_msgpack_buffer, message_to_msgpack_dom, message_vector_to_msgpack_buffer,
  message_vector_to_msgpack_dom,
}
use modern_cpp_hw.Serialization.Message.Msgpack.RoundTrip.{
  IsShort, message_of_sbuffer-message_to_msgpack_buffer,
  message_vector_of_sbuffer-message_vector_to_msgpack_buffer,
}
use modern_cpp_hw.Serialization.Cbor
use modern_cpp_hw.Serialization.Message.Cbor.Encoding.{message_values}
use modern_cpp_hw.Serialization.Message.Cbor.Failing.{message_vector_to_cbor_dom-cases}
use modern_cpp_hw.Serialization.Message.Bson.Failing.{Refuses, message_vector_to_bson_buffer-cases}
use modern_cpp_hw.Serialization.Bson.{iter, string_index}
use modern_cpp_hw.Serialization.Bson.Index.{string_index_injective}
use modern_cpp_hw.Serialization.Bson.Laws.{array, field, end}
use modern_cpp_hw.Serialization.Message.Bson.{message_vector_to_bson_buffer, message_vector_of_iter}
use modern_cpp_hw.Serialization.Message.Bson.Encoding.{
  zero_key, vector_elements, AreSmall, message_vector_to_bson_buffer-elements,
}
use modern_cpp_hw.Serialization.Message.Bson.RoundTrip.{
  HaveRounds, message_vector_of_iter-message_vector_to_bson_buffer,
}

abbrev hello : Message
hello =
    message 7 (2 ^ 63 + 1) (104 ∷ 105 ∷ [])
      (record { buffer = 0 ∷ 255 ∷ [] } ∷ record { buffer = [] } ∷ [])

abbrev two_messages : MessageVector
two_messages = record { messages = hello ∷ default_message ∷ [] }

hello-IsMessage : IsMessage hello
hello-IsMessage = record {
  from_fits = omega arith;
  to_fits = omega arith;
  text_fits = (omega arith, (omega arith, tt));
  attachments_fit = ((omega arith, (omega arith, tt)), (tt, tt));
}

default-IsMessage : IsMessage default_message
default-IsMessage = record {
  from_fits = omega arith;
  to_fits = omega arith;
  text_fits = tt;
  attachments_fit = tt;
}

two-AreMessages : AreMessages two_messages.messages
two-AreMessages = (hello-IsMessage, (default-IsMessage, tt))

two-AreSmall : AreSmall two_messages.messages
two-AreSmall = (omega arith, (omega arith, (omega arith, tt)), (omega arith, tt, tt))

two-HaveRounds : HaveRounds 3 two_messages.messages
two-HaveRounds = (omega arith, (omega arith, tt))

cbor_message_example : (message_to_cbor_dom tree hello >>= message_of_item tree) ≡ done hello
cbor_message_example =
    message_of_item-message_to_cbor_dom tree tree-IsLibcbor tree-HasMemory hello hello-IsMessage

bson_keys_example :
    (d : Bson.Tree.tree.Doc) × (message_vector_to_bson_buffer Bson.Tree.tree two_messages ≡ done d)
    × (Bson.Tree.tree-IsLibbson.elements d
        ≡ field zero_key (array (vector_elements 0 two_messages.messages)) end)
bson_keys_example =
    message_vector_to_bson_buffer-elements Bson.Tree.tree Bson.Tree.tree-IsLibbson
      Bson.Tree.tree-HasRoom two_messages (omega arith) two-AreSmall

bson_vector_example :
    (message_vector_to_bson_buffer Bson.Tree.tree two_messages
      >>= iter Bson.Tree.tree
      >>= message_vector_of_iter Bson.Tree.tree 3 3)
    ≡ done two_messages
bson_vector_example =
    message_vector_of_iter-message_vector_to_bson_buffer Bson.Tree.tree Bson.Tree.tree-IsLibbson
      Bson.Tree.tree-HasRoom 3 3 two_messages two-AreMessages two-AreSmall two-HaveRounds
      (omega arith) (omega arith)

string_index_example :
    (s t : List ℕ) × (string_index 9 ≡ done s)
    × (string_index 4294967295 ≡ done t)
    × (s ≡ t → ◌≡◌ {A = ℕ} 9 4294967295)
string_index_example = string_index_injective 9 4294967295 (omega arith) (omega arith)

message_vector_eq_example :
    (message_vector_eq two_messages two_messages ≡ true) ↔ (two_messages ≡ two_messages)
message_vector_eq_example = message_vector_eq-Decides two_messages two_messages

cbor_failing_example :
    ((i : tree.Item) × (message_vector_to_cbor_dom tree two_messages ≡ done i)
      × (tree-IsLibcbor.view i ≡ Cbor.array (message_values two_messages.messages)))
    ⊎ (message_vector_to_cbor_dom tree two_messages ≡ bad_alloc)
cbor_failing_example =
    message_vector_to_cbor_dom-cases tree tree-IsLibcbor two_messages two-AreMessages

bson_failing_example :
    ((d : Bson.Tree.tree.Doc) × (message_vector_to_bson_buffer Bson.Tree.tree two_messages ≡ done d)
      × (Bson.Tree.tree-IsLibbson.elements d
          ≡ field zero_key (array (vector_elements 0 two_messages.messages)) end))
    ⊎ (message_vector_to_bson_buffer Bson.Tree.tree two_messages ≡ runtime_error)
    ⊎ ((message_vector_to_bson_buffer Bson.Tree.tree two_messages ≡ fault)
        × Refuses Bson.Tree.tree Bson.Tree.tree-IsLibbson Bson.Tree.tree-HasRoom.array_ends)
bson_failing_example =
    message_vector_to_bson_buffer-cases Bson.Tree.tree Bson.Tree.tree-IsLibbson
      Bson.Tree.tree-HasRoom.array_ends two_messages (omega arith) two-AreSmall

hello-IsShort : IsShort hello
hello-IsShort = (omega arith, omega arith, (omega arith, (omega arith, tt)))

msgpack_message_example :
    (Msgpack.◌>>=◌ (message_to_msgpack_buffer objects hello) (message_of_sbuffer objects)
      ≡ converted hello)
    × (Msgpack.◌>>=◌ (message_to_msgpack_dom objects hello) (message_of_object objects)
        ≡ converted hello)
msgpack_message_example =
    message_of_sbuffer-message_to_msgpack_buffer objects objects-IsMsgpack hello hello-IsMessage
      hello-IsShort

msgpack_vector_example :
    (Msgpack.◌>>=◌
        (message_vector_to_msgpack_buffer objects two_messages)
        (message_vector_of_sbuffer objects)
      ≡ converted two_messages)
    × (Msgpack.◌>>=◌
          (message_vector_to_msgpack_dom objects two_messages)
          (message_vector_of_object objects)
        ≡ converted two_messages)
msgpack_vector_example =
    message_vector_of_sbuffer-message_vector_to_msgpack_buffer objects objects-IsMsgpack
      two_messages two-AreMessages (omega arith)
      (hello-IsShort, ((omega arith, omega arith, tt), tt))
