-- ===== src/Serialization/Msgpack/Tree.antt =====
-- A library of objects in place of msgpack-c: an object is the value that it stands for. Its encoding is
-- not that of msgpack; it shows that the laws can be met.
use modern_cpp_hw.Prelude.{ℕ, ◌≡◌, refl, ap, List, [], ◌∷◌, Option, none, some, map}
use modern_cpp_hw.Serialization.Cbor.{
  Value, uint, text, bytestring, array, Values, nil, cons, Loaded, loaded, load_error,
}
use modern_cpp_hw.Serialization.Cbor.Tree.{encode, load, load-encode}
use modern_cpp_hw.Serialization.Msgpack.{Msgpack, IsMsgpack}

abbrev values_of : List Value → Values
values_of [] = nil
values_of (v ∷ vs) = cons v (values_of vs)

abbrev list_of : Values → List Value
list_of nil = []
list_of (cons v vs) = v ∷ list_of vs

list_of-values_of : (vs : List Value) → list_of (values_of vs) ≡ vs
list_of-values_of [] = refl
list_of-values_of (v ∷ vs) = ap (λ ws. v ∷ ws) (list_of-values_of vs)

abbrev number : Value → Option ℕ
number (uint n) = some n
number _ = none

abbrev chars : Value → Option (List ℕ)
chars (text s) = some s
chars _ = none

abbrev bytes : Value → Option (List ℕ)
bytes (bytestring s) = some s
bytes _ = none

abbrev elements : Value → Option (List Value)
elements (array vs) = some (list_of vs)
elements _ = none

abbrev each : Option (List Value) → Option (List (Option Value))
each none = none
each (some vs) = some (map some vs)

abbrev value_of : Loaded (Value × ℕ) → Option Value
value_of (loaded (v, n)) = some v
value_of (load_error code) = none

abbrev pub objects : Msgpack
objects = record {
  Object = Value;
  of_uint64 = uint;
  of_string = text;
  of_bytes = bytestring;
  of_array = λ vs. array (values_of vs);
  to_uint64 = number;
  to_string = chars;
  to_bytes = bytes;
  to_array = elements;
  to_members = λ n v. each (elements v);
  pack = λ v. some (encode v []);
  unpack = λ bs. value_of (load bs);
}

pub objects-IsMsgpack : IsMsgpack objects
objects-IsMsgpack = record {
  IsPackable = λ v. Unit {0};
  packable_uint64 = λ n l. tt;
  packable_string = λ s l. tt;
  packable_bytes = λ b l. tt;
  packable_array = λ vs l all. tt;
  unpacks = λ v p. (encode v [], refl, ap value_of (load-encode v));
  uint64s = λ n l. refl;
  strings = λ s l. refl;
  byte_vectors = λ b l. refl;
  arrays = λ vs l. ap some (list_of-values_of vs);
  members = λ vs l. ap (λ ws. each (some ws)) (list_of-values_of vs);
}
