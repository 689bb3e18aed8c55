-- ===== src/Serialization/Cbor.antt =====
-- hw1-binary-serialization: libcbor as the code uses it, and the functions of
-- wrappers/include/cbor_wrapper.hpp and cbor_wrapper.ipp that make items.
-- libcbor is not part of the repository: its functions are a parameter. An item is what a
-- cbor_item_t* points to.
pub mod Laws
pub mod Tree
pub mod Ownership
pub mod Buffers
use modern_cpp_hw.Prelude.{
  ℕ, suc, ◌≡◌, ◌<◌, ◌^◌, List, [], ◌∷◌, Bool, true, Option, none, some, length, IsBytes,
}
use modern_cpp_hw.Serialization.Result.{
  Result, done, runtime_error, ◌>>=◌, or_bad_alloc, or_runtime_error,
}

-- cbor_load: the item, or the code of an error.
pub data Loaded {ℓ} (A : Type ℓ) : Type ℓ where
  loaded : A → Loaded A
  load_error : ℕ → Loaded A

-- The builders answer `none` for a null pointer, cbor_array_push for `false`.
pub record Libcbor : Type 1 where
  pub Item : Type 0
  pub build_uint8 : ℕ → Option Item
  pub build_uint16 : ℕ → Option Item
  pub build_uint32 : ℕ → Option Item
  pub build_uint64 : ℕ → Option Item
  pub build_negint8 : ℕ → Option Item
  pub build_negint16 : ℕ → Option Item
  pub build_negint32 : ℕ → Option Item
  pub build_negint64 : ℕ → Option Item
  pub build_stringn : List ℕ → Option Item
  pub build_bytestring : List ℕ → Option Item
  pub new_definite_array : ℕ → Option Item
  pub new_indefinite_array : Option Item
  pub array_push : Item → Item → Option Item
  pub isa_uint : Item → Bool
  pub isa_string : Item → Bool
  pub isa_bytestring : Item → Bool
  pub isa_array : Item → Bool
  pub get_uint64 : Item → ℕ
  -- the bytes from the handle on, as many as the length says
  pub string_bytes : Item → List ℕ
  pub bytestring_bytes : Item → List ℕ
  pub array_size : Item → ℕ
  -- the items that the handle of an array points to
  pub array_handle : Item → List Item
  pub serialize_alloc : Item → Option (List ℕ)
  pub load : List ℕ → Loaded Item

-- What an item stands for: an unsigned number of 64 bits, a string, a definite array, or anything else.
mutual
  pub data Value : Type 0 where
    uint : ℕ → Value
    text bytestring : List ℕ → Value
    array : Values → Value
    other : Value

  pub data Values : Type 0 where
    nil : Values
    cons : Value → Values → Values

abbrev pub snoc : Values → Value → Values
snoc nil v = cons v nil
snoc (cons u us) v = cons u (snoc us v)

abbrev pub views {ℓ} : {A : Type ℓ} → (A → Value) → List A → Values
views view [] = nil
views view (i ∷ items) = cons (view i) (views view items)

module _ (lib : Libcbor) where
  open lib use {Item}

  -- Item::Item(const Buffer&)
  unfoldable pub item_of_load : Loaded Item → Result Item
  item_of_load (loaded i) = done i
  item_of_load (load_error code) = runtime_error

  unfoldable pub item_of_buffer : List ℕ → Result Item
  item_of_buffer buffer = item_of_load (lib.load buffer)

  -- Buffer::Buffer(const cbor_item_t*)
  unfoldable pub buffer_of_item : Item → Result (List ℕ)
  buffer_of_item i = or_bad_alloc (lib.serialize_alloc i)

  unfoldable pub array_push : Item → Item → Result Item
  array_push a i = or_runtime_error (lib.array_push a i)

  unfoldable pub build_uint8 : ℕ → Result Item
  build_uint8 value = or_bad_alloc (lib.build_uint8 value)

  unfoldable pub build_uint16 : ℕ → Result Item
  build_uint16 value = or_bad_alloc (lib.build_uint16 value)

  unfoldable pub build_uint32 : ℕ → Result Item
  build_uint32 value = or_bad_alloc (lib.build_uint32 value)

  unfoldable pub build_uint64 : ℕ → Result Item
  build_uint64 value = or_bad_alloc (lib.build_uint64 value)

  unfoldable pub build_negint8 : ℕ → Result Item
  build_negint8 value = or_bad_alloc (lib.build_negint8 value)

  unfoldable pub build_negint16 : ℕ → Result Item
  build_negint16 value = or_bad_alloc (lib.build_negint16 value)

  unfoldable pub build_negint32 : ℕ → Result Item
  build_negint32 value = or_bad_alloc (lib.build_negint32 value)

  unfoldable pub build_negint64 : ℕ → Result Item
  build_negint64 value = or_bad_alloc (lib.build_negint64 value)

  unfoldable pub new_definite_array : ℕ → Result Item
  new_definite_array size = or_bad_alloc (lib.new_definite_array size)

  unfoldable pub new_indefinite_array : Result Item
  new_indefinite_array = or_bad_alloc lib.new_indefinite_array

  -- build_string of a std::string or a std::string_view, or of a pointer with a length.
  unfoldable pub build_string : List ℕ → Result Item
  build_string str = or_bad_alloc (lib.build_stringn str)

  unfoldable pub build_bytestring : List ℕ → Result Item
  build_bytestring bytes = or_bad_alloc (lib.build_bytestring bytes)
