-- ===== src/Serialization/Msgpack.antt =====
-- hw1-binary-serialization: msgpack-c, which is not part of the repository and is a parameter, and how
-- a conversion with it ends.
pub mod Tree
use modern_cpp_hw.Prelude.{ℕ, ◌<◌, ◌^◌, ◌≡◌, List, Option, none, some, length, map, All}

pub data Converted {ℓ} (A : Type ℓ) : Type ℓ where
  converted : A → Converted A
  -- msgpack::unpack_error
  unpack_error : Converted A
  -- msgpack::type_error
  type_error : Converted A
  -- msgpack::container_size_overflow
  size_overflow : Converted A

infixl 5 ◌>>=◌
abbrev pub ◌>>=◌ {ℓ κ} : {A : Type ℓ} {B : Type κ} → Converted A → (A → Converted B) → Converted B
converted a >>= f = f a
unpack_error >>= f = unpack_error
type_error >>= f = type_error
size_overflow >>= f = size_overflow

abbrev pub or_unpack_error {ℓ} : {A : Type ℓ} → Option A → Converted A
or_unpack_error none = unpack_error
or_unpack_error (some a) = converted a

abbrev pub or_type_error {ℓ} : {A : Type ℓ} → Option A → Converted A
or_type_error none = type_error
or_type_error (some a) = converted a

abbrev pub or_size_overflow {ℓ} : {A : Type ℓ} → Option A → Converted A
or_size_overflow none = size_overflow
or_size_overflow (some a) = converted a

-- The adaptors of the types that the code packs: the object of a value, and the value of an object, which
-- may be of another type. An attachment's bytes are a `bin`, a vector and the members that
-- MSGPACK_DEFINE names are an `array`.
pub record Msgpack : Type 1 where
  pub Object : Type 0
  pub of_uint64 : ℕ → Object
  pub of_string : List ℕ → Object
  pub of_bytes : List ℕ → Object
  pub of_array : List Object → Object
  pub to_uint64 : Object → Option ℕ
  pub to_string : Object → Option (List ℕ)
  pub to_bytes : Object → Option (List ℕ)
  pub to_array : Object → Option (List Object)
  -- MSGPACK_DEFINE of so many members: `none` for a member that is left as it is
  pub to_members : ℕ → Object → Option (List (Option Object))
  -- what msgpack::pack writes for a value of this object, `none` where it throws
  -- msgpack::container_size_overflow, and msgpack::unpack
  pub pack : Object → Option (List ℕ)
  pub unpack : List ℕ → Option Object

-- What is documented of it: a string, a vector and an array may have up to 2^32 - 1 chars, bytes and elements.
-- An object can be packed where all that it is made of has such a size.
pub record IsMsgpack (lib : Msgpack) : Type 1 where
  pub IsPackable : lib.Object → Type 0
  pub packable_uint64 : (n : ℕ) → n < 2 ^ 64 → IsPackable (lib.of_uint64 n)
  pub packable_string : (s : List ℕ) → length s < 2 ^ 32 → IsPackable (lib.of_string s)
  pub packable_bytes : (b : List ℕ) → length b < 2 ^ 32 → IsPackable (lib.of_bytes b)
  pub packable_array :
      (os : List lib.Object) → length os < 2 ^ 32 → All IsPackable os → IsPackable (lib.of_array os)
  pub unpacks :
      (o : lib.Object)
      → IsPackable o
      → (b : List ℕ) × (lib.pack o ≡ some b) × (lib.unpack b ≡ some o)
  pub uint64s : (n : ℕ) → n < 2 ^ 64 → lib.to_uint64 (lib.of_uint64 n) ≡ some n
  pub strings : (s : List ℕ) → length s < 2 ^ 32 → lib.to_string (lib.of_string s) ≡ some s
  pub byte_vectors : (b : List ℕ) → length b < 2 ^ 32 → lib.to_bytes (lib.of_bytes b) ≡ some b
  pub arrays :
      (os : List lib.Object) → length os < 2 ^ 32 → lib.to_array (lib.of_array os) ≡ some os
  pub members :
      (os : List lib.Object)
      → length os < 2 ^ 32
      → lib.to_members (length os) (lib.of_array os) ≡ some (map some os)
