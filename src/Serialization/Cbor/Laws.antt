-- ===== src/Serialization/Cbor/Laws.antt =====
-- What the code relies on of libcbor, as it documents it.
use modern_cpp_hw.Prelude.{ℕ, suc, ◌≡◌, ◌<◌, ◌^◌, List, true, some, length, IsBytes}
use modern_cpp_hw.Serialization.Cbor.{
  Libcbor, loaded, Value, uint, text, bytestring, array, Values, nil, snoc, views,
}

-- `view` is what an item stands for, and `room` how many items a definite array still takes.
pub record IsLibcbor (lib : Libcbor) : Type 0 where
  pub view : lib.Item → Value
  pub room : lib.Item → ℕ
  pub built_uint :
      (n : ℕ) (i : lib.Item) → n < 2 ^ 64 → lib.build_uint64 n ≡ some i → view i ≡ uint n
  pub built_text :
      (s : List ℕ) (i : lib.Item) → IsBytes s → lib.build_stringn s ≡ some i → view i ≡ text s
  pub built_bytes :
      (s : List ℕ) (i : lib.Item)
      → IsBytes s
      → lib.build_bytestring s ≡ some i
      → view i ≡ bytestring s
  pub built_array :
      (n : ℕ) (i : lib.Item)
      → lib.new_definite_array n ≡ some i
      → (view i ≡ array nil) × (room i ≡ n)
  -- a definite array takes as many items as it was made for
  pub pushes :
      (a x : lib.Item) (vs : Values)
      → view a ≡ array vs
      → 0 < room a
      → (b : lib.Item) × (lib.array_push a x ≡ some b)
        × (view b ≡ array (snoc vs (view x)))
        × (suc (room b) ≡ room a)
  pub reads_uint :
      (i : lib.Item) (n : ℕ) → view i ≡ uint n → (lib.isa_uint i ≡ true) × (lib.get_uint64 i ≡ n)
  pub reads_text :
      (i : lib.Item) (s : List ℕ)
      → view i ≡ text s
      → (lib.isa_string i ≡ true) × (lib.string_bytes i ≡ s)
  pub reads_bytes :
      (i : lib.Item) (s : List ℕ)
      → view i ≡ bytestring s
      → (lib.isa_bytestring i ≡ true) × (lib.bytestring_bytes i ≡ s)
  pub reads_array :
      (i : lib.Item) (vs : Values)
      → view i ≡ array vs
      → (lib.isa_array i ≡ true)
        × (views view (lib.array_handle i) ≡ vs)
        × (lib.array_size i ≡ length (lib.array_handle i))
  -- what has been serialized is loaded as an item that stands for the same
  pub loads :
      (i : lib.Item) (buffer : List ℕ)
      → lib.serialize_alloc i ≡ some buffer
      → (j : lib.Item) × (lib.load buffer ≡ loaded j) × (view j ≡ view i)

-- Memory does not run out.
pub record HasMemory (lib : Libcbor) : Type 0 where
  pub uint_made : (n : ℕ) → (i : lib.Item) × (lib.build_uint64 n ≡ some i)
  pub text_made : (s : List ℕ) → (i : lib.Item) × (lib.build_stringn s ≡ some i)
  pub bytes_made : (s : List ℕ) → (i : lib.Item) × (lib.build_bytestring s ≡ some i)
  pub array_made : (n : ℕ) → (i : lib.Item) × (lib.new_definite_array n ≡ some i)
  pub serialized : (i : lib.Item) → (buffer : List ℕ) × (lib.serialize_alloc i ≡ some buffer)
