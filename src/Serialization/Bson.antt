-- ===== src/Serialization/Bson.antt =====
-- hw1-binary-serialization: libbson as the code uses it, and the classes of
-- wrappers/include/bson_wrapper.hpp and bson_wrapper.ipp.
-- libbson is not part of the repository: its functions are a parameter. A bson_t is the document that
-- it holds; the parent of an array that has been begun is a document until the array is ended.
pub mod Index
pub mod Laws
pub mod Tree
use modern_cpp_hw.Prelude.{
  ℕ, zero, suc, ◌+◌, ◌/◌, ◌%◌, List, [], ◌∷◌, ◌++◌, Bool, Option, none, some, ltb, if◌then◌else◌,
  u32, length, ℤ, to_int64, to_uint64, to_int,
}
use modern_cpp_hw.Serialization.Result.{
  Result, done, ◌>>=◌, ◌>>◌, assert, or_fault, or_runtime_error,
}

-- A pointer to bytes, with the length that is passed as an int, or as a std::uint32_t.
abbrev pub Sized : Type 0
Sized = List ℕ × ℤ

abbrev pub Binary : Type 0
Binary = List ℕ × ℕ

abbrev pub sized : List ℕ → Sized
sized bytes = (bytes, to_int (length bytes))

-- The appending functions and bson_iter_init answer `none` for `false`.
pub record Libbson : Type 1 where
  pub Doc : Type 0
  pub Cursor : Type 0
  pub empty : Doc
  pub append_int64 : Doc → Sized → ℤ → Option Doc
  pub append_utf8 : Doc → Sized → Sized → Option Doc
  pub append_binary : Doc → Sized → Binary → Option Doc
  -- the parent, and the array
  pub append_array_begin : Doc → Sized → Option (Doc × Doc)
  pub append_array_end : Doc → Doc → Option Doc
  pub iter_init : Doc → Option Cursor
  pub iter_next : Cursor → Bool × Cursor
  pub holds_int64 : Cursor → Bool
  pub holds_binary : Cursor → Bool
  pub holds_utf8 : Cursor → Bool
  pub holds_array : Cursor → Bool
  pub iter_as_int64 : Cursor → ℤ
  pub iter_binary : Cursor → List ℕ
  pub iter_utf8 : Cursor → List ℕ
  pub iter_recurse : Cursor → Cursor

-- std::to_chars of an unsigned number into so many chars.
unfoldable pub to_chars : ℕ → ℕ → Option (List ℕ)
to_chars zero n = none
to_chars (suc capacity) n =
    let front = to_chars capacity (n / 10) in
    if ltb n 10
    then some ((n + 48) ∷ [])
    else elim front [ none ↦ none | some s ↦ some (s ++ (n % 10 + 48) ∷ []) ]

-- HW1_BSON_DECLARE_STRING_INDEX
unfoldable pub string_index : ℕ → Result (List ℕ)
string_index index = or_fault (to_chars 11 index)

module _ (lib : Libbson) where
  open lib use {Doc, Cursor}

  pub record SubArray : Type 0 where
    pub doc : Doc
    pub index : ℕ

  unfoldable pub append_int64 : Doc → List ℕ → ℤ → Result Doc
  append_int64 d key value = or_runtime_error (lib.append_int64 d (sized key) value)

  unfoldable pub append_uint64 : Doc → List ℕ → ℕ → Result Doc
  append_uint64 d key value = append_int64 d key (to_int64 value)

  unfoldable pub append_utf8 : Doc → List ℕ → List ℕ → Result Doc
  append_utf8 d key value = or_runtime_error (lib.append_utf8 d (sized key) (sized value))

  unfoldable pub append_binary : Doc → List ℕ → List ℕ → Result Doc
  append_binary d key value =
      or_runtime_error (lib.append_binary d (sized key) (value, u32 (length value)))

  -- SubArray::SubArray: the parent, and the array. Where the library refuses, the constructor throws, and
  -- Base::~Base destroys a bson_t that nothing has initialized.
  unfoldable pub sub_array : Doc → List ℕ → Result (Doc × SubArray)
  sub_array parent key = do
    (parent', child) ← or_fault (lib.append_array_begin parent (sized key))
    done (parent', record { doc = child; index = 0 })

  -- SubArray::~SubArray: the parent.
  unfoldable pub end_sub_array : Doc → SubArray → Result Doc
  end_sub_array parent a = or_fault (lib.append_array_end parent a.doc)

  unfoldable pub increment : SubArray → SubArray
  increment a = record a { index = u32 (a.index + 1) }

  -- The appending functions of SubArray, which leave the index as it is.
  unfoldable pub sub_append_int64 : SubArray → ℤ → Result SubArray
  sub_append_int64 a value = do
    i ← string_index a.index
    d ← append_int64 a.doc i value
    done (record a { doc = d })

  unfoldable pub sub_append_uint64 : SubArray → ℕ → Result SubArray
  sub_append_uint64 a value = sub_append_int64 a (to_int64 value)

  unfoldable pub sub_append_utf8 : SubArray → List ℕ → Result SubArray
  sub_append_utf8 a value = do
    i ← string_index a.index
    d ← append_utf8 a.doc i value
    done (record a { doc = d })

  unfoldable pub sub_append_binary : SubArray → List ℕ → Result SubArray
  sub_append_binary a value = do
    i ← string_index a.index
    d ← append_binary a.doc i value
    done (record a { doc = d })

  -- Iter::Iter
  unfoldable pub iter : Doc → Result Cursor
  iter d = or_runtime_error (lib.iter_init d)

  -- BSON_ITER_HOLDS_INT64 holds for both signs.
  unfoldable pub is_uint64 : Cursor → Bool
  is_uint64 i = lib.holds_int64 i

  unfoldable pub as_int64 : Cursor → Result ℤ
  as_int64 i = assert (lib.holds_int64 i) >> done (lib.iter_as_int64 i)

  unfoldable pub as_uint64 : Cursor → Result ℕ
  as_uint64 i = do assert (is_uint64 i); z ← as_int64 i; done (to_uint64 z)

  unfoldable pub as_binary : Cursor → Result (List ℕ)
  as_binary i = assert (lib.holds_binary i) >> done (lib.iter_binary i)

  unfoldable pub as_utf8 : Cursor → Result (List ℕ)
  as_utf8 i = assert (lib.holds_utf8 i) >> done (lib.iter_utf8 i)

  unfoldable pub as_array : Cursor → Result Cursor
  as_array i = assert (lib.holds_array i) >> done (lib.iter_recurse i)
