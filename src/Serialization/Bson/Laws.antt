-- ===== src/Serialization/Bson/Laws.antt =====
-- What the code relies on of libbson, as it documents it.
use modern_cpp_hw.Prelude.{ℕ, ◌≡◌, List, true, false, Option, some, length, ℤ, pos}
use modern_cpp_hw.Serialization.Bson.{Libbson, Sized, Binary}

-- What an element holds, and a document.
mutual
  pub data Element : Type 0 where
    int64 : ℤ → Element
    utf8 : List ℕ → Element
    binary : List ℕ → Element
    array : Elements → Element
    other : Element

  pub data Elements : Type 0 where
    end : Elements
    field : List ℕ → Element → Elements → Elements

abbrev pub snoc : Elements → List ℕ → Element → Elements
snoc end k e = field k e end
snoc (field j d rest) k e = field j d (snoc rest k e)

-- Bytes with their own length.
abbrev pub whole : List ℕ → Sized
whole bytes = (bytes, pos (length bytes))

-- `elements` is what a document holds; `before` and `key` are of a parent whose array has been begun;
-- `current` is the element at a cursor, and `remaining` what follows.
pub record IsLibbson (lib : Libbson) : Type 0 where
  pub elements : lib.Doc → Elements
  pub before : lib.Doc → Elements
  pub key : lib.Doc → List ℕ
  pub current : lib.Cursor → Option Element
  pub remaining : lib.Cursor → Elements
  pub starts_empty : elements lib.empty ≡ end
  pub appended_int64 :
      (d d' : lib.Doc) (k : List ℕ) (z : ℤ)
      → lib.append_int64 d (whole k) z ≡ some d'
      → elements d' ≡ snoc (elements d) k (int64 z)
  pub appended_utf8 :
      (d d' : lib.Doc) (k s : List ℕ)
      → lib.append_utf8 d (whole k) (whole s) ≡ some d'
      → elements d' ≡ snoc (elements d) k (utf8 s)
  pub appended_binary :
      (d d' : lib.Doc) (k s : List ℕ)
      → lib.append_binary d (whole k) (s, length s) ≡ some d'
      → elements d' ≡ snoc (elements d) k (binary s)
  pub begun :
      (d p c : lib.Doc) (k : List ℕ)
      → lib.append_array_begin d (whole k) ≡ some (p, c)
      → (elements c ≡ end) × (before p ≡ elements d) × (key p ≡ k)
  pub ended :
      (p c d : lib.Doc)
      → lib.append_array_end p c ≡ some d
      → elements d ≡ snoc (before p) (key p) (array (elements c))
  pub starts :
      (d : lib.Doc) → (i : lib.Cursor) × (lib.iter_init d ≡ some i) × (remaining i ≡ elements d)
  pub steps :
      (i : lib.Cursor) (k : List ℕ) (e : Element) (rest : Elements)
      → remaining i ≡ field k e rest
      → ((lib.iter_next i).0 ≡ true)
        × (current (lib.iter_next i).1 ≡ some e)
        × (remaining (lib.iter_next i).1 ≡ rest)
  pub stops : (i : lib.Cursor) → remaining i ≡ end → (lib.iter_next i).0 ≡ false
  pub reads_int64 :
      (i : lib.Cursor) (z : ℤ)
      → current i ≡ some (int64 z)
      → (lib.holds_int64 i ≡ true) × (lib.iter_as_int64 i ≡ z)
  pub reads_utf8 :
      (i : lib.Cursor) (s : List ℕ)
      → current i ≡ some (utf8 s)
      → (lib.holds_utf8 i ≡ true) × (lib.iter_utf8 i ≡ s)
  pub reads_binary :
      (i : lib.Cursor) (s : List ℕ)
      → current i ≡ some (binary s)
      → (lib.holds_binary i ≡ true) × (lib.iter_binary i ≡ s)
  pub reads_array :
      (i : lib.Cursor) (es : Elements)
      → current i ≡ some (array es)
      → (lib.holds_array i ≡ true) × (remaining (lib.iter_recurse i) ≡ es)

-- No document grows too large.
pub record HasRoom (lib : Libbson) : Type 0 where
  pub int64_fits :
      (d : lib.Doc) (k : Sized) (z : ℤ) → (d' : lib.Doc) × (lib.append_int64 d k z ≡ some d')
  pub utf8_fits : (d : lib.Doc) (k s : Sized) → (d' : lib.Doc) × (lib.append_utf8 d k s ≡ some d')
  pub binary_fits :
      (d : lib.Doc) (k : Sized) (s : Binary) → (d' : lib.Doc) × (lib.append_binary d k s ≡ some d')
  pub array_fits :
      (d : lib.Doc) (k : Sized)
      → (p : lib.Doc) × (c : lib.Doc) × (lib.append_array_begin d k ≡ some (p, c))
  pub array_ends : (p c : lib.Doc) → (d : lib.Doc) × (lib.append_array_end p c ≡ some d)
