-- ===== src/Serialization/Cbor/Tree.antt =====
-- A library of items in place of libcbor: an item is the value that it stands for, with the number of
-- items that it still takes. Its encoding is one of its own; it shows that the laws can be met.
use modern_cpp_hw.Prelude.{
  ℕ, zero, suc, ◌+◌, ◌≤◌, ◌<◌, ◌≡◌, ◌∙◌, refl, ap, sym, List, [], ◌∷◌, ◌++◌, Option, none, some,
  Bool, true, false, length, arith, ◌==◌, take, drop, length-append, if◌then◌else◌,
}
use modern_cpp_hw.Serialization.Cbor.{
  Libcbor, Loaded, loaded, load_error, Value, uint, text, bytestring, array, other, Values, nil,
  cons, snoc, views,
}
use modern_cpp_hw.Serialization.Cbor.Laws.{IsLibcbor, HasMemory}

abbrev Item : Type 0
Item = Value × ℕ

abbrev is_uint : Value → Bool
is_uint (uint n) = true
is_uint _ = false

abbrev is_text : Value → Bool
is_text (text s) = true
is_text _ = false

abbrev is_bytestring : Value → Bool
is_bytestring (bytestring s) = true
is_bytestring _ = false

abbrev is_array : Value → Bool
is_array (array vs) = true
is_array _ = false

abbrev number : Value → ℕ
number (uint n) = n
number _ = 0

abbrev content : Value → List ℕ
content (text s) = s
content (bytestring s) = s
content _ = []

abbrev items : Values → List Item
items nil = []
items (cons v vs) = (v, 0) ∷ items vs

abbrev members : Value → List Item
members (array vs) = items vs
members _ = []

abbrev push : Item → Item → Option Item
push (array vs, suc room) x = some (array (snoc vs x.0), room)
push _ x = none

abbrev mutual
  pub encode : Value → List ℕ → List ℕ
  encode (uint n) rest = 0 ∷ n ∷ rest
  encode (text s) rest = 1 ∷ length s ∷ (s ++ rest)
  encode (bytestring s) rest = 2 ∷ length s ∷ (s ++ rest)
  encode (array vs) rest = 3 ∷ encode_all vs rest
  encode other rest = 4 ∷ rest

  encode_all : Values → List ℕ → List ℕ
  encode_all nil rest = 0 ∷ rest
  encode_all (cons v vs) rest = 1 ∷ encode v (encode_all vs rest)

abbrev mutual
  size : Value → ℕ
  size (uint n) = 1
  size (text s) = 1
  size (bytestring s) = 1
  size (array vs) = suc (size_all vs)
  size other = 1

  size_all : Values → ℕ
  size_all nil = 1
  size_all (cons v vs) = suc (size v + size_all vs)

abbrev cut : (List ℕ → Value) → List ℕ → Option (Value × List ℕ)
cut make [] = none
cut make (n ∷ rest) = some (make (take n rest), drop n rest)

abbrev one : List ℕ → Option (Value × List ℕ)
one [] = none
one (n ∷ rest) = some (uint n, rest)

abbrev whole : Option (Values × List ℕ) → Option (Value × List ℕ)
whole none = none
whole (some (vs, rest)) = some (array vs, rest)

abbrev before : Value → Option (Values × List ℕ) → Option (Values × List ℕ)
before v none = none
before v (some (vs, rest)) = some (cons v vs, rest)

abbrev then_all :
    (List ℕ → Option (Values × List ℕ)) → Option (Value × List ℕ) → Option (Values × List ℕ)
then_all more none = none
then_all more (some (v, rest)) = before v (more rest)

mutual
  decode : ℕ → List ℕ → Option (Value × List ℕ)
  decode zero bs = none
  decode (suc f) [] = none
  decode (suc f) (t ∷ rest) =
      let inner = whole (decode_all f rest) in
      if t == 0
      then one rest
      else if t == 1
      then cut text rest
      else if t == 2
      then cut bytestring rest
      else if t == 4
      then some (other, rest)
      else inner

  decode_all : ℕ → List ℕ → Option (Values × List ℕ)
  decode_all zero bs = none
  decode_all (suc f) [] = none
  decode_all (suc f) (t ∷ rest) =
      let inner = then_all (decode_all f) (decode f rest) in
      if t == 0 then some (nil, rest) else inner

take_front : (s rest : List ℕ) → take (length s) (s ++ rest) ≡ s
take_front [] rest = refl
take_front (x ∷ s) rest = ap (λ l. x ∷ l) (take_front s rest)

drop_front : (s rest : List ℕ) → drop (length s) (s ++ rest) ≡ rest
drop_front [] rest = refl
drop_front (x ∷ s) rest = drop_front s rest

mutual
  unfolding decode decode_all

  decode-encode :
      (f : ℕ) (v : Value) (rest : List ℕ) → size v ≤ f → decode f (encode v rest) ≡ some (v, rest)
  decode-encode zero (uint n) rest h = absurd (omega (arith, h))
  decode-encode zero (text s) rest h = absurd (omega (arith, h))
  decode-encode zero (bytestring s) rest h = absurd (omega (arith, h))
  decode-encode zero (array vs) rest h = absurd (omega (arith, h))
  decode-encode zero other rest h = absurd (omega (arith, h))
  decode-encode (suc f) other rest h = refl
  decode-encode (suc f) (uint n) rest h = refl
  decode-encode (suc f) (text s) rest h = rw (take_front s rest, drop_front s rest) refl
  decode-encode (suc f) (bytestring s) rest h = rw (take_front s rest, drop_front s rest) refl
  decode-encode (suc f) (array vs) rest h =
      rw (decode_all-encode_all f vs rest (omega (arith, h))) refl

  decode_all-encode_all :
      (f : ℕ) (vs : Values) (rest : List ℕ)
      → size_all vs ≤ f
      → decode_all f (encode_all vs rest) ≡ some (vs, rest)
  decode_all-encode_all zero nil rest h = absurd (omega (arith, h))
  decode_all-encode_all zero (cons v vs) rest h = absurd (omega (arith, h))
  decode_all-encode_all (suc f) nil rest h = refl
  decode_all-encode_all (suc f) (cons v vs) rest h =
      rw
        (
          decode-encode f v (encode_all vs rest) (omega (arith, h)),
          decode_all-encode_all f vs rest (omega (arith, h)),
        )
        refl

mutual
  size-le : (v : Value) (rest : List ℕ) → size v + length rest ≤ length (encode v rest)
  size-le (uint n) rest = omega arith
  size-le (text s) rest = omega (arith, length-append s rest)
  size-le (bytestring s) rest = omega (arith, length-append s rest)
  size-le other rest = omega arith
  size-le (array vs) rest = omega (arith, size_all-le vs rest)

  size_all-le :
      (vs : Values) (rest : List ℕ) → size_all vs + length rest ≤ length (encode_all vs rest)
  size_all-le nil rest = omega arith
  size_all-le (cons v vs) rest = omega (arith, size-le v (encode_all vs rest), size_all-le vs rest)

abbrev loaded_as : Option (Value × List ℕ) → Loaded Item
loaded_as none = load_error 1
loaded_as (some (v, rest)) = loaded (v, 0)

pub load : List ℕ → Loaded Item
load bs = loaded_as (decode (length bs) bs)

pub load-encode : (v : Value) → load (encode v []) ≡ loaded (v, 0)
unfolding load
load-encode v = rw (decode-encode (length (encode v [])) v [] (omega (arith, size-le v []))) refl

abbrev pub tree : Libcbor
tree = record {
  Item = Item;
  build_uint8 = λ n. some (uint n, 0);
  build_uint16 = λ n. some (uint n, 0);
  build_uint32 = λ n. some (uint n, 0);
  build_uint64 = λ n. some (uint n, 0);
  build_negint8 = λ n. none;
  build_negint16 = λ n. none;
  build_negint32 = λ n. none;
  build_negint64 = λ n. none;
  build_stringn = λ s. some (text s, 0);
  build_bytestring = λ s. some (bytestring s, 0);
  new_definite_array = λ n. some (array nil, n);
  new_indefinite_array = none;
  array_push = push;
  isa_uint = λ i. is_uint i.0;
  isa_string = λ i. is_text i.0;
  isa_bytestring = λ i. is_bytestring i.0;
  isa_array = λ i. is_array i.0;
  get_uint64 = λ i. number i.0;
  string_bytes = λ i. content i.0;
  bytestring_bytes = λ i. content i.0;
  array_size = λ i. length (members i.0);
  array_handle = λ i. members i.0;
  serialize_alloc = λ i. some (encode i.0 []);
  load = load;
}

views-items : (vs : Values) → views (λ (i : Item). i.0) (items vs) ≡ vs
views-items nil = refl
views-items (cons v vs) = ap (cons v) (views-items vs)

some_item : (i j : Item) → some i ≡ some j → i ≡ j
some_item i j e = cc

some_bytes : (x y : List ℕ) → some x ≡ some y → x ≡ y
some_bytes x y e = cc

pushes :
    (v : Value) (n : ℕ) (x : Item) (vs : Values)
    → v ≡ array vs
    → 0 < n
    → (b : Item) × (push (v, n) x ≡ some b) × (b.0 ≡ array (snoc vs x.0)) × (suc b.1 ≡ n)
pushes (array us) (suc n) x vs e l =
    ((array (snoc us x.0), n), refl, ap (λ w. array (snoc w x.0)) (same us vs e), refl)
  where
    same : (us vs : Values) → array us ≡ array vs → us ≡ vs
    same us vs e = cc
pushes (array us) zero x vs e l = absurd (omega (arith, l))
pushes other n x vs e l = cc
pushes (uint m) n x vs e l = cc
pushes (text s) n x vs e l = cc
pushes (bytestring s) n x vs e l = cc

pub tree-IsLibcbor : IsLibcbor tree
tree-IsLibcbor = record {
  view = λ i. i.0;
  room = λ i. i.1;
  built_uint = λ n i l e. ap (λ (x : Item). x.0) (sym (some_item _ i e));
  built_text = λ s i b e. ap (λ (x : Item). x.0) (sym (some_item _ i e));
  built_bytes = λ s i b e. ap (λ (x : Item). x.0) (sym (some_item _ i e));
  built_array = λ n i e. (
    ap (λ (x : Item). x.0) (sym (some_item _ i e)),
    ap (λ (x : Item). x.1) (sym (some_item _ i e)),
  );
  pushes = λ a x vs e l. pushes a.0 a.1 x vs e l;
  reads_uint = λ i n e. (ap is_uint e, ap number e);
  reads_text = λ i s e. (ap is_text e, ap content e);
  reads_bytes = λ i s e. (ap is_bytestring e, ap content e);
  reads_array = λ i vs e. (
    ap is_array e,
    ap (λ (v : Value). views (λ (x : Item). x.0) (members v)) e ∙ views-items vs,
    refl,
  );
  loads = λ i buffer e. ((i.0, 0), ap load (sym (some_bytes _ buffer e)) ∙ load-encode i.0, refl);
}

pub tree-HasMemory : HasMemory tree
tree-HasMemory = record {
  uint_made = λ n. ((uint n, 0), refl);
  text_made = λ s. ((text s, 0), refl);
  bytes_made = λ s. ((bytestring s, 0), refl);
  array_made = λ n. ((array nil, n), refl);
  serialized = λ i. (encode i.0 [], refl);
}
