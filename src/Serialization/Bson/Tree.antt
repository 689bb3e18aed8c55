-- ===== src/Serialization/Bson/Tree.antt =====
-- A library of documents in place of libbson: a document is the elements that it holds, with the
-- elements and the key of an array that has been begun in it.
use modern_cpp_hw.Prelude.{
  ℕ, ◌≡◌, refl, ap, List, [], Option, none, some, Bool, true, false, length, ℤ, pos,
}
use modern_cpp_hw.Serialization.Bson.{Libbson, Sized}
use modern_cpp_hw.Serialization.Bson.Laws.{
  Element, int64, utf8, binary, array, Elements, end, field, snoc, IsLibbson, HasRoom,
}

pub record Doc : Type 0 where
  pub held : Elements
  pub before : Elements
  pub key : List ℕ

abbrev pub Cursor : Type 0
Cursor = Option Element × Elements

abbrev pub doc : Elements → Doc
doc es = record { held = es; before = end; key = [] }

abbrev pub append : Doc → Sized → Element → Doc
append d k e = doc (snoc d.held k.0 e)

abbrev pub begin : Doc → Sized → Doc
begin d k = record { held = d.held; before = d.held; key = k.0 }

abbrev pub begun : Doc → Sized → Option (Doc × Doc)
begun d k = some (begin d k, doc end)

abbrev pub finish : Doc → Doc → Doc
finish p c = doc (snoc p.before p.key (array c.held))

abbrev pub step : Elements → Bool × Cursor
step end = (false, (none, end))
step (field k e rest) = (true, (some e, rest))

abbrev pub is_int64 : Option Element → Bool
is_int64 (some (int64 z)) = true
is_int64 _ = false

abbrev pub is_binary : Option Element → Bool
is_binary (some (binary s)) = true
is_binary _ = false

abbrev pub is_utf8 : Option Element → Bool
is_utf8 (some (utf8 s)) = true
is_utf8 _ = false

abbrev pub is_array : Option Element → Bool
is_array (some (array es)) = true
is_array _ = false

abbrev pub number : Option Element → ℤ
number (some (int64 z)) = z
number _ = pos 0

abbrev pub content : Option Element → List ℕ
content (some (binary s)) = s
content (some (utf8 s)) = s
content _ = []

abbrev pub inside : Option Element → Cursor
inside (some (array es)) = (none, es)
inside _ = (none, end)

abbrev pub tree : Libbson
tree = record {
  Doc = Doc;
  Cursor = Cursor;
  empty = doc end;
  append_int64 = λ d k z. some (append d k (int64 z));
  append_utf8 = λ d k s. some (append d k (utf8 s.0));
  append_binary = λ d k s. some (append d k (binary s.0));
  append_array_begin = begun;
  append_array_end = λ p c. some (finish p c);
  iter_init = λ d. some (none, d.held);
  iter_next = λ i. step i.1;
  holds_int64 = λ i. is_int64 i.0;
  holds_binary = λ i. is_binary i.0;
  holds_utf8 = λ i. is_utf8 i.0;
  holds_array = λ i. is_array i.0;
  iter_as_int64 = λ i. number i.0;
  iter_binary = λ i. content i.0;
  iter_utf8 = λ i. content i.0;
  iter_recurse = λ i. inside i.0;
}

held_same : (c d : Doc) → some c ≡ some d → d.held ≡ c.held
held_same c d e = cc

begun_same :
    (d p c : Doc) (k : List ℕ) (n : ℤ)
    → begun d (k, n) ≡ some (p, c)
    → (c.held ≡ end) × (p.before ≡ d.held) × (p.key ≡ k)
begun_same d p c k n e =
    let parent : p ≡ begin d (k, n) = cc in
    let child : c ≡ doc end = cc in
    (ap (λ x. x.held) child, ap (λ x. x.before) parent, ap (λ x. x.key) parent)

pub tree-IsLibbson : IsLibbson tree
tree-IsLibbson = record {
  elements = λ d. d.held;
  before = λ d. d.before;
  key = λ d. d.key;
  current = λ i. i.0;
  remaining = λ i. i.1;
  starts_empty = refl;
  appended_int64 = λ d d' k z e. held_same _ d' e;
  appended_utf8 = λ d d' k s e. held_same _ d' e;
  appended_binary = λ d d' k s e. held_same _ d' e;
  begun = λ d p c k e. begun_same d p c k (pos (length k)) e;
  ended = λ p c d e. held_same _ d e;
  starts = λ d. ((none, d.held), refl, refl);
  steps = λ i k e rest h.
      (ap (λ es. (step es).0) h, ap (λ es. (step es).1.0) h, ap (λ es. (step es).1.1) h);
  stops = λ i h. ap (λ es. (step es).0) h;
  reads_int64 = λ i z h. (ap is_int64 h, ap number h);
  reads_utf8 = λ i s h. (ap is_utf8 h, ap content h);
  reads_binary = λ i s h. (ap is_binary h, ap content h);
  reads_array = λ i es h. (ap is_array h, ap (λ o. (inside o).1) h);
}

pub tree-HasRoom : HasRoom tree
tree-HasRoom = record {
  int64_fits = λ d k z. (append d k (int64 z), refl);
  utf8_fits = λ d k s. (append d k (utf8 s.0), refl);
  binary_fits = λ d k s. (append d k (binary s.0), refl);
  array_fits = λ d k. (begin d k, doc end, refl);
  array_ends = λ p c. (finish p c, refl);
}
