-- ===== src/Serialization/Cbor/Ownership.antt =====
-- hw1-binary-serialization: the ownership of items by the objects of class Item
-- (wrappers/include/cbor_wrapper.ipp). Objects are numbered in the order of their construction.
-- libcbor counts the references: cbor_incref and cbor_decref are a parameter,
-- with one function for all that make items.
pub mod Counting
mod Trial
use modern_cpp_hw.Prelude.{
  ℕ, zero, suc, List, [], ◌∷◌, ◌++◌, Option, none, some, Bool, ◌==◌, if◌then◌else◌, get_elem?, set,
}
use modern_cpp_hw.Serialization.Result.{Result, done, fault, ◌>>=◌, or_bad_alloc}

-- cbor_decref answers what it leaves in the pointer: null where it has freed the item.
pub record References : Type 1 where
  pub Heap : Type 0
  -- the functions that make an item
  pub build : Heap → Option (Heap × ℕ)
  pub incref : Heap → ℕ → Heap
  pub decref : Heap → ℕ → Heap × Option ℕ

-- An object that has been destroyed, or one with its m_item.
pub data Slot : Type 0 where
  destroyed : Slot
  holding : Option ℕ → Slot

abbrev pub item_in : Option Slot → Result (Option ℕ)
item_in none = fault
item_in (some destroyed) = fault
item_in (some (holding m)) = done m

module _ (lib : References) where
  pub record Objects : Type 0 where
    pub heap : lib.Heap
    pub slots : List Slot

  unfoldable pub item_at : Objects → ℕ → Result (Option ℕ)
  item_at o i = item_in (get_elem? o.slots i)

  abbrev pub put : ℕ → Slot → Objects → Objects
  put i x o = record o { slots = set o.slots i x }

  -- cbor_incref, which reads its argument.
  unfoldable pub incref : Option ℕ → Objects → Result Objects
  incref none o = fault
  incref (some p) o = done (record o { heap = lib.incref o.heap p })

  -- Item::Item(cbor_item_t*)
  unfoldable pub item_of_pointer : Option ℕ → Objects → Objects
  item_of_pointer m o = record o { slots = o.slots ++ holding m ∷ [] }

  -- The functions that make an item and return it as an object: `build_uint8` up to `build_bytestring`.
  unfoldable pub build : Objects → Result Objects
  build o = do
    (heap, p) ← or_bad_alloc (lib.build o.heap)
    done (item_of_pointer (some p) (record o { heap = heap }))

  abbrev pub release : ℕ → Option ℕ → Objects → Objects
  release i none o = o
  release i (some p) o = record {
    heap = (lib.decref o.heap p).0;
    slots = set o.slots i (holding (lib.decref o.heap p).1);
  }

  -- Item::dtor_impl
  unfoldable pub dtor_impl : ℕ → Objects → Result Objects
  dtor_impl i o = do m ← item_at o i; done (release i m o)

  -- Item::Item(const Item&)
  unfoldable pub copy : ℕ → Objects → Result Objects
  copy j o = do m ← item_at o j; incref m (item_of_pointer m o)

  -- Item::operator=(const Item&)
  unfoldable pub copy_assign : ℕ → ℕ → Objects → Result Objects
  copy_assign i j o =
      if j == i
      then done o
      else do o1 ← dtor_impl i o; m ← item_at o1 j; incref m (put i (holding m) o1)

  -- Item::Item(Item&&)
  unfoldable pub move : ℕ → Objects → Result Objects
  move j o = do m ← item_at o j; done (put j (holding none) (item_of_pointer m o))

  -- Item::operator=(Item&&)
  unfoldable pub move_assign : ℕ → ℕ → Objects → Result Objects
  move_assign i j o = if j == i then done o else do
    o1 ← dtor_impl i o
    m ← item_at o1 j
    done (put j (holding none) (put i (holding m) o1))

  -- Item::~Item
  unfoldable pub destroy : ℕ → Objects → Result Objects
  destroy i o = do o1 ← dtor_impl i o; done (put i destroyed o1)

-- What a program does with its objects.
pub data Operation : Type 0 where
  built : Operation
  copied : ℕ → Operation
  copy_assigned : ℕ → ℕ → Operation
  moved : ℕ → Operation
  move_assigned : ℕ → ℕ → Operation
  ended : ℕ → Operation

module _ (lib : References) where
  unfoldable pub operate : Operation → Objects lib → Result (Objects lib)
  operate built o = build lib o
  operate (copied j) o = copy lib j o
  operate (copy_assigned i j) o = copy_assign lib i j o
  operate (moved j) o = move lib j o
  operate (move_assigned i j) o = move_assign lib i j o
  operate (ended i) o = destroy lib i o

  unfoldable pub operate_all : List Operation → Objects lib → Result (Objects lib)
  operate_all [] o = done o
  operate_all (op ∷ rest) o = operate op o >>= operate_all rest
