-- ===== src/Serialization/Cbor/Buffers.antt =====
-- hw1-binary-serialization: the objects of class Buffer, which own a block of memory each
-- (wrappers/include/cbor_wrapper.ipp). Objects are numbered in the order of their construction.
-- std::malloc and std::free are a parameter; the bytes of a block are in the heap.
pub mod Owned
pub mod Life
mod Trial
use modern_cpp_hw.Prelude.{
  ℕ, zero, suc, List, [], ◌∷◌, ◌++◌, Option, none, some, Bool, true, false, ◌==◌, if◌then◌else◌,
  get_elem?, set,
}
use modern_cpp_hw.Serialization.Result.{Result, done, bad_alloc, fault, ◌>>=◌}

-- `copy_to` is std::memcpy of so many bytes from one block to another.
pub record Memory : Type 1 where
  pub Heap : Type 0
  pub malloc : Heap → ℕ → Option (Heap × ℕ)
  pub free : Heap → ℕ → Heap
  pub copy_to : Heap → ℕ → ℕ → ℕ → Heap
  -- cbor_serialize_alloc: the heap, the block and its capacity, and the size of the encoding
  pub serialize_alloc : Heap → Option (Heap × ℕ × ℕ × ℕ)

pub record Buffer : Type 0 where
  pub size : ℕ
  pub capacity : ℕ
  pub buffer : Option ℕ

-- Buffer()
abbrev pub default_buffer : Buffer
default_buffer = record { size = 0; capacity = 0; buffer = none }

abbrev pub live : Option (Option Buffer) → Result Buffer
live none = fault
live (some none) = fault
live (some (some b)) = done b

module _ (lib : Memory) where
  -- An object that has been destroyed is `none`.
  pub record Objects : Type 0 where
    pub heap : lib.Heap
    pub slots : List (Option Buffer)

  unfoldable pub buffer_at : Objects → ℕ → Result Buffer
  buffer_at o i = live (get_elem? o.slots i)

  abbrev pub put : ℕ → Option Buffer → Objects → Objects
  put i b o = record o { slots = set o.slots i b }

  abbrev pub push : Buffer → Objects → Objects
  push b o = record o { slots = o.slots ++ some b ∷ [] }

  abbrev pub freed : Option ℕ → lib.Heap → lib.Heap
  freed none heap = heap
  freed (some p) heap = lib.free heap p

  -- An operation returns, or throws std::bad_alloc; either way it leaves objects.
  abbrev pub Ended : Type 0
  Ended = Result (Bool × Objects)

  -- Buffer::Buffer()
  unfoldable pub construct : Objects → Ended
  construct o = done (true, push default_buffer o)

  abbrev pub serialized : Objects → Option (lib.Heap × ℕ × ℕ × ℕ) → Bool × Objects
  serialized o none = (false, o)
  serialized o (some (heap, p, capacity, size)) = (
    true,
    push (record { size = size; capacity = capacity; buffer = some p }) (record o { heap = heap }),
  )

  -- Buffer::Buffer(const cbor_item_t*)
  unfoldable pub serialize : Objects → Ended
  serialize o = done (serialized o (lib.serialize_alloc o.heap))

  abbrev pub copied_bytes : Option ℕ → ℕ → ℕ → lib.Heap → Result lib.Heap
  copied_bytes none size p heap = if size == 0 then done heap else fault
  copied_bytes (some q) size p heap = done (lib.copy_to heap p q size)

  -- std::memcpy to the block, of no bytes where the other pointer is null.
  abbrev pub copied_from : Buffer → ℕ → lib.Heap → Result lib.Heap
  copied_from b p heap = copied_bytes b.buffer b.size p heap

  abbrev pub allocated : ℕ → ℕ → Buffer
  allocated size p = record { size = size; capacity = size; buffer = some p }

  abbrev pub constructed : Buffer → Objects → Option (lib.Heap × ℕ) → Ended
  constructed b o none = done (false, o)
  constructed b o (some (heap, p)) = do
    heap' ← copied_from b p heap
    done (true, push (allocated b.size p) (record o { heap = heap' }))

  -- Buffer::Buffer(const Buffer&)
  unfoldable pub copy : ℕ → Objects → Ended
  copy j o = do b ← buffer_at o j; constructed b o (lib.malloc o.heap b.size)

  -- Where malloc fails, the size is already that of the other object, and the pointer null.
  abbrev pub assigned : ℕ → Buffer → Objects → Option (lib.Heap × ℕ) → Ended
  assigned i b o none =
      done (false, put i (some (record { size = b.size; capacity = b.size; buffer = none })) o)
  assigned i b o (some (heap, p)) = do
    heap' ← copied_from b p heap
    done (true, put i (some (allocated b.size p)) (record o { heap = heap' }))

  -- Buffer::dtor_impl
  unfoldable pub dtor_impl : ℕ → Objects → Result Objects
  dtor_impl i o = do b ← buffer_at o i; done (record o { heap = freed b.buffer o.heap })

  -- Buffer::operator=(const Buffer&)
  unfoldable pub copy_assign : ℕ → ℕ → Objects → Ended
  copy_assign i j o =
      if j == i
      then done (true, o)
      else do o1 ← dtor_impl i o; b ← buffer_at o1 j; assigned i b o1 (lib.malloc o1.heap b.size)

  -- Buffer::Buffer(Buffer&&)
  unfoldable pub move : ℕ → Objects → Ended
  move j o = do b ← buffer_at o j; done (true, put j (some default_buffer) (push b o))

  -- Buffer::operator=(Buffer&&)
  unfoldable pub move_assign : ℕ → ℕ → Objects → Ended
  move_assign i j o = if j == i then done (true, o) else do
    o1 ← dtor_impl i o
    b ← buffer_at o1 j
    done (true, put j (some default_buffer) (put i (some b) o1))

  -- Buffer::~Buffer
  unfoldable pub destroy : ℕ → Objects → Ended
  destroy i o = do o1 ← dtor_impl i o; done (true, put i none o1)

-- What a program does with its objects.
pub data Operation : Type 0 where
  constructs : Operation
  serializes : Operation
  copies : ℕ → Operation
  copy_assigns : ℕ → ℕ → Operation
  moves : ℕ → Operation
  move_assigns : ℕ → ℕ → Operation
  destroys : ℕ → Operation

module _ (lib : Memory) where
  unfoldable pub operate : Operation → Objects lib → Ended lib
  operate constructs o = construct lib o
  operate serializes o = serialize lib o
  operate (copies j) o = copy lib j o
  operate (copy_assigns i j) o = copy_assign lib i j o
  operate (moves j) o = move lib j o
  operate (move_assigns i j) o = move_assign lib i j o
  operate (destroys i) o = destroy lib i o

  -- An operation that throws is followed by the next one.
  unfoldable pub operate_all : List Operation → Objects lib → Result (Objects lib)
  operate_all [] o = done o
  operate_all (op ∷ rest) o = do (returned, o1) ← operate op o; operate_all rest o1
