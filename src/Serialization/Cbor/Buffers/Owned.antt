-- ===== src/Serialization/Cbor/Buffers/Owned.antt =====
-- The blocks that objects of class Buffer own (wrappers/include/cbor_wrapper.ipp).
use modern_cpp_hw.Prelude.{
  ℕ, ◌+◌, ◌≤◌, ◌<◌, ◌≡◌, ◌≢◌, ◌∙◌, refl, ap, [], ◌∷◌, ◌++◌, Option, none, some, false, ◌==◌, ==_iff,
  Bool-cases, Option-cases, inl, inr, get_elem?, set, total, total-append, total-set,
  total-get_elem?, get_elem?-append, get_elem?-set_ne, arith,
}
use modern_cpp_hw.Serialization.Result.{done, bad_alloc, runtime_error, fault, exhausted}
use modern_cpp_hw.Serialization.Cbor.Ownership.Counting.{one}
use modern_cpp_hw.Serialization.Cbor.Buffers.{
  Memory, Buffer, default_buffer, Objects, buffer_at, freed, Ended, construct, serialize,
  copied_bytes, allocated, copy, dtor_impl, copy_assign, move, move_assign, destroy,
}

abbrev pub held : ℕ → Option Buffer → ℕ
held q none = 0
held q (some b) = one q b.buffer

-- What the code relies on of malloc, free and cbor_serialize_alloc: `blocks` counts the blocks at an address.
pub record IsMemory (lib : Memory) : Type 0 where
  pub blocks : lib.Heap → ℕ → ℕ
  pub at_most_one : (h : lib.Heap) (q : ℕ) → blocks h q ≤ 1
  pub allocates :
      (h h' : lib.Heap) (n p q : ℕ)
      → lib.malloc h n ≡ some (h', p)
      → blocks h' q ≡ blocks h q + one q (some p)
  pub serializes :
      (h h' : lib.Heap) (p n size q : ℕ)
      → lib.serialize_alloc h ≡ some (h', p, n, size)
      → blocks h' q ≡ blocks h q + one q (some p)
  pub frees :
      (h : lib.Heap) (p q : ℕ)
      → 0 < blocks h p
      → blocks (lib.free h p) q + one q (some p) ≡ blocks h q
  pub copies : (h : lib.Heap) (p r n q : ℕ) → blocks (lib.copy_to h p r n) q ≡ blocks h q

module _ (lib : Memory) (k : IsMemory lib) where
  -- Every block is held by an object, and by one only.
  abbrev pub IsBalanced : Objects lib → Type 0
  IsBalanced o = (q : ℕ) → total (held q) o.slots ≡ k.blocks o.heap q

  abbrev pub Has : ℕ → Buffer → Objects lib → Type 0
  Has i b o = get_elem? o.slots i ≡ some (some b)

  abbrev pub Balances : Ended lib → Type 0
  Balances (done (b, o)) = IsBalanced o
  Balances bad_alloc = ⊥
  Balances runtime_error = ⊥
  Balances fault = ⊥
  Balances exhausted = ⊥

  -- A null pointer with a size is not to be copied.
  abbrev pub IsWhole : Buffer → Type 0
  IsWhole b = b.buffer ≡ none → b.size ≡ 0

  pub construct-IsBalanced : (o : Objects lib) → IsBalanced o → Balances (construct lib o)
  unfolding construct
  construct-IsBalanced o w q =
      omega (arith, total-append (held q) o.slots (some default_buffer), w q)

  pub serialize-IsBalanced : (o : Objects lib) → IsBalanced o → Balances (serialize lib o)
  unfolding serialize
  serialize-IsBalanced o w = elim (Option-cases (lib.serialize_alloc o.heap)) [
    | inl e ↦ rw e w
    | inr ((h, p, n, size), e) ↦ rw e (λ q. omega (
      arith,
      total-append (held q) o.slots (some (record { size = size; capacity = n; buffer = some p })),
      w q,
      k.serializes o.heap h p n size q e,
    ))
  ]

  -- The copy of the bytes leaves the blocks as they are.
  copied_bytes-done :
      (source : Option ℕ) (size p : ℕ) (h : lib.Heap)
      → (source ≡ none → size ≡ 0)
      → (h' : lib.Heap) × (copied_bytes lib source size p h ≡ done h')
        × ((q : ℕ) → k.blocks h' q ≡ k.blocks h q)
  copied_bytes-done none size p h w = (h, rw (w refl) refl, λ q. refl)
  copied_bytes-done (some r) size p h w = (lib.copy_to h p r size, refl, λ q. k.copies h p r size q)

  pub copy-IsBalanced :
      (j : ℕ) (b : Buffer) (o : Objects lib)
      → Has j b o
      → IsWhole b
      → IsBalanced o
      → Balances (copy lib j o)
  unfolding copy buffer_at
  copy-IsBalanced j b o h whole w = elim (Option-cases (lib.malloc o.heap b.size)) [
    | inl e ↦ rw (h, e) w
    | inr ((heap, p), e) ↦
        let (heap', f, same) = copied_bytes-done b.buffer b.size p heap whole in
        rw (h, e, f)
          (λ q. omega (
            arith,
            total-append (held q) o.slots (some (allocated lib b.size p)),
            w q,
            k.allocates o.heap heap b.size p q e,
            same q,
          ))
  ]

  pub move-IsBalanced :
      (j : ℕ) (b : Buffer) (o : Objects lib) → Has j b o → IsBalanced o → Balances (move lib j o)
  unfolding move buffer_at
  move-IsBalanced j b o h w = rw h (λ q. omega (
    arith,
    total-append (held q) o.slots (some b),
    total-set (held q) (o.slots ++ some b ∷ []) j (some default_buffer) (some b)
        (get_elem?-append o.slots (some b ∷ []) j (some b) h),
    w q,
  ))

  pub one_self : (p : ℕ) → one p (some p) ≡ 1
  one_self p = rw ((==_iff p p).1 refl) refl

  held_alive :
      (i p : ℕ) (b : Buffer) (o : Objects lib)
      → Has i b o
      → IsBalanced o
      → b.buffer ≡ some p
      → 0 < k.blocks o.heap p
  held_alive i p b o h w e =
      omega (arith, total-get_elem? (held p) o.slots i (some b) h, ap (one p) e ∙ one_self p, w p)

  freed-blocks :
      (m : Option ℕ) (heap : lib.Heap) (q : ℕ)
      → ((p : ℕ) → m ≡ some p → 0 < k.blocks heap p)
      → k.blocks (freed lib m heap) q + one q m ≡ k.blocks heap q
  freed-blocks none heap q alive = omega arith
  freed-blocks (some p) heap q alive = k.frees heap p q (alive p refl)

  -- After the block of an object has been freed, its slot may be filled with what is allocated more.
  freed-balance :
      (i : ℕ) (b : Buffer) (o : Objects lib)
      → Has i b o
      → IsBalanced o
      → (q : ℕ) (x : Option Buffer)
      → total (held q) (set o.slots i x) ≡ k.blocks (freed lib b.buffer o.heap) q + held q x
  freed-balance i b o h w q x = omega (
    arith,
    total-set (held q) o.slots i x (some b) h,
    freed-blocks b.buffer o.heap q (λ p e. held_alive i p b o h w e),
    w q,
  )

  different : (i j : ℕ) → (j == i) ≡ false → i ≢ j
  different i j e = λ same. ground (arith, e, same)

  pub destroy-IsBalanced :
      (i : ℕ) (b : Buffer) (o : Objects lib) → Has i b o → IsBalanced o → Balances (destroy lib i o)
  unfolding destroy dtor_impl buffer_at
  destroy-IsBalanced i b o h w = rw h (λ q. omega (arith, freed-balance i b o h w q none))

  pub move_assign-IsBalanced :
      (i j : ℕ) (b c : Buffer) (o : Objects lib)
      → Has i b o
      → Has j c o
      → IsBalanced o
      → Balances (move_assign lib i j o)
  unfolding move_assign dtor_impl buffer_at
  move_assign-IsBalanced i j b c o h g w = elim (Bool-cases (j == i)) [
    | inl e ↦ rw e w
    | inr e ↦
        rw (e, h, g)
          (λ q. omega (
            arith,
            freed-balance i b o h w q (some c),
            total-set (held q) (set o.slots i (some c)) j (some default_buffer) (some c)
                (get_elem?-set_ne o.slots (some c) (different i j e) ∙ g),
          ))
  ]

  pub copy_assign-IsBalanced :
      (i j : ℕ) (b c : Buffer) (o : Objects lib)
      → Has i b o
      → Has j c o
      → IsWhole c
      → IsBalanced o
      → Balances (copy_assign lib i j o)
  unfolding copy_assign dtor_impl buffer_at
  copy_assign-IsBalanced i j b c o h g whole w = elim (Bool-cases (j == i)) [
    | inl e ↦ rw e w
    | inr e ↦
        let heap1 = freed lib b.buffer o.heap in
        elim (Option-cases (lib.malloc heap1 c.size)) [
          | inl z ↦
              rw (e, h, g, z)
                (λ q. omega (
                  arith,
                  freed-balance i b o h w q
                      (some (record { size = c.size; capacity = c.size; buffer = none })),
                ))
          | inr ((heap, p), z) ↦
              let (heap', f, same) = copied_bytes-done c.buffer c.size p heap whole in
              rw (e, h, g, z, f)
                (λ q. omega (
                  arith,
                  freed-balance i b o h w q (some (allocated lib c.size p)),
                  k.allocates heap1 heap c.size p q z,
                  same q,
                ))
        ]
  ]
