-- ===== src/Serialization/Cbor/Buffers/Trial.antt =====
-- Objects of class Buffer over a memory with two blocks for malloc.
use modern_cpp_hw.Prelude.{
  ℕ, suc, ◌+◌, ◌<◌, ◌≡◌, ◌∙◌, refl, sym, ap, List, [], ◌∷◌, Option, none, some, Bool, true, false,
  ◌==◌, ltb, ◌&&◌, Bool-cases, inl, inr, if◌then◌else◌, total, arith,
}
use modern_cpp_hw.Serialization.Result.{done}
use modern_cpp_hw.Serialization.Cbor.Ownership.Counting.{one}
use modern_cpp_hw.Serialization.Cbor.Buffers.{
  Memory, Objects, buffer_at, construct, serialize, copy, dtor_impl, copy_assign, move, move_assign,
  destroy, Operation, constructs, serializes, copies, copy_assigns, moves, move_assigns, destroys,
  operate, operate_all,
}
use modern_cpp_hw.Serialization.Cbor.Buffers.Owned.{held, IsMemory}
use modern_cpp_hw.Serialization.Cbor.Buffers.Life.{
  AreAllowed, AreApart, AreDestroyed, operate_all-AreApart,
}

-- The next address, and whether an address below it is in use.
abbrev Heap : Type 0
Heap = ℕ × (ℕ → Bool)

abbrev blocks : Heap → ℕ → ℕ
blocks h q = if ltb q h.0 && h.1 q then 1 else 0

abbrev more : Heap → Heap
more h = (suc h.0, λ q. if q == h.0 then true else h.1 q)

abbrev less : Heap → ℕ → Heap
less h p = (h.0, λ q. if q == p then false else h.1 q)

abbrev made : Heap → Heap × ℕ
made h = (more h, h.0)

abbrev small : Memory
small = record {
  Heap = Heap;
  malloc = λ h n. if ltb h.0 2 then some (made h) else none;
  free = less;
  copy_to = λ h p r n. h;
  serialize_alloc = λ h. some (more h, h.0, 8, 5);
}

more_blocks : (h : Heap) (q : ℕ) → blocks (more h) q ≡ blocks h q + one q (some h.0)
more_blocks h q = ground arith

less_blocks :
    (h : Heap) (p q : ℕ) → 0 < blocks h p → blocks (less h p) q + one q (some p) ≡ blocks h q
less_blocks h p q l = ground (arith, l)

made_blocks : (h h' : Heap) (p q : ℕ) → made h ≡ (h', p) → blocks h' q ≡ blocks h q + one q (some p)
made_blocks h h' p q e =
    sym (ap (λ (x : Heap × ℕ). blocks x.0 q) e)
    ∙ more_blocks h q
    ∙ ap (λ (x : Heap × ℕ). blocks h q + one q (some x.1)) e

malloc_blocks :
    (h h' : Heap) (n p q : ℕ)
    → small.malloc h n ≡ some (h', p)
    → blocks h' q ≡ blocks h q + one q (some p)
malloc_blocks h h' n p q e = elim (Bool-cases (ltb h.0 2)) [
  | inl z ↦ made_blocks h h' p q (some_made (rw z at e))
  | inr z ↦ absurd (none_made (rw z at e))
]
  where
    some_made : some (made h) ≡ some (h', p) → made h ≡ (h', p)
    some_made e = cc

    none_made : ◌≡◌ {A = Option (Heap × ℕ)} none (some (h', p)) → ⊥
    none_made e = cc

serialize_blocks :
    (h h' : Heap) (p n size q : ℕ)
    → small.serialize_alloc h ≡ some (h', p, n, size)
    → blocks h' q ≡ blocks h q + one q (some p)
serialize_blocks h h' p n size q e =
    let same : ◌≡◌ {A = Heap × ℕ × ℕ × ℕ} (more h, h.0, 8, 5) (h', p, n, size) = cc in
    made_blocks h h' p q (ap (λ (x : Heap × ℕ × ℕ × ℕ). (x.0, x.1)) same)

small-IsMemory : IsMemory small
small-IsMemory = record {
  blocks = blocks;
  at_most_one = λ h q. ground arith;
  allocates = malloc_blocks;
  serializes = serialize_blocks;
  frees = less_blocks;
  copies = λ h p r n q. refl;
}

abbrev nothing : Objects small
nothing = record { heap = (0, λ q. false); slots = [] }

-- The assignment finds no more memory.
abbrev life : List Operation
life =
    constructs
    ∷ serializes
    ∷ copies 1
    ∷ copy_assigns 0 1
    ∷ moves 2
    ∷ move_assigns 2 1
    ∷ destroys 0
    ∷ destroys 1
    ∷ destroys 2
    ∷ destroys 3
    ∷ []

life-AreAllowed : AreAllowed small small-IsMemory life nothing
unfolding operate construct serialize copy move copy_assign move_assign destroy dtor_impl buffer_at
life-AreAllowed = (
  tt,
  (
    tt,
    (
      (_, refl, λ e. cc),
      (
        (_, _, refl, refl, λ e. cc),
        ((_, refl), ((_, _, refl, refl), ((_, refl), ((_, refl), ((_, refl), ((_, refl), tt)))))),
      ),
    ),
  ),
)

buffers_example :
    (o' : Objects small) × (operate_all small life nothing ≡ done o')
    × AreApart small small-IsMemory o'
    × ((q : ℕ) → total (held q) o'.slots ≡ small-IsMemory.blocks o'.heap q)
    × (AreDestroyed small small-IsMemory o'.slots → (q : ℕ) → small-IsMemory.blocks o'.heap q ≡ 0)
unfolding small-IsMemory
buffers_example =
    operate_all-AreApart small small-IsMemory life nothing life-AreAllowed (λ q. ground arith)
