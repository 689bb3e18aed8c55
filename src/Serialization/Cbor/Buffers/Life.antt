-- ===== src/Serialization/Cbor/Buffers/Life.antt =====
-- The blocks of objects of class Buffer through any sequence of operations
-- (wrappers/include/cbor_wrapper.ipp).
use modern_cpp_hw.Prelude.{
  ℕ, zero, suc, ◌+◌, ◌≤◌, ◌≡◌, ◌≢◌, ◌∙◌, refl, ap, sym, List, [], ◌∷◌, Option, none, some, Bool,
  get_elem?, total, total-get_elem?, arith,
}
use modern_cpp_hw.Serialization.Result.{done, bad_alloc, runtime_error, fault, exhausted}
use modern_cpp_hw.Serialization.Cbor.Ownership.Counting.{one}
use modern_cpp_hw.Serialization.Cbor.Buffers.{
  Memory, Buffer, Objects, Ended, Operation, constructs, serializes, copies, copy_assigns, moves,
  move_assigns, destroys, operate, operate_all,
}
use modern_cpp_hw.Serialization.Cbor.Buffers.Owned.{
  held, IsMemory, IsBalanced, Has, Balances, IsWhole, one_self, construct-IsBalanced,
  serialize-IsBalanced, copy-IsBalanced, move-IsBalanced, destroy-IsBalanced,
  move_assign-IsBalanced, copy_assign-IsBalanced,
}

module _ (lib : Memory) (k : IsMemory lib) where
  -- The objects that an operation names exist, and what is copied is whole.
  abbrev pub IsAllowed : Operation → Objects lib → Type 0
  IsAllowed constructs o = Unit {0}
  IsAllowed serializes o = Unit {0}
  IsAllowed (copies j) o = (b : Buffer) × Has lib k j b o × IsWhole lib k b
  IsAllowed (copy_assigns i j) o =
      (b : Buffer) × (c : Buffer) × Has lib k i b o × Has lib k j c o × IsWhole lib k c
  IsAllowed (moves j) o = (b : Buffer) × Has lib k j b o
  IsAllowed (move_assigns i j) o = (b : Buffer) × (c : Buffer) × Has lib k i b o × Has lib k j c o
  IsAllowed (destroys i) o = (b : Buffer) × Has lib k i b o

  abbrev pub After : (Objects lib → Type 0) → Ended lib → Type 0
  After P (done (b, o)) = P o
  After P _ = Unit {0}

  -- Each operation is allowed when its turn comes.
  abbrev pub AreAllowed : List Operation → Objects lib → Type 0
  AreAllowed [] o = Unit {0}
  AreAllowed (op ∷ rest) o = IsAllowed op o × After (AreAllowed rest) (operate lib op o)

  operate-IsBalanced :
      (op : Operation) (o : Objects lib)
      → IsAllowed op o
      → IsBalanced lib k o
      → Balances lib k (operate lib op o)
  unfolding operate
  operate-IsBalanced constructs o a w = construct-IsBalanced lib k o w
  operate-IsBalanced serializes o a w = serialize-IsBalanced lib k o w
  operate-IsBalanced (copies j) o (b, h, whole) w = copy-IsBalanced lib k j b o h whole w
  operate-IsBalanced (copy_assigns i j) o (b, c, h, g, whole) w =
      copy_assign-IsBalanced lib k i j b c o h g whole w
  operate-IsBalanced (moves j) o (b, h) w = move-IsBalanced lib k j b o h w
  operate-IsBalanced (move_assigns i j) o (b, c, h, g) w =
      move_assign-IsBalanced lib k i j b c o h g w
  operate-IsBalanced (destroys i) o (b, h) w = destroy-IsBalanced lib k i b o h w

  Balances-cases :
      (r : Ended lib)
      → Balances lib k r
      → (b : Bool) × (o : Objects lib) × (r ≡ done (b, o)) × IsBalanced lib k o
  Balances-cases (done (b, o)) w = (b, o, refl, w)
  Balances-cases bad_alloc w = absurd w
  Balances-cases runtime_error w = absurd w
  Balances-cases fault w = absurd w
  Balances-cases exhausted w = absurd w

  total-two :
      (f : Option Buffer → ℕ) (slots : List (Option Buffer)) (i j : ℕ) (x y : Option Buffer)
      → get_elem? slots i ≡ some x
      → get_elem? slots j ≡ some y
      → i ≢ j
      → f x + f y ≤ total f slots
  total-two f [] i j x y e g d = cc
  total-two f (s ∷ rest) zero zero x y e g d = absurd (d refl)
  total-two f (s ∷ rest) zero (suc j) x y e g d =
      let same : s ≡ x = cc in omega (arith, ap f same, total-get_elem? f rest j y g)
  total-two f (s ∷ rest) (suc i) zero x y e g d =
      let same : s ≡ y = cc in omega (arith, ap f same, total-get_elem? f rest i x e)
  total-two f (s ∷ rest) (suc i) (suc j) x y e g d =
      omega (arith, total-two f rest i j x y e g (λ z. d (ap suc z)))

  -- No two objects have the same block.
  abbrev pub AreApart : Objects lib → Type 0
  AreApart o =
      (i j p : ℕ) (b c : Buffer)
      → Has lib k i b o
      → Has lib k j c o
      → b.buffer ≡ some p
      → c.buffer ≡ some p
      → ¬ (i ≢ j)

  balanced-AreApart : (o : Objects lib) → IsBalanced lib k o → AreApart o
  balanced-AreApart o w i j p b c h g e f = λ d.
      let (m, n) : (one p b.buffer ≡ 1) × (one p c.buffer ≡ 1) =
        (ap (one p) e ∙ one_self lib k p, ap (one p) f ∙ one_self lib k p) in
      omega (
        arith,
        total-two (held p) o.slots i j (some b) (some c) h g d,
        m,
        n,
        w p,
        k.at_most_one o.heap p,
      )

  abbrev pub AreDestroyed : List (Option Buffer) → Type 0
  AreDestroyed [] = Unit {0}
  AreDestroyed (s ∷ rest) = (s ≡ none) × AreDestroyed rest

  nothing_held :
      (slots : List (Option Buffer)) (q : ℕ) → AreDestroyed slots → total (held q) slots ≡ 0
  nothing_held [] q d = refl
  nothing_held (s ∷ rest) q (e, d) = omega (arith, ap (held q) e, nothing_held rest q d)

  -- With memory as it is documented, from objects of Buffer that hold all blocks, operations on objects that
  -- exist, of which none copies a null pointer with a size, come to their end, also where one of them
  -- throws; then no two objects have the same block, every block is held by an object, and none is
  -- left once all objects are destroyed.
  pub operate_all-AreApart :
      (ops : List Operation) (o : Objects lib)
      → AreAllowed ops o
      → IsBalanced lib k o
      → (o' : Objects lib) × (operate_all lib ops o ≡ done o')
        × AreApart o'
        × ((q : ℕ) → total (held q) o'.slots ≡ k.blocks o'.heap q)
        × (AreDestroyed o'.slots → (q : ℕ) → k.blocks o'.heap q ≡ 0)
  unfolding operate_all
  operate_all-AreApart [] o a w =
      (o, refl, balanced-AreApart o w, w, λ d q. sym (w q) ∙ nothing_held o.slots q d)
  operate_all-AreApart (op ∷ rest) o (a, later) w =
      let (b, o1, e, w1) = Balances-cases (operate lib op o) (operate-IsBalanced op o a w) in
      rw e (operate_all-AreApart rest o1 (rw e at later) w1)
