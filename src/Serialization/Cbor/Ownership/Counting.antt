-- ===== src/Serialization/Cbor/Ownership/Counting.antt =====
-- The references that objects of class Item hold (wrappers/include/cbor_wrapper.ipp).
use modern_cpp_hw.Prelude.{
  ℕ, ◌+◌, ◌<◌, ◌≡◌, ◌≢◌, ◌∙◌, refl, ap, sym, List, [], ◌∷◌, ◌++◌, Option, none, some, false, ◌==◌,
  ==_iff, Bool-cases, Option-cases, inl, inr, ◌⊎◌, if◌then◌else◌, get_elem?, set, total,
  total-append, total-set, total-get_elem?, get_elem?-length, get_elem?-append, get_elem?-set_self,
  get_elem?-set_ne, arith,
}
use modern_cpp_hw.Serialization.Result.{Result, done, bad_alloc}
use modern_cpp_hw.Serialization.Unless.{no_memory, Unless, Unless-no_memory}
use modern_cpp_hw.Serialization.Cbor.Ownership.{
  References, Slot, destroyed, holding, Objects, item_at, incref, item_of_pointer, release,
  dtor_impl, copy, copy_assign, move, move_assign, destroy, build, Operation, built, copied,
  copy_assigned, moved, move_assigned, ended, operate, operate_all,
}

-- One, if the pointer is this one.
abbrev pub one : ℕ → Option ℕ → ℕ
one q none = 0
one q (some p) = if q == p then 1 else 0

abbrev pub held : ℕ → Slot → ℕ
held q destroyed = 0
held q (holding m) = one q m

-- How many objects hold the pointer.
abbrev pub count : ℕ → List Slot → ℕ
count q slots = total (held q) slots

count-one :
    (i : ℕ) (slots : List Slot) (p : ℕ)
    → get_elem? slots i ≡ some (holding (some p))
    → 0 < count p slots
count-one i slots p e =
    let here : held p (holding (some p)) ≡ 1 = rw ((==_iff p p).1 refl) refl in
    omega (arith, here, total-get_elem? (held p) slots i (holding (some p)) e)

-- What the code relies on of libcbor: `owned` counts the references to an item that no array holds.
pub record IsCounted (lib : References) : Type 0 where
  pub owned : lib.Heap → ℕ → ℕ
  pub builds :
      (h h' : lib.Heap) (p q : ℕ)
      → lib.build h ≡ some (h', p)
      → owned h' q ≡ owned h q + one q (some p)
  pub increments :
      (h : lib.Heap) (p q : ℕ)
      → 0 < owned h p
      → owned (lib.incref h p) q ≡ owned h q + one q (some p)
  pub decrements :
      (h : lib.Heap) (p q : ℕ)
      → 0 < owned h p
      → owned (lib.decref h p).0 q + one q (some p) ≡ owned h q

different : (i j : ℕ) → (j == i) ≡ false → i ≢ j
different i j e = λ same. ground (arith, e, same)

module _ (lib : References) (k : IsCounted lib) where
  -- Every item has as many references of its own as objects hold it.
  abbrev pub IsBalanced : Objects lib → Type 0
  IsBalanced o = (q : ℕ) → count q o.slots ≡ k.owned o.heap q

  -- The object exists, and holds this.
  abbrev pub Has : ℕ → Option ℕ → Objects lib → Type 0
  Has i m o = get_elem? o.slots i ≡ some (holding m)

  abbrev Balances : Result (Objects lib) → Type 0
  Balances r = Unless no_memory IsBalanced r

  copy-IsBalanced :
      (j p : ℕ) (o : Objects lib) → Has j (some p) o → IsBalanced o → Balances (copy lib j o)
  unfolding copy item_at incref item_of_pointer
  copy-IsBalanced j p o h b = rw h (λ q. omega (
    arith,
    total-append (held q) o.slots (holding (some p)),
    b q,
    k.increments o.heap p q (omega (arith, count-one j o.slots p h, b p)),
  ))

  move-IsBalanced :
      (j : ℕ) (m : Option ℕ) (o : Objects lib) → Has j m o → IsBalanced o → Balances (move lib j o)
  unfolding move item_at item_of_pointer
  move-IsBalanced j m o h b = rw h (λ q. omega (
    arith,
    total-append (held q) o.slots (holding m),
    total-set (held q) (o.slots ++ holding m ∷ []) j (holding none) (holding m)
        (get_elem?-append o.slots (holding m ∷ []) j (holding m) h),
    b q,
  ))

  build-IsBalanced : (o : Objects lib) → IsBalanced o → Balances (build lib o)
  unfolding build item_of_pointer
  build-IsBalanced o b = elim (Option-cases (lib.build o.heap)) [
    | inl e ↦ rw e tt
    | inr ((h, p), e) ↦ rw e (λ q.
        omega
          (arith, total-append (held q) o.slots (holding (some p)), b q, k.builds o.heap h p q e))
  ]

  -- After the reference of an object has been released, its slot may be filled with what is owned more.
  release-balance :
      (i : ℕ) (m : Option ℕ) (o : Objects lib)
      → Has i m o
      → IsBalanced o
      → (q : ℕ) (x : Slot)
      → count q (set (release lib i m o).slots i x) ≡ k.owned (release lib i m o).heap q + held q x
  release-balance i none o h b q x =
      omega (arith, total-set (held q) o.slots i x (holding none) h, b q)
  release-balance i (some p) o h b q x =
      let y = holding (lib.decref o.heap p).1 in
      omega (
        arith,
        total-set (held q) (set o.slots i y) i x y
            (get_elem?-set_self o.slots i y (get_elem?-length o.slots i (holding (some p)) h)),
        total-set (held q) o.slots i y (holding (some p)) h,
        k.decrements o.heap p q (omega (arith, count-one i o.slots p h, b p)),
        b q,
      )

  release-Has :
      (i j : ℕ) (m n : Option ℕ) (o : Objects lib) → i ≢ j → Has j n o → Has j n (release lib i m o)
  release-Has i j none n o d h = h
  release-Has i j (some p) n o d h = get_elem?-set_ne o.slots _ d ∙ h

  destroy-IsBalanced :
      (i : ℕ) (m : Option ℕ) (o : Objects lib)
      → Has i m o
      → IsBalanced o
      → Balances (destroy lib i o)
  unfolding destroy dtor_impl item_at
  destroy-IsBalanced i m o h b = rw h (λ q. omega (arith, release-balance i m o h b q destroyed))

  move_assign-IsBalanced :
      (i j : ℕ) (m n : Option ℕ) (o : Objects lib)
      → Has i m o
      → Has j n o
      → IsBalanced o
      → Balances (move_assign lib i j o)
  unfolding move_assign dtor_impl item_at
  move_assign-IsBalanced i j m n o h g b = elim (Bool-cases (j == i)) [
    | inl e ↦ rw e b
    | inr e ↦
        let apart = different i j e in
        let still = release-Has i j m n o apart g in
        rw (e, h, still)
          (λ q. omega (
            arith,
            release-balance i m o h b q (holding n),
            total-set (held q) (set (release lib i m o).slots i (holding n)) j (holding none)
                (holding n) (get_elem?-set_ne (release lib i m o).slots (holding n) apart ∙ still),
          ))
  ]

  copy_assign-IsBalanced :
      (i j : ℕ) (m : Option ℕ) (p : ℕ) (o : Objects lib)
      → Has i m o
      → Has j (some p) o
      → IsBalanced o
      → Balances (copy_assign lib i j o)
  unfolding copy_assign dtor_impl item_at incref
  copy_assign-IsBalanced i j m p o h g b = elim (Bool-cases (j == i)) [
    | inl e ↦ rw e b
    | inr e ↦
        let apart = different i j e in
        let o1 = release lib i m o in
        let still = release-Has i j m (some p) o apart g in
        let held_still =
          count-one j (set o1.slots i destroyed) p
            (get_elem?-set_ne o1.slots destroyed apart ∙ still) in
        let alive : 0 < k.owned o1.heap p =
          omega (arith, held_still, release-balance i m o h b p destroyed) in
        rw (e, h, still)
          (λ q.
            omega (
              arith,
              release-balance i m o h b q (holding (some p)),
              k.increments o1.heap p q alive,
            ))
  ]

  -- The objects that an operation names exist, and what is copied is not null.
  abbrev pub IsAllowed : Operation → Objects lib → Type 0
  IsAllowed built o = Unit {0}
  IsAllowed (copied j) o = (p : ℕ) × Has j (some p) o
  IsAllowed (copy_assigned i j) o = (m : Option ℕ) × (p : ℕ) × Has i m o × Has j (some p) o
  IsAllowed (moved j) o = (m : Option ℕ) × Has j m o
  IsAllowed (move_assigned i j) o = (m : Option ℕ) × (n : Option ℕ) × Has i m o × Has j n o
  IsAllowed (ended i) o = (m : Option ℕ) × Has i m o

  abbrev pub After : (Objects lib → Type 0) → Result (Objects lib) → Type 0
  After P (done o) = P o
  After P _ = Unit {0}

  -- Each operation is allowed when its turn comes.
  abbrev pub AreAllowed : List Operation → Objects lib → Type 0
  AreAllowed [] o = Unit {0}
  AreAllowed (op ∷ rest) o = IsAllowed op o × After (AreAllowed rest) (operate lib op o)

  operate-IsBalanced :
      (op : Operation) (o : Objects lib)
      → IsAllowed op o
      → IsBalanced o
      → Balances (operate lib op o)
  unfolding operate
  operate-IsBalanced built o a b = build-IsBalanced o b
  operate-IsBalanced (copied j) o (p, h) b = copy-IsBalanced j p o h b
  operate-IsBalanced (copy_assigned i j) o (m, p, h, g) b = copy_assign-IsBalanced i j m p o h g b
  operate-IsBalanced (moved j) o (m, h) b = move-IsBalanced j m o h b
  operate-IsBalanced (move_assigned i j) o (m, n, h, g) b = move_assign-IsBalanced i j m n o h g b
  operate-IsBalanced (ended i) o (m, h) b = destroy-IsBalanced i m o h b

  abbrev pub AreDestroyed : List Slot → Type 0
  AreDestroyed [] = Unit {0}
  AreDestroyed (s ∷ rest) = (s ≡ destroyed) × AreDestroyed rest

  nothing_held : (slots : List Slot) (q : ℕ) → AreDestroyed slots → count q slots ≡ 0
  nothing_held [] q d = refl
  nothing_held (s ∷ rest) q (e, d) = omega (arith, ap (held q) e, nothing_held rest q d)

  -- With libcbor as it is documented, from objects of Item that hold all the references, operations on
  -- objects that exist, of which none copies a null pointer, end in one of two ways: they return, each item
  -- having as many references as objects hold it, and none once all objects are destroyed; or they end
  -- in std::bad_alloc.
  pub operate_all-IsBalanced :
      (ops : List Operation) (o : Objects lib)
      → AreAllowed ops o
      → IsBalanced o
      → ((o' : Objects lib) × (operate_all lib ops o ≡ done o')
          × IsBalanced o'
          × (AreDestroyed o'.slots → (q : ℕ) → k.owned o'.heap q ≡ 0))
        ⊎ (operate_all lib ops o ≡ bad_alloc)
  unfolding operate_all
  operate_all-IsBalanced [] o a b = inl (o, refl, b, λ d q. sym (b q) ∙ nothing_held o.slots q d)
  operate_all-IsBalanced (op ∷ rest) o (a, later) b =
      elim (Unless-no_memory IsBalanced (operate lib op o) (operate-IsBalanced op o a b)) [
        | inl (o1, e, b1) ↦ rw e (operate_all-IsBalanced rest o1 (rw e at later) b1)
        | inr e ↦ inr (rw e refl)
      ]
