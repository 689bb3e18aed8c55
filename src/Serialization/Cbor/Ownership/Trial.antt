-- ===== src/Serialization/Cbor/Ownership/Trial.antt =====
-- Objects of class Item over a heap that counts the references to each item.
use modern_cpp_hw.Prelude.{
  ℕ, suc, ◌+◌, ◌-◌, ◌<◌, ◌≡◌, ◌∙◌, refl, sym, ap, List, [], ◌∷◌, none, some, ◌==◌, ==_iff,
  Bool-cases, inl, inr, ◌⊎◌, if◌then◌else◌, arith,
}
use modern_cpp_hw.Serialization.Result.{done, bad_alloc}
use modern_cpp_hw.Serialization.Cbor.Ownership.{
  References, Objects, Operation, built, copied, copy_assigned, moved, move_assigned, ended,
  operate, operate_all, item_at, item_of_pointer, incref, dtor_impl, build, copy, copy_assign, move,
  move_assign, destroy,
}
use modern_cpp_hw.Serialization.Cbor.Ownership.Counting.{
  one, IsCounted, AreAllowed, IsBalanced, AreDestroyed, operate_all-IsBalanced,
}

-- The next item, and the number of references to each.
abbrev Heap : Type 0
Heap = ℕ × (ℕ → ℕ)

abbrev more : Heap → ℕ → Heap
more h p = (h.0, λ q. h.1 q + one q (some p))

abbrev less : Heap → ℕ → Heap
less h p = (h.0, λ q. h.1 q - one q (some p))

abbrev made : Heap → Heap × ℕ
made h = ((suc h.0, λ q. h.1 q + one q (some h.0)), h.0)

abbrev counting : References
counting = record {
  Heap = Heap;
  build = λ h. some (made h);
  incref = more;
  decref = λ h p. (less h p, if h.1 p == 1 then none else some p);
}

less_one : (h : Heap) (p q : ℕ) → 0 < h.1 p → (h.1 q - one q (some p)) + one q (some p) ≡ h.1 q
less_one h p q l = elim (Bool-cases (q == p)) [
  | inl e ↦ let same = (==_iff q p).0 e in rw e (omega (arith, l, ap h.1 same))
  | inr e ↦ rw e (omega arith)
]

builds_counted :
    (h h' : Heap) (p q : ℕ) → counting.build h ≡ some (h', p) → h'.1 q ≡ h.1 q + one q (some p)
builds_counted h h' p q e =
    let same : made h ≡ (h', p) = cc in
    sym (ap (λ (x : Heap × ℕ). x.0.1 q) same) ∙ ap (λ (x : Heap × ℕ). h.1 q + one q (some x.1)) same

counting-IsCounted : IsCounted counting
counting-IsCounted = record {
  owned = λ h q. h.1 q;
  builds = builds_counted;
  increments = λ h p q l. refl;
  decrements = less_one;
}

abbrev nothing : Objects counting
nothing = record { heap = (0, λ q. 0); slots = [] }

-- Three objects, and an item of which all references go.
abbrev life : List Operation
life =
    built
    ∷ copied 0
    ∷ moved 1
    ∷ copy_assigned 1 2
    ∷ move_assigned 0 2
    ∷ ended 0
    ∷ ended 1
    ∷ ended 2
    ∷ []

life-AreAllowed : AreAllowed counting counting-IsCounted life nothing
unfolding operate build copy move copy_assign move_assign destroy item_at item_of_pointer incref
    dtor_impl
life-AreAllowed = (
  tt,
  (
    (0, refl),
    (
      (some 0, refl),
      (
        (none, 0, refl, refl),
        ((some 0, some 0, refl, refl), ((some 0, refl), ((some 0, refl), ((none, refl), tt)))),
      ),
    ),
  ),
)

ownership_example :
    ((o' : Objects counting) × (operate_all counting life nothing ≡ done o')
      × IsBalanced counting counting-IsCounted o'
      × (AreDestroyed counting counting-IsCounted o'.slots
          → (q : ℕ) → counting-IsCounted.owned o'.heap q ≡ 0))
    ⊎ (operate_all counting life nothing ≡ bad_alloc)
unfolding counting-IsCounted
ownership_example =
    operate_all-IsBalanced counting counting-IsCounted life nothing life-AreAllowed (λ q. refl)
