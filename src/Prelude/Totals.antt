-- ===== src/Prelude/Totals.antt =====
-- Sums over a list of objects, of which one is replaced or one more is made.
use Prim.Native.Nat.{ℕ, zero, suc, ◌+◌, ◌≤◌, ◌<◌}
use mathlib.Core.Path.{◌≡◌, ap}
use mathlib.Core.Option.{some}
use mathlib.Core.List.{List, [], ◌∷◌, ◌++◌}
use native.Mathlib.Omega.{arith}
use modern_cpp_hw.Prelude.Lists.{length, get_elem?, set}

module _ {ℓ} {A : Type ℓ} where
  abbrev pub total : (A → ℕ) → List A → ℕ
  total f [] = 0
  total f (x ∷ xs) = f x + total f xs

  pub total-append : (f : A → ℕ) (xs : List A) (x : A) → total f (xs ++ x ∷ []) ≡ total f xs + f x
  total-append f [] x = omega arith
  total-append f (y ∷ xs) x = omega (arith, total-append f xs x)

  pub total-set :
      (f : A → ℕ) (xs : List A) (i : ℕ) (x old : A)
      → get_elem? xs i ≡ some old
      → total f (set xs i x) + f old ≡ total f xs + f x
  total-set f [] i x old e = cc
  total-set f (y ∷ xs) zero x old e = let same : y ≡ old = cc in omega (arith, ap f same)
  total-set f (y ∷ xs) (suc i) x old e = omega (arith, total-set f xs i x old e)

  pub total-get_elem? :
      (f : A → ℕ) (xs : List A) (i : ℕ) (x : A) → get_elem? xs i ≡ some x → f x ≤ total f xs
  total-get_elem? f [] i x e = cc
  total-get_elem? f (y ∷ xs) zero x e = let same : y ≡ x = cc in omega (arith, ap f same)
  total-get_elem? f (y ∷ xs) (suc i) x e = omega (arith, total-get_elem? f xs i x e)

  pub get_elem?-length : (xs : List A) (i : ℕ) (x : A) → get_elem? xs i ≡ some x → i < length xs
  get_elem?-length [] i x e = cc
  get_elem?-length (y ∷ xs) zero x e = omega arith
  get_elem?-length (y ∷ xs) (suc i) x e = omega (arith, get_elem?-length xs i x e)

  pub get_elem?-append :
      (xs ys : List A) (i : ℕ) (x : A) → get_elem? xs i ≡ some x → get_elem? (xs ++ ys) i ≡ some x
  get_elem?-append [] ys i x e = cc
  get_elem?-append (y ∷ xs) ys zero x e = e
  get_elem?-append (y ∷ xs) ys (suc i) x e = get_elem?-append xs ys i x e
