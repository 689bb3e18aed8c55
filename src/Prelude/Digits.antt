-- ===== src/Prelude/Digits.antt =====
-- Numbers in decimal digits.
use Prim.Native.Nat.{ℕ, zero, suc, ◌+◌, ◌-◌, ◌*◌}
use mathlib.Core.Path.{◌≡◌, refl}
use mathlib.Core.List.{List, [], ◌∷◌, ◌++◌}

-- The number that decimal digits stand for, after a number `acc`.
abbrev pub value_from : ℕ → List ℕ → ℕ
value_from acc [] = acc
value_from acc (c ∷ s) = value_from (acc * 10 + (c - 48)) s

pub value_from-append :
    (acc : ℕ) (s : List ℕ) (c : ℕ) → value_from acc (s ++ c ∷ []) ≡ value_from acc s * 10 + (c - 48)
value_from-append acc [] c = refl
value_from-append acc (x ∷ s) c = value_from-append (acc * 10 + (x - 48)) s c

abbrev pub pow10 : ℕ → ℕ
pow10 zero = 1
pow10 (suc k) = 10 * pow10 k
