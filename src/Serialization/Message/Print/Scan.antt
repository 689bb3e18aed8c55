-- ===== src/Serialization/Message/Print/Scan.antt =====
-- hw1-binary-serialization: characters of a printed message, found from the front and from the end
-- (message/src/message.cpp).
use modern_cpp_hw.Prelude.{
  ℕ, ◌≡◌, refl, List, [], ◌∷◌, ◌++◌, Bool, true, false, if◌then◌else◌, ◌==◌, ◌||◌, arith,
}

-- What stands before the first such character, and behind it.
abbrev pub before : ℕ → List ℕ → List ℕ
before c [] = []
before c (x ∷ xs) = let rest = before c xs in if x == c then [] else x ∷ rest

abbrev pub behind : ℕ → List ℕ → List ℕ
behind c [] = []
behind c (x ∷ xs) = let rest = behind c xs in if x == c then xs else rest

abbrev pub has : ℕ → List ℕ → Bool
has c [] = false
has c (x ∷ xs) = (x == c) || has c xs

-- The same for the last one.
abbrev pub before_last : ℕ → List ℕ → List ℕ
before_last c [] = []
before_last c (x ∷ xs) = let rest = before_last c xs in if has c xs then x ∷ rest else []

abbrev pub behind_last : ℕ → List ℕ → List ℕ
behind_last c [] = []
behind_last c (x ∷ xs) = let rest = behind_last c xs in if has c xs then rest else xs

pub before-append : (c : ℕ) (xs ys : List ℕ) → has c xs ≡ false → before c (xs ++ c ∷ ys) ≡ xs
before-append c [] ys e = ground arith
before-append c (x ∷ xs) ys e = ground (arith, before-append c xs ys)

pub behind-append : (c : ℕ) (xs ys : List ℕ) → has c xs ≡ false → behind c (xs ++ c ∷ ys) ≡ ys
behind-append c [] ys e = ground arith
behind-append c (x ∷ xs) ys e = ground (arith, behind-append c xs ys)

pub has-append : (c : ℕ) (xs ys : List ℕ) → has c (xs ++ ys) ≡ (has c xs || has c ys)
has-append c [] ys = refl
has-append c (x ∷ xs) ys = ground (arith, has-append c xs ys)

has-here : (c : ℕ) (xs ys : List ℕ) → has c (xs ++ c ∷ ys) ≡ true
has-here c [] ys = ground arith
has-here c (x ∷ xs) ys = ground (arith, has-here c xs ys)

pub before_last-append :
    (c : ℕ) (xs ys : List ℕ) → has c ys ≡ false → before_last c (xs ++ c ∷ ys) ≡ xs
before_last-append c [] ys e = ground arith
before_last-append c (x ∷ xs) ys e = ground (arith, before_last-append c xs ys e, has-here c xs ys)

pub behind_last-append :
    (c : ℕ) (xs ys : List ℕ) → has c ys ≡ false → behind_last c (xs ++ c ∷ ys) ≡ ys
behind_last-append c [] ys e = ground arith
behind_last-append c (x ∷ xs) ys e = ground (arith, behind_last-append c xs ys e, has-here c xs ys)
