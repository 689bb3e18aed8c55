-- ===== src/Serialization/Bson/Index.antt =====
-- The decimal index of an array's element (HW1_BSON_DECLARE_STRING_INDEX of
-- wrappers/include/bson_wrapper.hpp).
use modern_cpp_hw.Prelude.{
  ℕ, zero, suc, ◌+◌, ◌/◌, ◌%◌, ◌^◌, ◌<◌, ◌≡◌, ◌∙◌, refl, ap, sym, List, [], ◌∷◌, ◌++◌, true, Option,
  none, some, arith, Bool-cases, Option-cases, inl, inr, ltb, length, length-append, value_from,
  value_from-append, pow10, ◌≤◌,
}
use modern_cpp_hw.Serialization.Result.{done, fault, or_fault}
use modern_cpp_hw.Serialization.Bson.{to_chars, string_index}

single_digit :
    (k n : ℕ)
    → ltb n 10 ≡ true
    → (s : List ℕ) × (to_chars (suc k) n ≡ some s) × (value_from 0 s ≡ n)
unfolding to_chars
single_digit k n y = ((n + 48) ∷ [], rw y refl, omega arith)

to_chars_fits :
    (k n : ℕ)
    → n < pow10 (suc k)
    → (s : List ℕ) × (to_chars (suc k) n ≡ some s) × (value_from 0 s ≡ n)
unfolding to_chars
to_chars_fits zero n l = single_digit zero n (ground (arith, l))
to_chars_fits (suc k) n l = elim (Bool-cases (ltb n 10)) [
  | inl y ↦ single_digit (suc k) n y
  | inr y ↦
      let (s, e, v) = to_chars_fits k (n / 10) (omega (arith, l)) in
      (
        s ++ (n % 10 + 48) ∷ [],
        rw y (ap (λ o. pushed o) e),
        value_from-append 0 s (n % 10 + 48) ∙ omega (arith, v),
      )
]
  where
    pushed : Option (List ℕ) → Option (List ℕ)
    pushed o = elim o [ none ↦ none | some s ↦ some (s ++ (n % 10 + 48) ∷ []) ]

to_chars-length : (k n : ℕ) (s : List ℕ) → to_chars k n ≡ some s → length s ≤ k
unfolding to_chars
to_chars-length zero n s e = cc
to_chars-length (suc k) n s e = elim (Bool-cases (ltb n 10)) [
  | inl y ↦ one_digit (rw y at e)
  | inr y ↦ elim (Option-cases (to_chars k (n / 10))) [
    | inl z ↦ absurd (no_digits (rw (y, z) at e))
    | inr (t, z) ↦ omega (arith, more t (to_chars-length k (n / 10) t z) (rw (y, z) at e))
  ]
]
  where
    one_digit : some ((n + 48) ∷ []) ≡ some s → length s ≤ suc k
    one_digit e = ground arith

    no_digits : none ≡ some s → ⊥
    no_digits e = cc

    more : (t : List ℕ) → length t ≤ k → some (t ++ (n % 10 + 48) ∷ []) ≡ some s → length s ≤ suc k
    more t l e = ground (arith, length-append t ((n % 10 + 48) ∷ []))

pub string_index-length : (n : ℕ) (s : List ℕ) → string_index n ≡ done s → length s ≤ 11
unfolding string_index
string_index-length n s e = elim (Option-cases (to_chars 11 n)) [
  | inl z ↦ absurd (failed (rw z at e))
  | inr (t, z) ↦ to_chars-length 11 n s (z ∙ ap some (same t (rw z at e)))
]
  where
    failed : fault ≡ done s → ⊥
    failed e = cc

    same : (t : List ℕ) → done t ≡ done s → t ≡ s
    same t e = cc

-- Every index has digits, which fit the eleven chars, and stand for the index.
pub string_index-value :
    (n : ℕ) → n < 2 ^ 32 → (s : List ℕ) × (string_index n ≡ done s) × (value_from 0 s ≡ n)
unfolding string_index
string_index-value n l =
    let (s, e, v) = to_chars_fits 10 n (omega (arith, l)) in (s, ap or_fault e, v)

-- Each of the 2^32 indices gets a key, the eleven chars being enough, and no two get the same.
pub string_index_injective :
    (m n : ℕ)
    → m < 2 ^ 32
    → n < 2 ^ 32
    → (s t : List ℕ) × (string_index m ≡ done s) × (string_index n ≡ done t) × (s ≡ t → m ≡ n)
string_index_injective m n l k =
    let (s, e, v) = string_index-value m l in
    let (t, f, w) = string_index-value n k in (s, t, e, f, λ h. sym v ∙ ap (value_from 0) h ∙ w)
