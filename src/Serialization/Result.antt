-- ===== src/Serialization/Result.antt =====
-- How a function of hw1-binary-serialization ends: by its return, by std::bad_alloc or by
-- std::runtime_error, or by an assertion that fails or what else C++ leaves undefined.
use modern_cpp_hw.Prelude.{Bool, true, false, Option, none, some}

pub data Result {ℓ} (A : Type ℓ) : Type ℓ where
  done : A → Result A
  bad_alloc : Result A
  runtime_error : Result A
  fault : Result A
  -- the bound on the rounds of a loop was too small
  exhausted : Result A

infixl 5 ◌>>=◌ ◌>>◌
abbrev pub ◌>>=◌ {ℓ κ} : {A : Type ℓ} {B : Type κ} → Result A → (A → Result B) → Result B
done a >>= f = f a
bad_alloc >>= f = bad_alloc
runtime_error >>= f = runtime_error
fault >>= f = fault
exhausted >>= f = exhausted

abbrev pub ◌>>◌ {ℓ} : {B : Type ℓ} → Result (Unit {0}) → Result B → Result B
m >> k = m >>= λ _. k

-- assert(b)
abbrev pub assert : Bool → Result (Unit {0})
assert true = done tt
assert false = fault

-- What a library answers with a null pointer, checked by the code.
abbrev pub or_bad_alloc {ℓ} : {A : Type ℓ} → Option A → Result A
or_bad_alloc none = bad_alloc
or_bad_alloc (some a) = done a

-- What a library answers with `false`, checked by the code.
abbrev pub or_runtime_error {ℓ} : {A : Type ℓ} → Option A → Result A
or_runtime_error none = runtime_error
or_runtime_error (some a) = done a

-- An access at an index, outside of the array a fault.
abbrev pub or_fault {ℓ} : {A : Type ℓ} → Option A → Result A
or_fault none = fault
or_fault (some a) = done a
