-- ===== src/Socks/Outcome.antt =====
-- How a member function of the server ends: by its return, by an exception that leaves it, by
-- `std::exit`, or by an assertion or another access that C++ leaves undefined.
use modern_cpp_hw.Prelude.{ℕ, ◌≡◌, ◌≢◌, refl}

pub data Outcome {ℓ} (A : Type ℓ) : Type ℓ where
  done : A → Outcome A
  -- syscall_wrapper::Error with this error_code
  thrown : ℕ → Outcome A
  -- std::exit(EXIT_FAILURE)
  exited : Outcome A
  -- a failed assert, a null pointer, an index out of range
  fault : Outcome A
  -- the bound on the depth of calls was too small
  exhausted : Outcome A

infixl 5 ◌>>=◌
abbrev pub ◌>>=◌ {ℓ κ} : {A : Type ℓ} {B : Type κ} → Outcome A → (A → Outcome B) → Outcome B
done a >>= f = f a
thrown e >>= f = thrown e
exited >>= f = exited
fault >>= f = fault
exhausted >>= f = exhausted

-- A call that the bound on the depth did not cut short.
abbrev pub Ends {ℓ} : {A : Type ℓ} → Outcome A → Type ℓ
Ends r = r ≢ exhausted

pub bind-Ends {ℓ κ} :
    {A : Type ℓ} {B : Type κ} (r : Outcome A) (f : A → Outcome B)
    → Ends r
    → ((a : A) → Ends (f a))
    → Ends (r >>= f)
bind-Ends (done a) f e h = h a
bind-Ends (thrown c) f e h = λ p. cc
bind-Ends exited f e h = λ p. cc
bind-Ends fault f e h = λ p. cc
bind-Ends exhausted f e h = absurd (e refl)

pub bind-eq-done {ℓ κ} :
    {A : Type ℓ} {B : Type κ} (r : Outcome A) (f : A → Outcome B) {b : B}
    → (r >>= f) ≡ done b
    → (a : A) × (r ≡ done a) × (f a ≡ done b)
bind-eq-done (done a) f h = (a, refl, h)
bind-eq-done (thrown c) f h = cc
bind-eq-done exited f h = cc
bind-eq-done fault f h = cc
bind-eq-done exhausted f h = cc
