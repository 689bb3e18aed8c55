-- ===== src/Serialization/Unless.antt =====
-- What a function of hw1-binary-serialization does where its library may fail in one way.
use modern_cpp_hw.Prelude.{◌≡◌, refl, ◌⊎◌, inl, inr}
use modern_cpp_hw.Serialization.Result.{
  Result, done, bad_alloc, runtime_error, fault, exhausted, ◌>>=◌,
}

-- Memory runs out, or the library refuses; in the second case a fault is allowed with what has led to it.
pub data Failure : Type 1 where
  no_memory : Failure
  refused : Type 0 → Failure

-- The result holds what `P` says, or the library has failed.
abbrev pub Unless : {A : Type 0} → Failure → (A → Type 0) → Result A → Type 0
Unless f P (done a) = P a
Unless no_memory P bad_alloc = Unit {0}
Unless (refused F) P bad_alloc = ⊥
Unless no_memory P runtime_error = ⊥
Unless (refused F) P runtime_error = Unit {0}
Unless no_memory P fault = ⊥
Unless (refused F) P fault = F
Unless f P exhausted = ⊥

pub Unless-no_memory :
    {A : Type 0} (P : A → Type 0) (r : Result A)
    → Unless no_memory P r
    → ((a : A) × (r ≡ done a) × P a) ⊎ (r ≡ bad_alloc)
Unless-no_memory P (done a) p = inl (a, refl, p)
Unless-no_memory P bad_alloc p = inr refl
Unless-no_memory P runtime_error p = absurd p
Unless-no_memory P fault p = absurd p
Unless-no_memory P exhausted p = absurd p

pub Unless-refused :
    {A : Type 0} (F : Type 0) (P : A → Type 0) (r : Result A)
    → Unless (refused F) P r
    → ((a : A) × (r ≡ done a) × P a) ⊎ (r ≡ runtime_error) ⊎ ((r ≡ fault) × F)
Unless-refused F P (done a) p = inl (a, refl, p)
Unless-refused F P bad_alloc p = absurd p
Unless-refused F P runtime_error p = inr (inl refl)
Unless-refused F P fault p = inr (inr (refl, p))
Unless-refused F P exhausted p = absurd p

pub Unless-bind :
    {A B : Type 0} (f : Failure) (P : A → Type 0) (Q : B → Type 0) (r : Result A) (g : A → Result B)
    → Unless f P r
    → ((a : A) → P a → Unless f Q (g a))
    → Unless f Q (r >>= g)
Unless-bind f P Q (done a) g p h = h a p
Unless-bind no_memory P Q bad_alloc g p h = tt
Unless-bind (refused F) P Q bad_alloc g p h = absurd p
Unless-bind no_memory P Q runtime_error g p h = absurd p
Unless-bind (refused F) P Q runtime_error g p h = tt
Unless-bind no_memory P Q fault g p h = absurd p
Unless-bind (refused F) P Q fault g p h = p
Unless-bind f P Q exhausted g p h = absurd p

pub Unless-weaken :
    {A : Type 0} (f : Failure) (P Q : A → Type 0) (r : Result A)
    → Unless f P r
    → ((a : A) → P a → Q a)
    → Unless f Q r
Unless-weaken f P Q (done a) p h = h a p
Unless-weaken no_memory P Q bad_alloc p h = tt
Unless-weaken (refused F) P Q bad_alloc p h = absurd p
Unless-weaken no_memory P Q runtime_error p h = absurd p
Unless-weaken (refused F) P Q runtime_error p h = tt
Unless-weaken no_memory P Q fault p h = absurd p
Unless-weaken (refused F) P Q fault p h = p
Unless-weaken f P Q exhausted p h = absurd p
